-- ===== src/Erp/Mock/Guards.antt =====
-- crates/oracle-automate-erp/src/client.rs, `MockErpClient::call_operation`: what an operation that
-- ran has passed.
use oracle_automate.Prelude.{
  ◌≡◌, refl, ◌∙◌, sym, Bool, Bool-cases, true, false, not, ◌&&◌, inl, inr, Option, none, some, List,
  [], ◌∷◌, All, String, string_Eq, if◌then◌else◌, ap, arith,
}
use oracle_automate.Prelude.Map.{get}
use oracle_automate.Json.{Json, Fields}
use oracle_automate.Erp.Error.{ErpError, ErpResult, ok, err}
use oracle_automate.Erp.Metadata.{ErpParameter, ErpOperationMeta}
use oracle_automate.Erp.Mock.{
  Catalogue, ErpCallRequest, operation_metadata, found_or, is_lacking, check_required, arguments_of,
  executed, if_checked, run_with, run_operation, call_operation,
}

check_required_ok :
    (args : Fields) (ps : List ErpParameter)
    → check_required args ps ≡ ok tt
    → All (λ p. is_lacking args p ≡ false) ps
unfolding check_required
check_required_ok args [] h = tt
check_required_ok args (p ∷ ps) h = elim (Bool-cases (is_lacking args p)) [
  | inl b ↦ absurd (ground (arith, b, h))
  | inr b ↦ (b, check_required_ok args ps (ground (arith, b, h)))
]

if_checked_ok :
    (r : ErpResult {0} Unit) (a b : Json) → if_checked r a ≡ ok b → (r ≡ ok tt) × (b ≡ a)
if_checked_ok (err e) a b h = absurd cc
if_checked_ok (ok u) a b h = (refl, cc)

-- An answer of a conditional that refuses in one case.
if_not_refused :
    (b : Bool) (e : ErpError) (r : ErpResult Json) (a : Json)
    → (if b then err e else r) ≡ ok a
    → (b ≡ false) × (r ≡ ok a)
if_not_refused true e r a h = absurd cc
if_not_refused false e r a h = (refl, h)

found_or_ok :
    (name : String) (o : Option ErpOperationMeta) (meta : ErpOperationMeta)
    → found_or name o ≡ ok meta
    → o ≡ some meta
found_or_ok name none meta h = absurd cc
found_or_ok name (some m) meta h = cc

module _ (to_string : Json → String) where
  -- What lets an operation run: it is in the catalogue, it only reads if the client is in read-only
  -- mode, the parameters are an object or missing, and none that is required is missing.
  unfoldable pub IsAdmitted : Catalogue → ErpCallRequest → Bool → ErpOperationMeta → Fields → Type 0
  IsAdmitted functions request read_only_mode meta args =
      (get request.function functions ≡ some meta)
      × (read_only_mode && not meta.read_only ≡ false)
      × (arguments_of to_string request.parameters ≡ ok args)
      × All (λ p. is_lacking args p ≡ false) meta.parameters

  run_with-admitted :
      (function : String) (meta : ErpOperationMeta) (r : ErpResult Fields) (answer : Json)
      → run_with function meta r ≡ ok answer
      → (args : Fields) × (r ≡ ok args)
        × All (λ p. is_lacking args p ≡ false) meta.parameters
        × (answer ≡ executed function args meta)
  unfolding run_with
  run_with-admitted function meta (err e) answer h = absurd cc
  run_with-admitted function meta (ok args) answer h =
      let r =
        if_checked_ok (check_required args meta.parameters) (executed function args meta) answer
          h in
      (args, refl, check_required_ok args meta.parameters r.0, r.1)

  run_operation-admitted :
      (mode : Bool) (request : ErpCallRequest) (meta : ErpOperationMeta) (answer : Json)
      → run_operation to_string mode request (ok meta) ≡ ok answer
      → (mode && not meta.read_only ≡ false)
        × (run_with request.function meta (arguments_of to_string request.parameters) ≡ ok answer)
  unfolding run_operation
  run_operation-admitted mode request meta answer h = if_not_refused _ _ _ answer h

  run_operation-found :
      (mode : Bool) (request : ErpCallRequest) (r : ErpResult ErpOperationMeta) (answer : Json)
      → run_operation to_string mode request r ≡ ok answer
      → (meta : ErpOperationMeta) × (r ≡ ok meta)
  unfolding run_operation
  run_operation-found mode request (err e) answer h = absurd cc
  run_operation-found mode request (ok meta) answer h = (meta, refl)

  -- An operation that answers has passed the guards, and its answer is that of its execution with
  -- the arguments of the request: it is in the catalogue, it only reads if the client is in
  -- read-only mode, its parameters are an object or missing, and no required import parameter is
  -- missing.
  pub call_operation-IsAdmitted :
      (functions : Catalogue) (request : ErpCallRequest) (mode : Bool) (answer : Json)
      → call_operation to_string functions request mode ≡ ok answer
      → (meta : ErpOperationMeta) × (args : Fields) × IsAdmitted functions request mode meta args
        × (answer ≡ executed request.function args meta)
  unfolding call_operation operation_metadata IsAdmitted
  call_operation-IsAdmitted functions request mode answer h =
      let f =
        run_operation-found mode request (operation_metadata functions request.function) answer h in
      let passed =
        run_operation-admitted mode request f.0 answer
          (ap (run_operation to_string mode request) (sym f.1) ∙ h) in
      let ran =
        run_with-admitted request.function f.0 (arguments_of to_string request.parameters) answer
          passed.1 in
      (f.0, ran.0, (found_or_ok request.function _ f.0 f.1, passed.0, ran.1, ran.2), ran.3)
