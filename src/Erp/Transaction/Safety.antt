-- ===== src/Erp/Transaction/Safety.antt =====
-- `execute_write_bapi` (crates/oracle-automate-erp/src/transaction.rs): what it calls, and when it
-- commits. The calls are listed newest first.
use oracle_automate.Prelude.{
  ◌||◌, ◌≡◌, ◌≢◌, ◌⊎◌, inl, inr, refl, sym, ap, ◌∙◌, Bool, true, false, List, [], ◌∷◌, ◌++◌, arith,
  eq_iff, str_eq, Bool-cases,
}
use oracle_automate.Json.{Json}
use oracle_automate.Erp.Error.{ErpError, ErpResult, ok, err}
use oracle_automate.Erp.Message.{ErpMessage, parse_erp_messages, has_failure}
use oracle_automate.Erp.Transaction.{
  ErpCallRequest, WriteOutcome, commit_fn, rollback_fn, commit_req, rollback_req, rollback_result,
  after_commit, after_messages, after_write, execute_write_bapi,
}
use oracle_automate.Erp.Transaction.Calls.{Answers, logged, has_failure-append}

-- Not one of the two calls that the orchestration makes itself.
abbrev pub IsBusiness : ErpCallRequest → Type 0
IsBusiness request = (request.function ≢ commit_fn) × (request.function ≢ rollback_fn)

module _ (answer : Answers) (request : ErpCallRequest) (w : List ErpCallRequest) where
  -- In read-only mode, and for a commit or rollback asked for directly, nothing is called and the
  -- result is an error.
  pub refused_calls_nothing :
      (read_only : Bool)
      → (read_only ≡ true) ⊎ (request.function ≡ commit_fn) ⊎ (request.function ≡ rollback_fn)
      → ((execute_write_bapi (logged answer) request read_only w).1 ≡ w)
        × ((e : ErpError) × ((execute_write_bapi (logged answer) request read_only w).0 ≡ err e))
  unfolding execute_write_bapi
  refused_calls_nothing true h = (refl, (_, refl))
  refused_calls_nothing false (inl h) = cc
  refused_calls_nothing false (inr h) =
      let both : (str_eq request.function commit_fn || str_eq request.function rollback_fn) ≡ true =
        ground (arith, eq_iff request.function commit_fn, eq_iff request.function rollback_fn) in
      (
        rw both,
        (
          ErpError.invalid_parameter "function"
              "commit/rollback are issued automatically; call the business REST operation instead",
          rw both,
        ),
      )

  execute-after_write :
      IsBusiness request
      → execute_write_bapi (logged answer) request false w
        ≡ after_write (logged answer) request (answer w request) (request ∷ w)
  unfolding execute_write_bapi
  execute-after_write b =
      ground (arith, eq_iff request.function commit_fn, eq_iff request.function rollback_fn)

  rolls :
      (v : Json) (messages : List ErpMessage)
      → (messages ≡ []) ⊎ (has_failure messages ≡ true)
      → (out : WriteOutcome) × (after_messages (logged answer) request v messages (request ∷ w)
          ≡ (ok out, rollback_req ∷ request ∷ w))
        × (out.committed ≡ false)
        × (out.rolled_back ≡ (rollback_result (answer (request ∷ w) rollback_req)).0)
  unfolding after_messages
  rolls v [] bad = (_, refl, refl, refl)
  rolls v (m ∷ ms) (inl e) = cc
  rolls v (m ∷ ms) (inr e) = rw e (_, refl, refl, refl)

  -- A write whose return stack is empty or reports a failure is not committed: the one call after it
  -- is the rollback, and the outcome says that it rolled back exactly when the rollback answered with
  -- no failure.
  pub failed_write_rolls_back :
      (v : Json)
      → IsBusiness request
      → answer w request ≡ ok v
      → (parse_erp_messages v ≡ []) ⊎ (has_failure (parse_erp_messages v) ≡ true)
      → (out : WriteOutcome) × (execute_write_bapi (logged answer) request false w
          ≡ (ok out, rollback_req ∷ request ∷ w))
        × (out.committed ≡ false)
        × (out.rolled_back ≡ (rollback_result (answer (request ∷ w) rollback_req)).0)
  unfolding after_write
  failed_write_rolls_back v b hv bad =
      rw (execute-after_write b, hv) (rolls v (parse_erp_messages v) bad)

  committed_at_last :
      (v : Json) (messages : List ErpMessage) (r : ErpResult Json) (calls w' : List ErpCallRequest)
      (out : WriteOutcome)
      → after_commit (logged answer) request v messages r calls ≡ (ok out, w')
      → out.committed ≡ true
      → (c : Json) × (r ≡ ok c)
        × (has_failure (parse_erp_messages c) ≡ false)
        × (w' ≡ calls)
        × (out.rolled_back ≡ false)
        × (out.messages ≡ messages ++ parse_erp_messages c)
  unfolding after_commit
  committed_at_last v messages (err e) calls w' out h done = cc
  committed_at_last v messages (ok c) calls w' out h done =
      let good : has_failure (messages ++ parse_erp_messages c) ≡ false = ground arith in
      (
        c,
        refl,
        ground (arith, has_failure-append messages (parse_erp_messages c)),
        ground arith,
        ground arith,
        ground arith,
      )

  committed_messages :
      (v : Json) (messages : List ErpMessage) (w' : List ErpCallRequest) (out : WriteOutcome)
      → after_messages (logged answer) request v messages (request ∷ w) ≡ (ok out, w')
      → out.committed ≡ true
      → (messages ≢ [])
        × (has_failure messages ≡ false)
        × (after_commit
              (logged answer)
              request
              v
              messages
              (answer (request ∷ w) commit_req)
              (commit_req ∷ request ∷ w)
            ≡ (ok out, w'))
  unfolding after_messages
  committed_messages v [] w' out h done = cc
  committed_messages v (m ∷ ms) w' out h done = (λ e. cc, ground arith, ground arith)

  committed_answers :
      (r : ErpResult Json) (w' : List ErpCallRequest) (out : WriteOutcome)
      → after_write (logged answer) request r (request ∷ w) ≡ (ok out, w')
      → out.committed ≡ true
      → (v c : Json) × (r ≡ ok v)
        × (parse_erp_messages v ≢ [])
        × (has_failure (parse_erp_messages v) ≡ false)
        × (answer (request ∷ w) commit_req ≡ ok c)
        × (has_failure (parse_erp_messages c) ≡ false)
        × (w' ≡ commit_req ∷ request ∷ w)
        × (out.rolled_back ≡ false)
        × (out.messages ≡ parse_erp_messages v ++ parse_erp_messages c)
  unfolding after_write
  committed_answers (err e) w' out h done = cc
  committed_answers (ok v) w' out h done =
      let (some_rows, good, next) = committed_messages v (parse_erp_messages v) w' out h done in
      let (c, asked, fine, calls, kept, all) =
        committed_at_last v (parse_erp_messages v) (answer (request ∷ w) commit_req)
          (commit_req ∷ request ∷ w) w' out next done in
      (v, c, refl, some_rows, good, asked, fine, calls, kept, all)

  -- A write that reports itself committed was called once, answered with a return stack that is not
  -- empty and reports no failure, and was then committed by one call, whose answer reports no failure
  -- either; nothing else was called, no rollback is reported, and the messages are those of the two
  -- answers.
  pub commit_is_confirmed :
      (out : WriteOutcome) (w' : List ErpCallRequest)
      → IsBusiness request
      → execute_write_bapi (logged answer) request false w ≡ (ok out, w')
      → out.committed ≡ true
      → (v c : Json) × (answer w request ≡ ok v)
        × (parse_erp_messages v ≢ [])
        × (has_failure (parse_erp_messages v) ≡ false)
        × (answer (request ∷ w) commit_req ≡ ok c)
        × (has_failure (parse_erp_messages c) ≡ false)
        × (w' ≡ commit_req ∷ request ∷ w)
        × (out.rolled_back ≡ false)
        × (out.messages ≡ parse_erp_messages v ++ parse_erp_messages c)
  commit_is_confirmed out w' b h done =
      committed_answers (answer w request) w' out (rw (execute-after_write b) at h) done

  -- The commit was asked for and its answer, with that of the write, reported a failure.
  abbrev pub IsRefused : Json → List ErpCallRequest → Type 0
  IsRefused v w' =
      (c : Json) × (answer (request ∷ w) commit_req ≡ ok c)
      × (has_failure (parse_erp_messages v) ≡ false)
      × (has_failure (parse_erp_messages c) ≡ true)
      × (w' ≡ rollback_req ∷ commit_req ∷ request ∷ w)

  uncommitted_at_last :
      (v c : Json) (w' : List ErpCallRequest) (out : WriteOutcome)
      → has_failure (parse_erp_messages v) ≡ false
      → after_commit
          (logged answer)
          request
          v
          (parse_erp_messages v)
          (ok c)
          (commit_req ∷ request ∷ w)
        ≡ (ok out, w')
      → out.committed ≡ false
      → (has_failure (parse_erp_messages c) ≡ true) × (w' ≡ rollback_req ∷ commit_req ∷ request ∷ w)
  unfolding after_commit
  uncommitted_at_last v c w' out good h undone =
      let split = has_failure-append (parse_erp_messages v) (parse_erp_messages c) in
      ground (arith, good, split)

  uncommitted_after :
      (v : Json) (r : ErpResult Json) (w' : List ErpCallRequest) (out : WriteOutcome)
      → has_failure (parse_erp_messages v) ≡ false
      → answer (request ∷ w) commit_req ≡ r
      → after_commit (logged answer) request v (parse_erp_messages v) r (commit_req ∷ request ∷ w)
        ≡ (ok out, w')
      → out.committed ≡ false
      → IsRefused v w'
  unfolding after_commit
  uncommitted_after v (err e) w' out good hc h undone = cc
  uncommitted_after v (ok c) w' out good hc h undone =
      let (bad, calls) = uncommitted_at_last v c w' out good h undone in (c, hc, good, bad, calls)

  uncommitted_messages :
      (v : Json) (messages : List ErpMessage) (w' : List ErpCallRequest) (out : WriteOutcome)
      → parse_erp_messages v ≡ messages
      → after_messages (logged answer) request v messages (request ∷ w) ≡ (ok out, w')
      → out.committed ≡ false
      → (((messages ≡ []) ⊎ (has_failure messages ≡ true)) × (w' ≡ rollback_req ∷ request ∷ w))
        ⊎ IsRefused v w'
  unfolding after_messages
  uncommitted_messages v [] w' out e h undone = inl (inl refl, sym (ap (λ x. x.1) h))
  uncommitted_messages v (m ∷ ms) w' out e h undone = elim (Bool-cases (has_failure (m ∷ ms))) [
    | inl bad ↦ inl (inr bad, ground arith)
    | inr good ↦
        let at_v : has_failure (parse_erp_messages v) ≡ false = ap has_failure e ∙ good in
        inr (
          uncommitted_after v (answer (request ∷ w) commit_req) w' out at_v refl
            (rw e (rw good at h)) undone)
  ]

  uncommitted_calls :
      (r : ErpResult Json) (w' : List ErpCallRequest) (out : WriteOutcome)
      → answer w request ≡ r
      → after_write (logged answer) request r (request ∷ w) ≡ (ok out, w')
      → out.committed ≡ false
      → (v : Json) × (answer w request ≡ ok v)
        × ((((parse_erp_messages v ≡ []) ⊎ (has_failure (parse_erp_messages v) ≡ true))
              × (w' ≡ rollback_req ∷ request ∷ w))
            ⊎ IsRefused v w')
  unfolding after_write
  uncommitted_calls (err e) w' out hv h undone = cc
  uncommitted_calls (ok v) w' out hv h undone =
      (v, hv, uncommitted_messages v (parse_erp_messages v) w' out refl h undone)

  -- A write that reports itself not committed was answered, and has asked for the rollback as its last
  -- call: right after the write, whose return stack is empty or reports a failure, or after a commit
  -- that was asked for since the write reports none, and whose own answer reports one.
  pub uncommitted_is_rolled_back :
      (out : WriteOutcome) (w' : List ErpCallRequest)
      → IsBusiness request
      → execute_write_bapi (logged answer) request false w ≡ (ok out, w')
      → out.committed ≡ false
      → (v : Json) × (answer w request ≡ ok v)
        × ((((parse_erp_messages v ≡ []) ⊎ (has_failure (parse_erp_messages v) ≡ true))
              × (w' ≡ rollback_req ∷ request ∷ w))
            ⊎ IsRefused v w')
  uncommitted_is_rolled_back out w' b h undone =
      uncommitted_calls (answer w request) w' out refl (rw (execute-after_write b) at h) undone
