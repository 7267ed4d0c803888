-- ===== src/Observability/Audit/Tests.antt =====
-- Redaction as the tests of crates/oracle-automate-observability/src/audit.rs run it. The keys are
-- in lower case already.
use oracle_automate.Prelude.{String, ◌≡◌, refl, true, none, some, List, [], ◌∷◌, ◌++◌, inl, inr}
use oracle_automate.Text.{codes}
use oracle_automate.Json.{Json, str, obj, arr, nil, cons, end, field, is_some}
use oracle_automate.Observability.Audit.{
  AuditEntry, AuditOutcome, redact, is_sensitive, record_entry,
}
use oracle_automate.Observability.Audit.Words.{IsSecret}
use oracle_automate.Observability.Audit.Redaction.{
  Step, at_key, value_at, outlined, IsClear, record_entry-IsConcealed,
}

abbrev same : String → String
same s = s

abbrev arguments : Json
arguments = obj (
    field "items" (arr (cons (obj (field "client_secret" (str "s") end)) nil))
      (field "user" (str "ANNA") (field "user_pwd" (str "hunter2") end)))

nested_secrets_are_hidden :
    redact same arguments
    ≡ obj (
        field "items"
          (arr (cons (obj (field "client_secret" (str "***") end)) nil))
          (field "user" (str "ANNA") (field "user_pwd" (str "***") end)))
unfolding redact is_sensitive codes
nested_secrets_are_hidden = refl

abbrev entry : AuditEntry
entry = record {
  event_id = "e1";
  at_ms = 5;
  session_id = none;
  tenant = none;
  actor = none;
  tool = "oracle.rest.call";
  erp_system = none;
  arguments_redacted = arguments;
  outcome = AuditOutcome.ok "posted";
  duration_ms = 2;
}

-- A sink that keeps its entries.
abbrev keep : AuditEntry → List AuditEntry → List AuditEntry
keep e es = e ∷ es

record_entry-IsConcealed_example :
    (a : Json) × (record_entry same keep entry [] ≡ record entry { arguments_redacted = a } ∷ [])
    × ((p : List Step) (k : String)
        → IsClear same p
        → IsSecret same k
        → is_some (value_at (p ++ at_key k ∷ []) arguments) ≡ true
        → value_at (p ++ at_key k ∷ []) a ≡ some (str "***"))
    × ((p : List Step) → IsClear same p → outlined (value_at p a) ≡ outlined (value_at p arguments))
record_entry-IsConcealed_example = record_entry-IsConcealed same keep entry []

user_pwd-IsSecret : IsSecret same "user_pwd"
unfolding IsSecret codes
user_pwd-IsSecret = inr (inr (inr (inr (inr (inr (inl (codes "user", [], refl)))))))
