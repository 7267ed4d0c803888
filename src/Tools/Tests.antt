-- ===== src/Tools/Tests.antt =====
-- The tools on concrete inputs.
use oracle_automate.Prelude.{
  ℕ, zero, ◌+◌, ◌≡◌, ◌≢◌, ◌↔◌, refl, String, true, false, Option, none, some, [], ◌∷◌,
}
use oracle_automate.Text.{codes}
use oracle_automate.Json.{Json, null, bool, str, arr, obj, nil, cons, end, field}
use oracle_automate.Erp.Error.{ok}
use oracle_automate.Erp.Message.{parse_erp_messages, has_failure}
use oracle_automate.Erp.Transaction.{ErpCallRequest, commit_req, execute_write_bapi}
use oracle_automate.Erp.Transaction.Calls.{Answers, logged}
use oracle_automate.Mcp.Elicit.{accept, decline, cancel}
use oracle_automate.Mcp.Methods.{Decoded, decoded}
use oracle_automate.Observability.Audit.{AuditEntry, AuditOutcome, redact, is_sensitive}
use oracle_automate.Tools.Answer.{bool_at, str_at, Stamp}
use oracle_automate.Tools.Order.{PoArgs, create_purchase_order}
use oracle_automate.Tools.Customer.{pick_question, pick_schema, maintain_customer_master}
use oracle_automate.Tools.Customer.Chained.{second_form, customer_change_is_confirmed}
use oracle_automate.Tools.RestCall.{Serde, rest_call}
use oracle_automate.Tools.RestCall.Audited.{IsOk, IsConfirmed, keeping, rest_call_is_audited}
use oracle_automate.Tools.Publish.{
  Elicit, on_accept, publish_question, publish_schema, publish_sandbox,
}
use oracle_automate.Tools.Publish.Confirmed.{IsMatched, publish_sandbox_is_confirmed}

abbrev same : String → String
same s = s

abbrev stamp : Stamp
stamp = record { event_id = "e1"; at_ms = 5; duration_ms = 2 }

abbrev post : ErpCallRequest
post = record commit_req { function = "fusion.gl.journals.post" }

abbrev accepting : Answers
accepting calls request = ok (
    obj (
      field "RETURN"
        (arr (cons (obj (field "TYPE" (str "S") (field "MESSAGE" (str "posted") end))) nil)) end))

abbrev serde : Serde
serde = record {
  read_request = λ v. decoded post;
  messages_value = λ ms. null;
  pretty = λ v. decoded "{}";
}

abbrev arguments : Json
arguments = obj (field "commit" (bool true) end)

write_is_logged :
    (rest_call (logged accepting) (keeping same none) serde false stamp arguments ([], [])).1
    ≡ commit_req ∷ post ∷ []
unfolding rest_call bool_at execute_write_bapi parse_erp_messages has_failure
write_is_logged = refl

rest_call_is_audited_example :
    let after =
      rest_call (logged accepting) (keeping same none) serde false stamp arguments ([], []) in
    (entry : AuditEntry) × (after.2 ≡ entry ∷ [])
    × (entry.arguments_redacted ≡ redact same arguments)
    × (IsOk entry.outcome → (false ≡ false) × IsConfirmed accepting post [] after.1)
    × (false ≡ true → after.1 ≡ [])
unfolding bool_at
rest_call_is_audited_example =
    rest_call_is_audited accepting same none serde false stamp arguments post [] [] refl refl

-- A user who types the name twice.
abbrev retyping : Elicit Unit
retyping question schema w = (
  record {
    action = accept;
    content =
        some (obj (field "confirmation_phrase" (str "GT_AR") (field "sandbox" (str "GT_AR") end)));
  },
  w,
)

abbrev read_none : Json → Decoded (Option String)
read_none v = decoded none

publish_sandbox_is_confirmed_example :
    let asked = retyping publish_question (publish_schema none) tt in
    let after = publish_sandbox retyping (keeping same none) read_none stamp arguments (tt, []) in
    (entry : AuditEntry) × (after.1 ≡ asked.1)
    × (after.2 ≡ entry ∷ [])
    × (entry.arguments_redacted ≡ redact same arguments)
    × (IsOk entry.outcome ↔ IsMatched asked.0)
    × (asked.0.action ≡ accept → asked.0.content ≡ none → IsOk entry.outcome)
publish_sandbox_is_confirmed_example =
    publish_sandbox_is_confirmed retyping same none read_none stamp arguments none tt [] refl

mistyped_is_denied :
    (on_accept
      (obj (field "confirmation_phrase" (str "gt_ar") (field "sandbox" (str "GT_AR") end)))).1
    ≡ AuditOutcome.denied "confirmation phrase mismatch"
unfolding on_accept str_at bool_at
mistyped_is_denied = refl

-- A user who picks a view and then aborts. The world is the number of forms.
abbrev aborting : Elicit ℕ
aborting question schema zero = (record { action = accept; content = none }, 1)
aborting question schema n = (record { action = cancel; content = none }, n + 1)

customer_change_is_confirmed_example :
    let pick = aborting pick_question (pick_schema none) 0 in
    let second = second_form aborting pick.0.content pick.1 in
    let after =
      maintain_customer_master aborting
        (λ v. decoded "{}")
        (keeping same none)
        read_none
        stamp
        arguments
        (0, []) in
    (entry : AuditEntry) × (after.2 ≡ entry ∷ [])
    × (entry.arguments_redacted ≡ redact same arguments)
    × (IsOk entry.outcome ↔ ((pick.0.action ≡ accept) × (second.0.action ≡ accept)))
    × (pick.0.action ≡ accept → after.1 ≡ second.1)
    × (pick.0.action ≢ accept → after.1 ≡ pick.1)
customer_change_is_confirmed_example =
    customer_change_is_confirmed aborting (λ v. decoded "{}") same none read_none stamp arguments
      none 0 [] refl

abbrev read_order : Json → Decoded PoArgs
read_order v = decoded (record { vendor = none; material = none; quantity = none })

abbrev refusing : Elicit Unit
refusing question schema w = (record { action = decline; content = none }, w)

declined_order_is_audited :
    (create_purchase_order refusing
      (λ v. decoded "{}")
      (keeping same none)
      read_order
      stamp
      arguments
      (tt, [])).2
    ≡ record {
      event_id = "e1";
      at_ms = 5;
      session_id = none;
      tenant = none;
      actor = none;
      tool = "oracle.workflow.create_purchase_order";
      erp_system = none;
      arguments_redacted = arguments;
      outcome = AuditOutcome.declined "user declined elicitation";
      duration_ms = 2;
    }
      ∷ []
unfolding create_purchase_order redact is_sensitive codes
declined_order_is_audited = refl
