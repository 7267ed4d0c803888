-- ===== src/Tools/Customer/Chained.antt =====
-- apps/oracle-automate-server/src/tools.rs, `workflow_maintain_customer_master`: what the chain of
-- forms asks and when the change counts as confirmed. The entries are listed newest first.
use oracle_automate.Prelude.{◌≡◌, ◌≢◌, ◌↔◌, refl, String, Option, List, [], ◌∷◌}
use oracle_automate.Json.{Json}
use oracle_automate.Mcp.Elicit.{ElicitationAction, accept, decline, cancel, ElicitationResult}
use oracle_automate.Mcp.Methods.{Decoded, decoded}
use oracle_automate.Observability.Audit.{AuditEntry, redact, record_entry}
use oracle_automate.Tools.Answer.{str_at, Pretty, Stamp, write_entry, record_write_audit}
use oracle_automate.Tools.Publish.{object_schema, or_null, Elicit}
use oracle_automate.Tools.Customer.{
  pick_question, pick_schema, fields_question, fields_schema, on_fields, ask_fields, after_pick,
  maintain_with, maintain_customer_master,
}
use oracle_automate.Tools.RestCall.Audited.{IsOk, keeping}

module _ {W : Type 0} (elicit : Elicit W) where
  -- The second form as it is asked after what was picked.
  abbrev pub second_form : Option Json → W → ElicitationResult × W
  unfolding str_at
  second_form content w =
      let customer = str_at "customer" "" (or_null content) in
      let scope = str_at "scope" "general_data" (or_null content) in
      elicit (fields_question customer scope) (object_schema (fields_schema scope) []) w

on_fields-IsOk :
    (pretty : Pretty) (customer scope : String) (action : ElicitationAction) (content : Option Json)
    → IsOk (on_fields pretty customer scope action content).1 ↔ (action ≡ accept)
on_fields-IsOk pretty customer scope accept content = (λ h. refl, λ e. tt)
on_fields-IsOk pretty customer scope decline content = (λ h. absurd h, λ e. absurd cc)
on_fields-IsOk pretty customer scope cancel content = (λ h. absurd h, λ e. absurd cc)

after_pick-IsOk :
    {W : Type 0} (elicit : Elicit W) (pretty : Pretty) (action : ElicitationAction)
    (content : Option Json) (w : W)
    → (IsOk (after_pick elicit pretty action content w).1
        ↔ ((action ≡ accept) × ((second_form elicit content w).0.action ≡ accept)))
      × (action ≡ accept
          → (after_pick elicit pretty action content w).2 ≡ (second_form elicit content w).1)
      × (action ≢ accept → (after_pick elicit pretty action content w).2 ≡ w)
unfolding after_pick ask_fields second_form
after_pick-IsOk elicit pretty accept content w =
    let asked = (second_form elicit content w).0 in
    let i =
      on_fields-IsOk pretty (str_at "customer" "" (or_null content))
        (str_at "scope" "general_data" (or_null content)) asked.action asked.content in
    ((λ h. (refl, i.0 h), λ r. i.1 r.1), (λ e. refl), (λ n. absurd (n refl)))
after_pick-IsOk elicit pretty decline content w =
    ((λ h. absurd h, λ r. absurd cc), (λ e. absurd cc), (λ n. refl))
after_pick-IsOk elicit pretty cancel content w =
    ((λ h. absurd h, λ r. absurd cc), (λ e. absurd cc), (λ n. refl))

-- A call whose arguments can be read leaves exactly one entry in the audit log, with its arguments
-- redacted, which says ok exactly when both forms were accepted. The second form, with the fields of
-- what was picked, is asked if the first was accepted, and nothing more is asked if it was not.
pub customer_change_is_confirmed :
    {W : Type 0} (elicit : Elicit W) (pretty : Pretty) (to_lowercase : String → String)
    (erp_system : Option String) (read_customer : Json → Decoded (Option String)) (stamp : Stamp)
    (arguments : Json) (hint : Option String) (w : W) (log : List AuditEntry)
    → read_customer arguments ≡ decoded hint
    → let pick = elicit pick_question (pick_schema hint) w in
      let second = second_form elicit pick.0.content pick.1 in
      let after =
        maintain_customer_master elicit pretty
          (keeping to_lowercase erp_system)
          read_customer
          stamp
          arguments
          (w, log) in
      (entry : AuditEntry) × (after.2 ≡ entry ∷ log)
      × (entry.arguments_redacted ≡ redact to_lowercase arguments)
      × (IsOk entry.outcome ↔ ((pick.0.action ≡ accept) × (second.0.action ≡ accept)))
      × (pick.0.action ≡ accept → after.1 ≡ second.1)
      × (pick.0.action ≢ accept → after.1 ≡ pick.1)
unfolding maintain_customer_master maintain_with record_write_audit record_entry write_entry
customer_change_is_confirmed elicit pretty to_lowercase erp_system read_customer stamp arguments
      hint w log reads =
    let pick = elicit pick_question (pick_schema hint) w in
    let r = after_pick-IsOk elicit pretty pick.0.action pick.0.content pick.1 in
    rw reads (_, refl, refl, r.0, r.1, r.2)
