-- ===== src/Tools/Publish/Confirmed.antt =====
-- apps/oracle-automate-server/src/tools.rs, `workflow_release_transport`: when a publish counts as
-- confirmed. The entries of the audit log are listed newest first.
use oracle_automate.Prelude.{
  ◌≡◌, ◌↔◌, refl, sym, ap, none, ◌∙◌, String, Bool-cases, true, false, inl, inr, Option, List, ◌∷◌,
  eq_iff, str_eq,
}
use oracle_automate.Json.{Json, get_key}
use oracle_automate.Mcp.Elicit.{ElicitationAction, accept, decline, cancel, ElicitationResult}
use oracle_automate.Mcp.Methods.{Decoded, decoded}
use oracle_automate.Observability.Audit.{AuditEntry, redact, record_entry}
use oracle_automate.Tools.Answer.{str_at, Stamp, write_entry, record_write_audit}
use oracle_automate.Tools.Publish.{
  on_accept, on_action, or_null, Elicit, publish_question, publish_schema, publish_with,
  publish_sandbox,
}
use oracle_automate.Tools.RestCall.Audited.{IsOk, keeping}

-- The user accepted the form and its two names are the same, a name counting as empty when it is
-- missing or no text.
abbrev pub IsMatched : ElicitationResult → Type 0
IsMatched asked =
    (asked.action ≡ accept)
    × (str_at "sandbox" "" (or_null asked.content)
        ≡ str_at "confirmation_phrase" "" (or_null asked.content))

on_accept-IsOk :
    (v : Json) → IsOk (on_accept v).1 ↔ (str_at "sandbox" "" v ≡ str_at "confirmation_phrase" "" v)
unfolding on_accept
on_accept-IsOk v =
    let sb = str_at "sandbox" "" v in
    let phrase = str_at "confirmation_phrase" "" v in
    elim (Bool-cases (str_eq sb phrase)) [
      | inl same ↦ (λ h. (eq_iff sb phrase).0 same, λ e. rw same tt)
      | inr other ↦ (
        λ h. absurd (rw other at h),
        λ e. let clash : true ≡ false = sym ((eq_iff sb phrase).1 e) ∙ other in absurd cc,
      )
    ]

on_action-IsOk :
    (action : ElicitationAction) (content : Option Json)
    → IsOk (on_action action content).1 ↔ IsMatched (record { action = action; content = content })
unfolding on_action
on_action-IsOk accept content =
    let i = on_accept-IsOk (or_null content) in (λ h. (refl, i.0 h), λ r. i.1 r.1)
on_action-IsOk decline content = (λ h. absurd h, λ r. absurd cc)
on_action-IsOk cancel content = (λ h. absurd h, λ r. absurd cc)

-- A call whose arguments can be read asks once and leaves exactly one entry in the audit log, with
-- its arguments redacted. The entry says ok exactly when the user accepted the form and the two names
-- in it are the same, a name counting as empty when it is missing or no text: a form that is accepted
-- with no content at all is recorded as ok.
pub publish_sandbox_is_confirmed :
    {W : Type 0} (elicit : Elicit W) (to_lowercase : String → String) (erp_system : Option String)
    (read_sandbox : Json → Decoded (Option String)) (stamp : Stamp) (arguments : Json)
    (hint : Option String) (w : W) (log : List AuditEntry)
    → read_sandbox arguments ≡ decoded hint
    → let asked = elicit publish_question (publish_schema hint) w in
      let after =
        publish_sandbox elicit
          (keeping to_lowercase erp_system)
          read_sandbox
          stamp
          arguments
          (w, log) in
      (entry : AuditEntry) × (after.1 ≡ asked.1)
      × (after.2 ≡ entry ∷ log)
      × (entry.arguments_redacted ≡ redact to_lowercase arguments)
      × (IsOk entry.outcome ↔ IsMatched asked.0)
      × (asked.0.action ≡ accept → asked.0.content ≡ none → IsOk entry.outcome)
unfolding str_at get_key publish_sandbox publish_with record_write_audit record_entry write_entry
publish_sandbox_is_confirmed elicit to_lowercase erp_system read_sandbox stamp arguments hint w log
      reads =
    let asked = (elicit publish_question (publish_schema hint) w).0 in
    let matched = on_action-IsOk asked.action asked.content in
    rw reads (
      _,
      refl,
      refl,
      refl,
      matched,
      (λ accepted empty. matched.1 (
        accepted,
        ap (λ c. str_at "sandbox" "" (or_null c)) empty
            ∙ sym (ap (λ c. str_at "confirmation_phrase" "" (or_null c)) empty),
      )),
    )
