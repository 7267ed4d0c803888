-- ===== src/Tools/RestCall/Audited.antt =====
-- apps/oracle-automate-server/src/tools.rs, `tool_rfc_call`: what the audit log says of a write and
-- what the ERP was asked for. The calls and the entries are listed newest first.
use oracle_automate.Prelude.{
  ◌≡◌, refl, sym, ap, ◌∙◌, String, Bool, Bool-cases, true, false, inl, inr, Option, List, ◌∷◌,
}
use oracle_automate.Json.{Json}
use oracle_automate.Erp.Error.{ErpError, ErpResult, ok, err}
use oracle_automate.Erp.Message.{parse_erp_messages, has_failure}
use oracle_automate.Erp.Transaction.{ErpCallRequest, commit_req, WriteOutcome, execute_write_bapi}
use oracle_automate.Erp.Transaction.Calls.{Answers, logged}
use oracle_automate.Erp.Transaction.Safety.{IsBusiness, refused_calls_nothing, commit_is_confirmed}
use oracle_automate.Mcp.Methods.{decoded}
use oracle_automate.Observability.Audit.{AuditOutcome, AuditEntry, redact, record_entry}
use oracle_automate.Tools.Answer.{bool_at, Stamp, Auditing, write_entry, record_write_audit}
use oracle_automate.Tools.RestCall.{Serde, audit_outcome, write_call, call_with, rest_call}

-- A sink that keeps its entries.
abbrev pub keeping : (String → String) → Option String → Auditing (List AuditEntry)
keeping to_lowercase erp_system = record {
  to_lowercase = to_lowercase;
  sink = λ e l. e ∷ l;
  erp_system = erp_system;
}

abbrev pub IsOk : AuditOutcome → Type 0
IsOk (AuditOutcome.ok s) = Unit
IsOk _ = ⊥

-- The write and the commit, and nothing else, were asked for, and both answers report no failure.
abbrev pub IsConfirmed :
    Answers → ErpCallRequest → List ErpCallRequest → List ErpCallRequest → Type 0
IsConfirmed answer request calls calls' =
    (v c : Json) × (answer calls request ≡ ok v)
    × (has_failure (parse_erp_messages v) ≡ false)
    × (answer (request ∷ calls) commit_req ≡ ok c)
    × (has_failure (parse_erp_messages c) ≡ false)
    × (calls' ≡ commit_req ∷ request ∷ calls)

refusal-IsOk : (e : ErpError) → IsOk (audit_outcome (err e)) → ⊥
unfolding audit_outcome
refusal-IsOk (ErpError.permission_denied r) h = h
refusal-IsOk e h = h

ok-committed :
    (r : ErpResult WriteOutcome)
    → IsOk (audit_outcome r)
    → (out : WriteOutcome) × (r ≡ ok out) × (out.committed ≡ true)
unfolding audit_outcome
ok-committed (ok out) h = elim (Bool-cases out.committed) [
  | inl done_ ↦ (out, refl, done_)
  | inr undone ↦ absurd (rw undone at h)
]
ok-committed (err e) h = absurd (refusal-IsOk e h)

module _ (answer : Answers) (request : ErpCallRequest) (calls : List ErpCallRequest) where
  done-IsBusiness :
      (out : WriteOutcome)
      → (execute_write_bapi (logged answer) request false calls).0 ≡ ok out
      → IsBusiness request
  done-IsBusiness out h = (
    λ e.
        let r = refused_calls_nothing answer request calls false (inr (inl e)) in
        let clash : ok out ≡ err r.1.0 = sym h ∙ r.1.1 in absurd cc,
    λ e.
        let r = refused_calls_nothing answer request calls false (inr (inr e)) in
        let clash : ok out ≡ err r.1.0 = sym h ∙ r.1.1 in absurd cc,
  )

  committed-IsConfirmed :
      (read_only : Bool) (out : WriteOutcome)
      → (execute_write_bapi (logged answer) request read_only calls).0 ≡ ok out
      → out.committed ≡ true
      → (read_only ≡ false)
        × IsConfirmed answer request calls
            (execute_write_bapi (logged answer) request read_only calls).1
  committed-IsConfirmed true out h done =
      let r = refused_calls_nothing answer request calls true (inl refl) in
      let clash : ok out ≡ err r.1.0 = sym h ∙ r.1.1 in absurd cc
  committed-IsConfirmed false out h done =
      let run = execute_write_bapi (logged answer) request false calls in
      let c =
        commit_is_confirmed answer request calls out run.1 (done-IsBusiness out h)
          (ap (λ o. (o, run.1)) h) done in
      (refl, (c.0, c.1, c.2, c.4, c.5, c.6, c.7))

  refused-unchanged :
      (read_only : Bool)
      → read_only ≡ true
      → (execute_write_bapi (logged answer) request read_only calls).1 ≡ calls
  refused-unchanged read_only h = (refused_calls_nothing answer request calls read_only (inl h)).0

-- A call with `commit` whose request can be read leaves exactly one entry in the audit log, with its
-- arguments redacted. If the entry says ok, then the server is not in read-only mode, the ERP was
-- asked for the write and for the commit and for nothing else, and neither answer reports a failure.
-- In read-only mode the ERP is asked for nothing.
pub rest_call_is_audited :
    (answer : Answers) (to_lowercase : String → String) (erp_system : Option String) (serde : Serde)
    (read_only : Bool) (stamp : Stamp) (arguments : Json) (request : ErpCallRequest)
    (calls : List ErpCallRequest) (log : List AuditEntry)
    → serde.read_request arguments ≡ decoded request
    → bool_at "commit" arguments ≡ true
    → let auditing = keeping to_lowercase erp_system in
      let after = rest_call (logged answer) auditing serde read_only stamp arguments (calls, log) in
      (entry : AuditEntry) × (after.2 ≡ entry ∷ log)
      × (entry.arguments_redacted ≡ redact to_lowercase arguments)
      × (IsOk entry.outcome → (read_only ≡ false) × IsConfirmed answer request calls after.1)
      × (read_only ≡ true → after.1 ≡ calls)
unfolding rest_call call_with write_call record_write_audit record_entry write_entry
rest_call_is_audited answer to_lowercase erp_system serde read_only stamp arguments request calls
      log reads commits =
    let r = execute_write_bapi (logged answer) request read_only calls in
    rw (reads, commits)
      (
        _,
        refl,
        refl,
        (λ h.
            let done_ = ok-committed r.0 h in
            committed-IsConfirmed answer request calls read_only done_.0 done_.1 done_.2),
        refused-unchanged answer request calls read_only,
      )
