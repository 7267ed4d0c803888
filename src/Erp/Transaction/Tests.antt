-- ===== src/Erp/Transaction/Tests.antt =====
-- Runs of `execute_write_bapi`, and the theorems at concrete inputs.
use oracle_automate.Prelude.{
  ◌≡◌, ◌≢◌, ◌⊎◌, inr, refl, true, false, String, List, [], ◌∷◌, ◌++◌, arith, eq_iff, str_eq,
  if◌then◌else◌,
}
use oracle_automate.Json.{Json, null, str, arr, obj, nil, cons, end, field}
use oracle_automate.Erp.Error.{ErpError, ok, err}
use oracle_automate.Erp.Message.{parse_erp_messages, has_failure}
use oracle_automate.Erp.Transaction.{
  ErpCallRequest, WriteOutcome, commit_fn, rollback_fn, commit_req, rollback_req, rollback_result,
  execute_write_bapi,
}
use oracle_automate.Erp.Transaction.Calls.{Answers, logged}
use oracle_automate.Erp.Transaction.Safety.{
  IsBusiness, failed_write_rolls_back, commit_is_confirmed, uncommitted_is_rolled_back, IsRefused,
}

abbrev stack : String → Json
stack severity = obj (
    field "RETURN"
      (arr (cons (obj (field "TYPE" (str severity) (field "MESSAGE" (str "posted") end))) nil)) end)

abbrev post : ErpCallRequest
post = record commit_req { function = "fusion.gl.journals.post" }

post-IsBusiness : IsBusiness post
post-IsBusiness = (
  λ e. ground (arith, eq_iff post.function commit_fn),
  λ e. ground (arith, eq_iff post.function rollback_fn),
)

-- A backend that posts and commits, and one whose write fails and whose rollback says nothing.
abbrev accepting : Answers
accepting calls request = ok (stack "S")

abbrev failing : Answers
failing calls request = if str_eq request.function rollback_fn then ok null else ok (stack "E")

-- A backend that is gone when the commit is asked for.
abbrev vanishing : Answers
vanishing calls request =
    if str_eq request.function commit_fn then err (ErpError.timeout 30000) else ok (stack "S")

abbrev posted : WriteOutcome
posted = record {
  function = "fusion.gl.journals.post";
  committed = true;
  rolled_back = false;
  messages = parse_erp_messages (stack "S") ++ parse_erp_messages (stack "S");
  result = stack "S";
}

posts : execute_write_bapi (logged accepting) post false [] ≡ (ok posted, commit_req ∷ post ∷ [])
unfolding execute_write_bapi parse_erp_messages has_failure
posts = refl

bad_stack : has_failure (parse_erp_messages (stack "E")) ≡ true
unfolding parse_erp_messages has_failure
bad_stack = refl

good_stack : has_failure (parse_erp_messages (stack "S")) ≡ false
unfolding parse_erp_messages has_failure
good_stack = refl

good_stack_rows : parse_erp_messages (stack "S") ≢ []
unfolding parse_erp_messages
good_stack_rows e = cc

failed_write_rolls_back_example :
    (out : WriteOutcome) × (execute_write_bapi (logged failing) post false []
      ≡ (ok out, rollback_req ∷ post ∷ []))
    × (out.committed ≡ false)
    × (out.rolled_back ≡ (rollback_result (ok null)).0)
failed_write_rolls_back_example =
    failed_write_rolls_back failing post [] (stack "E") post-IsBusiness refl (inr bad_stack)

commit_is_confirmed_example :
    (v c : Json) × (accepting [] post ≡ ok v)
    × (parse_erp_messages v ≢ [])
    × (has_failure (parse_erp_messages v) ≡ false)
    × (accepting (post ∷ []) commit_req ≡ ok c)
    × (has_failure (parse_erp_messages c) ≡ false)
    × (◌≡◌ {A = List ErpCallRequest} (commit_req ∷ post ∷ []) (commit_req ∷ post ∷ []))
    × (posted.rolled_back ≡ false)
    × (posted.messages ≡ parse_erp_messages v ++ parse_erp_messages c)
commit_is_confirmed_example =
    commit_is_confirmed accepting post [] posted (commit_req ∷ post ∷ []) post-IsBusiness posts refl

abbrev unposted : WriteOutcome
unposted = record posted {
  committed = false;
  rolled_back = true;
  messages = parse_erp_messages (stack "E");
  result = stack "E";
}

fails : execute_write_bapi (logged failing) post false [] ≡ (ok unposted, rollback_req ∷ post ∷ [])
unfolding execute_write_bapi parse_erp_messages has_failure
fails = refl

uncommitted_is_rolled_back_example :
    (v : Json) × (failing [] post ≡ ok v)
    × ((((parse_erp_messages v ≡ []) ⊎ (has_failure (parse_erp_messages v) ≡ true))
          × (◌≡◌ {A = List ErpCallRequest} (rollback_req ∷ post ∷ []) (rollback_req ∷ post ∷ [])))
        ⊎ IsRefused failing post [] v (rollback_req ∷ post ∷ []))
uncommitted_is_rolled_back_example =
    uncommitted_is_rolled_back failing post [] unposted (rollback_req ∷ post ∷ []) post-IsBusiness
      fails refl

-- The error of a commit is returned, and no rollback is asked for.
commit_error_is_returned :
    execute_write_bapi (logged vanishing) post false []
    ≡ (err (ErpError.timeout 30000), commit_req ∷ post ∷ [])
unfolding execute_write_bapi parse_erp_messages has_failure
commit_error_is_returned = refl

-- The rollback of `fails` answers with no return stack, and is reported as done.
silence_is_success : unposted.rolled_back ≡ true
silence_is_success = refl
