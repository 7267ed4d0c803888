-- ===== src/Erp/Transaction/Calls.antt =====
-- The most general client that answers by what it has been asked: the world is the list of the calls,
-- newest first. And the failures in a list of messages.
use oracle_automate.Prelude.{◌≡◌, refl, ◌||◌, List, [], ◌∷◌, ◌++◌, arith}
use oracle_automate.Json.{Json}
use oracle_automate.Erp.Error.{ErpResult}
use oracle_automate.Erp.Message.{ErpMessage, has_failure}
use oracle_automate.Erp.Transaction.{ErpCallRequest, Client}

abbrev pub Answers : Type 0
Answers = List ErpCallRequest → ErpCallRequest → ErpResult Json

abbrev pub logged : Answers → Client (List ErpCallRequest)
logged answer request read_only w = (answer w request, request ∷ w)

pub has_failure-append :
    (xs ys : List ErpMessage) → has_failure (xs ++ ys) ≡ (has_failure xs || has_failure ys)
unfolding has_failure
has_failure-append [] ys = refl
has_failure-append (x ∷ xs) ys = ground (arith, has_failure-append xs ys)
