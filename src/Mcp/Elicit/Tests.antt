-- ===== src/Mcp/Elicit/Tests.antt =====
-- Two elicitations whose answers arrive in the other order.
use oracle_automate.Prelude.{
  ℕ, String, ◌≡◌, refl, true, false, Option, none, some, List, [], ◌∷◌, nat_Eq, arith,
}
use oracle_automate.Prelude.Map
use oracle_automate.Json.{Json, null, str}
use oracle_automate.Mcp.Jsonrpc.{number, Response}
use oracle_automate.Mcp.Elicit.{
  ElicitationParams, ElicitationHandle, declined, finished, new_handle, start_when, start_elicit,
  deliver_response,
}
use oracle_automate.Mcp.Elicit.Delivery.{Event, started, answered, run, start_elicit-answered}

abbrev to_value : ElicitationParams → Option Json
to_value p = some (str p.message)

abbrev answer : ℕ → String → Response
answer id s = record { jsonrpc = "2.0"; id = number id; result = some (str s); error = none }

abbrev others : List Event
others = started true "second?" null ∷ answered (answer 1000001 "no") ∷ []

abbrev after_first : ElicitationHandle
after_first = (start_elicit to_value true "first?" null (new_handle true)).1

disabled_declines :
    start_elicit to_value true "first?" null (new_handle false)
    ≡ (finished declined, new_handle false)
unfolding start_elicit start_when new_handle
disabled_declines = refl

start_elicit-answered_example :
    (let (claimed, h'') =
        deliver_response (answer 1000000 "yes") (run to_value others after_first) in
      (claimed ≡ true)
      × (Map.get 1000000 h''.delivered ≡ some (answer 1000000 "yes"))
      × (deliver_response (answer 1000000 "again") h'' ≡ (false, h'')))
unfolding new_handle start_elicit start_when
start_elicit-answered_example =
    start_elicit-answered to_value 1000000 true "first?" null (new_handle true) after_first refl
      others (tt, ((λ e. ground (arith, e)), tt)) (omega arith) (answer 1000000 "yes")
      (answer 1000000 "again") refl refl
