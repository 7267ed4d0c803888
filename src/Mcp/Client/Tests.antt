-- ===== src/Mcp/Client/Tests.antt =====
-- The client on concrete steps.
use oracle_automate.Prelude.{String, ◌≡◌, refl, Option, none, some, List, [], ◌∷◌, nat_Eq}
use oracle_automate.Prelude.Map.{get, insert, remove}
use oracle_automate.Json.{Json, null}
use oracle_automate.Mcp.Error.{Error, McpResult, ok}
use oracle_automate.Mcp.Jsonrpc.{number, Response, response, success}
use oracle_automate.Mcp.Elicit.{ElicitationParams, ElicitationResult, declined}
use oracle_automate.Mcp.Client.{
  sender, Client, new_client, post, take_id, register, send_request, start_call, waiting, arrived,
  end_of_input, drop_all, close_reader, read, reader_step, Event, numbered, registered, requested,
  received, step, run,
}
use oracle_automate.Mcp.Client.Settling.{after_registration, end_of_input-settles}
use oracle_automate.Mcp.Client.Ended.{start_call-never_settled}

abbrev from_value : Json → Option ElicitationParams
from_value value = none

abbrev to_value : ElicitationResult → McpResult Json
to_value result = ok null

abbrev error_text : Error → String
error_text e = ""

abbrev declines : ElicitationParams → ElicitationResult
declines params = declined

-- Two calls that interleave, of which the first is answered.
abbrev two_calls : List Event
two_calls =
    numbered
    ∷ registered 1
    ∷ numbered
    ∷ requested 1 "ping" none
    ∷ requested 2 "tools/list" none
    ∷ received (arrived (response (success (number 1) null)))
    ∷ []

end_of_input-settles_example :
    let ended =
      reader_step end_of_input
        (after_registration from_value to_value error_text declines (numbered ∷ []) 2 two_calls) in
    (o : Option Response) × (get 2 ended.settled ≡ some o) × (ended.pending ≡ [])
unfolding run step take_id send_request register post reader_step read get insert remove success
    after_registration
end_of_input-settles_example =
    end_of_input-settles from_value to_value error_text declines (numbered ∷ []) two_calls 2 refl

-- A sender that is registered once the reader has ended stays pending.
late_registration_waits :
    (run from_value to_value error_text declines
      (numbered ∷ received end_of_input ∷ registered 1 ∷ requested 1 "ping" none ∷ [])
      new_client).pending
    ≡ (1, sender) ∷ []
unfolding run step take_id send_request register post reader_step read close_reader drop_all insert
late_registration_waits = refl

abbrev ended : Client
ended = reader_step end_of_input new_client

start_call-never_settled_example :
    ((start_call "ping" none ended).0 ≡ waiting 1)
    × (get 1
          (run from_value to_value error_text declines two_calls
            (start_call "ping" none ended).1).settled
        ≡ none)
unfolding reader_step read close_reader drop_all get
start_call-never_settled_example =
    start_call-never_settled from_value to_value error_text declines "ping" none two_calls ended
      refl refl refl
