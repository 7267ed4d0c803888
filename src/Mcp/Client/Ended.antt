-- ===== src/Mcp/Client/Ended.antt =====
-- crates/mcp-client/src/lib.rs: calls that are made after the reader task has ended.
use mathlib.Core.Path.{subst}
use oracle_automate.Prelude.{
  ℕ, String, ◌≡◌, refl, sym, ap, ◌∙◌, inl, inr, Bool, Bool-cases, true, false, Option, none, List,
  [], ◌∷◌, nat_Eq, if◌then◌else◌,
}
use oracle_automate.Prelude.Map.{get}
use oracle_automate.Json.{Json}
use oracle_automate.Mcp.Error.{Error, McpResult}
use oracle_automate.Mcp.Jsonrpc.{number, Message, request, new_request}
use oracle_automate.Mcp.Elicit.{ElicitationParams, ElicitationResult}
use oracle_automate.Mcp.Client.{
  Client, post, take_id, register, send_request, start_call, waiting, Incoming, reader_step, read,
  write_first, writer_step, Event, numbered, registered, requested, received, wrote, handled,
  handle_server_request, step, run,
}
use oracle_automate.Mcp.Client.Settling.{Settled, if_either, sent_state}

-- The reader is over, with these channels ended.
abbrev IsOver : Settled → Client → Type 0
IsOver settled c = (c.reading ≡ false) × (c.settled ≡ settled)

post-IsOver :
    (settled : Settled) (m : Message) (c : Client) → IsOver settled c → IsOver settled (post m c).1
unfolding post
post-IsOver settled m c o = elim (Bool-cases c.writing) [
  | inl runs ↦ rw runs o
  | inr over ↦ rw over o
]

send_request-IsOver :
    (settled : Settled) (id : ℕ) (method : String) (params : Option Json) (c : Client)
    → IsOver settled c
    → IsOver settled (send_request id method params c).1
unfolding send_request
send_request-IsOver settled id method params c o =
    subst (IsOver settled) (sym (sent_state id _))
      (post-IsOver settled (request (new_request (number id) method params)) c o)

if_false : (b : Bool) (x y : Client) → b ≡ false → (if b then x else y) ≡ y
if_false true x y h = absurd cc
if_false false x y h = refl

reader_step-IsOver :
    (settled : Settled) (i : Incoming) (c : Client)
    → IsOver settled c
    → IsOver settled (reader_step i c)
unfolding reader_step
reader_step-IsOver settled i c o =
    subst (IsOver settled) (sym (if_false c.reading (read i c) c o.0)) o

write_first-IsOver :
    (settled : Settled) (succeeds : Bool) (ms : List Message) (c : Client)
    → IsOver settled c
    → IsOver settled (write_first succeeds ms c)
unfolding write_first
write_first-IsOver settled succeeds [] c o = o
write_first-IsOver settled true (m ∷ ms) c o = o
write_first-IsOver settled false (m ∷ ms) c o = o

writer_step-IsOver :
    (settled : Settled) (succeeds : Bool) (c : Client)
    → IsOver settled c
    → IsOver settled (writer_step succeeds c)
unfolding writer_step
writer_step-IsOver settled succeeds c o =
    if_either (IsOver settled) c.writing (write_first succeeds c.outbox c) c
      (write_first-IsOver settled succeeds c.outbox c o) o

start_call-waiting :
    (method : String) (params : Option Json) (c : Client)
    → c.writing ≡ true
    → (start_call method params c).0 ≡ waiting c.next_id
unfolding start_call send_request post register take_id
start_call-waiting method params c w = rw w refl

module _ (from_value : Json → Option ElicitationParams)
    (to_value : ElicitationResult → McpResult Json) (error_text : Error → String)
    (on_elicit : ElicitationParams → ElicitationResult) where
  step-IsOver :
      (settled : Settled) (e : Event) (c : Client)
      → IsOver settled c
      → IsOver settled (step from_value to_value error_text on_elicit e c)
  unfolding step take_id register handle_server_request
  step-IsOver settled numbered c o = o
  step-IsOver settled (registered id) c o = o
  step-IsOver settled (requested id method params) c o =
      send_request-IsOver settled id method params c o
  step-IsOver settled (received i) c o = reader_step-IsOver settled i c o
  step-IsOver settled (wrote succeeds) c o = writer_step-IsOver settled succeeds c o
  step-IsOver settled (handled req) c o = post-IsOver settled _ c o

  run-IsOver :
      (settled : Settled) (es : List Event) (c : Client)
      → IsOver settled c
      → IsOver settled (run from_value to_value error_text on_elicit es c)
  unfolding run
  run-IsOver settled [] c o = o
  run-IsOver settled (e ∷ es) c o =
      run-IsOver settled es (step from_value to_value error_text on_elicit e c)
        (step-IsOver settled e c o)

  -- A call that is made once the reader has ended, while the writer still runs, waits, and nothing
  -- that happens afterwards ends its wait.
  pub start_call-never_settled :
      (method : String) (params : Option Json) (es : List Event) (c : Client)
      → c.reading ≡ false
      → c.writing ≡ true
      → get c.next_id c.settled ≡ none
      → ((start_call method params c).0 ≡ waiting c.next_id)
        × (get c.next_id
              (run from_value to_value error_text on_elicit es
                (start_call method params c).1).settled
            ≡ none)
  unfolding start_call take_id register
  start_call-never_settled method params es c over writes fresh =
      let o = run-IsOver c.settled es (start_call method params c).1 (
        send_request-IsOver c.settled c.next_id method params (register c.next_id (take_id c))
          (over, refl)) in
      (start_call-waiting method params c writes, ap (get c.next_id) o.1 ∙ fresh)
