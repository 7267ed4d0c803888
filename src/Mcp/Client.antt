-- ===== src/Mcp/Client.antt =====
-- crates/mcp-client/src/lib.rs: the client with a reader task and a writer task
-- (`spawn_with_halves`). A call is a step for each point where another task can come in between: it
-- takes an id, registers its sender, sends its request, and ends after its wait. `settled` holds what the
-- oneshot channel of an id ends with, `none` when its sender was dropped. Ids are bit patterns of an
-- i64: one comes again after 2^64 calls, and the sender that it would overwrite is not modelled. The
-- outbox holds 64 messages and then delays its senders.
pub mod Settling
pub mod Ended
mod Tests
use oracle_automate.Prelude.{
  ℕ, ◌+◌, ◌%◌, ◌^◌, String, Bool, true, false, Option, none, some, List, [], ◌∷◌, ◌++◌, nat_Eq,
  str_eq, if◌then◌else◌,
}
use oracle_automate.Prelude.Map.{Map, get, insert, remove}
use oracle_automate.Text.{◌<>◌}
use oracle_automate.Json.{Json}
use oracle_automate.Mcp.Error.{
  ErrorCode, Error, protocol_error, protocol, transport_closed, McpResult, ok, err, as_i32,
}
use oracle_automate.Mcp.Jsonrpc.{
  MessageId, number, string, null, Request, Response, Message, request, response, notification,
  ErrorObject, new_request, success, failure, new_error,
}
use oracle_automate.Mcp.Elicit.{ElicitationParams, ElicitationResult}

pub data Sender : Type 0 where
  sender : Sender

-- `reading` and `writing` say that the tasks run; `written` is what the writer has sent.
pub record Client : Type 0 where
  pub next_id : ℕ
  pub pending : Map ℕ Sender
  pub settled : Map ℕ (Option Response)
  pub outbox : List Message
  pub written : List Message
  pub reading : Bool
  pub writing : Bool

abbrev pub new_client : Client
new_client = record {
  next_id = 1;
  pending = [];
  settled = [];
  outbox = [];
  written = [];
  reading = true;
  writing = true;
}

-- `outbox.send`: it fails once the writer has dropped its end.
unfoldable pub post : Message → Client → Bool × Client
post m c = if c.writing then (true, record c { outbox = c.outbox ++ m ∷ [] }) else (false, c)

-- `fetch_add(1)`; the id is the count before it.
unfoldable pub take_id : Client → Client
take_id c = record c { next_id = (c.next_id + 1) % 2 ^ 64 }

-- The registration of the sender, under the lock.
unfoldable pub register : ℕ → Client → Client
unfolding insert
register id c = record c { pending = insert id sender c.pending }

-- What a call up to its wait ends with.
pub data Started : Type 0 where
  refused : Started
  waiting : ℕ → Started

abbrev sent : ℕ → Bool × Client → Started × Client
sent id (true, c) = (waiting id, c)
sent id (false, c) = (refused, c)

-- `outbox.send` of the request; an outbox that is closed leaves the sender registered.
unfoldable pub send_request : ℕ → String → Option Json → Client → Started × Client
unfolding post
send_request id method params c = sent id (post (request (new_request (number id) method params)) c)

-- `call` up to its wait, with no step of another task in between.
unfoldable pub start_call : String → Option Json → Client → Started × Client
unfolding take_id register send_request
start_call method params c = send_request c.next_id method params (register c.next_id (take_id c))

abbrev result_or : Option Json → McpResult Json
result_or none = err (protocol ErrorCode.invalid_request "response missing result")
result_or (some value) = ok value

abbrev answer_of : Option ErrorObject → Option Json → McpResult Json
answer_of (some e) result = err (protocol_error e.code e.message)
answer_of none result = result_or result

module _ {A : Type 0} (from_value : Json → McpResult A) where
  decoded : McpResult Json → McpResult A
  decoded (err e) = err e
  decoded (ok value) = from_value value

  -- `call` from the end of its wait.
  unfoldable pub finish_call : Option Response → McpResult A
  unfolding decoded
  finish_call none = err transport_closed
  finish_call (some resp) = decoded (answer_of resp.error resp.result)

-- What `reader.recv` returns.
pub data Incoming : Type 0 where
  arrived : Message → Incoming
  end_of_input : Incoming
  failed : Error → Incoming

abbrev settle : ℕ → Response → Option Sender → Client → Client
settle n resp none c = c
settle n resp (some s) c = record c {
  pending = remove n c.pending;
  settled = insert n (some resp) c.settled;
}

abbrev on_response : MessageId → Response → Client → Client
on_response (number n) resp c = settle n resp (get n c.pending) c
on_response (string s) resp c = c
on_response null resp c = c

-- `p.clear()` drops the senders.
unfoldable pub drop_all : Map ℕ Sender → Map ℕ (Option Response) → Map ℕ (Option Response)
unfolding insert
drop_all [] settled = settled
drop_all ((id, s) ∷ pending) settled = insert id none (drop_all pending settled)

unfoldable pub close_reader : Client → Client
unfolding drop_all
close_reader c = record c { reading = false; settled = drop_all c.pending c.settled; pending = [] }

-- A request of the server is handled by a task of its own, as a later step.
abbrev on_message : Message → Client → Client
unfolding get insert remove
on_message (response resp) c = on_response resp.id resp c
on_message (notification n) c = c
on_message (request r) c = c

unfoldable pub read : Incoming → Client → Client
unfolding on_message close_reader
read (arrived m) c = on_message m c
read end_of_input c = close_reader c
read (failed e) c = close_reader c

-- A turn of the reader task, which is over once its input has ended.
unfoldable pub reader_step : Incoming → Client → Client
unfolding read
reader_step i c = if c.reading then read i c else c

unfoldable pub write_first : Bool → List Message → Client → Client
write_first succeeds [] c = c
write_first true (m ∷ ms) c = record c { outbox = ms; written = c.written ++ m ∷ [] }
write_first false (m ∷ ms) c = record c { outbox = []; writing = false }

-- A turn of the writer task; it ends at the first message that it cannot send.
unfoldable pub writer_step : Bool → Client → Client
unfolding write_first
writer_step succeeds c = if c.writing then write_first succeeds c.outbox c else c

-- The steps of the callers, the tasks and the handlers, in the order in which they happen.
pub data Event : Type 0 where
  numbered : Event
  registered : ℕ → Event
  requested : ℕ → String → Option Json → Event
  received : Incoming → Event
  wrote : Bool → Event
  handled : Request → Event

module _ (from_value : Json → Option ElicitationParams)
    (to_value : ElicitationResult → McpResult Json) (error_text : Error → String)
    (on_elicit : ElicitationParams → ElicitationResult) where
  elicited : MessageId → McpResult Json → Response
  elicited id (ok value) = success id value
  elicited id (err e) = failure id (new_error (as_i32 ErrorCode.internal_error) (error_text e))

  asked : MessageId → Option ElicitationParams → Response
  unfolding elicited
  asked id none =
      failure id (new_error (as_i32 ErrorCode.invalid_params) "invalid elicitation params")
  asked id (some params) = elicited id (to_value (on_elicit params))

  abbrev decoded_params : Option Json → Option ElicitationParams
  decoded_params none = none
  decoded_params (some value) = from_value value

  unfoldable pub answer_server : Request → Response
  unfolding asked
  answer_server req =
      if str_eq req.method "elicitation/create"
      then asked req.id (decoded_params req.params)
      else failure req.id (
          new_error (as_i32 ErrorCode.method_not_found)
            ("method '" <> req.method <> "' not supported by client"))

  unfoldable pub handle_server_request : Request → Client → Client
  unfolding answer_server post
  handle_server_request req c = (post (response (answer_server req)) c).1

  -- A step of a caller, of a task, or of a handler.
  unfoldable pub step : Event → Client → Client
  unfolding take_id register send_request reader_step writer_step handle_server_request
  step numbered c = take_id c
  step (registered id) c = register id c
  step (requested id method params) c = (send_request id method params c).1
  step (received i) c = reader_step i c
  step (wrote succeeds) c = writer_step succeeds c
  step (handled req) c = handle_server_request req c

  unfoldable pub run : List Event → Client → Client
  unfolding step
  run [] c = c
  run (e ∷ es) c = run es (step e c)
