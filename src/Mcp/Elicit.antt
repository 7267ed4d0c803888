-- ===== src/Mcp/Elicit.antt =====
-- `ElicitationHandle` of crates/mcp-server/src/elicit.rs. `elicit` is two steps, up to its wait and
-- after it: between them other requests start and responses arrive. A waiter's channel is an entry
-- of `delivered`. Ids are bit patterns of an i64. What serde derives is a parameter.
pub mod Delivery
mod Tests
use oracle_automate.Prelude.{
  ℕ, suc, ◌+◌, ◌%◌, ◌^◌, String, Bool, true, false, Option, none, some, List, [], ◌∷◌, ◌++◌, nat_Eq,
  if◌then◌else◌,
}
use oracle_automate.Prelude.Map
use oracle_automate.Json.{Json}
use oracle_automate.Mcp.Jsonrpc.{
  MessageId, number, string, null, Response, Message, request, ErrorObject, new_request,
}

pub data ElicitationAction : Type 0 where
  accept decline cancel : ElicitationAction

pub record ElicitationResult : Type 0 where
  pub action : ElicitationAction
  pub content : Option Json

pub record ElicitationParams : Type 0 where
  pub message : String
  pub requested_schema : Json

pub data Waiter : Type 0 where
  waiter : Waiter

pub record ElicitationHandle : Type 0 where
  pub outbound : List Message
  pub pending : Map.Map ℕ Waiter
  pub delivered : Map.Map ℕ Response
  pub next_id : ℕ
  pub enabled : Bool

-- What the first step of `elicit` ends with.
pub data Started : Type 0 where
  finished : ElicitationResult → Started
  waiting : ℕ → Started

abbrev pub declined : ElicitationResult
declined = record { action = decline; content = none }

abbrev pub cancelled : ElicitationResult
cancelled = record { action = cancel; content = none }

unfoldable pub new_handle : Bool → ElicitationHandle
new_handle enabled = record {
  outbound = [];
  pending = [];
  delivered = [];
  next_id = 1000000;
  enabled = enabled;
}

-- `fetch_add(1)` and the registration of the waiter.
unfoldable pub register : ElicitationHandle → ElicitationHandle
register h = record h {
  pending = Map.insert h.next_id waiter h.pending;
  next_id = (h.next_id + 1) % 2 ^ 64;
}

-- `outbound.send(..)` of the request under an id; the channel may be closed.
unfoldable pub send_request :
    Bool → ℕ → Option Json → ElicitationHandle → Started × ElicitationHandle
send_request is_open id none h = (finished cancelled, h)
send_request true id (some params) h = (
  waiting id,
  record h {
    outbound =
        h.outbound ++ request (new_request (number id) "elicitation/create" (some params)) ∷ [];
  },
)
send_request false id (some params) h =
    (finished cancelled, record h { pending = Map.remove id h.pending })

abbrev pub claim : ℕ → Response → Option Waiter → ElicitationHandle → Bool × ElicitationHandle
claim n resp none h = (false, h)
claim n resp (some w) h =
    (true, record h { pending = Map.remove n h.pending; delivered = Map.insert n resp h.delivered })

abbrev pub route : MessageId → Response → ElicitationHandle → Bool × ElicitationHandle
route (number n) resp h = claim n resp (Map.get n h.pending) h
route (string s) resp h = (false, h)
route null resp h = (false, h)

unfoldable pub deliver_response : Response → ElicitationHandle → Bool × ElicitationHandle
deliver_response resp h = route resp.id resp h

unfoldable pub start_when :
    Bool → Bool → Option Json → ElicitationHandle → Started × ElicitationHandle
unfolding register send_request
start_when false is_open params h = (finished declined, h)
start_when true is_open params h = send_request is_open h.next_id params (register h)

-- `elicit` up to its wait.
unfoldable pub start_elicit :
    (ElicitationParams → Option Json)
    → Bool
    → String
    → Json
    → ElicitationHandle
    → Started × ElicitationHandle
unfolding start_when
start_elicit to_value is_open message requested_schema h =
    start_when h.enabled is_open
      (to_value (record { message = message; requested_schema = requested_schema })) h

abbrev pub or_cancelled : Option ElicitationResult → ElicitationResult
or_cancelled none = cancelled
or_cancelled (some r) = r

module _ (from_value : Json → Option ElicitationResult) where
  abbrev pub parse_fields : Option ErrorObject → Option Json → ElicitationResult
  parse_fields (some e) result = cancelled
  parse_fields none none = cancelled
  parse_fields none (some value) = or_cancelled (from_value value)

  unfoldable pub parse_response : Response → ElicitationResult
  parse_response resp = parse_fields resp.error resp.result

  -- `elicit` from the end of its wait: what the channel holds, if it was not dropped.
  unfoldable pub finish_elicit : Option Response → ElicitationResult
  finish_elicit none = cancelled
  finish_elicit (some resp) = parse_response resp
