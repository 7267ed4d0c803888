-- ===== src/Mcp/Stdio.antt =====
-- crates/mcp-transport/src/stdio.rs, the two halves of the transport, and `Message::from_json` of
-- crates/mcp-core/src/jsonrpc.rs. The stream is a text: `read_line` fails on bytes that are no UTF-8.
-- What serde does is a parameter, the operations of `Codec`.
pub mod Framing
mod Tests
use oracle_automate.Prelude.{
  ℕ, zero, suc, String, Bool, true, false, ◌&&◌, Option, none, some, List, [], ◌∷◌, ◌++◌, nat_eq,
  if◌then◌else◌,
}
use oracle_automate.Text.Codes.{Codes, is_empty, trim, add_to_first}
use oracle_automate.Json.{Json, get_key, is_some}
use oracle_automate.Mcp.Error.{Error, transport_closed, McpResult, ok, err}
use oracle_automate.Mcp.Jsonrpc.{
  Request, Response, Notification, Message, request, response, notification,
}

-- `to_vec`, `from_slice`, and `from_value` at the three types of messages.
pub record Codec : Type 0 where
  pub to_vec : Message → Codes
  pub from_slice : Codes → McpResult Json
  pub request_of : Json → McpResult Request
  pub notification_of : Json → McpResult Notification
  pub response_of : Json → McpResult Response

abbrev wrap {ℓ} : {A : Type ℓ} → (A → Message) → McpResult A → McpResult Message
wrap f (err e) = err e
wrap f (ok a) = ok (f a)

-- A text with the newline that ends it, if there is one.
unfoldable pub read_lines : Codes → List Codes
read_lines [] = []
read_lines (c ∷ cs) =
    let rest = read_lines cs in if nat_eq c b'\n' then (c ∷ []) ∷ rest else add_to_first c rest

pub record StdioWriter : Type 0 where
  pub output : Codes
  pub closed : Bool

unfoldable pub close : StdioWriter → StdioWriter
close w = record w { closed = true }

module _ (codec : Codec) where
  -- `Message::from_value`: the fields tell the kind of the message.
  unfoldable pub from_value : Json → McpResult Message
  unfolding get_key
  from_value value =
      let has_method = is_some (get_key "method" value) in
      let has_id = is_some (get_key "id" value) in
      if has_method && has_id
      then wrap request (codec.request_of value)
      else if has_method
      then wrap notification (codec.notification_of value)
      else wrap response (codec.response_of value)

  abbrev from_parsed : McpResult Json → McpResult Message
  unfolding from_value
  from_parsed (err e) = err e
  from_parsed (ok value) = from_value value

  unfoldable pub from_json : Codes → McpResult Message
  unfolding from_parsed
  from_json text = from_parsed (codec.from_slice text)

  abbrev incoming : McpResult Message → McpResult (Option Message)
  incoming (err e) = err e
  incoming (ok m) = ok (some m)

  -- The loop of `recv` over the lines that are left: blank lines are passed over.
  unfoldable pub recv : List Codes → McpResult (Option Message) × List Codes
  unfolding from_json
  recv [] = (ok none, [])
  recv (line ∷ ls) =
      let trimmed = trim line in
      let next = recv ls in if is_empty trimmed then next else (incoming (from_json trimmed), ls)

  -- `recv` a number of times.
  unfoldable pub recv_times : ℕ → List Codes → List (McpResult (Option Message))
  unfolding recv
  recv_times zero ls = []
  recv_times (suc n) ls = let (got, rest) = recv ls in got ∷ recv_times n rest

  send_when : Bool → Message → StdioWriter → McpResult {0} Unit × StdioWriter
  send_when true m w = (err transport_closed, w)
  send_when false m w = (ok tt, record w { output = w.output ++ codec.to_vec m ++ b'\n' ∷ [] })

  unfoldable pub send : Message → StdioWriter → McpResult {0} Unit × StdioWriter
  unfolding send_when
  send m w = send_when w.closed m w

  unfoldable pub send_all : List Message → StdioWriter → StdioWriter
  unfolding send
  send_all [] w = w
  send_all (m ∷ ms) w = send_all ms (send m w).1
