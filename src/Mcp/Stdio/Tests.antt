-- ===== src/Mcp/Stdio/Tests.antt =====
-- The transport on a concrete message.
use oracle_automate.Prelude.{◌≡◌, refl, none, some, [], ◌∷◌, arith}
use oracle_automate.Text.{codes}
use oracle_automate.Json.{Json, num, str, obj, end, field, get_key, get_field}
use oracle_automate.Mcp.Error.{ok, err, other}
use oracle_automate.Mcp.Jsonrpc.{number, Request, request, new_request}
use oracle_automate.Mcp.Stdio.{Codec, recv_times, read_lines, send_all}
use oracle_automate.Mcp.Stdio.Framing.{IsEncoded, fresh, recv_times-send_all}

abbrev ping : Request
unfolding new_request
ping = new_request (number 1) "ping" none

abbrev ping_value : Json
ping_value = obj (field "id" (num "1") (field "method" (str "ping") end))

-- A codec that knows the one message.
abbrev ping_codec : Codec
ping_codec = record {
  to_vec = λ m. codes "{\"id\":1,\"method\":\"ping\"}";
  from_slice = λ text. ok ping_value;
  request_of = λ value. ok ping;
  notification_of = λ value. err (other "not a notification");
  response_of = λ value. err (other "not a response");
}

ping-IsEncoded : IsEncoded ping_codec (request ping)
unfolding codes get_key get_field
ping-IsEncoded = record {
  line = ground arith;
  braced = (codes "\"id\":1,\"method\":\"ping\"", refl);
  value = ping_value;
  parsed = refl;
  reads = (refl, refl, refl);
}

recv_times-send_all_example :
    recv_times ping_codec 3
      (read_lines (send_all ping_codec (request ping ∷ request ping ∷ []) fresh).output)
    ≡ ok (some (request ping)) ∷ ok (some (request ping)) ∷ ok none ∷ []
recv_times-send_all_example =
    recv_times-send_all ping_codec (request ping ∷ request ping ∷ [])
      (ping-IsEncoded, (ping-IsEncoded, tt))
