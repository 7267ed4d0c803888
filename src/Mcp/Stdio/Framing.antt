-- ===== src/Mcp/Stdio/Framing.antt =====
-- crates/mcp-transport/src/stdio.rs: what is written comes back.
use mathlib.Core.Path.{subst}
use mathlib.Core.List.{append-nil, append_assoc, reverse-append, reverse-reverse}
use oracle_automate.Prelude.{
  ℕ, suc, ◌≡◌, refl, sym, ap, ◌∙◌, Bool, true, false, Option, none, some, List, [], ◌∷◌, ◌++◌, map,
  reverse, All, length, nat_eq,
}
use oracle_automate.Text.Codes.{Codes, is_empty, trim, trim_start, add_to_first}
use oracle_automate.Json.{Json, get_key, is_some}
use oracle_automate.Mcp.Error.{McpResult, ok}
use oracle_automate.Mcp.Jsonrpc.{Message, request, response, notification}
use oracle_automate.Mcp.Stdio.{
  Codec, StdioWriter, from_value, from_json, read_lines, recv, recv_times, send, send_when,
  send_all,
}

-- A text without newlines.
abbrev pub IsLine : Codes → Type 0
IsLine cs = All (λ c. nat_eq c b'\n' ≡ false) cs

-- A text that starts and ends like a JSON object.
abbrev pub IsBraced : Codes → Type 0
IsBraced cs = (mid : Codes) × (cs ≡ b'{' ∷ (mid ++ b'}' ∷ []))

-- A value that serde reads as a message, with the fields that tell its kind.
abbrev pub Reads : Codec → Message → Json → Type 0
Reads codec (request r) value =
    (is_some (get_key "method" value) ≡ true)
    × (is_some (get_key "id" value) ≡ true)
    × (codec.request_of value ≡ ok r)
Reads codec (notification n) value =
    (is_some (get_key "method" value) ≡ true)
    × (is_some (get_key "id" value) ≡ false)
    × (codec.notification_of value ≡ ok n)
Reads codec (response r) value =
    (is_some (get_key "method" value) ≡ false) × (codec.response_of value ≡ ok r)

-- What is relied on of serde at one message: it is written as an object on one line, whose text is
-- parsed to a value that reads as the message.
pub record IsEncoded (codec : Codec) (m : Message) : Type 0 where
  pub line : IsLine (codec.to_vec m)
  pub braced : IsBraced (codec.to_vec m)
  pub value : Json
  pub parsed : codec.from_slice (codec.to_vec m) ≡ ok value
  pub reads : Reads codec m value

trim-braced :
    (mid : Codes) → trim ((b'{' ∷ (mid ++ b'}' ∷ [])) ++ b'\n' ∷ []) ≡ b'{' ∷ (mid ++ b'}' ∷ [])
unfolding trim trim_start
trim-braced mid =
    let text = b'{' ∷ (mid ++ b'}' ∷ []) in
    let back : reverse text ≡ b'}' ∷ reverse (b'{' ∷ mid) =
      reverse-append (b'{' ∷ mid) (b'}' ∷ []) in
    ap (λ l. reverse (trim_start l)) (reverse-append text (b'\n' ∷ []) ∙ ap (◌∷◌ b'\n') back)
    ∙ ap reverse (sym back)
    ∙ reverse-reverse text

trim-IsBraced : (cs : Codes) → IsBraced cs → trim (cs ++ b'\n' ∷ []) ≡ cs
trim-IsBraced cs (mid, e) = subst (λ x. trim (x ++ b'\n' ∷ []) ≡ x) (sym e) (trim-braced mid)

is_empty-IsBraced : (cs : Codes) → IsBraced cs → is_empty cs ≡ false
is_empty-IsBraced cs (mid, e) = rw e refl

read_lines-line :
    (line rest : Codes)
    → IsLine line
    → read_lines (line ++ b'\n' ∷ rest) ≡ (line ++ b'\n' ∷ []) ∷ read_lines rest
unfolding read_lines
read_lines-line [] rest w = refl
read_lines-line (c ∷ cs) rest w = rw w.0 (ap (add_to_first c) (read_lines-line cs rest w.1))

abbrev pub fresh : StdioWriter
fresh = record { output = []; closed = false }

module _ (codec : Codec) where
  from_value-Reads :
      (m : Message) (value : Json) → Reads codec m value → from_value codec value ≡ ok m
  unfolding from_value
  from_value-Reads (request r) value w = rw (w.0, w.1, w.2) refl
  from_value-Reads (notification n) value w = rw (w.0, w.1, w.2) refl
  from_value-Reads (response r) value w = rw (w.0, w.1) refl

  from_json-IsEncoded : (m : Message) → IsEncoded codec m → from_json codec (codec.to_vec m) ≡ ok m
  unfolding from_json
  from_json-IsEncoded m e = rw e.parsed (from_value-Reads m e.value e.reads)

  -- What the messages are written as.
  text_of : List Message → Codes
  text_of [] = []
  text_of (m ∷ ms) = codec.to_vec m ++ b'\n' ∷ text_of ms

  send_when-open :
      (m : Message) (w : StdioWriter) (b : Bool)
      → b ≡ false
      → (send_when codec b m w).1 ≡ record w { output = w.output ++ codec.to_vec m ++ b'\n' ∷ [] }
  unfolding send_when
  send_when-open m w true h = absurd cc
  send_when-open m w false h = refl

  send_all-output :
      (ms : List Message) (w : StdioWriter)
      → w.closed ≡ false
      → (send_all codec ms w).output ≡ w.output ++ text_of ms
  unfolding send_all send text_of
  send_all-output [] w open_ = sym (append-nil w.output)
  send_all-output (m ∷ ms) w open_ =
      let next = send_when-open m w w.closed open_ in
      ap (λ v. (send_all codec ms v).output) next
      ∙ send_all-output ms (record w { output = w.output ++ codec.to_vec m ++ b'\n' ∷ [] }) open_
      ∙ append_assoc (w.output ++ codec.to_vec m) (b'\n' ∷ []) (text_of ms)
      ∙ append_assoc w.output (codec.to_vec m) (b'\n' ∷ text_of ms)

  recv-IsEncoded :
      (m : Message) (ls : List Codes)
      → IsEncoded codec m
      → recv codec ((codec.to_vec m ++ b'\n' ∷ []) ∷ ls) ≡ (ok (some m), ls)
  unfolding recv
  recv-IsEncoded m ls e =
      rw
        (
          trim-IsBraced (codec.to_vec m) e.braced,
          is_empty-IsBraced (codec.to_vec m) e.braced,
          from_json-IsEncoded m e,
        )
        refl

  recv_times-suc :
      (n : ℕ) (ls rest : List Codes) (got : McpResult (Option Message))
      → recv codec ls ≡ (got, rest)
      → recv_times codec (suc n) ls ≡ got ∷ recv_times codec n rest
  unfolding recv_times
  recv_times-suc n ls rest got h = ap (λ p. p.0 ∷ recv_times codec n p.1) h

  recv_times-text_of :
      (ms : List Message)
      → All (IsEncoded codec) ms
      → recv_times codec (suc (length ms)) (read_lines (text_of ms))
        ≡ map (λ m. ok (some m)) ms ++ ok none ∷ []
  unfolding recv recv_times text_of read_lines
  recv_times-text_of [] w = refl
  recv_times-text_of (m ∷ ms) w =
      recv_times-suc (suc (length ms)) _ _ _ (
        ap (recv codec) (read_lines-line (codec.to_vec m) (text_of ms) w.0.line)
        ∙ recv-IsEncoded m (read_lines (text_of ms)) w.0)
      ∙ ap (◌∷◌ (ok (some m))) (recv_times-text_of ms w.1)

  -- Messages that are sent on an open, fresh transport are received one by one, in order and as
  -- they were sent, followed by the end of the input, if serde writes each of them as an object on
  -- one line and reads it back.
  pub recv_times-send_all :
      (ms : List Message)
      → All (IsEncoded codec) ms
      → recv_times codec (suc (length ms)) (read_lines (send_all codec ms fresh).output)
        ≡ map (λ m. ok (some m)) ms ++ ok none ∷ []
  recv_times-send_all ms w =
      ap (λ text. recv_times codec (suc (length ms)) (read_lines text))
        (send_all-output ms fresh refl)
      ∙ recv_times-text_of ms w
