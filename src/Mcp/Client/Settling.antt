-- ===== src/Mcp/Client/Settling.antt =====
-- How the calls of crates/mcp-client/src/lib.rs end, whatever happens in between.
use oracle_automate.Prelude.{
  ℕ, String, ◌≡◌, refl, sym, ap, ◌∙◌, ◌⊎◌, inl, inr, Bool, Bool-cases, true, false, Option, none,
  some, List, [], ◌∷◌, nat_Eq, nat_eq, arith, if◌then◌else◌,
}
use oracle_automate.Prelude.Map.{Map, get, get-insert, get-remove}
use oracle_automate.Json.{Json}
use oracle_automate.Mcp.Error.{Error, McpResult}
use oracle_automate.Mcp.Jsonrpc.{
  MessageId, number, string, null, Response, Message, request, response, notification, new_request,
}
use oracle_automate.Mcp.Elicit.{ElicitationParams, ElicitationResult}
use oracle_automate.Mcp.Client.{
  Sender, sender, Client, new_client, post, take_id, register, send_request, sent, Incoming,
  arrived, end_of_input, failed, settle, on_response, on_message, drop_all, close_reader, read,
  reader_step, write_first, writer_step, Event, numbered, registered, requested, received, wrote,
  handled, handle_server_request, step, run,
}

abbrev pub Settled : Type 0
Settled = Map ℕ (Option Response)

nat_eq_self : (a : ℕ) → nat_eq a a ≡ true
nat_eq_self a = ground arith

-- The sender of the id is kept, or its channel has ended.
abbrev pub IsKnown : ℕ → Map ℕ Sender → Settled → Type 0
IsKnown id pending settled =
    (get id pending ≡ some sender) ⊎ ((o : Option Response) × (get id settled ≡ some o))

pub if_either : (P : Client → Type 0) (b : Bool) (x y : Client) → P x → P y → P (if b then x else y)
if_either P true x y px py = px
if_either P false x y px py = py

if_true : (b : Bool) (x y : Client) → b ≡ true → (if b then x else y) ≡ x
if_true true x y h = refl
if_true false x y h = absurd cc

unfoldable pub IsTracked : ℕ → Client → Type 0
IsTracked id c = IsKnown id c.pending c.settled

get_below :
    (id k : ℕ) (s : Sender) (pending : Map ℕ Sender)
    → nat_eq k id ≡ false
    → get id ((k, s) ∷ pending) ≡ get id pending
unfolding get
get_below id k s pending other = rw other refl

IsKnown-below :
    (id k : ℕ) (s : Sender) (pending : Map ℕ Sender) (settled : Settled)
    → nat_eq k id ≡ false
    → IsKnown id ((k, s) ∷ pending) settled
    → IsKnown id pending settled
IsKnown-below id k s pending settled other (inl kept) =
    inl (sym (get_below id k s pending other) ∙ kept)
IsKnown-below id k s pending settled other (inr ended) = inr ended

drop_all_ends :
    (id : ℕ) (pending : Map ℕ Sender) (settled : Settled)
    → IsKnown id pending settled
    → (o : Option Response) × (get id (drop_all pending settled) ≡ some o)
unfolding drop_all get
drop_all_ends id [] settled (inl e) = absurd cc
drop_all_ends id [] settled (inr ended) = ended
drop_all_ends id ((k, s) ∷ pending) settled known = elim (Bool-cases (nat_eq k id)) [
  | inl same ↦ (none, get-insert k id none (drop_all pending settled) ∙ rw same refl)
  | inr other ↦
      let rest =
        drop_all_ends id pending settled (IsKnown-below id k s pending settled other known) in
      (rest.0, get-insert k id none (drop_all pending settled) ∙ rw other rest.1)
]

settle-IsTracked :
    (id n : ℕ) (resp : Response) (o : Option Sender) (c : Client)
    → IsTracked id c
    → IsTracked id (settle n resp o c)
unfolding IsTracked
settle-IsTracked id n resp none c t = t
settle-IsTracked id n resp (some s) c t = elim (Bool-cases (nat_eq n id)) [
  | inl same ↦ inr (some resp, get-insert n id (some resp) c.settled ∙ rw same refl)
  | inr other ↦ elim t [
    | inl kept ↦ inl (get-remove n id c.pending ∙ rw other kept)
    | inr (o, ended) ↦ inr (o, get-insert n id (some resp) c.settled ∙ rw other ended)
  ]
]

register-IsTracked_self : (id : ℕ) (c : Client) → IsTracked id (register id c)
unfolding IsTracked register
register-IsTracked_self id c = inl (get-insert id id sender c.pending ∙ rw (nat_eq_self id) refl)

register-IsTracked : (id n : ℕ) (c : Client) → IsTracked id c → IsTracked id (register n c)
unfolding IsTracked register
register-IsTracked id n c t = elim (Bool-cases (nat_eq n id)) [
  | inl same ↦ inl (get-insert n id sender c.pending ∙ rw same refl)
  | inr other ↦ elim t [
    | inl kept ↦ inl (get-insert n id sender c.pending ∙ rw other kept)
    | inr ended ↦ inr ended
  ]
]

take_id-IsTracked : (id : ℕ) (c : Client) → IsTracked id c → IsTracked id (take_id c)
unfolding IsTracked take_id
take_id-IsTracked id c t = t

close_reader-IsTracked : (id : ℕ) (c : Client) → IsTracked id c → IsTracked id (close_reader c)
unfolding IsTracked close_reader
close_reader-IsTracked id c t = inr (drop_all_ends id c.pending c.settled t)

post-IsTracked : (id : ℕ) (m : Message) (c : Client) → IsTracked id c → IsTracked id (post m c).1
unfolding IsTracked post
post-IsTracked id m c t = elim (Bool-cases c.writing) [
  | inl runs ↦ rw runs t
  | inr over ↦ rw over t
]

pub sent_state : (id : ℕ) (p : Bool × Client) → (sent id p).1 ≡ p.1
sent_state id (true, c) = refl
sent_state id (false, c) = refl

send_request-IsTracked :
    (id n : ℕ) (method : String) (params : Option Json) (c : Client)
    → IsTracked id c
    → IsTracked id (send_request n method params c).1
unfolding send_request
send_request-IsTracked id n method params c t =
    rw (sent_state n) (post-IsTracked id (request (new_request (number n) method params)) c t)

on_response-IsTracked :
    (id : ℕ) (i : MessageId) (resp : Response) (c : Client)
    → IsTracked id c
    → IsTracked id (on_response i resp c)
on_response-IsTracked id (number n) resp c t = settle-IsTracked id n resp (get n c.pending) c t
on_response-IsTracked id (string s) resp c t = t
on_response-IsTracked id null resp c t = t

on_message-IsTracked :
    (id : ℕ) (m : Message) (c : Client) → IsTracked id c → IsTracked id (on_message m c)
unfolding on_message
on_message-IsTracked id (request r) c t = t
on_message-IsTracked id (notification n) c t = t
on_message-IsTracked id (response resp) c t = on_response-IsTracked id resp.id resp c t

read-IsTracked : (id : ℕ) (i : Incoming) (c : Client) → IsTracked id c → IsTracked id (read i c)
unfolding read
read-IsTracked id (arrived m) c t = on_message-IsTracked id m c t
read-IsTracked id end_of_input c t = close_reader-IsTracked id c t
read-IsTracked id (failed e) c t = close_reader-IsTracked id c t

reader_step-IsTracked :
    (id : ℕ) (i : Incoming) (c : Client) → IsTracked id c → IsTracked id (reader_step i c)
unfolding reader_step read
reader_step-IsTracked id i c t =
    if_either (IsTracked id) c.reading (read i c) c (read-IsTracked id i c t) t

write_first-IsTracked :
    (id : ℕ) (succeeds : Bool) (ms : List Message) (c : Client)
    → IsTracked id c
    → IsTracked id (write_first succeeds ms c)
unfolding write_first IsTracked
write_first-IsTracked id succeeds [] c t = t
write_first-IsTracked id true (m ∷ ms) c t = t
write_first-IsTracked id false (m ∷ ms) c t = t

writer_step-IsTracked :
    (id : ℕ) (succeeds : Bool) (c : Client) → IsTracked id c → IsTracked id (writer_step succeeds c)
unfolding writer_step
writer_step-IsTracked id succeeds c t =
    if_either (IsTracked id) c.writing (write_first succeeds c.outbox c) c
      (write_first-IsTracked id succeeds c.outbox c t) t

module _ (from_value : Json → Option ElicitationParams)
    (to_value : ElicitationResult → McpResult Json) (error_text : Error → String)
    (on_elicit : ElicitationParams → ElicitationResult) where
  step-IsTracked :
      (id : ℕ) (e : Event) (c : Client)
      → IsTracked id c
      → IsTracked id (step from_value to_value error_text on_elicit e c)
  unfolding step handle_server_request
  step-IsTracked id numbered c t = take_id-IsTracked id c t
  step-IsTracked id (registered n) c t = register-IsTracked id n c t
  step-IsTracked id (requested n method params) c t = send_request-IsTracked id n method params c t
  step-IsTracked id (received i) c t = reader_step-IsTracked id i c t
  step-IsTracked id (wrote succeeds) c t = writer_step-IsTracked id succeeds c t
  step-IsTracked id (handled req) c t = post-IsTracked id _ c t

  run-IsTracked :
      (id : ℕ) (es : List Event) (c : Client)
      → IsTracked id c
      → IsTracked id (run from_value to_value error_text on_elicit es c)
  unfolding run
  run-IsTracked id [] c t = t
  run-IsTracked id (e ∷ es) c t =
      run-IsTracked id es (step from_value to_value error_text on_elicit e c)
        (step-IsTracked id e c t)

  -- The client after some steps, the registration of a sender, and more steps.
  unfoldable pub after_registration : List Event → ℕ → List Event → Client
  unfolding run register
  after_registration before id after =
      run from_value to_value error_text on_elicit after
        (register id (run from_value to_value error_text on_elicit before new_client))

  -- When the input of a client ends, every call that has registered its sender by then is settled, by
  -- its response or by the drop of its sender, and none is left pending, whatever the calls, the
  -- tasks and the handlers did before and after the registration.
  pub end_of_input-settles :
      (before after : List Event) (id : ℕ)
      → (after_registration before id after).reading ≡ true
      → let ended = reader_step end_of_input (after_registration before id after) in
        (o : Option Response) × (get id ended.settled ≡ some o) × (ended.pending ≡ [])
  unfolding reader_step read close_reader IsTracked after_registration
  end_of_input-settles before after id runs =
      let c = after_registration before id after in
      let ended = drop_all_ends id c.pending c.settled (
        run-IsTracked id after _ (
          register-IsTracked_self id
            (run from_value to_value error_text on_elicit before new_client))) in
      let closed = if_true c.reading (close_reader c) c runs in
      (ended.0, ap (λ d. get id d.settled) closed ∙ ended.1, ap (λ d. d.pending) closed)
