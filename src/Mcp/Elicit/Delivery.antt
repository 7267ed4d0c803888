-- ===== src/Mcp/Elicit/Delivery.antt =====
-- How answers find their requests in crates/mcp-server/src/elicit.rs, whatever happens in between.
use oracle_automate.Prelude.{
  ℕ, ◌+◌, ◌%◌, ◌^◌, ◌≤◌, ◌<◌, String, ◌≡◌, ◌≢◌, refl, ap, inl, inr, Bool, true, false, Option, none,
  some, List, [], ◌∷◌, nat_Eq, nat_eq, All, length, arith, Option-cases,
}
use oracle_automate.Prelude.Map
use oracle_automate.Json.{Json}
use oracle_automate.Mcp.Jsonrpc.{MessageId, number, string, null, Response}
use oracle_automate.Mcp.Elicit.{
  ElicitationParams, waiter, ElicitationHandle, waiting, register, send_request, route,
  deliver_response, start_when, start_elicit,
}

-- What else can happen while a tool waits.
pub data Event : Type 0 where
  started : Bool → String → Json → Event
  answered : Response → Event

-- The event is not an answer to the request of an id.
abbrev pub IsForeign : ℕ → Event → Type 0
IsForeign id (started is_open message schema) = Unit
IsForeign id (answered resp) = resp.id ≢ number id

-- The request of the id waits for its answer, and later requests get other ids.
pub record Waits (id : ℕ) (h : ElicitationHandle) : Type 0 where
  pub is_pending : Map.get id h.pending ≡ some waiter
  pub is_old : id < h.next_id

module _ (to_value : ElicitationParams → Option Json) where
  unfoldable pub step : Event → ElicitationHandle → ElicitationHandle
  step (started is_open message schema) h = (start_elicit to_value is_open message schema h).1
  step (answered resp) h = (deliver_response resp h).1

  unfoldable pub run : List Event → ElicitationHandle → ElicitationHandle
  unfolding step
  run [] h = h
  run (e ∷ es) h = run es (step e h)

nat_eq_differ : (a b : ℕ) → a ≢ b → nat_eq a b ≡ false
nat_eq_differ a b h = ground arith

nat_eq_self : (a : ℕ) → nat_eq a a ≡ true
nat_eq_self a = ground arith

register-Waits :
    (id : ℕ) (h : ElicitationHandle)
    → h.next_id + 1 < 2 ^ 64
    → Waits id h
    → Waits id (register h) × ((register h).next_id ≡ h.next_id + 1)
unfolding register
register-Waits id h b w =
    let old : id < h.next_id = w.is_old in
    (
      record {
        is_pending =
            rw (Map.get-insert, nat_eq_differ h.next_id id (λ e. omega (arith, e, old)))
              w.is_pending;
        is_old = omega (arith, old, b);
      },
      omega (arith, b),
    )

send_request-Waits :
    (is_open : Bool) (id k : ℕ) (params : Option Json) (h : ElicitationHandle)
    → k ≢ id
    → Waits id h
    → Waits id (send_request is_open k params h).1
      × ((send_request is_open k params h).1.next_id ≡ h.next_id)
unfolding send_request
send_request-Waits is_open id k none h o w = (w, refl)
send_request-Waits true id k (some p) h o w =
    (record { is_pending = w.is_pending; is_old = w.is_old }, refl)
send_request-Waits false id k (some p) h o w = (
  record { is_pending = rw (Map.get-remove, nat_eq_differ k id o) w.is_pending; is_old = w.is_old },
  refl,
)

route-Waits :
    (id : ℕ) (i : MessageId) (resp : Response) (h : ElicitationHandle)
    → i ≢ number id
    → Waits id h
    → Waits id (route i resp h).1 × ((route i resp h).1.next_id ≡ h.next_id)
route-Waits id (string s) resp h o w = (w, refl)
route-Waits id null resp h o w = (w, refl)
route-Waits id (number n) resp h o w = elim (Option-cases (Map.get n h.pending)) [
  | inl e ↦ rw e (w, refl)
  | inr (x, e) ↦ rw e (
    record {
      is_pending =
          rw (Map.get-remove, nat_eq_differ n id (λ same. o (ap number same))) w.is_pending;
      is_old = w.is_old;
    },
    refl,
  )
]

start_when-Waits :
    (on is_open : Bool) (id : ℕ) (params : Option Json) (h : ElicitationHandle)
    → h.next_id + 1 < 2 ^ 64
    → Waits id h
    → Waits id (start_when on is_open params h).1
      × ((start_when on is_open params h).1.next_id ≤ h.next_id + 1)
unfolding start_when
start_when-Waits false is_open id params h b w = (w, omega arith)
start_when-Waits true is_open id params h b w =
    let (w', next) = register-Waits id h b w in
    let old : id < h.next_id = w.is_old in
    let (still, same) =
      send_request-Waits is_open id h.next_id params (register h) (λ e. omega (arith, e, old)) w' in
    (still, omega (arith, same, next))

-- The request that was sent waits.
start_when-sent :
    (on is_open : Bool) (id : ℕ) (params : Option Json) (h h' : ElicitationHandle)
    → start_when on is_open params h ≡ (waiting id, h')
    → h.next_id + 1 < 2 ^ 64
    → Waits id h' × (h'.next_id ≡ h.next_id + 1)
unfolding start_when send_request register
start_when-sent false is_open id params h h' s b = absurd (ground (arith, s))
start_when-sent true is_open id none h h' s b = absurd (ground (arith, s))
start_when-sent true false id (some p) h h' s b = absurd (ground (arith, s))
start_when-sent true true id (some p) h h' s b =
    let same_id : h.next_id ≡ id = ground (arith, s) in
    let pending : h'.pending ≡ Map.insert h.next_id waiter h.pending = ground (arith, s) in
    let next : h'.next_id ≡ (h.next_id + 1) % 2 ^ 64 = ground (arith, s) in
    (
      record {
        is_pending = rw (pending, Map.get-insert, same_id, nat_eq_self) refl;
        is_old = omega (arith, same_id, next, b);
      },
      omega (arith, next, b),
    )

claimed-once :
    (id : ℕ) (i j : MessageId) (resp again : Response) (h : ElicitationHandle)
    → i ≡ number id
    → j ≡ number id
    → Waits id h
    → (let (claimed, h') = route i resp h in
        (claimed ≡ true) × (Map.get id h'.delivered ≡ some resp) × (route j again h' ≡ (false, h')))
claimed-once id i j resp again h r a w =
    rw (r, a, w.is_pending)
      (refl, rw (Map.get-insert, nat_eq_self) refl, rw (Map.get-remove, nat_eq_self) refl)

module _ (to_value : ElicitationParams → Option Json) where
  step-Waits :
      (id : ℕ) (e : Event) (h : ElicitationHandle)
      → IsForeign id e
      → h.next_id + 1 < 2 ^ 64
      → Waits id h
      → Waits id (step to_value e h) × ((step to_value e h).next_id ≤ h.next_id + 1)
  unfolding step start_elicit deliver_response
  step-Waits id (answered resp) h f b w =
      let (still, same) = route-Waits id resp.id resp h f w in (still, omega (arith, same))
  step-Waits id (started is_open message schema) h f b w =
      start_when-Waits h.enabled is_open id _ h b w

  run-Waits :
      (id : ℕ) (es : List Event) (h : ElicitationHandle)
      → All (IsForeign id) es
      → h.next_id + length es < 2 ^ 64
      → Waits id h
      → Waits id (run to_value es h)
  unfolding run
  run-Waits id [] h f b w = w
  run-Waits id (e ∷ es) h f b w =
      let (w', next) = step-Waits id e h f.0 (omega (arith, b)) w in
      run-Waits id es (step to_value e h) f.1 (omega (arith, b, next)) w'

  start_elicit-Waits :
      (id : ℕ) (is_open : Bool) (message : String) (schema : Json) (h h' : ElicitationHandle)
      → start_elicit to_value is_open message schema h ≡ (waiting id, h')
      → h.next_id + 1 < 2 ^ 64
      → Waits id h' × (h'.next_id ≡ h.next_id + 1)
  unfolding start_elicit
  start_elicit-Waits id is_open message schema h h' s b =
      start_when-sent h.enabled is_open id _ h h' s b

  -- A request that `elicit` has sent gets its own answer: after any other requests and any answers to
  -- other ids, the answer that carries its id is claimed, its waiter receives exactly that answer,
  -- and a second answer under the id is refused and changes nothing. This holds until the counter
  -- of ids would pass 2^64.
  pub start_elicit-answered :
      (id : ℕ) (is_open : Bool) (message : String) (schema : Json) (h h' : ElicitationHandle)
      → start_elicit to_value is_open message schema h ≡ (waiting id, h')
      → (es : List Event) → All (IsForeign id) es
      → h.next_id + 1 + length es < 2 ^ 64
      → (resp again : Response) → resp.id ≡ number id
      → again.id ≡ number id
      → (let (claimed, h'') = deliver_response resp (run to_value es h') in
          (claimed ≡ true)
          × (Map.get id h''.delivered ≡ some resp)
          × (deliver_response again h'' ≡ (false, h'')))
  unfolding deliver_response
  start_elicit-answered id is_open message schema h h' s es f b resp again r a =
      let (w, next) = start_elicit-Waits id is_open message schema h h' s (omega (arith, b)) in
      let w' = run-Waits id es h' f (omega (arith, b, next)) w in
      claimed-once id resp.id again.id resp again (run to_value es h') r a w'
