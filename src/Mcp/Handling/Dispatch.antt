-- ===== src/Mcp/Handling/Dispatch.antt =====
-- What the dispatch of crates/mcp-server/src/server.rs answers: ids, the log level and completions.
use oracle_automate.Prelude.{
  ℕ, zero, suc, ◌≤◌, ◌<◌, ◌%◌, ◌^◌, String, ◌≡◌, refl, ap, ◌↔◌, true, Option, none, some, List, [],
  ◌∷◌, length, length-take-le, take, arith, ltb, min,
}
use oracle_automate.Json.{Json}
use oracle_automate.Mcp.Error.{McpResult, ok, err}
use oracle_automate.Mcp.Jsonrpc.{
  Request, ErrorObject, Message, request, notification, response, success, failure,
}
use oracle_automate.Mcp.Protocol.{
  LogLevel, debug, info, notice, warning, error, critical, alert, emergency, rank,
}
use oracle_automate.Mcp.Methods.{Reply, Outside, method_of, parse_params, cap_completion}
use oracle_automate.Mcp.Server.{ServerContext, level_of, current_log_level}
use oracle_automate.Mcp.Handling.{
  set_level, handle, handle_method, respond, dispatch, dispatch_message, run_single_actor,
}

-- A result or an error, and not both.
abbrev pub IsEither : Option Json → Option ErrorObject → Type 0
IsEither (some v) none = Unit
IsEither none (some e) = Unit
IsEither none none = ⊥
IsEither (some v) (some e) = ⊥

-- What is sent for a message: a request is answered under its id, nothing else is.
abbrev pub Answers : Message → Option Message → Type 0
Answers (request req) (some (response r)) = (r.id ≡ req.id) × IsEither r.result r.error
Answers (request req) (some (request q)) = ⊥
Answers (request req) (some (notification n)) = ⊥
Answers (request req) none = ⊥
Answers (notification n) none = Unit
Answers (notification n) (some m) = ⊥
Answers (response r) none = Unit
Answers (response r) (some m) = ⊥

abbrev pub AreAnswered : List Message → List (Option Message) → Type 0
AreAnswered [] [] = Unit
AreAnswered [] (o ∷ os) = ⊥
AreAnswered (m ∷ ms) [] = ⊥
AreAnswered (m ∷ ms) (o ∷ os) = Answers m o × AreAnswered ms os

respond-Answers :
    (outside : Outside) (req : Request) (r : McpResult Reply)
    → Answers (request req) (some (response (respond outside req r)))
unfolding respond success failure
respond-Answers outside req (ok v) = (refl, tt)
respond-Answers outside req (err e) = (refl, tt)

module _ {W : Type 0} (outside : Outside) where
  -- For the messages received, one after the other, the loop sends: for a request one response under
  -- the id of the request, with a result or an error and not both; for a notification or a response
  -- nothing.
  pub run_single_actor-AreAnswered :
      (ms : List Message) (c : ServerContext W) (w : W)
      → (let (outs, c', w') = run_single_actor outside ms c w in AreAnswered ms outs)
  unfolding run_single_actor dispatch_message dispatch
  run_single_actor-AreAnswered [] c w = tt
  run_single_actor-AreAnswered (request req ∷ ms) c w =
      let (r, c', w') = handle_method outside req c w in
      (respond-Answers outside req r, run_single_actor-AreAnswered ms c' w')
  run_single_actor-AreAnswered (response r ∷ ms) c w = (tt, run_single_actor-AreAnswered ms c w)
  run_single_actor-AreAnswered (notification n ∷ ms) c w = (tt, run_single_actor-AreAnswered ms c w)

level_of-rank : (l : LogLevel) → level_of (rank l) ≡ l
unfolding level_of rank
level_of-rank debug = refl
level_of-rank info = refl
level_of-rank notice = refl
level_of-rank warning = refl
level_of-rank error = refl
level_of-rank critical = refl
level_of-rank alert = refl
level_of-rank emergency = refl

module _ {W : Type 0} (outside : Outside) where
  -- A readable `logging/setLevel` is answered with `{}`; afterwards the level of its parameters is
  -- the current one, the rest of the server and the world being as before.
  pub set_level-current :
      (req : Request) (level : LogLevel) (c : ServerContext W) (w : W)
      → req.method ≡ "logging/setLevel"
      → parse_params outside.read_level req.params ≡ ok level
      → (let (r, c', w') = handle_method outside req c w in
          (r ≡ ok Reply.empty)
          × (current_log_level c' ≡ level)
          × (c' ≡ record c { log_level = rank level })
          × (w' ≡ w))
  unfolding handle_method handle method_of set_level current_log_level
  set_level-current req level c w m e = rw (m, e) (refl, level_of-rank level, refl, refl)

length-take-min : {A : Type 0} (n : ℕ) (xs : List A) → length (take n xs) ≡ min n (length xs)
length-take-min zero xs = omega arith
length-take-min (suc n) [] = omega arith
length-take-min (suc n) (x ∷ xs) = omega (arith, length-take-min n xs)

mod-small : (n : ℕ) → n < 2 ^ 32 → n % 2 ^ 32 ≡ n
mod-small n h = omega (arith, h)

cut-more : (n : ℕ) → (some (ltb (min 100 n) n) ≡ some true) ↔ (100 < n)
cut-more n = ground arith

-- A completion carries the first 100 candidates at most, their number before the cut, and says that
-- there are more exactly when it cut; for fewer than 2^32 candidates.
pub cap_completion_lem :
    (values : List String)
    → length values < 2 ^ 32
    → (length (cap_completion values).values ≤ 100)
      × ((cap_completion values).values ≡ take 100 values)
      × ((cap_completion values).total ≡ some (length values))
      × (((cap_completion values).has_more ≡ some true) ↔ (100 < length values))
unfolding cap_completion
cap_completion_lem values h =
    let cut = length-take-min 100 values in
    let small = mod-small (length values) h in
    let small_cut = mod-small (min 100 (length values)) (omega (arith, h)) in
    (
      length-take-le 100 values,
      refl,
      ap some small,
      rw (cut, small, small_cut) (cut-more (length values)),
    )
