-- ===== src/Memory/Working/Window.antt =====
-- What `WorkingMemory` (crates/oracle-automate-memory/src/lib.rs) keeps of a history of calls: the
-- newest entries of each session since it was last cleared.
use mathlib.Core.Path.{subst}
use mathlib.Core.List.{reverse-cons, reverse-append}
use oracle_automate.Prelude.{
  ℕ, zero, suc, ◌-◌, ◌≤◌, max, String, ◌≡◌, refl, sym, ap, ◌∙◌, inl, inr, Bool, true, false, Option,
  some, List, [], ◌∷◌, ◌++◌, reverse, length, length-append, length-take-le, take, arith, nat_eq,
  str_eq, eq_iff, Bool-cases, if◌then◌else◌,
}
use oracle_automate.Prelude.Map
use oracle_automate.Prelude.Map.{map_laws}
use oracle_automate.Memory.Entry.{MemoryEntry}
use oracle_automate.Memory.Working.{
  WorkingMemory, with_capacity, or_default, queue, pop_front, push_bounded, append, recent, clear,
}

pub data Call : Type 0 where
  appends : String → MemoryEntry → Call
  clears : String → Call

pub step : WorkingMemory → Call → WorkingMemory
step m (appends s e) = append m s e
step m (clears s) = clear m s

unfoldable pub run : WorkingMemory → List Call → WorkingMemory
unfolding step
run m [] = m
run m (c ∷ cs) = run (step m c) cs

-- The entries given to a session since it was last cleared, newest first, after those of `h`.
abbrev pub note_call : String → List MemoryEntry → Call → List MemoryEntry
note_call s h (appends j e) = if str_eq j s then e ∷ h else h
note_call s h (clears j) = if str_eq j s then [] else h

unfoldable pub history : String → List MemoryEntry → List Call → List MemoryEntry
history s h [] = h
history s h (c ∷ cs) = history s (note_call s h c) cs

module _ {ℓ} {A : Type ℓ} where
  length-reverse : (xs : List A) → length (reverse xs) ≡ length xs
  length-reverse [] = refl
  length-reverse (x ∷ xs) =
      omega (
        arith,
        ap length (reverse-cons x xs),
        length-append (reverse xs) (x ∷ []),
        length-reverse xs,
      )

  take-append_length : (xs ys : List A) → take (length xs) (xs ++ ys) ≡ xs
  take-append_length [] ys = refl
  take-append_length (x ∷ xs) ys = ap (◌∷◌ x) (take-append_length xs ys)

  take-take_pred : (n : ℕ) (xs : List A) → take n (take (suc n) xs) ≡ take n xs
  take-take_pred zero xs = refl
  take-take_pred (suc n) [] = refl
  take-take_pred (suc n) (x ∷ xs) = ap (◌∷◌ x) (take-take_pred n xs)

  take_short : (n : ℕ) (xs : List A) → length (take (suc n) xs) ≤ n → take (suc n) xs ≡ take n xs
  take_short zero [] h = refl
  take_short zero (x ∷ xs) h = absurd (omega arith)
  take_short (suc n) [] h = refl
  take_short (suc n) (x ∷ xs) h = ap (◌∷◌ x) (take_short n xs (omega arith))

  -- Dropping the oldest is keeping all but the last of the newest first.
  reverse-pop_front :
      (n : ℕ) (q : List A) → length q ≡ suc n → reverse (pop_front q) ≡ take n (reverse q)
  reverse-pop_front n [] h = absurd (omega arith)
  reverse-pop_front n (x ∷ xs) h =
      let e : n ≡ length (reverse xs) = omega (arith, length-reverse xs) in
      rw (reverse-cons x xs, e) (sym (take-append_length (reverse xs) (x ∷ [])))

  reverse-snoc : (xs : List A) (x : A) → reverse (xs ++ x ∷ []) ≡ x ∷ reverse xs
  reverse-snoc xs x = reverse-append xs (x ∷ [])

-- One push keeps the queue the window of the history.
push_bounded-window :
    (n : ℕ) (q h : List MemoryEntry) (e : MemoryEntry)
    → reverse q ≡ take (suc n) h
    → reverse (push_bounded (suc n) q e) ≡ take (suc n) (e ∷ h)
unfolding push_bounded
push_bounded-window n q h e w = elim (Bool-cases (nat_eq (length q) (suc n))) [
  | inl full ↦
      let e1 : length q ≡ suc n = ground arith in
      rw full (
        reverse-snoc (pop_front q) e
        ∙ ap (◌∷◌ e) (reverse-pop_front n q e1 ∙ ap (take n) w ∙ take-take_pred n h))
  | inr room ↦
      let len : length q ≡ length (take (suc n) h) = sym (length-reverse q) ∙ ap length w in
      let short : length (take (suc n) h) ≤ n = ground (arith, length-take-le (suc n) h, len) in
      rw room (reverse-snoc q e ∙ ap (◌∷◌ e) (w ∙ take_short n h short))
]

-- Every session's queue is the newest `cap` entries of its history.
pub record Tracks (cap : ℕ) (m : WorkingMemory) (h : String → List MemoryEntry) : Type 0 where
  pub cap_eq : m.cap ≡ cap
  pub window : (s : String) → reverse (queue s m) ≡ take cap (h s)

or_default_if :
    (b : Bool) (q : List MemoryEntry) (o : Option (List MemoryEntry))
    → or_default (if b then some q else o) ≡ (if b then q else or_default o)
or_default_if true q o = refl
or_default_if false q o = refl

window_of_cap :
    (cap n : ℕ) (q h : List MemoryEntry) (e : MemoryEntry)
    → cap ≡ suc n
    → reverse q ≡ take (suc n) h
    → reverse (push_bounded cap q e) ≡ take (suc n) (e ∷ h)
window_of_cap cap n q h e c w = rw c (push_bounded-window n q h e w)

append-Tracks :
    (n : ℕ) (m : WorkingMemory) (h : String → List MemoryEntry) (j : String) (e : MemoryEntry)
    → Tracks (suc n) m h
    → Tracks (suc n) (append m j e) (λ s. note_call s (h s) (appends j e))
unfolding append
append-Tracks n m h j e t = record {
  cap_eq = t.cap_eq;
  window = λ s. elim (Bool-cases (str_eq j s)) [
    | inl same ↦
        rw (Map.get-insert, same)
          (window_of_cap m.cap n (queue j m) (h s) e t.cap_eq (
            subst (λ i. reverse (queue i m) ≡ take (suc n) (h s)) (sym ((eq_iff j s).0 same))
              (t.window s)))
    | inr other ↦ rw (Map.get-insert, other) (t.window s)
  ];
}

clear-Tracks :
    (n : ℕ) (m : WorkingMemory) (h : String → List MemoryEntry) (j : String)
    → Tracks (suc n) m h
    → Tracks (suc n) (clear m j) (λ s. note_call s (h s) (clears j))
unfolding clear
clear-Tracks n m h j t = record {
  cap_eq = t.cap_eq;
  window = λ s. elim (Bool-cases (str_eq j s)) [
    | inl same ↦ rw (Map.get-remove, same)
    | inr other ↦ rw (Map.get-remove, other) (t.window s)
  ];
}

step-Tracks :
    (n : ℕ) (m : WorkingMemory) (h : String → List MemoryEntry) (c : Call)
    → Tracks (suc n) m h
    → Tracks (suc n) (step m c) (λ s. note_call s (h s) c)
unfolding step
step-Tracks n m h (appends j e) t = append-Tracks n m h j e t
step-Tracks n m h (clears j) t = clear-Tracks n m h j t

run-Tracks :
    (n : ℕ) (m : WorkingMemory) (h : String → List MemoryEntry) (cs : List Call)
    → Tracks (suc n) m h
    → Tracks (suc n) (run m cs) (λ s. history s (h s) cs)
unfolding run history
run-Tracks n m h [] t = t
run-Tracks n m h (c ∷ cs) t = run-Tracks n (step m c) _ cs (step-Tracks n m h c t)

recent_within :
    (cap n limit : ℕ) (s : String) (cs : List Call)
    → max cap 1 ≡ suc n
    → recent (run (with_capacity cap) cs) s limit ≡ take limit (take (suc n) (history s [] cs))
unfolding recent with_capacity Map.get
recent_within cap n limit s cs e =
    ap (take limit) ((run-Tracks n (with_capacity cap) (λ j. []) cs start).window s)
  where
    start : Tracks (suc n) (with_capacity cap) (λ j. [])
    start = record { cap_eq = e; window = λ j. refl }

-- After any calls on a fresh memory, a session's recent entries are the newest of those appended to
-- it since it was last cleared, at most `limit` and at most the capacity (one, if that is zero),
-- whatever the other sessions did.
pub recent-run :
    (cap limit : ℕ) (s : String) (cs : List Call)
    → recent (run (with_capacity cap) cs) s limit ≡ take limit (take (max cap 1) (history s [] cs))
recent-run cap limit s cs =
    let e : max cap 1 ≡ suc (max cap 1 - 1) = omega arith in
    recent_within cap (max cap 1 - 1) limit s cs e
    ∙ ap (λ k. take limit (take k (history s [] cs))) (sym e)
