-- ===== src/Ingest/Chunker/Searches.antt =====
-- crates/oracle-automate-ingest/src/chunker.rs: where the searches of `split_text` for an end, and its
-- walks to a boundary, come out.
use oracle_automate.Prelude.{
  ℕ, zero, suc, ◌+◌, ◌-◌, ◌/◌, ◌≤◌, ◌<◌, min, max, ◌≡◌, refl, sym, ap, ◌∙◌, Bool-cases, true, false,
  inl, inr, Option, none, some, length, get_elem?, ltb, nat_eq, arith,
}
use oracle_automate.Ingest.Chunker.{
  Bytes, goes_on, ends_at, is_among, is_gap, sentence_down, find_sentence_end, space_down,
  find_space, or_at, or_space, up_to_boundary, cut_at,
}

-- A result that is none or lies between two bounds.
abbrev Between : ℕ → ℕ → Option ℕ → Type 0
Between low high none = Unit
Between low high (some i) = (low ≤ i) × (i ≤ high)

Between-weaken :
    (low low' high high' : ℕ) (o : Option ℕ)
    → low' ≤ low
    → high ≤ high'
    → Between low high o
    → Between low' high' o
Between-weaken low low' high high' none l h w = tt
Between-weaken low low' high high' (some i) l h w = (omega (arith, l, w.0), omega (arith, h, w.1))

sentence_down-Between :
    (bytes : Bytes) (from i : ℕ) → Between (from + 2) i (sentence_down bytes from i)
unfolding sentence_down
sentence_down-Between bytes from zero = tt
sentence_down-Between bytes from (suc zero) = tt
sentence_down-Between bytes from (suc (suc i)) = elim (Bool-cases (ltb (from + 1) (suc (suc i)))) [
  | inl in_ ↦ elim (Bool-cases (ends_at bytes i)) [
    | inl ends ↦ rw (in_, ends) (ground (arith, in_), omega arith)
    | inr on ↦
        rw (in_, on)
          (Between-weaken (from + 2) (from + 2) (suc i) (suc (suc i))
            (sentence_down bytes from (suc i)) (omega arith) (omega arith)
            (sentence_down-Between bytes from (suc i)))
  ]
  | inr out ↦ rw out tt
]

space_down-Between :
    (bytes : Bytes) (to i : ℕ)
    → i ≤ to
    → to - i ≤ 200
    → Between (to - 200) i (space_down bytes to i)
unfolding space_down
space_down-Between bytes to zero h near = tt
space_down-Between bytes to (suc i) h near =
    elim (Bool-cases (is_among is_gap (get_elem? bytes i))) [
      | inl gap ↦ rw gap (omega (arith, near), omega arith)
      | inr no_gap ↦ elim (Bool-cases (ltb 200 (to - i))) [
        | inl far ↦ rw (no_gap, far) tt
        | inr close ↦
            rw (no_gap, close)
              (Between-weaken (to - 200) (to - 200) i (suc i) (space_down bytes to i) (omega arith)
                (omega arith)
                (space_down-Between bytes to i (omega (arith, h)) (ground (arith, close))))
      ]
    ]

pub up_to_boundary-le : (bytes : Bytes) (fuel i : ℕ) → i ≤ up_to_boundary bytes fuel i
unfolding up_to_boundary
up_to_boundary-le bytes zero i = omega arith
up_to_boundary-le bytes (suc fuel) i = elim (Bool-cases (goes_on bytes i)) [
  | inl more ↦ rw more (omega (arith, up_to_boundary-le bytes fuel (i + 1)))
  | inr done_ ↦ rw done_ (omega arith)
]

strictly :
    (bytes : Bytes) (i e : ℕ) → i ≤ e → goes_on bytes i ≡ true → goes_on bytes e ≡ false → i + 1 ≤ e
strictly bytes i e h more b = elim (Bool-cases (nat_eq i e)) [
  | inl same ↦
      let at : i ≡ e = ground (arith, same) in
      let clash : true ≡ false = sym more ∙ ap (goes_on bytes) at ∙ b in absurd cc
  | inr other ↦ ground (arith, other, h)
]

pub goes_on-end : (bytes : Bytes) (i : ℕ) → length bytes ≤ i → goes_on bytes i ≡ false
unfolding goes_on
goes_on-end bytes i h = elim (Bool-cases (ltb i (length bytes))) [
  | inl b ↦ absurd (ground (arith, b, h))
  | inr b ↦ rw b refl
]

-- The walk does not pass a boundary.
pub up_to_boundary-stops :
    (bytes : Bytes) (fuel i e : ℕ)
    → i ≤ e
    → goes_on bytes e ≡ false
    → up_to_boundary bytes fuel i ≤ e
unfolding up_to_boundary
up_to_boundary-stops bytes zero i e h b = h
up_to_boundary-stops bytes (suc fuel) i e h b = elim (Bool-cases (goes_on bytes i)) [
  | inl more ↦ rw more (up_to_boundary-stops bytes fuel (i + 1) e (strictly bytes i e h more b) b)
  | inr done_ ↦ rw done_ h
]

-- It ends at a boundary, if the fuel reaches the end of the text.
pub up_to_boundary-ends :
    (bytes : Bytes) (fuel i : ℕ)
    → length bytes ≤ i + fuel
    → goes_on bytes (up_to_boundary bytes fuel i) ≡ false
unfolding up_to_boundary
up_to_boundary-ends bytes zero i h = goes_on-end bytes i (omega (arith, h))
up_to_boundary-ends bytes (suc fuel) i h = elim (Bool-cases (goes_on bytes i)) [
  | inl more ↦ rw more (up_to_boundary-ends bytes fuel (i + 1) (omega (arith, h)))
  | inr done_ ↦ rw done_ done_
]

find_sentence_end-Between :
    (bytes : Bytes) (from to start : ℕ)
    → start ≤ from
    → start < to
    → start < length bytes
    → Between (start + 1) (min to (length bytes)) (find_sentence_end bytes from to)
unfolding find_sentence_end
find_sentence_end-Between bytes from to start a b c =
    let to' = min to (length bytes) in
    Between-weaken (min from to' + 2) (start + 1) to' to' (sentence_down bytes (min from to') to')
      (omega (arith, a, b, c)) (omega arith) (sentence_down-Between bytes (min from to') to')

find_space-Between :
    (bytes : Bytes) (to : ℕ)
    → Between (min to (length bytes) - 200) (min to (length bytes)) (find_space bytes to)
unfolding find_space
find_space-Between bytes to =
    space_down-Between bytes (min to (length bytes)) (min to (length bytes)) (omega arith)
      (omega arith)

or_at-inside :
    (i low high : ℕ) (o : Option ℕ)
    → Between low high o
    → low ≤ i
    → i ≤ high
    → (low ≤ or_at i o) × (or_at i o ≤ high)
or_at-inside i low high none w l h = (l, h)
or_at-inside i low high (some j) w l h = w

or_space-inside :
    (bytes : Bytes) (end_ start : ℕ) (o : Option ℕ)
    → Between (start + 1) (length bytes) o
    → start + 200 < end_
    → end_ ≤ length bytes
    → (start < or_space bytes end_ o) × (or_space bytes end_ o ≤ length bytes)
unfolding or_space
or_space-inside bytes end_ start (some b) w far inside = (omega (arith, w.0), w.1)
or_space-inside bytes end_ start none w far inside =
    let r =
      or_at-inside end_ (start + 1) (length bytes) (find_space bytes end_)
        (Between-weaken _ (start + 1) _ (length bytes) (find_space bytes end_)
          (omega (arith, far, inside)) (omega arith) (find_space-Between bytes end_))
        (omega (arith, far)) inside in
    (omega (arith, r.0), r.1)

-- Before its move to a boundary, the end of a piece lies after its start and in the text.
pub cut_at-inside :
    (bytes : Bytes) (target start : ℕ)
    → 200 < target
    → start < length bytes
    → (start < cut_at bytes target start) × (cut_at bytes target start ≤ length bytes)
unfolding cut_at
cut_at-inside bytes target start long less =
    let end_ = min (start + target) (length bytes) in
    elim (Bool-cases (ltb end_ (length bytes))) [
      | inl inner ↦
          let at : end_ ≡ start + target = ground (arith, inner) in
          rw inner (
            or_space-inside bytes end_ start _
              (Between-weaken (start + 1) (start + 1) _ (length bytes) _ (omega arith) (omega arith)
                (find_sentence_end-Between bytes (max (end_ - 200) (start + target / 2)) end_ start
                  (omega arith) (omega (arith, at, long)) less))
              (omega (arith, at, long)) (omega arith))
      | inr last ↦ rw last (omega (arith, long, less), omega arith)
    ]
