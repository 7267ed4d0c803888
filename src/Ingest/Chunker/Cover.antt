-- ===== src/Ingest/Chunker/Cover.antt =====
-- crates/oracle-automate-ingest/src/chunker.rs: the pieces cover the text, and the loop ends.
use oracle_automate.Prelude.{
  ℕ, zero, suc, ◌+◌, ◌-◌, ◌≤◌, ◌<◌, max, ◌≡◌, Bool-cases, false, inl, inr, List, [], ◌∷◌, length,
  ltb, leb, arith,
}
use oracle_automate.Ingest.Chunker.{
  Bytes, goes_on, to_boundary, cut_at, piece_end, next_start, Pieces, cut, panicked, out_of_fuel,
  add_piece, split_from, split_ranges,
}
use oracle_automate.Ingest.Chunker.Searches.{
  up_to_boundary-le, goes_on-end, up_to_boundary-stops, up_to_boundary-ends, cut_at-inside,
}

-- Ranges that leave no byte from `k` on out, each of them not empty and in the text.
unfoldable pub Covers : ℕ → ℕ → List (ℕ × ℕ) → Type 0
Covers k n [] = n ≤ k
Covers k n ((start, end_) ∷ rs) = (start ≤ k) × (start < end_) × (end_ ≤ n) × Covers end_ n rs

abbrev pub IsCut : (List (ℕ × ℕ) → Type 0) → Pieces → Type 0
IsCut P (cut rs) = P rs
IsCut P panicked = ⊥
IsCut P out_of_fuel = ⊥

add_piece-IsCut :
    (k n start end_ : ℕ) (p : Pieces)
    → start ≤ k
    → start < end_
    → end_ ≤ n
    → IsCut (Covers end_ n) p
    → IsCut (Covers k n) (add_piece start end_ p)
unfolding Covers
add_piece-IsCut k n start end_ (cut rs) a b c w = (a, b, c, w)
add_piece-IsCut k n start end_ panicked a b c w = elim w [ ]
add_piece-IsCut k n start end_ out_of_fuel a b c w = elim w [ ]

piece_end-inside :
    (bytes : Bytes) (target start : ℕ)
    → 200 < target
    → start < length bytes
    → (start < piece_end bytes target start)
      × (piece_end bytes target start ≤ length bytes)
      × (goes_on bytes (piece_end bytes target start) ≡ false)
unfolding piece_end to_boundary
piece_end-inside bytes target start long less =
    let c = cut_at-inside bytes target start long less in
    let i = cut_at bytes target start in
    let fuel = length bytes - i in
    (
      omega (arith, c.0, up_to_boundary-le bytes fuel i),
      up_to_boundary-stops bytes fuel i (length bytes) c.1
          (goes_on-end bytes (length bytes) (omega arith)),
      up_to_boundary-ends bytes fuel i (omega (arith, c.1)),
    )

next_start-inside :
    (bytes : Bytes) (overlap start end_ : ℕ)
    → start < end_
    → goes_on bytes end_ ≡ false
    → (start < next_start bytes overlap start end_) × (next_start bytes overlap start end_ ≤ end_)
unfolding next_start to_boundary
next_start-inside bytes overlap start end_ less b =
    let i = start + max (end_ - start - overlap) 1 in
    let fuel = length bytes - i in
    (
      omega (arith, up_to_boundary-le bytes fuel i),
      up_to_boundary-stops bytes fuel i end_ (omega (arith, less)) b,
    )

split_from-Covers :
    (bytes : Bytes) (target overlap fuel start k : ℕ)
    → 200 < target
    → length bytes ≤ start + fuel
    → start ≤ k
    → IsCut (Covers k (length bytes)) (split_from bytes target overlap fuel start)
unfolding split_from Covers
split_from-Covers bytes target overlap zero start k long enough behind =
    elim (Bool-cases (ltb start (length bytes))) [
      | inl more ↦ absurd (ground (arith, more, enough))
      | inr over ↦ rw over (ground (arith, over, behind))
    ]
split_from-Covers bytes target overlap (suc fuel) start k long enough behind =
    elim (Bool-cases (ltb start (length bytes))) [
      | inr over ↦ rw over (ground (arith, over, behind))
      | inl more ↦
          let end_ = piece_end bytes target start in
          let e = piece_end-inside bytes target start long (ground (arith, more)) in
          let s = next_start-inside bytes overlap start end_ e.0 e.2 in
          let forward : ltb end_ start ≡ false = ground (arith, e.0) in
          elim (Bool-cases (leb (length bytes) end_)) [
            | inl last ↦ rw (more, forward, last) (behind, e.0, e.1, ground (arith, last))
            | inr inner ↦
                rw (more, forward, inner)
                  (add_piece-IsCut k (length bytes) start end_ _ behind e.0 e.1 (
                    split_from-Covers bytes target overlap fuel
                      (next_start bytes overlap start end_) end_ long (omega (arith, enough, s.0))
                      s.1))
          ]
    ]

-- With a target of more than 200 bytes the loop ends and no slice panics, and its pieces, none of
-- them empty, leave out no byte of the text, whatever the overlap.
pub split_ranges-Covers :
    (bytes : Bytes) (target overlap : ℕ)
    → 200 < target
    → IsCut (Covers 0 (length bytes)) (split_ranges bytes target overlap)
unfolding split_ranges
split_ranges-Covers bytes target overlap long =
    split_from-Covers bytes target overlap (length bytes) 0 0 long (omega arith) (omega arith)
