-- ===== src/Ingest/Robots/Deciding.antt =====
-- What `is_allowed` of crates/oracle-automate-ingest/src/robots.rs decides, in terms of the rules of
-- the group.
use mathlib.Core.Path.{subst}
use oracle_automate.Prelude.{
  ℕ, ◌≤◌, ◌<◌, ◌≡◌, refl, sym, ◌↔◌, inl, inr, true, false, Option, none, some, List, [], ◌∷◌, All,
  Any, leb, max, arith, Bool-cases, Option-cases,
}
use oracle_automate.Text.Codes.{Codes, is_prefix, byte_length}
use oracle_automate.Ingest.Robots.{
  disallowed, Group, RobotsTxt, longest_of, longest_prefix_match, matching_group, rules_of, decide,
  is_allowed,
}

-- The rules of one kind for an agent; none if no group matches.
abbrev pub rules_for : Option Group → (Group → List Codes) → List Codes
rules_for none field = []
rules_for (some g) field = field g

-- A rule applies to a path and is longer than every rule of the other kind that applies.
abbrev pub Outranks : Codes → List Codes → Codes → Type 0
Outranks path others r =
    (is_prefix r path ≡ true)
    × All (λ a. is_prefix a path ≡ true → byte_length a < byte_length r) others

abbrev pub Bounds : Codes → ℕ → Codes → Type 0
Bounds path n r = is_prefix r path ≡ true → byte_length r ≤ n

All-weaken :
    (path : Codes) (n k : ℕ) (rs : List Codes)
    → n ≤ k
    → All (Bounds path n) rs
    → All (Bounds path k) rs
All-weaken path n k [] h a = a
All-weaken path n k (r ∷ rs) h a = ((λ p. omega (arith, a.0 p, h)), All-weaken path n k rs h a.1)

All-vacuous :
    (path : Codes) (n : ℕ) (rs : List Codes)
    → All (λ r. is_prefix r path ≡ false) rs
    → All (Bounds path n) rs
All-vacuous path n [] a = tt
All-vacuous path n (r ∷ rs) a = ((λ p. ground arith), All-vacuous path n rs a.1)

-- No rule applies.
longest_of-none :
    (rs : List Codes) (path : Codes)
    → longest_of rs path ≡ none
    → All (λ r. is_prefix r path ≡ false) rs
unfolding longest_of
longest_of-none [] path h = tt
longest_of-none (r ∷ rs) path h = elim (Bool-cases (is_prefix r path)) [
  | inl hit ↦ absurd (elim (Option-cases (longest_of rs path)) [
    | inl e ↦ ground arith
    | inr (k, e) ↦ ground arith
  ])
  | inr miss ↦ (miss, longest_of-none rs path (ground arith))
]

-- The length of a longest rule that applies.
longest_of-some :
    (rs : List Codes) (path : Codes) (n : ℕ)
    → longest_of rs path ≡ some n
    → Any (λ r. (is_prefix r path ≡ true) × (byte_length r ≡ n)) rs × All (Bounds path n) rs
unfolding longest_of
longest_of-some [] path n h = cc
longest_of-some (r ∷ rs) path n h = elim (Bool-cases (is_prefix r path)) [
  | inl hit ↦ elim (Option-cases (longest_of rs path)) [
    | inl e ↦
        let le : byte_length r ≡ n = ground arith in
        (
          inl (hit, le),
          ((λ p. omega (arith, le)), All-vacuous path n rs (longest_of-none rs path e)),
        )
    | inr (k, e) ↦
        let largest : max (byte_length r) k ≡ n = ground arith in
        let (found, bounds) = longest_of-some rs path k e in
        let rest : All (Bounds path n) rs =
          All-weaken path k n rs (omega (arith, largest)) bounds in
        elim (Bool-cases (leb k (byte_length r))) [
          | inl longer ↦
              (inl (hit, ground (arith, largest, longer)), ((λ p. omega (arith, largest)), rest))
          | inr shorter ↦
              let same : n ≡ k = ground (arith, largest, shorter) in
              (
                inr (
                    subst (λ x. Any (λ q. (is_prefix q path ≡ true) × (byte_length q ≡ x)) rs)
                      (sym same) found),
                ((λ p. omega (arith, largest)), rest),
              )
        ]
  ]
  | inr miss ↦
      let (found, bounds) = longest_of-some rs path n (ground arith) in
      (inr found, ((λ p. ground arith), bounds))
]

-- Every rule that applies is shorter.
All-shorter :
    (path : Codes) (n : ℕ) (r : Codes) (rs : List Codes)
    → n < byte_length r
    → All (Bounds path n) rs
    → All (λ a. is_prefix a path ≡ true → byte_length a < byte_length r) rs
All-shorter path n r [] h a = tt
All-shorter path n r (x ∷ xs) h a = ((λ p. omega (arith, a.0 p, h)), All-shorter path n r xs h a.1)

All-unmatched :
    (path : Codes) (r : Codes) (rs : List Codes)
    → All (λ a. is_prefix a path ≡ false) rs
    → All (λ a. is_prefix a path ≡ true → byte_length a < byte_length r) rs
All-unmatched path r [] a = tt
All-unmatched path r (x ∷ xs) a = ((λ p. ground arith), All-unmatched path r xs a.1)

-- The longest rule that applies outranks the rules that are shorter than it.
Any-Outranks :
    (path : Codes) (others : List Codes) (n : ℕ) (rs : List Codes)
    → ((r : Codes)
        → byte_length r ≡ n
        → All (λ a. is_prefix a path ≡ true → byte_length a < byte_length r) others)
    → Any (λ r. (is_prefix r path ≡ true) × (byte_length r ≡ n)) rs
    → Any (Outranks path others) rs
Any-Outranks path others n [] f a = a
Any-Outranks path others n (r ∷ rs) f (inl (p, e)) = inl (p, f r e)
Any-Outranks path others n (r ∷ rs) f (inr a) = inr (Any-Outranks path others n rs f a)

Any-unmatched :
    (path : Codes) (others rs : List Codes)
    → All (λ r. is_prefix r path ≡ false) rs
    → Any (Outranks path others) rs
    → ⊥
Any-unmatched path others [] a f = f
Any-unmatched path others (r ∷ rs) a (inl (p, q)) = ground (arith, a.0)
Any-unmatched path others (r ∷ rs) a (inr f) = Any-unmatched path others rs a.1 f

-- A rule that outranks them all is longer than one of them that applies.
outranked-longer :
    (path : Codes) (n : ℕ) (r : Codes) (al : List Codes)
    → All (λ a. is_prefix a path ≡ true → byte_length a < byte_length r) al
    → Any (λ a. (is_prefix a path ≡ true) × (byte_length a ≡ n)) al
    → n < byte_length r
outranked-longer path n r [] q f = absurd f
outranked-longer path n r (a ∷ al) q (inl (p, e)) = omega (arith, q.0 p, e)
outranked-longer path n r (a ∷ al) q (inr f) = outranked-longer path n r al q.1 f

outranking-exceeds :
    (path : Codes) (n k : ℕ) (al ds : List Codes)
    → Any (λ a. (is_prefix a path ≡ true) × (byte_length a ≡ n)) al
    → All (Bounds path k) ds
    → Any (Outranks path al) ds
    → n < k
outranking-exceeds path n k al [] f b d = absurd d
outranking-exceeds path n k al (r ∷ ds) f b (inl (p, q)) =
    omega (arith, outranked-longer path n r al q f, b.0 p)
outranking-exceeds path n k al (r ∷ ds) f b (inr d) = outranking-exceeds path n k al ds f b.1 d

decide_lem :
    (al ds : List Codes) (path : Codes)
    → (decide (longest_of al path) (longest_of ds path) ≡ disallowed) ↔ Any (Outranks path al) ds
unfolding decide
decide_lem al ds path = elim (Option-cases (longest_of ds path)) [
  | inl e ↦ (
    (λ h. absurd (elim (Option-cases (longest_of al path)) [
      | inl e' ↦ ground arith
      | inr (n, e') ↦ ground arith
    ])),
    λ d. absurd (Any-unmatched path al ds (longest_of-none ds path e) d),
  )
  | inr (k, e) ↦
      let (found, bounds) = longest_of-some ds path k e in
      elim (Option-cases (longest_of al path)) [
        | inl e' ↦ (
          (λ h.
              Any-Outranks path al k ds
                (λ r l. All-unmatched path r al (longest_of-none al path e')) found),
          λ d. rw (e, e') refl,
        )
        | inr (n, e') ↦
            let (found_a, bounds_a) = longest_of-some al path n e' in
            (
              (λ h.
                  let less : n < k = ground arith in
                  Any-Outranks path al k ds
                    (λ r l. All-shorter path n r al (omega (arith, less, l)) bounds_a) found),
              λ d.
                  let less : n < k = outranking-exceeds path n k al ds found_a bounds d in
                  rw (e, e') (ground (arith, less)),
            )
      ]
]

longest_prefix_match-rules_for :
    (field : Group → List Codes) (g : Option Group) (path : Codes)
    → longest_prefix_match (rules_of field g) path ≡ longest_of (rules_for g field) path
unfolding longest_prefix_match longest_of
longest_prefix_match-rules_for field none path = refl
longest_prefix_match-rules_for field (some g) path = refl

-- A path is refused exactly when some Disallow rule of the agent's group is a prefix of it and is
-- longer than every Allow rule of the group that is one: the longest rule wins, a tie allows, and
-- without a rule that applies or without a group the path is allowed.
pub is_allowed-disallowed :
    (r : RobotsTxt) (agent path : Codes)
    → (is_allowed r agent path ≡ disallowed)
      ↔ Any
          (Outranks path (rules_for (matching_group r agent) Group.allow))
          (rules_for (matching_group r agent) Group.disallow)
unfolding is_allowed
is_allowed-disallowed r agent path =
    let g = matching_group r agent in
    rw
      (
        longest_prefix_match-rules_for Group.allow g path,
        longest_prefix_match-rules_for Group.disallow g path,
      )
      (decide_lem (rules_for g Group.allow) (rules_for g Group.disallow) path)
