-- ===== src/Ingest/Robots/Grouping.antt =====
-- Which group of a robots.txt `matching_group` of crates/oracle-automate-ingest/src/robots.rs takes.
use oracle_automate.Prelude.{
  ℕ, ◌≤◌, ◌≡◌, ◌≢◌, ◌⊎◌, inl, inr, All, Any, Bool, true, false, not, ◌&&◌, Option, none, some, [],
  ◌∷◌, ltb, arith, Bool-cases, Option-cases,
}
use oracle_automate.Prelude.Map
use oracle_automate.Text.{codes}
use oracle_automate.Text.Codes.{
  Codes, codes_eq, codes_Eq, is_prefix, byte_length, to_ascii_lowercase,
}
use oracle_automate.Ingest.Robots.{Group, RobotsTxt, best_prefix, matching_group}

-- The name of a group that stands for an agent: not the wildcard, and a prefix of the agent's name.
abbrev pub candidate : Codes → Codes → Bool
candidate ua agent = not (codes_eq agent (codes "*")) && is_prefix agent ua

-- No candidate among the groups is longer than a length.
abbrev pub Longest : Codes → ℕ → Map.Map Codes Group → Type 0
Longest ua n groups = All (λ p. candidate ua (p.0) ≡ true → byte_length (p.0) ≤ n) groups

abbrev Reaches : Option (ℕ × Group) → ℕ → Type 0
Reaches none n = Unit {0}
Reaches (some (k, g)) n = k ≤ n

-- The loop ends on the best group so far or on one of the groups, and on a longest one.
best_prefix_lem :
    (ua : Codes) (groups : Map.Map Codes Group) (best : Option (ℕ × Group)) (n : ℕ) (g : Group)
    → best_prefix ua groups best ≡ some (n, g)
    → ((best ≡ some (n, g))
        ⊎ Any (λ p. (candidate ua (p.0) ≡ true) × (byte_length (p.0) ≡ n) × (p.1 ≡ g)) groups)
      × Reaches best n
      × Longest ua n groups
unfolding best_prefix
best_prefix_lem ua [] none n g h = (inl h, tt, tt)
best_prefix_lem ua [] (some (k, b)) n g h = (inl h, ground (arith, h), tt)
best_prefix_lem ua ((agent, g') ∷ groups) none n g h = elim (Bool-cases (candidate ua agent)) [
  | inl stands ↦
      let (found, reach, longest) =
        best_prefix_lem ua groups (some (byte_length agent, g')) n g (ground arith) in
      (
        elim found [
          | inl e ↦ inr (inl (stands, ground (arith, e), ground (arith, e)))
          | inr f ↦ inr (inr f)
        ],
        tt,
        ((λ c. reach), longest),
      )
  | inr out ↦
      let (found, reach, longest) = best_prefix_lem ua groups none n g (ground arith) in
      (elim found [ inl e ↦ inl e | inr f ↦ inr (inr f) ], tt, ((λ c. ground arith), longest))
]
best_prefix_lem ua ((agent, g') ∷ groups) (some (k, b)) n g h =
    elim (Bool-cases (candidate ua agent && ltb k (byte_length agent))) [
      | inl longer ↦
          let (found, reach, longest) =
            best_prefix_lem ua groups (some (byte_length agent, g')) n g (ground arith) in
          (
            elim found [
              | inl e ↦ inr (inl (ground (arith, longer), ground (arith, e), ground (arith, e)))
              | inr f ↦ inr (inr f)
            ],
            ground (arith, longer, reach),
            ((λ c. reach), longest),
          )
      | inr out ↦
          let (found, reach, longest) =
            best_prefix_lem ua groups (some (k, b)) n g (ground arith) in
          (
            elim found [ inl e ↦ inl e | inr f ↦ inr (inr f) ],
            reach,
            ((λ c. ground (arith, out, c, reach)), longest),
          )
    ]

abbrev pub NoCandidate : Codes → Map.Map Codes Group → Type 0
NoCandidate ua groups = All (λ p. candidate ua (p.0) ≡ false) groups

best_prefix-some :
    (ua : Codes) (groups : Map.Map Codes Group) (n : ℕ) (g : Group)
    → best_prefix ua groups (some (n, g)) ≢ none
unfolding best_prefix
best_prefix-some ua [] n g = ground arith
best_prefix-some ua ((agent, g') ∷ groups) n g =
    elim (Bool-cases (candidate ua agent && ltb n (byte_length agent))) [
      | inl longer ↦ rw longer (best_prefix-some ua groups (byte_length agent) g')
      | inr out ↦ rw out (best_prefix-some ua groups n g)
    ]

best_prefix-none :
    (ua : Codes) (groups : Map.Map Codes Group)
    → best_prefix ua groups none ≡ none
    → NoCandidate ua groups
unfolding best_prefix
best_prefix-none ua [] h = tt
best_prefix-none ua ((agent, g) ∷ groups) h = elim (Bool-cases (candidate ua agent)) [
  | inl stands ↦
      absurd (best_prefix-some ua groups (byte_length agent) g (ground (arith, h, stands)))
  | inr out ↦ (out, best_prefix-none ua groups (ground (arith, h, out)))
]

-- A group whose name is a longest one that stands for the agent.
abbrev pub HasLongest : Codes → Map.Map Codes Group → Group → Type 0
HasLongest ua groups g =
    (n : ℕ) × Any (λ p. (candidate ua (p.0) ≡ true) × (byte_length (p.0) ≡ n) × (p.1 ≡ g)) groups
    × Longest ua n groups

-- What the group taken for an agent is.
abbrev pub Chosen : RobotsTxt → Codes → Option Group → Type 0
Chosen r ua none =
    (Map.get ua r.groups ≡ none) × NoCandidate ua r.groups × (Map.get (codes "*") r.groups ≡ none)
Chosen r ua (some g) =
    (Map.get ua r.groups ≡ some g)
    ⊎ ((Map.get ua r.groups ≡ none)
        × (HasLongest ua r.groups g
            ⊎ (NoCandidate ua r.groups × (Map.get (codes "*") r.groups ≡ some g))))

-- The group taken for an agent is the one of its own name in lower case, else one whose name is a
-- longest prefix of the agent's name that is not `*`, else the one of `*`; and when there is none,
-- all three are missing.
pub matching_group-Chosen :
    (r : RobotsTxt) (agent : Codes) → Chosen r (to_ascii_lowercase agent) (matching_group r agent)
unfolding matching_group
matching_group-Chosen r agent =
    let ua = to_ascii_lowercase agent in
    elim (Option-cases (Map.get ua r.groups)) [
      | inr (g, e) ↦ rw e (inl e)
      | inl e ↦ elim (Option-cases (best_prefix ua r.groups none)) [
        | inr ((n, g), b) ↦
            let (found, _, longest) = best_prefix_lem ua r.groups none n g b in
            rw (e, b)
              (inr (e, inl (n, elim found [ inl e0 ↦ absurd (ground arith) | inr f ↦ f ], longest)))
        | inl b ↦
            let missing : NoCandidate ua r.groups = best_prefix-none ua r.groups b in
            elim (Option-cases (Map.get (codes "*") r.groups)) [
              | inr (g, s) ↦ rw (e, b, s) (inr (e, inr (missing, s)))
              | inl s ↦ rw (e, b, s) (e, missing, s)
            ]
      ]
    ]
