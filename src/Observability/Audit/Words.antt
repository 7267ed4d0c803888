-- ===== src/Observability/Audit/Words.antt =====
-- crates/oracle-automate-observability/src/audit.rs: which keys count as sensitive.
use oracle_automate.Prelude.{
  String, ◌≡◌, refl, ap, ◌↔◌, ◌⊎◌, inl, inr, true, Bool-cases, List, [], ◌∷◌, ◌++◌, nat_eq_iff,
  arith,
}
use oracle_automate.Text.{codes}
use oracle_automate.Text.Codes.{Codes, is_prefix}
use oracle_automate.Observability.Audit.{contains, any_of, is_sensitive}

-- A text holds another one.
abbrev pub Contains : Codes → Codes → Type 0
Contains text part = (before after : Codes) × (text ≡ before ++ part ++ after)

is_prefix_iff :
    (part text : Codes) → (is_prefix part text ≡ true) ↔ ((after : Codes) × (text ≡ part ++ after))
is_prefix_iff [] text = (λ h. (text, refl), λ w. refl)
is_prefix_iff (c ∷ cs) [] = (λ h. absurd cc, λ w. absurd cc)
is_prefix_iff (c ∷ cs) (d ∷ ds) =
    let i = is_prefix_iff cs ds in
    (
      λ h.
          let (after, e) = i.0 (ground (arith, h)) in
          let same : d ≡ c = ground (arith, h, nat_eq_iff c d) in (after, cc),
      λ (after, e).
          let tail : ds ≡ cs ++ after = ground arith in
          let prefix = i.1 (after, tail) in
          let same : d ≡ c = ground arith in ground (arith, prefix, same),
    )

contains-Contains : (text part : Codes) → contains text part ≡ true → Contains text part
unfolding contains
contains-Contains [] part h = let (after, e) = (is_prefix_iff part []).0 h in ([], after, e)
contains-Contains (c ∷ cs) part h = elim (Bool-cases (is_prefix part (c ∷ cs))) [
  | inl here ↦ let (after, e) = (is_prefix_iff part (c ∷ cs)).0 here in ([], after, e)
  | inr later ↦
      let (before, after, e) = contains-Contains cs part (ground (arith, h, later)) in
      (c ∷ before, after, ap (◌∷◌ c) e)
]

Contains-contains :
    (text part before after : Codes) → text ≡ before ++ part ++ after → contains text part ≡ true
unfolding contains
Contains-contains [] part [] after e = (is_prefix_iff part []).1 (after, e)
Contains-contains [] part (b ∷ bs) after e = absurd cc
Contains-contains (c ∷ cs) part [] after e =
    let here = (is_prefix_iff part (c ∷ cs)).1 (after, e) in rw here refl
Contains-contains (c ∷ cs) part (b ∷ bs) after e =
    let tail : cs ≡ bs ++ part ++ after = ground arith in
    let later = Contains-contains cs part bs after tail in ground (arith, later)

-- The keys whose values are secret.
abbrev pub secret_words : List String
secret_words =
    "password" ∷ "passwd" ∷ "secret" ∷ "token" ∷ "api_key" ∷ "apikey" ∷ "_pwd" ∷ "_pass"
    ∷ "credential" ∷ []

abbrev pub HoldsOne : Codes → List String → Type 0
HoldsOne key [] = ⊥
HoldsOne key (w ∷ ws) = Contains key (codes w) ⊎ HoldsOne key ws

any_of-HoldsOne : (words : List String) (key : Codes) → any_of words key ≡ true → HoldsOne key words
unfolding codes
any_of-HoldsOne [] key h = absurd cc
any_of-HoldsOne (w ∷ ws) key h = elim (Bool-cases (contains key (codes w))) [
  | inl here ↦ inl (contains-Contains key (codes w) here)
  | inr later ↦ inr (any_of-HoldsOne ws key (rw later at h))
]

HoldsOne-any_of : (words : List String) (key : Codes) → HoldsOne key words → any_of words key ≡ true
unfolding codes
HoldsOne-any_of [] key h = absurd h
HoldsOne-any_of (w ∷ ws) key (inl (before, after, e)) =
    let here = Contains-contains key (codes w) before after e in rw here refl
HoldsOne-any_of (w ∷ ws) key (inr h) = let later = HoldsOne-any_of ws key h in ground (arith, later)

module _ (to_lowercase : String → String) where
  -- In lower case the key holds one of the secret words.
  unfoldable pub IsSecret : String → Type 0
  unfolding codes
  IsSecret k = HoldsOne (codes (to_lowercase k)) secret_words

  pub is_sensitive-IsSecret : (k : String) → (is_sensitive to_lowercase k ≡ true) ↔ IsSecret k
  unfolding is_sensitive IsSecret
  is_sensitive-IsSecret k = (
    any_of-HoldsOne secret_words (codes (to_lowercase k)),
    HoldsOne-any_of secret_words (codes (to_lowercase k)),
  )
