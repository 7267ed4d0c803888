-- ===== src/Observability/Audit/Redaction.antt =====
-- What the redaction of crates/oracle-automate-observability/src/audit.rs removes and what it keeps,
-- place by place: a place in a value is the keys and the indices that lead to it.
use oracle_automate.Prelude.{
  ℕ, zero, suc, String, ◌≡◌, refl, ap, ◌∙◌, inl, inr, true, false, Bool-cases, Option, none, some,
  List, [], ◌∷◌, ◌++◌, str_eq, eq_iff,
}
use oracle_automate.Json.{
  Json, null, bool, num, str, arr, obj, Items, nil, cons, Fields, end, field, get_field, get_key,
  is_some,
}
use oracle_automate.Observability.Audit.Words.{IsSecret, is_sensitive-IsSecret}
use oracle_automate.Observability.Audit.{
  AuditEntry, is_sensitive, redact, redact_items, redact_fields, record_entry,
}

-- A step from a value to one inside it.
pub data Step : Type 0 where
  at_key : String → Step
  at_index : ℕ → Step

abbrev pub item_at : ℕ → Items → Option Json
item_at n nil = none
item_at zero (cons v vs) = some v
item_at (suc n) (cons v vs) = item_at n vs

abbrev pub child : Step → Json → Option Json
unfolding get_key
child (at_key k) v = get_key k v
child (at_index n) (arr vs) = item_at n vs
child (at_index n) _ = none

abbrev pub onward : List Step → Option Json → Option Json
unfolding child
onward [] o = o
onward (s ∷ p) none = none
onward (s ∷ p) (some v) = onward p (child s v)

-- The value at a place, if there is one.
abbrev pub value_at : List Step → Json → Option Json
unfolding onward
value_at p v = onward p (some v)

abbrev pub keys_of : Fields → List String
keys_of end = []
keys_of (field k v fs) = k ∷ keys_of fs

abbrev pub count_items : Items → ℕ
count_items nil = 0
count_items (cons v vs) = suc (count_items vs)

-- What a place shows by itself: its scalar, the number of its items, or its keys in order.
pub data Outline : Type 0 where
  scalar : Json → Outline
  array : ℕ → Outline
  object : List String → Outline

abbrev pub outline : Json → Outline
outline null = scalar null
outline (bool b) = scalar (bool b)
outline (num n) = scalar (num n)
outline (str s) = scalar (str s)
outline (arr vs) = array (count_items vs)
outline (obj fs) = object (keys_of fs)

abbrev pub outlined : Option Json → Option Outline
outlined none = none
outlined (some v) = some (outline v)

module _ (to_lowercase : String → String) where
  -- No key on the way is secret.
  abbrev pub IsClear : List Step → Type 0
  IsClear [] = Unit
  IsClear (at_key k ∷ p) = (IsSecret to_lowercase k → ⊥) × IsClear p
  IsClear (at_index n ∷ p) = IsClear p

  abbrev mapped : Option Json → Option Json
  unfolding redact
  mapped none = none
  mapped (some v) = some (redact to_lowercase v)

  clear_key : (k : String) → (IsSecret to_lowercase k → ⊥) → is_sensitive to_lowercase k ≡ false
  clear_key k clear = elim (Bool-cases (is_sensitive to_lowercase k)) [
    | inl hit ↦ absurd (clear ((is_sensitive-IsSecret to_lowercase k).0 hit))
    | inr miss ↦ miss
  ]

  get_field-clear :
      (k : String) (fs : Fields)
      → is_sensitive to_lowercase k ≡ false
      → get_field k (redact_fields to_lowercase fs) ≡ mapped (get_field k fs)
  unfolding redact get_field mapped
  get_field-clear k end clear = refl
  get_field-clear k (field j v fs) clear = elim (Bool-cases (str_eq j k)) [
    | inl same ↦
        let at_j : is_sensitive to_lowercase j ≡ false =
          ap (is_sensitive to_lowercase) ((eq_iff j k).0 same) ∙ clear in
        rw (same, at_j) refl
    | inr other ↦ rw other (get_field-clear k fs clear)
  ]

  get_field-secret :
      (k : String) (fs : Fields)
      → is_sensitive to_lowercase k ≡ true
      → is_some (get_field k fs) ≡ true
      → get_field k (redact_fields to_lowercase fs) ≡ some (str "***")
  unfolding redact get_field
  get_field-secret k end secret there = absurd cc
  get_field-secret k (field j v fs) secret there = elim (Bool-cases (str_eq j k)) [
    | inl same ↦
        let at_j : is_sensitive to_lowercase j ≡ true =
          ap (is_sensitive to_lowercase) ((eq_iff j k).0 same) ∙ secret in
        rw (same, at_j) refl
    | inr other ↦ rw other (get_field-secret k fs secret (rw other at there))
  ]

  item_at-redact :
      (n : ℕ) (vs : Items) → item_at n (redact_items to_lowercase vs) ≡ mapped (item_at n vs)
  unfolding redact mapped
  item_at-redact n nil = refl
  item_at-redact zero (cons v vs) = refl
  item_at-redact (suc n) (cons v vs) = item_at-redact n vs

  key-clear :
      (k : String) (v : Json)
      → is_sensitive to_lowercase k ≡ false
      → get_key k (redact to_lowercase v) ≡ mapped (get_key k v)
  unfolding redact get_key mapped
  key-clear k null clear = refl
  key-clear k (bool b) clear = refl
  key-clear k (num n) clear = refl
  key-clear k (str s) clear = refl
  key-clear k (arr vs) clear = refl
  key-clear k (obj fs) clear = get_field-clear k fs clear

  index-redact :
      (n : ℕ) (v : Json)
      → child (at_index n) (redact to_lowercase v) ≡ mapped (child (at_index n) v)
  unfolding redact child mapped
  index-redact n null = refl
  index-redact n (bool b) = refl
  index-redact n (num m) = refl
  index-redact n (str s) = refl
  index-redact n (arr vs) = item_at-redact n vs
  index-redact n (obj fs) = refl

  onward-clear :
      (p : List Step) (o : Option Json) → IsClear p → onward p (mapped o) ≡ mapped (onward p o)
  unfolding onward mapped IsClear child
  onward-clear [] o clear = refl
  onward-clear (s ∷ p) none clear = refl
  onward-clear (at_key k ∷ p) (some v) clear =
      ap (onward p) (key-clear k v (clear_key k clear.0)) ∙ onward-clear p (get_key k v) clear.1
  onward-clear (at_index n ∷ p) (some v) clear =
      ap (onward p) (index-redact n v) ∙ onward-clear p (child (at_index n) v) clear

  secret_below :
      (k : String) (v : Json)
      → is_sensitive to_lowercase k ≡ true
      → is_some (get_key k v) ≡ true
      → get_key k (redact to_lowercase v) ≡ some (str "***")
  unfolding redact get_key
  secret_below k (obj fs) secret there = get_field-secret k fs secret there
  secret_below k _ secret there = absurd cc

  onward-secret :
      (p : List Step) (k : String) (o : Option Json)
      → IsClear p
      → is_sensitive to_lowercase k ≡ true
      → is_some (onward (p ++ at_key k ∷ []) o) ≡ true
      → onward (p ++ at_key k ∷ []) (mapped o) ≡ some (str "***")
  unfolding onward mapped IsClear child
  onward-secret [] k none clear secret there = absurd cc
  onward-secret [] k (some v) clear secret there = secret_below k v secret there
  onward-secret (s ∷ p) k none clear secret there = absurd cc
  onward-secret (at_key j ∷ p) k (some v) clear secret there =
      ap (onward (p ++ at_key k ∷ [])) (key-clear j v (clear_key j clear.0))
      ∙ onward-secret p k (get_key j v) clear.1 secret there
  onward-secret (at_index n ∷ p) k (some v) clear secret there =
      ap (onward (p ++ at_key k ∷ [])) (index-redact n v)
      ∙ onward-secret p k (child (at_index n) v) clear secret there

  keys_of-redact : (fs : Fields) → keys_of (redact_fields to_lowercase fs) ≡ keys_of fs
  unfolding redact
  keys_of-redact end = refl
  keys_of-redact (field k v fs) = ap (◌∷◌ k) (keys_of-redact fs)

  count_items-redact : (vs : Items) → count_items (redact_items to_lowercase vs) ≡ count_items vs
  unfolding redact
  count_items-redact nil = refl
  count_items-redact (cons v vs) = ap suc (count_items-redact vs)

  outlined-mapped : (o : Option Json) → outlined (mapped o) ≡ outlined o
  unfolding redact mapped
  outlined-mapped none = refl
  outlined-mapped (some null) = refl
  outlined-mapped (some (bool b)) = refl
  outlined-mapped (some (num n)) = refl
  outlined-mapped (some (str s)) = refl
  outlined-mapped (some (arr vs)) = ap (λ n. some (array n)) (count_items-redact vs)
  outlined-mapped (some (obj fs)) = ap (λ ks. some (object ks)) (keys_of-redact fs)

  -- The entry reaches the sink with all its parts but the arguments as they are. Of the arguments,
  -- whatever stands under a key that holds one of the secret words in lower case, at any depth, is
  -- `***`; at every place that no such key leads to, they show the same scalar, the same number of
  -- items, or the same keys in the same order, and nothing where there was nothing.
  pub record_entry-IsConcealed :
      {W : Type 0} (sink : AuditEntry → W → W) (entry : AuditEntry) (w : W)
      → (a : Json) × (record_entry to_lowercase sink entry w
          ≡ sink (record entry { arguments_redacted = a }) w)
        × ((p : List Step) (k : String)
            → IsClear p
            → IsSecret to_lowercase k
            → is_some (value_at (p ++ at_key k ∷ []) entry.arguments_redacted) ≡ true
            → value_at (p ++ at_key k ∷ []) a ≡ some (str "***"))
        × ((p : List Step)
            → IsClear p
            → outlined (value_at p a) ≡ outlined (value_at p entry.arguments_redacted))
  unfolding record_entry value_at mapped
  record_entry-IsConcealed sink entry w =
      let v = entry.arguments_redacted in
      (
        redact to_lowercase v,
        refl,
        (λ p k clear secret there.
            onward-secret p k (some v) clear ((is_sensitive-IsSecret to_lowercase k).1 secret)
              there),
        (λ p clear.
            ap outlined (onward-clear p (some v) clear) ∙ outlined-mapped (onward p (some v))),
      )
