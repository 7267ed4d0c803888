-- ===== src/Erp/Cache/Knowledge.antt =====
-- crates/oracle-automate-erp/src/metadata_cache.rs: what a cache holds was said by the client.
use mathlib.Core.Path.{subst}
use oracle_automate.Prelude.{
  none, ℕ, suc, String, ◌≡◌, refl, ◌⊎◌, inl, inr, some, List, [], ◌∷◌, length, arith, nat_eq,
  Bool-cases, Option-cases, pair_Eq, pair_eq_iff,
}
use oracle_automate.Prelude.Map
use oracle_automate.Erp.Error.{ErpResult, ok, err}
use oracle_automate.Erp.Metadata.{ErpOperationMeta, BulkMetadata}
use oracle_automate.Erp.Cache.{
  MetadataCache, Entry, Inner, invalidate_all, new_cache, get_fresh, store, count_misses,
  store_result, split_fresh, store_all, bulk_fetched, read_through, operation_metadata, bulk_rest,
  bulk_operation_metadata,
}

-- What is known to have been said of a key at an instant.
abbrev pub Knowledge : Type 1
Knowledge = String × String → ErpOperationMeta → ℕ → Type 0

-- What is cached was said of its key when it was cached.
pub record IsSound (K : Knowledge) (c : MetadataCache) : Type 0 where
  pub at_key :
      (k : String × String) (e : Entry) → Map.get k c.entries ≡ some e → K k e.meta e.cached_at

pub new_cache-IsSound : (ttl : ℕ) → IsSound (λ k m t. ⊥) (new_cache ttl)
unfolding Map.get
new_cache-IsSound ttl = record { at_key = λ k e p. absurd cc }

pub weaken :
    (K L : Knowledge) (c : MetadataCache)
    → ((k : String × String) (m : ErpOperationMeta) (t : ℕ) → K k m t → L k m t)
    → IsSound K c
    → IsSound L c
weaken K L c f s = record { at_key = λ k e p. f k e.meta e.cached_at (s.at_key k e p) }

store-IsSound :
    (K : Knowledge) (c : MetadataCache) (k : String × String) (m : ErpOperationMeta) (now : ℕ)
    → K k m now
    → IsSound K c
    → IsSound K (store c k m now)
unfolding store
store-IsSound K c k m now known s = elim (Bool-cases (nat_eq c.ttl 0)) [
  | inl off ↦ rw off s
  | inr on ↦ rw on (record {
    at_key = λ j e p. elim (Bool-cases (pair_Eq.beq k j)) [
      | inl same ↦
          let q = (rw (Map.get-insert, same) at p) in
          let entry : record { meta = m; cached_at = now } ≡ e = ground arith in
          subst (λ i. K i e.meta e.cached_at) ((pair_eq_iff k j).0 same)
            (subst (λ x. K k x.meta x.cached_at) entry known)
      | inr other ↦ s.at_key j e (rw (Map.get-insert, other) at p)
    ];
  })
]

-- The metadata that a fetch stores, with the instants of the stores.
abbrev pub IsStored :
    String → (ℕ → ℕ) → ℕ → List ErpOperationMeta → String × String → ErpOperationMeta → ℕ → Type 0
IsStored l clock i [] k m t = ⊥
IsStored l clock i (x ∷ xs) k m t =
    (((x.function, l) ≡ k) × (x ≡ m) × (clock i ≡ t)) ⊎ IsStored l clock (suc i) xs k m t

store_all-IsSound :
    (K : Knowledge) (c : MetadataCache) (l : String) (clock : ℕ → ℕ) (i : ℕ)
    (ms : List ErpOperationMeta)
    → ((k : String × String) (m : ErpOperationMeta) (t : ℕ) → IsStored l clock i ms k m t → K k m t)
    → IsSound K c
    → IsSound K (store_all c l clock i ms)
unfolding store_all
store_all-IsSound K c l clock i [] known s = s
store_all-IsSound K c l clock i (m ∷ ms) known s =
    store_all-IsSound K (store c (m.function, l) m (clock i)) l clock (suc i) ms
      (λ k x t h. known k x t (inr h))
      (store-IsSound K c (m.function, l) m (clock i)
        (known (m.function, l) m (clock i) (inl (refl, refl, refl))) s)

store_result-IsSound :
    (K : Knowledge) (c : MetadataCache) (k : String × String) (r : ErpResult ErpOperationMeta)
    (now : ℕ)
    → ((m : ErpOperationMeta) → r ≡ ok m → K k m now)
    → IsSound K c
    → IsSound K (store_result c k r now)
unfolding store_result
store_result-IsSound K c k (ok m) now known s = store-IsSound K c k m now (known m refl) s
store_result-IsSound K c k (err e) now known s = s

bulk_fetched-IsSound :
    (K : Knowledge) (c : MetadataCache) (l : String) (clock : ℕ → ℕ) (i : ℕ)
    (hits : List ErpOperationMeta) (r : ErpResult BulkMetadata)
    → ((b : BulkMetadata) (k : String × String) (m : ErpOperationMeta) (t : ℕ)
        → r ≡ ok b
        → IsStored l clock i b.functions k m t
        → K k m t)
    → IsSound K c
    → IsSound K (bulk_fetched c l clock i hits r).1
unfolding bulk_fetched
bulk_fetched-IsSound K c l clock i hits (err e) known s = s
bulk_fetched-IsSound K c l clock i hits (ok b) known s =
    store_all-IsSound K c l clock i b.functions (λ k m t h. known b k m t refl h) s

-- A call of the cache.
pub data Op : Type 0 where
  single : String → String → (ℕ → ℕ) → Op
  bulk : List String → String → (ℕ → ℕ) → Op
  invalidated : Op

module _ {W : Type 0} (inner : Inner W) where
  unfoldable pub step : Op → MetadataCache → W → MetadataCache × W
  unfolding operation_metadata bulk_operation_metadata invalidate_all
  step (single f l clock) c w = let (_, c', w') = operation_metadata inner c f l clock w in (c', w')
  step (bulk fs l clock) c w =
      let (_, c', w') = bulk_operation_metadata inner c fs l clock w in (c', w')
  step invalidated c w = (invalidate_all c, w)

  -- What the inner client is asked for and says of a key in a call, with the instant of the store.
  abbrev pub IsSaid : Op → MetadataCache → W → Knowledge
  unfolding split_fresh get_fresh
  IsSaid (single f l clock) c w k m t =
      (get_fresh c (f, l) (clock 0) ≡ none)
      × ((f, l) ≡ k)
      × ((inner.operation_metadata f l w).0 ≡ ok m)
      × (clock 1 ≡ t)
  IsSaid (bulk fs l clock) c w k m t =
      (b : BulkMetadata) × ((inner.bulk_operation_metadata (split_fresh c l clock 0 fs).1 l w).0
        ≡ ok b)
      × IsStored l clock (length fs) b.functions k m t
  IsSaid invalidated c w k m t = ⊥

  unfoldable pub run : List Op → MetadataCache → W → MetadataCache × W
  unfolding step
  run [] c w = (c, w)
  run (o ∷ os) c w = let (c', w') = step o c w in run os c' w'

  -- What it said in the course of a history.
  unfoldable pub WasSaid : List Op → MetadataCache → W → Knowledge
  unfolding IsSaid step
  WasSaid [] c w k m t = ⊥
  WasSaid (o ∷ os) c w k m t =
      let (c', w') = step o c w in IsSaid o c w k m t ⊎ WasSaid os c' w' k m t

  abbrev After : Knowledge → Op → MetadataCache → W → Knowledge
  unfolding IsSaid
  After K o c w k m t = K k m t ⊎ IsSaid o c w k m t

  single-IsSound :
      (K : Knowledge) (c : MetadataCache) (f l : String) (clock : ℕ → ℕ) (w : W)
      → IsSound K c
      → IsSound (After K (single f l clock) c w) (operation_metadata inner c f l clock w).1
  unfolding operation_metadata After IsSaid
  single-IsSound K c f l clock w s =
      let kept = weaken K (After K (single f l clock) c w) c (λ k m t h. inl h) s in
      elim (Bool-cases (nat_eq c.ttl 0)) [
        | inl off ↦ rw off (record { at_key = kept.at_key })
        | inr on ↦ elim (Option-cases (get_fresh c (f, l) (clock 0))) [
          | inl e ↦
              rw (on, e, read_through)
                (store_result-IsSound (After K (single f l clock) c w) (count_misses 1 c) (f, l) _
                  (clock 1) (λ m said. inr (e, refl, said, refl)) (record { at_key = kept.at_key }))
          | inr (m, e) ↦ rw (on, e, read_through) (record { at_key = kept.at_key })
        ]
      ]

  bulk_rest-IsSound :
      (K : Knowledge) (c : MetadataCache) (l : String) (clock : ℕ → ℕ) (i : ℕ)
      (hits : List ErpOperationMeta) (fs : List String) (w : W)
      → ((b : BulkMetadata) (k : String × String) (m : ErpOperationMeta) (t : ℕ)
          → (inner.bulk_operation_metadata fs l w).0 ≡ ok b
          → IsStored l clock i b.functions k m t
          → K k m t)
      → IsSound K c
      → IsSound K (bulk_rest inner c l clock i hits fs w).1
  unfolding bulk_rest
  bulk_rest-IsSound K c l clock i hits [] w known s = s
  bulk_rest-IsSound K c l clock i hits (f ∷ fs) w known s =
      bulk_fetched-IsSound K c l clock i hits (inner.bulk_operation_metadata (f ∷ fs) l w).0 known s

  step-IsSound :
      (K : Knowledge) (o : Op) (c : MetadataCache) (w : W)
      → IsSound K c
      → IsSound (After K o c w) (step o c w).0
  unfolding step bulk_operation_metadata invalidate_all Map.get After IsSaid
  step-IsSound K (single f l clock) c w s = single-IsSound K c f l clock w s
  step-IsSound K (bulk fs l clock) c w s =
      let kept = weaken K (After K (bulk fs l clock) c w) c (λ k m t h. inl h) s in
      bulk_rest-IsSound (After K (bulk fs l clock) c w) _ l clock (length fs) _
        (split_fresh c l clock 0 fs).1 w (λ b k m t said h. inr (b, said, h))
        (record { at_key = kept.at_key })
  step-IsSound K invalidated c w s = record { at_key = λ k e p. absurd cc }

  pub run-IsSound :
      (K : Knowledge) (os : List Op) (c : MetadataCache) (w : W)
      → IsSound K c
      → IsSound (λ k m t. K k m t ⊎ WasSaid os c w k m t) (run os c w).0
  unfolding run WasSaid After
  run-IsSound K [] c w s = weaken K _ c (λ k m t h. inl h) s
  run-IsSound K (o ∷ os) c w s =
      let (c', w') = step o c w in
      weaken _ _ (run os c' w').0
        (λ k m t h. elim h [
          | inl (inl h) ↦ inl h
          | inl (inr h) ↦ inr (inl h)
          | inr h ↦ inr (inr h)
        ])
        (run-IsSound (After K o c w) os c' w' (step-IsSound K o c w s))
