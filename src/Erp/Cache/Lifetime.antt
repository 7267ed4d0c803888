-- ===== src/Erp/Cache/Lifetime.antt =====
-- crates/oracle-automate-erp/src/metadata_cache.rs: the time to live of a cache and of its entries.
use oracle_automate.Prelude.{
  ℕ, suc, ◌-◌, ◌≤◌, String, ◌≡◌, refl, ◌∙◌, inl, inr, Option, none, some, List, [], ◌∷◌, length,
  arith, nat_eq, leb, true, false, Bool-cases, Option-cases, pair_Eq, pair_eq_iff,
}
use oracle_automate.Prelude.Map
use oracle_automate.Erp.Error.{ErpResult, ok, err}
use oracle_automate.Erp.Metadata.{ErpOperationMeta, BulkMetadata}
use oracle_automate.Erp.Cache.Knowledge.{Op, single, bulk, invalidated, step, run}
use oracle_automate.Erp.Cache.{
  MetadataCache, Entry, Inner, invalidate_all, fresh_meta, get_fresh, store, count_misses,
  store_result, split_fresh, store_all, bulk_fetched, read_through, operation_metadata, bulk_rest,
  bulk_operation_metadata,
}

pub fresh_meta-entry :
    (ttl now : ℕ) (o : Option Entry) (m : ErpOperationMeta)
    → nat_eq ttl 0 ≡ false
    → fresh_meta ttl now o ≡ some m
    → (e : Entry) × (o ≡ some e) × (e.meta ≡ m) × (now - e.cached_at ≤ ttl)
unfolding fresh_meta
fresh_meta-entry ttl now none m on h = cc
fresh_meta-entry ttl now (some e) m on h = elim (Bool-cases (leb (now - e.cached_at) ttl)) [
  | inl young ↦ (e, refl, ground (arith, on, young), ground (arith, young))
  | inr old ↦ absurd (ground (arith, on, old))
]

pub store-ttl :
    (c : MetadataCache) (k : String × String) (m : ErpOperationMeta) (now : ℕ)
    → (store c k m now).ttl ≡ c.ttl
unfolding store
store-ttl c k m now = elim (Bool-cases (nat_eq c.ttl 0)) [
  | inl off ↦ rw off refl
  | inr on ↦ rw on refl
]

store_result-ttl :
    (c : MetadataCache) (k : String × String) (r : ErpResult ErpOperationMeta) (now : ℕ)
    → (store_result c k r now).ttl ≡ c.ttl
unfolding store_result
store_result-ttl c k (ok m) now = store-ttl c k m now
store_result-ttl c k (err e) now = refl

store_all-ttl :
    (c : MetadataCache) (l : String) (clock : ℕ → ℕ) (i : ℕ) (ms : List ErpOperationMeta)
    → (store_all c l clock i ms).ttl ≡ c.ttl
unfolding store_all
store_all-ttl c l clock i [] = refl
store_all-ttl c l clock i (m ∷ ms) =
    store_all-ttl (store c (m.function, l) m (clock i)) l clock (suc i) ms
    ∙ store-ttl c (m.function, l) m (clock i)

bulk_fetched-ttl :
    (c : MetadataCache) (l : String) (clock : ℕ → ℕ) (i : ℕ) (hits : List ErpOperationMeta)
    (r : ErpResult BulkMetadata)
    → (bulk_fetched c l clock i hits r).1.ttl ≡ c.ttl
unfolding bulk_fetched
bulk_fetched-ttl c l clock i hits (err e) = refl
bulk_fetched-ttl c l clock i hits (ok b) = store_all-ttl c l clock i b.functions

pub store-get_fresh :
    (c : MetadataCache) (k : String × String) (m : ErpOperationMeta) (at now : ℕ)
    → nat_eq c.ttl 0 ≡ false
    → now - at ≤ c.ttl
    → get_fresh (store c k m at) k now ≡ some m
unfolding store get_fresh fresh_meta
store-get_fresh c k m at now on young =
    let near : leb (now - at) c.ttl ≡ true = ground (arith, young) in
    let same : pair_Eq.beq k k ≡ true = (pair_eq_iff k k).1 refl in
    rw (on, Map.get-insert, same, on, near) refl

module _ {W : Type 0} (inner : Inner W) where
  single-ttl :
      (c : MetadataCache) (f l : String) (clock : ℕ → ℕ) (w : W)
      → (operation_metadata inner c f l clock w).1.ttl ≡ c.ttl
  unfolding operation_metadata
  single-ttl c f l clock w = elim (Bool-cases (nat_eq c.ttl 0)) [
    | inl off ↦ rw off refl
    | inr on ↦ elim (Option-cases (get_fresh c (f, l) (clock 0))) [
      | inl e ↦ rw (on, e, read_through) (store_result-ttl (count_misses 1 c) (f, l) _ (clock 1))
      | inr (m, e) ↦ rw (on, e, read_through) refl
    ]
  ]

  bulk_rest-ttl :
      (c : MetadataCache) (l : String) (clock : ℕ → ℕ) (i : ℕ) (hits : List ErpOperationMeta)
      (fs : List String) (w : W)
      → (bulk_rest inner c l clock i hits fs w).1.ttl ≡ c.ttl
  unfolding bulk_rest
  bulk_rest-ttl c l clock i hits [] w = refl
  bulk_rest-ttl c l clock i hits (f ∷ fs) w =
      bulk_fetched-ttl c l clock i hits (inner.bulk_operation_metadata (f ∷ fs) l w).0

  step-ttl : (o : Op) (c : MetadataCache) (w : W) → (step inner o c w).0.ttl ≡ c.ttl
  unfolding step bulk_operation_metadata invalidate_all
  step-ttl (single f l clock) c w = single-ttl c f l clock w
  step-ttl (bulk fs l clock) c w =
      bulk_rest-ttl _ l clock (length fs) _ (split_fresh c l clock 0 fs).1 w
  step-ttl invalidated c w = refl

  pub run-ttl : (os : List Op) (c : MetadataCache) (w : W) → (run inner os c w).0.ttl ≡ c.ttl
  unfolding run
  run-ttl [] c w = refl
  run-ttl (o ∷ os) c w = let (c', w') = step inner o c w in run-ttl os c' w' ∙ step-ttl o c w
