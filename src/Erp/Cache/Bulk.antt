-- ===== src/Erp/Cache/Bulk.antt =====
-- crates/oracle-automate-erp/src/metadata_cache.rs, `bulk_operation_metadata`: what a bulk read serves
-- from the cache, what it asks for, and what it answers.
use mathlib.Core.Path.{subst}
use oracle_automate.Prelude.{
  ℕ, suc, ◌-◌, ◌≤◌, ◌<◌, String, ◌≡◌, refl, ◌⊎◌, inl, inr, List, [], ◌∷◌, ◌++◌, length, arith,
  nat_eq, false, Option-cases, pair_Eq,
}
use oracle_automate.Prelude.Map
use oracle_automate.Erp.Error.{ErpError, ErpResult, ok, err}
use oracle_automate.Erp.Metadata.{ErpOperationMeta, BulkMetadata}
use oracle_automate.Erp.Cache.Knowledge.{
  Knowledge, IsSound, weaken, Op, run, WasSaid, run-IsSound, new_cache-IsSound,
}
use oracle_automate.Erp.Cache.Lifetime.{fresh_meta-entry, run-ttl}
use oracle_automate.Erp.Cache.{
  MetadataCache, Inner, new_cache, get_fresh, split_fresh, bulk_fetched, bulk_rest,
  bulk_operation_metadata,
}

-- Each name in turn is served by what was said of it not longer ago than the time to live, or is to
-- be fetched; both lists keep the order of the names.
unfoldable pub IsServed :
    Knowledge
    → ℕ
    → String
    → (ℕ → ℕ)
    → ℕ
    → List String
    → List ErpOperationMeta
    → List String
    → Type 0
IsServed K ttl l clock i [] hits to_fetch = (hits ≡ []) × (to_fetch ≡ [])
IsServed K ttl l clock i (f ∷ fs) hits to_fetch =
    ((m : ErpOperationMeta) × (t : ℕ) × (rest : List ErpOperationMeta) × (hits ≡ m ∷ rest)
      × K (f, l) m t
      × (clock i - t ≤ ttl)
      × IsServed K ttl l clock (suc i) fs rest to_fetch)
    ⊎ ((rest : List String) × (to_fetch ≡ f ∷ rest) × IsServed K ttl l clock (suc i) fs hits rest)

split_fresh-IsServed :
    (K : Knowledge) (c : MetadataCache) (l : String) (clock : ℕ → ℕ) (i : ℕ) (fs : List String)
    → nat_eq c.ttl 0 ≡ false
    → IsSound K c
    → IsServed K c.ttl l clock i fs (split_fresh c l clock i fs).0 (split_fresh c l clock i fs).1
unfolding split_fresh IsServed get_fresh
split_fresh-IsServed K c l clock i [] on s = (refl, refl)
split_fresh-IsServed K c l clock i (f ∷ fs) on s =
    let rest = split_fresh-IsServed K c l clock (suc i) fs on s in
    elim (Option-cases (get_fresh c (f, l) (clock i))) [
      | inl miss ↦ rw (miss, split_fresh) (inr (_, refl, rest))
      | inr (m, hit) ↦
          let (e, p, same, young) =
            fresh_meta-entry c.ttl (clock i) (Map.get (f, l) c.entries) m on hit in
          rw (hit, split_fresh)
            (inl (
              m,
              e.cached_at,
              _,
              refl,
              subst (λ x. K (f, l) x e.cached_at) same (s.at_key (f, l) e p),
              young,
              rest,
            ))
    ]

-- The answer from what was served and what was fetched; the client is asked once for all that is
-- to be fetched, if there is any.
abbrev pub IsAnswered :
    {W : Type 0}
    → Inner W
    → String
    → List ErpOperationMeta
    → List String
    → W
    → ErpResult BulkMetadata
    → W
    → Type 0
IsAnswered inner l hits [] w answer w' =
    (answer ≡ ok (record { language = l; functions = hits; missing = [] })) × (w' ≡ w)
IsAnswered inner l hits (g ∷ gs) w answer w' =
    let asked = inner.bulk_operation_metadata (g ∷ gs) l w in
    (w' ≡ asked.1)
    × (((e : ErpError) × (asked.0 ≡ err e) × (answer ≡ err e))
        ⊎ ((b : BulkMetadata) × (asked.0 ≡ ok b)
            × (answer
                ≡ ok (record {
                  language = l;
                  functions = hits ++ b.functions;
                  missing = b.missing;
                }))))

fetched_answer :
    (c : MetadataCache) (l : String) (clock : ℕ → ℕ) (i : ℕ) (hits : List ErpOperationMeta)
    (r : ErpResult BulkMetadata)
    → ((e : ErpError) × (r ≡ err e) × ((bulk_fetched c l clock i hits r).0 ≡ err e))
      ⊎ ((b : BulkMetadata) × (r ≡ ok b)
          × ((bulk_fetched c l clock i hits r).0
              ≡ ok (record { language = l; functions = hits ++ b.functions; missing = b.missing })))
unfolding bulk_fetched
fetched_answer c l clock i hits (err e) = inl (e, refl, refl)
fetched_answer c l clock i hits (ok b) = inr (b, refl, refl)

module _ {W : Type 0} (inner : Inner W) where
  bulk_rest-IsAnswered :
      (c : MetadataCache) (l : String) (clock : ℕ → ℕ) (i : ℕ) (hits : List ErpOperationMeta)
      (gs : List String) (w : W)
      → let read = bulk_rest inner c l clock i hits gs w in
        IsAnswered inner l hits gs w read.0 read.2
  unfolding bulk_rest
  bulk_rest-IsAnswered c l clock i hits [] w = (refl, refl)
  bulk_rest-IsAnswered c l clock i hits (g ∷ gs) w =
      (refl, fetched_answer c l clock i hits (inner.bulk_operation_metadata (g ∷ gs) l w).0)

  -- After any history of reads, bulk reads and invalidations of a new cache with a time to live, over
  -- a client that may change what it says, a bulk read takes the names in order and serves each by
  -- what the client said of it in the history, not longer ago than the time to live, or leaves it to
  -- the client; that is asked at most once, for all of those, and its error is the answer, or else
  -- what is answered is what was served and then what it says, with the names that it misses.
  pub bulk_operation_metadata-IsServed :
      (ttl : ℕ) (os : List Op) (w : W) (fs : List String) (l : String) (clock : ℕ → ℕ)
      → 0 < ttl
      → let (c, w') = run inner os (new_cache ttl) w in
        let read = bulk_operation_metadata inner c fs l clock w' in
        (hits : List ErpOperationMeta) × (to_fetch : List String) × IsServed
          (WasSaid inner os (new_cache ttl) w)
          ttl
          l
          clock
          0
          fs
          hits
          to_fetch
        × IsAnswered inner l hits to_fetch w' read.0 read.2
  unfolding bulk_operation_metadata
  bulk_operation_metadata-IsServed ttl os w fs l clock lives =
      let (c, w') = run inner os (new_cache ttl) w in
      let K = WasSaid inner os (new_cache ttl) w in
      let same : c.ttl ≡ ttl = run-ttl inner os (new_cache ttl) w in
      let sound =
        weaken _ K c (λ k m t h. elim h [ inl none_said ↦ absurd none_said | inr said ↦ said ])
          (run-IsSound inner (λ k m t. ⊥) os (new_cache ttl) w (new_cache-IsSound ttl)) in
      let (hits, to_fetch) = split_fresh c l clock 0 fs in
      let on : nat_eq c.ttl 0 ≡ false = ground (arith, lives, same) in
      (
        hits,
        to_fetch,
        subst (λ x. IsServed K x l clock 0 fs hits to_fetch) same
            (split_fresh-IsServed K c l clock 0 fs on sound),
        bulk_rest-IsAnswered _ l clock (length fs) hits to_fetch w',
      )
