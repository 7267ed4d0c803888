-- ===== src/Erp/Cache/Counting.antt =====
-- Which reads of `MetadataCache` (crates/oracle-automate-erp/src/metadata_cache.rs) reach the inner
-- client, and what the counters say of them.
use oracle_automate.Prelude.{
  ℕ, suc, ◌+◌, ◌-◌, ◌≤◌, ◌<◌, String, ◌≡◌, refl, ◌∙◌, true, false, none, some, List, [], ◌∷◌,
  length, arith, leb, nat_eq, pair_Eq, if◌then◌else◌,
}
use oracle_automate.Prelude.Map
use oracle_automate.Prelude.Map.{beq_refl}
use oracle_automate.Erp.Error.{ErpResult, ok, err}
use oracle_automate.Erp.Metadata.{ErpOperationMeta, BulkMetadata}
use oracle_automate.Erp.Cache.{
  MetadataCache, Inner, add_u64, get_fresh, store, count_hits, count_misses, store_result,
  split_fresh, store_all, bulk_fetched, read_through, operation_metadata, bulk_rest,
  bulk_operation_metadata,
}

get_fresh-store :
    (c : MetadataCache) (k : String × String) (m : ErpOperationMeta) (now later : ℕ)
    → 0 < c.ttl
    → get_fresh (store c k m now) k later ≡ (if leb (later - now) c.ttl then some m else none)
unfolding get_fresh store
get_fresh-store c k m now later h =
    let on : nat_eq c.ttl 0 ≡ false = ground arith in
    rw (on, Map.get-insert, beq_refl k) (ground arith)

split_fresh-length :
    (c : MetadataCache) (l : String) (clock : ℕ → ℕ) (i : ℕ) (fs : List String)
    → let (hits, to_fetch) = split_fresh c l clock i fs in length hits + length to_fetch ≡ length fs
unfolding split_fresh
split_fresh-length c l clock i [] = refl
split_fresh-length c l clock i (f ∷ fs) = ground (arith, split_fresh-length c l clock (suc i) fs)

stats-store :
    (c : MetadataCache) (k : String × String) (m : ErpOperationMeta) (now : ℕ)
    → (store c k m now).stats ≡ c.stats
unfolding store
stats-store c k m now = ground arith

stats-store_all :
    (c : MetadataCache) (l : String) (clock : ℕ → ℕ) (i : ℕ) (ms : List ErpOperationMeta)
    → (store_all c l clock i ms).stats ≡ c.stats
unfolding store_all
stats-store_all c l clock i [] = refl
stats-store_all c l clock i (m ∷ ms) =
    stats-store_all (store c (m.function, l) m (clock i)) l clock (suc i) ms
    ∙ stats-store c (m.function, l) m (clock i)

ttl-store :
    (c : MetadataCache) (k : String × String) (m : ErpOperationMeta) (now : ℕ)
    → (store c k m now).ttl ≡ c.ttl
unfolding store
ttl-store c k m now = ground arith

stats-bulk_fetched :
    (c : MetadataCache) (l : String) (clock : ℕ → ℕ) (i : ℕ) (hits : List ErpOperationMeta)
    (r : ErpResult BulkMetadata)
    → (bulk_fetched c l clock i hits r).1.stats ≡ c.stats
unfolding bulk_fetched
stats-bulk_fetched c l clock i hits (err e) = refl
stats-bulk_fetched c l clock i hits (ok b) = stats-store_all c l clock i b.functions

stats-store_result :
    (c : MetadataCache) (k : String × String) (r : ErpResult ErpOperationMeta) (now : ℕ)
    → (store_result c k r now).stats ≡ c.stats
unfolding store_result
stats-store_result c k (ok m) now = stats-store c k m now
stats-store_result c k (err e) now = refl

module _ {W : Type 0} (inner : Inner W) where
  miss_step :
      (c : MetadataCache) (f l : String) (clock : ℕ → ℕ) (w : W) (m : ErpOperationMeta)
      → nat_eq c.ttl 0 ≡ false
      → get_fresh c (f, l) (clock 0) ≡ none
      → (inner.operation_metadata f l w).0 ≡ ok m
      → operation_metadata inner c f l clock w
        ≡ (ok m, store (count_misses 1 c) (f, l) m (clock 1), (inner.operation_metadata f l w).1)
  unfolding operation_metadata
  miss_step c f l clock w m on miss fetched = rw (on, miss, read_through, fetched)

  hit_step :
      (c : MetadataCache) (f l : String) (clock : ℕ → ℕ) (w : W) (m : ErpOperationMeta)
      → nat_eq c.ttl 0 ≡ false
      → get_fresh c (f, l) (clock 0) ≡ some m
      → operation_metadata inner c f l clock w ≡ (ok m, count_hits 1 c, w)
  unfolding operation_metadata
  hit_step c f l clock w m on hit = rw (on, hit, read_through)

  -- A metadata that a read fetched and stored is served again, with the inner client's world
  -- untouched and one more hit counted, until the time to live has passed.
  pub operation_metadata_again :
      (c : MetadataCache) (f l : String) (clock again : ℕ → ℕ) (w : W) (m : ErpOperationMeta)
      → 0 < c.ttl
      → get_fresh c (f, l) (clock 0) ≡ none
      → (inner.operation_metadata f l w).0 ≡ ok m
      → again 0 - clock 1 ≤ c.ttl
      → let (r, c', w') = operation_metadata inner c f l clock w in
        (r ≡ ok m) × (operation_metadata inner c' f l again w' ≡ (ok m, count_hits 1 c', w'))
  operation_metadata_again c f l clock again w m pos miss fetched soon =
      let on : nat_eq c.ttl 0 ≡ false = ground arith in
      let near : leb (again 0 - clock 1) c.ttl ≡ true = ground arith in
      let kept : nat_eq (store (count_misses 1 c) (f, l) m (clock 1)).ttl 0 ≡ false =
        rw (ttl-store (count_misses 1 c) (f, l) m (clock 1)) on in
      let hit : get_fresh (store (count_misses 1 c) (f, l) m (clock 1)) (f, l) (again 0) ≡ some m =
        get_fresh-store (count_misses 1 c) (f, l) m (clock 1) (again 0) pos ∙ rw near in
      rw (miss_step c f l clock w m on miss fetched) (
        refl,
        hit_step (store (count_misses 1 c) (f, l) m (clock 1)) f l again
            (inner.operation_metadata f l w).1 m kept hit,
      )

  stats-bulk_rest :
      (c : MetadataCache) (l : String) (clock : ℕ → ℕ) (i : ℕ) (hits : List ErpOperationMeta)
      (fs : List String) (w : W)
      → (bulk_rest inner c l clock i hits fs w).1.stats ≡ c.stats
  unfolding bulk_rest
  stats-bulk_rest c l clock i hits [] w = refl
  stats-bulk_rest c l clock i hits (f ∷ fs) w =
      stats-bulk_fetched c l clock i hits (inner.bulk_operation_metadata (f ∷ fs) l w).0

  -- A bulk read counts every name that it is asked for once, as a hit or as a miss, whether or not
  -- the fetch succeeds; counters are modulo 2^64, and evictions are not touched.
  pub bulk_operation_metadata-counts :
      (c : MetadataCache) (fs : List String) (l : String) (clock : ℕ → ℕ) (w : W)
      → let s = (bulk_operation_metadata inner c fs l clock w).1.stats in
        (hits misses : ℕ) × (hits + misses ≡ length fs)
        × (s ≡ record {
          hits = add_u64 c.stats.hits hits;
          misses = add_u64 c.stats.misses misses;
          evictions = c.stats.evictions;
          entries = c.stats.entries;
        })
  unfolding bulk_operation_metadata
  bulk_operation_metadata-counts c fs l clock w =
      let (hits, to_fetch) = split_fresh c l clock 0 fs in
      (
        length hits,
        length to_fetch,
        split_fresh-length c l clock 0 fs,
        stats-bulk_rest _ l clock (length fs) hits to_fetch w,
      )
