-- ===== src/Erp/Cache.antt =====
-- `MetadataCache` of crates/oracle-automate-erp/src/metadata_cache.rs. Instants and durations are
-- numbers of one unit; `clock i` is the `i`-th reading of the clock in a call. The client behind the
-- cache is a parameter. A call is one step: what another task does between its locks is not modelled.
pub mod Knowledge
mod Lifetime
pub mod Reads
pub mod Bulk
pub mod Counting
mod Tests
use oracle_automate.Prelude.{
  ℕ, zero, suc, ◌+◌, ◌-◌, ◌%◌, ◌^◌, String, Bool, true, false, ◌||◌, Option, none, some, List, [],
  ◌∷◌, ◌++◌, length, leb, nat_eq, pair_Eq, if◌then◌else◌,
}
use oracle_automate.Prelude.Map
use oracle_automate.Prelude.Map.{Map}
use oracle_automate.Erp.Error.{ErpResult, ok, err}
use oracle_automate.Erp.Metadata.{ErpOperationMeta, BulkMetadata}

pub record CacheStats : Type 0 where
  pub hits : ℕ
  pub misses : ℕ
  pub evictions : ℕ
  pub entries : ℕ

pub record Entry : Type 0 where
  pub meta : ErpOperationMeta
  pub cached_at : ℕ

pub record MetadataCache : Type 0 where
  pub ttl : ℕ
  pub entries : Map (String × String) Entry
  pub stats : CacheStats

-- The two operations of the inner `ErpClient` that the cache decorates.
pub record Inner (W : Type 0) : Type 0 where
  pub operation_metadata : String → String → W → ErpResult ErpOperationMeta × W
  pub bulk_operation_metadata : List String → String → W → ErpResult BulkMetadata × W

abbrev pub new_cache : ℕ → MetadataCache
new_cache ttl = record {
  ttl = ttl;
  entries = [];
  stats = record { hits = 0; misses = 0; evictions = 0; entries = 0 };
}

-- `+=` on a u64.
abbrev pub add_u64 : ℕ → ℕ → ℕ
add_u64 a b = (a + b) % 2 ^ 64

-- The counters as `stats` reports them: the number of entries is filled in there.
unfoldable pub stats_of : MetadataCache → CacheStats
stats_of c = record c.stats { entries = length c.entries }

unfoldable pub invalidate_all : MetadataCache → MetadataCache
invalidate_all c = record c {
  entries = [];
  stats = record c.stats { evictions = add_u64 c.stats.evictions (length c.entries) };
}

pub fresh_meta : ℕ → ℕ → Option Entry → Option ErpOperationMeta
fresh_meta ttl now none = none
fresh_meta ttl now (some e) =
    if nat_eq ttl 0 || leb (now - e.cached_at) ttl then some e.meta else none

unfoldable pub get_fresh : MetadataCache → String × String → ℕ → Option ErpOperationMeta
unfolding fresh_meta
get_fresh c key now = fresh_meta c.ttl now (Map.get key c.entries)

unfoldable pub store : MetadataCache → String × String → ErpOperationMeta → ℕ → MetadataCache
store c key meta now =
    if nat_eq c.ttl 0
    then c
    else record c { entries = Map.insert key (record { meta = meta; cached_at = now }) c.entries }

abbrev pub count_hits : ℕ → MetadataCache → MetadataCache
count_hits n c = record c { stats = record c.stats { hits = add_u64 c.stats.hits n } }

abbrev pub count_misses : ℕ → MetadataCache → MetadataCache
count_misses n c = record c { stats = record c.stats { misses = add_u64 c.stats.misses n } }

-- `let meta = ...?; self.store(key, meta.clone())`
store_result : MetadataCache → String × String → ErpResult ErpOperationMeta → ℕ → MetadataCache
store_result c key (ok meta) now = store c key meta now
store_result c key (err e) now = c

-- The lookups of `bulk_operation_metadata`: the hits and the names to fetch, both in order.
split_fresh :
    MetadataCache → String → (ℕ → ℕ) → ℕ → List String → List ErpOperationMeta × List String
split_fresh c language clock i [] = ([], [])
split_fresh c language clock i (f ∷ fs) =
    let (hits, to_fetch) = split_fresh c language clock (suc i) fs in
    elim (get_fresh c (f, language) (clock i)) [
      | some meta ↦ (meta ∷ hits, to_fetch)
      | none ↦ (hits, f ∷ to_fetch)
    ]

store_all : MetadataCache → String → (ℕ → ℕ) → ℕ → List ErpOperationMeta → MetadataCache
store_all c language clock i [] = c
store_all c language clock i (meta ∷ ms) =
    store_all (store c (meta.function, language) meta (clock i)) language clock (suc i) ms

-- From the answer of the inner client on.
bulk_fetched :
    MetadataCache
    → String
    → (ℕ → ℕ)
    → ℕ
    → List ErpOperationMeta
    → ErpResult BulkMetadata
    → ErpResult BulkMetadata × MetadataCache
bulk_fetched c language clock i hits (err e) = (err e, c)
bulk_fetched c language clock i hits (ok fetched) = (
  ok (record {
    language = language;
    functions = hits ++ fetched.functions;
    missing = fetched.missing;
  }),
  store_all c language clock i fetched.functions,
)

module _ {W : Type 0} (inner : Inner W) where
  read_through :
      MetadataCache
      → String
      → String
      → Option ErpOperationMeta
      → ℕ
      → W
      → ErpResult ErpOperationMeta × MetadataCache × W
  read_through c function language (some meta) now w = (ok meta, count_hits 1 c, w)
  read_through c function language none now w =
      let (r, w') = inner.operation_metadata function language w in
      (r, store_result (count_misses 1 c) (function, language) r now, w')

  unfoldable pub operation_metadata :
      MetadataCache → String → String → (ℕ → ℕ) → W → ErpResult ErpOperationMeta × MetadataCache × W
  unfolding read_through store_result
  operation_metadata c function language clock w =
      if nat_eq c.ttl 0
      then (let (r, w') = inner.operation_metadata function language w in (r, count_misses 1 c, w'))
      else read_through c function language (get_fresh c (function, language) (clock 0)) (clock 1) w

  bulk_rest :
      MetadataCache
      → String
      → (ℕ → ℕ)
      → ℕ
      → List ErpOperationMeta
      → List String
      → W
      → ErpResult BulkMetadata × MetadataCache × W
  bulk_rest c language clock i hits [] w =
      (ok (record { language = language; functions = hits; missing = [] }), c, w)
  bulk_rest c language clock i hits (f ∷ fs) w =
      let (r, w') = inner.bulk_operation_metadata (f ∷ fs) language w in
      let (out, c') = bulk_fetched c language clock i hits r in (out, c', w')

  unfoldable pub bulk_operation_metadata :
      MetadataCache
      → List String
      → String
      → (ℕ → ℕ)
      → W
      → ErpResult BulkMetadata × MetadataCache × W
  unfolding split_fresh bulk_rest bulk_fetched store_all
  bulk_operation_metadata c functions language clock w =
      let (hits, to_fetch) = split_fresh c language clock 0 functions in
      bulk_rest (count_misses (length to_fetch) (count_hits (length hits) c)) language clock
        (length functions) hits to_fetch w
