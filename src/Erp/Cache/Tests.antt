-- ===== src/Erp/Cache/Tests.antt =====
-- The unit tests of the source over a small inner client, and the theorems at concrete inputs.
use oracle_automate.Prelude.{
  arith, ℕ, ◌+◌, ltb, String, ◌≡◌, refl, false, true, none, List, [], ◌∷◌,
}
use oracle_automate.Prelude.Map
use oracle_automate.Erp.Error.{ok}
use oracle_automate.Erp.Metadata.{ErpOperationMeta}
use oracle_automate.Erp.Cache.{
  MetadataCache, Inner, new_cache, get_fresh, store, operation_metadata, bulk_operation_metadata,
  invalidate_all,
}
use oracle_automate.Erp.Cache.Knowledge.{Op, single, bulk, run, WasSaid}
use oracle_automate.Erp.Cache.Bulk.{IsServed, IsAnswered, bulk_operation_metadata-IsServed}

abbrev meta : String → ErpOperationMeta
meta f = record {
  function = f;
  description = "";
  function_group = "SCM";
  package_name = none;
  parameters = [];
  deprecated = false;
  read_only = true;
  commit_required = false;
  authorization = [];
  erp_note = none;
}

abbrev metas : List String → List ErpOperationMeta
metas [] = []
metas (f ∷ fs) = meta f ∷ metas fs

-- A client that knows every function, and counts its calls.
abbrev backend : Inner ℕ
backend = record {
  operation_metadata = λ f l w. (ok (meta f), w + 1);
  bulk_operation_metadata =
      λ fs l w. (ok (record { language = l; functions = metas fs; missing = [] }), w + 1);
}

abbrev cold : MetadataCache
cold = new_cache 60

second_read_is_hit :
    let (_, c, w) = operation_metadata backend cold "items" "EN" (λ i. i) 0 in
    operation_metadata backend c "items" "EN" (λ i. 30) w ≡ (
      ok (meta "items"),
      record c { stats = record { hits = 1; misses = 1; evictions = 0; entries = 0 } },
      1,
    )
unfolding operation_metadata get_fresh store Map.get Map.insert
second_read_is_hit = refl

invalidate_counts :
    (invalidate_all (operation_metadata backend cold "items" "EN" (λ i. i) 0).1).stats
    ≡ record { hits = 0; misses = 1; evictions = 1; entries = 0 }
unfolding operation_metadata get_fresh store Map.get Map.insert invalidate_all
invalidate_counts = refl

-- A read, then another one when the entry is too old: the client has changed its mind by then.
abbrev moody : Inner ℕ
moody = record {
  operation_metadata = λ f l w. (ok (record (meta f) { deprecated = ltb 0 w }), w + 1);
  bulk_operation_metadata = backend.bulk_operation_metadata;
}

old_entry_is_fetched :
    let (_, c, w) = operation_metadata moody cold "items" "EN" (λ i. i) 0 in
    (operation_metadata moody c "items" "EN" (λ i. 62) w).0
    ≡ ok (record (meta "items") { deprecated = true })
unfolding operation_metadata get_fresh store Map.get Map.insert
old_entry_is_fetched = refl

abbrev earlier : List Op
earlier = single "items" "EN" (λ i. i) ∷ bulk ("a" ∷ "items" ∷ []) "EN" (λ i. 5) ∷ []

-- "items" is served from the cache, and "b" is asked for.
bulk_operation_metadata-IsServed_example :
    let (c, w) = run moody earlier cold 0 in
    let read = bulk_operation_metadata moody c ("items" ∷ "b" ∷ []) "EN" (λ i. 30) w in
    (hits : List ErpOperationMeta) × (to_fetch : List String) × IsServed
      (WasSaid moody earlier cold 0)
      60
      "EN"
      (λ i. 30)
      0
      ("items" ∷ "b" ∷ [])
      hits
      to_fetch
    × IsAnswered moody "EN" hits to_fetch w read.0 read.2
bulk_operation_metadata-IsServed_example =
    bulk_operation_metadata-IsServed moody 60 earlier 0 ("items" ∷ "b" ∷ []) "EN" (λ i. 30)
      (omega arith)
