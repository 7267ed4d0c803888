-- ===== src/Memory/Tests.antt =====
-- Runs of the memories, those of the source's unit tests among them, and the theorems at concrete
-- inputs.
use oracle_automate.Prelude.{String, ◌≡◌, ◌≢◌, refl, none, some, List, [], ◌∷◌, All, arith, eq_iff}
use oracle_automate.Prelude.Map
use oracle_automate.Json.{null}
use oracle_automate.Memory.Entry.{MemoryEntry, working}
use oracle_automate.Memory.Working.{with_capacity, recent, append, clear}
use oracle_automate.Memory.Working.Window.{Call, appends, clears, run, history, recent-run}
use oracle_automate.Memory.Episodic.{new_episodic, tenant_matches, by_tag}
use oracle_automate.Memory.Episodic.Index.{Episodes, record_all, by_tag-record_all, by_tag_tenancy}
use oracle_automate.Memory.Manager.{assemble}
use oracle_automate.Memory.Manager.Assembly.{after_history, assemble-after_history}

abbrev entry : String → MemoryEntry
entry k = record {
  tier = working;
  key = k;
  value = null;
  trust_class = "unverified";
  tenant = none;
  created_at_ms = 0;
}

abbrev owned : String → String → MemoryEntry
owned k t = record (entry k) { tenant = some t }

abbrev calls : List Call
calls =
    appends "S1" (entry "a")
    ∷ appends "S1" (entry "b")
    ∷ appends "S2" (entry "x")
    ∷ appends "S1" (entry "c")
    ∷ clears "S2"
    ∷ []

-- The ring of capacity two has evicted "a".
evicts_oldest : recent (run (with_capacity 2) calls) "S1" 10 ≡ entry "c" ∷ entry "b" ∷ []
unfolding recent run append clear with_capacity Map.get Map.insert Map.remove
evicts_oldest = refl

recent-run_example : recent (run (with_capacity 2) calls) "S1" 10 ≡ entry "c" ∷ entry "b" ∷ []
unfolding history
recent-run_example = recent-run 2 10 "S1" calls

abbrev episodes : Episodes
episodes =
    (owned "e0" "acme", "close" ∷ [])
    ∷ (owned "e1" "other", "close" ∷ [])
    ∷ (entry "e2", "close" ∷ "gl" ∷ [])
    ∷ []

by_tag-record_all_example :
    by_tag (record_all new_episodic episodes) "close" (some "acme") 5
    ≡ owned "e0" "acme" ∷ entry "e2" ∷ []
unfolding tenant_matches
by_tag-record_all_example = by_tag-record_all episodes "close" (some "acme") 5

by_tag_tenancy_example :
    All
      (λ e. e.tenant ≢ some "other")
      (by_tag (record_all new_episodic episodes) "close" (some "acme") 5)
by_tag_tenancy_example =
    by_tag_tenancy (record_all new_episodic episodes) "close" "acme" "other" 5
      (λ e. ground (arith, eq_iff "acme" "other"))

assemble-after_history_example :
    assemble (after_history calls episodes) "S1" (some "gl") none
    ≡ entry "c" ∷ entry "b" ∷ entry "a" ∷ entry "e2" ∷ []
unfolding history tenant_matches
assemble-after_history_example = assemble-after_history calls episodes "S1" (some "gl") none
