-- ===== src/Erp/Cache/Reads.antt =====
-- Reads through `MetadataCache` (crates/oracle-automate-erp/src/metadata_cache.rs) of a client whose
-- metadata may change: how old an answer can be.
use oracle_automate.Prelude.{ℕ, ◌-◌, ◌≤◌, ◌<◌, String, ◌≡◌, ◌⊎◌, pair_Eq}
use oracle_automate.Prelude.Map
use oracle_automate.Erp.Error.{ok}
use oracle_automate.Erp.Metadata.{ErpOperationMeta}
use oracle_automate.Erp.Cache.Knowledge.{Knowledge}
use oracle_automate.Erp.Cache.{MetadataCache, Inner, operation_metadata}

module _ {W : Type 0} (inner : Inner W) where
  -- A read of `key` answers what the client says now, or what was said of it not longer ago than
  -- the time to live.
  abbrev pub IsFresh : Knowledge → MetadataCache → String → String → (ℕ → ℕ) → W → Type 0
  unfolding operation_metadata
  IsFresh K c f l clock w =
      let asked = inner.operation_metadata f l w in
      let read = operation_metadata inner c f l clock w in
      ((read.0 ≡ asked.0) × (read.2 ≡ asked.1))
      ⊎ ((m : ErpOperationMeta) × (t : ℕ) × (read.0 ≡ ok m)
          × (read.2 ≡ w)
          × K (f, l) m t
          × (clock 0 - t ≤ c.ttl)
          × (0 < c.ttl))
