-- ===== src/Memory/Episodic.antt =====
-- `EpisodicMemory` of crates/oracle-automate-memory/src/lib.rs: a list of records, oldest first, and
-- an index from tags to positions.
pub mod Index
use oracle_automate.Prelude.{
  ℕ, String, Bool, true, Option, none, some, List, [], ◌∷◌, ◌++◌, reverse, length, get_elem?, take,
  keep_if, str_eq, string_Eq,
}
use oracle_automate.Prelude.Map
use oracle_automate.Prelude.Map.{Map}
use oracle_automate.Memory.Entry.{MemoryEntry}

pub record EpisodicMemory : Type 0 where
  pub entries : List MemoryEntry
  pub by_tag_index : Map String (List ℕ)

abbrev pub new_episodic : EpisodicMemory
new_episodic = record { entries = []; by_tag_index = [] }

abbrev pub or_none {ℓ} : {A : Type ℓ} → Option (List A) → List A
or_none none = []
or_none (some q) = q

-- `by_tag.get(tag).cloned().unwrap_or_default()`
abbrev pub indices : String → Map String (List ℕ) → List ℕ
indices tag index = or_none (Map.get tag index)

-- The loop over the tags in `record`.
index_tags : ℕ → List String → Map String (List ℕ) → Map String (List ℕ)
index_tags idx [] index = index
index_tags idx (t ∷ ts) index = index_tags idx ts (Map.insert t (indices t index ++ idx ∷ []) index)

-- `record`; a keyword here. It returns the new entry's position.
unfoldable pub record_episode : EpisodicMemory → MemoryEntry → List String → ℕ × EpisodicMemory
unfolding index_tags
record_episode m entry tags =
    let idx = length m.entries in
    (
      idx,
      record {
        entries = m.entries ++ entry ∷ [];
        by_tag_index = index_tags idx tags m.by_tag_index;
      },
    )

abbrev pub cons_some {ℓ} : {A : Type ℓ} → Option A → List A → List A
cons_some none rest = rest
cons_some (some a) rest = a ∷ rest

-- `filter_map(|i| entries.get(i))`
abbrev pub resolve : List MemoryEntry → List ℕ → List MemoryEntry
resolve entries [] = []
resolve entries (i ∷ is) = cons_some (get_elem? entries i) (resolve entries is)

unfoldable pub tenant_matches : Option String → Option String → Bool
tenant_matches (some t) (some et) = str_eq t et
tenant_matches (some t) none = true
tenant_matches none et = true

abbrev pub visible_to : Option String → MemoryEntry → Bool
visible_to tenant e = tenant_matches tenant e.tenant

unfoldable pub by_tag : EpisodicMemory → String → Option String → ℕ → List MemoryEntry
unfolding tenant_matches
by_tag m tag tenant limit = reverse (
    take limit
      (keep_if (visible_to tenant) (resolve m.entries (reverse (indices tag m.by_tag_index)))))

unfoldable pub total : EpisodicMemory → ℕ
total m = length m.entries
