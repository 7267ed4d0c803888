-- ===== src/Memory/Manager.antt =====
-- `MemoryManager` of crates/oracle-automate-memory/src/lib.rs: both memories, read in the order of
-- their cost.
pub mod Assembly
use oracle_automate.Prelude.{
  ℕ, ◌+◌, ◌≤◌, String, ◌≡◌, Option, none, some, List, [], ◌++◌, length, length-append,
  length-take-le, arith,
}
use oracle_automate.Memory.Entry.{MemoryEntry}
use oracle_automate.Memory.Working.{WorkingMemory, new_working, recent}
use oracle_automate.Memory.Episodic.{EpisodicMemory, new_episodic, by_tag}

pub record MemoryManager : Type 0 where
  pub working : WorkingMemory
  pub episodic : EpisodicMemory

abbrev pub new_manager : MemoryManager
new_manager = record { working = new_working; episodic = new_episodic }

tagged_part : EpisodicMemory → Option String → Option String → List MemoryEntry
tagged_part m none tenant = []
tagged_part m (some tag) tenant = by_tag m tag tenant 8

unfoldable pub assemble : MemoryManager → String → Option String → Option String → List MemoryEntry
unfolding tagged_part
assemble m session tag tenant = recent m.working session 8 ++ tagged_part m.episodic tag tenant
