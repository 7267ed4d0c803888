-- ===== src/Memory/Working.antt =====
-- `WorkingMemory` of crates/oracle-automate-memory/src/lib.rs: a bounded queue for each session, its
-- front at the head of the list.
pub mod Window
use oracle_automate.Prelude.{
  ℕ, max, String, Option, none, some, List, [], ◌∷◌, ◌++◌, reverse, length, take, nat_eq, string_Eq,
  if◌then◌else◌,
}
use oracle_automate.Prelude.Map
use oracle_automate.Prelude.Map.{Map}
use oracle_automate.Memory.Entry.{MemoryEntry}

pub record WorkingMemory : Type 0 where
  pub sessions : Map String (List MemoryEntry)
  pub cap : ℕ

unfoldable pub with_capacity : ℕ → WorkingMemory
with_capacity cap = record { sessions = []; cap = max cap 1 }

-- `WorkingMemory::new`, with `DEFAULT_WORKING_CAP`.
abbrev pub new_working : WorkingMemory
new_working = with_capacity 64

abbrev pub or_default {ℓ} : {A : Type ℓ} → Option (List A) → List A
or_default none = []
or_default (some q) = q

-- The queue of a session, empty if it has none.
abbrev pub queue : String → WorkingMemory → List MemoryEntry
queue session m = or_default (Map.get session m.sessions)

abbrev pub pop_front {ℓ} : {A : Type ℓ} → List A → List A
pop_front [] = []
pop_front (x ∷ xs) = xs

push_bounded : ℕ → List MemoryEntry → MemoryEntry → List MemoryEntry
push_bounded cap q e = (if nat_eq (length q) cap then pop_front q else q) ++ e ∷ []

unfoldable pub append : WorkingMemory → String → MemoryEntry → WorkingMemory
unfolding push_bounded
append m session e = record m {
  sessions = Map.insert session (push_bounded m.cap (queue session m) e) m.sessions;
}

unfoldable pub recent : WorkingMemory → String → ℕ → List MemoryEntry
recent m session limit = take limit (reverse (queue session m))

unfoldable pub clear : WorkingMemory → String → WorkingMemory
clear m session = record m { sessions = Map.remove session m.sessions }

unfoldable pub session_count : WorkingMemory → ℕ
session_count m = length m.sessions
