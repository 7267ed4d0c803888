-- ===== src/Memory/Manager/Assembly.antt =====
-- What `MemoryManager::assemble` (crates/oracle-automate-memory/src/lib.rs) returns after a history.
use oracle_automate.Prelude.{
  String, ◌≡◌, refl, Option, none, some, List, [], ◌++◌, reverse, take, keep_if, take-take_le,
  arith,
}
use oracle_automate.Memory.Entry.{MemoryEntry}
use oracle_automate.Memory.Working.{new_working}
use oracle_automate.Memory.Working.Window.{Call, run, history, recent-run}
use oracle_automate.Memory.Episodic.{new_episodic, visible_to}
use oracle_automate.Memory.Episodic.Index.{Episodes, record_all, tagged, by_tag-record_all}
use oracle_automate.Memory.Manager.{MemoryManager, tagged_part, assemble}

abbrev pub after_history : List Call → Episodes → MemoryManager
after_history cs es = record { working = run new_working cs; episodic = record_all new_episodic es }

abbrev tagged_episodes : Option String → Option String → Episodes → List MemoryEntry
tagged_episodes none tenant es = []
tagged_episodes (some tag) tenant es =
    reverse (take 8 (keep_if (visible_to tenant) (reverse (tagged tag es))))

tagged_part-record_all :
    (es : Episodes) (tag tenant : Option String)
    → tagged_part (record_all new_episodic es) tag tenant ≡ tagged_episodes tag tenant es
unfolding tagged_part
tagged_part-record_all es none tenant = refl
tagged_part-record_all es (some tag) tenant = by_tag-record_all es tag tenant 8

-- After any history of both memories, the context of a session is its eight newest working entries
-- since it was last cleared, newest first, and then, if a tag is asked for, the eight newest episodes
-- that carry it and that the tenant may see, oldest first.
pub assemble-after_history :
    (cs : List Call) (es : Episodes) (session : String) (tag tenant : Option String)
    → assemble (after_history cs es) session tag tenant
      ≡ take 8 (history session [] cs) ++ tagged_episodes tag tenant es
unfolding assemble
assemble-after_history cs es session tag tenant = rw (
  recent-run 64 8 session cs,
  take-take_le 8 64 (history session [] cs) (omega arith),
  tagged_part-record_all es tag tenant,
)
