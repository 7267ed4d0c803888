-- ===== src/Memory/Entry.antt =====
-- `Tier` and `MemoryEntry` of crates/oracle-automate-memory/src/lib.rs. The clock is an argument.
use oracle_automate.Prelude.{ℕ, String, Option, none, some}
use oracle_automate.Json.{Json}

pub data Tier : Type 0 where
  working episodic semantic procedural : Tier

pub record MemoryEntry : Type 0 where
  pub tier : Tier
  pub key : String
  pub value : Json
  pub trust_class : String
  pub tenant : Option String
  pub created_at_ms : ℕ

unfoldable pub new_entry : Tier → String → Json → ℕ → MemoryEntry
new_entry tier key value now_ms = record {
  tier = tier;
  key = key;
  value = value;
  trust_class = "unverified";
  tenant = none;
  created_at_ms = now_ms;
}

unfoldable pub with_trust : MemoryEntry → String → MemoryEntry
with_trust e trust = record e { trust_class = trust }

unfoldable pub with_tenant : MemoryEntry → String → MemoryEntry
with_tenant e tenant = record e { tenant = some tenant }
