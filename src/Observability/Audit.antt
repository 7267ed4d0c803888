-- ===== src/Observability/Audit.antt =====
-- The audit log of crates/oracle-automate-observability/src/audit.rs. The sink and `str::to_lowercase`,
-- which follows the tables of Unicode, are parameters. Entries of an object keep their places.
pub mod Words
pub mod Redaction
mod Tests
use oracle_automate.Prelude.{
  ℕ, String, Bool, true, false, ◌||◌, Option, List, [], ◌∷◌, if◌then◌else◌,
}
use oracle_automate.Text.{codes, Signed}
use oracle_automate.Text.Codes.{Codes, is_prefix}
use oracle_automate.Json.{
  Json, null, bool, num, str, arr, obj, Items, nil, cons, Fields, end, field,
}

pub data AuditOutcome : Type 0 where
  ok declined denied : String → AuditOutcome
  failed : Signed → String → AuditOutcome

pub record AuditEntry : Type 0 where
  pub event_id : String
  pub at_ms : ℕ
  pub session_id : Option String
  pub tenant : Option String
  pub actor : Option String
  pub tool : String
  pub erp_system : Option String
  pub arguments_redacted : Json
  pub outcome : AuditOutcome
  pub duration_ms : ℕ

abbrev pub sensitive_substrings : List String
sensitive_substrings =
    "password" ∷ "passwd" ∷ "secret" ∷ "token" ∷ "api_key" ∷ "apikey" ∷ "_pwd" ∷ "_pass"
    ∷ "credential" ∷ []

-- `str::contains`: the text, then what is looked for.
unfoldable pub contains : Codes → Codes → Bool
contains [] s = is_prefix s []
contains (c ∷ cs) s = is_prefix s (c ∷ cs) || contains cs s

abbrev pub any_of : List String → Codes → Bool
any_of [] key = false
any_of (s ∷ ss) key = contains key (codes s) || any_of ss key

module _ (to_lowercase : String → String) where
  unfoldable pub is_sensitive : String → Bool
  unfolding contains
  is_sensitive k = any_of sensitive_substrings (codes (to_lowercase k))

  unfoldable mutual
    pub redact : Json → Json
    redact null = null
    redact (bool b) = bool b
    redact (num n) = num n
    redact (str s) = str s
    redact (arr items) = arr (redact_items items)
    redact (obj fields) = obj (redact_fields fields)

    pub redact_items : Items → Items
    redact_items nil = nil
    redact_items (cons v vs) = cons (redact v) (redact_items vs)

    pub redact_fields : Fields → Fields
    redact_fields end = end
    redact_fields (field k v fs) =
        let inner = redact v in
        field k (if is_sensitive k then str "***" else inner) (redact_fields fs)

  -- `AuditLog::record`, a keyword here.
  unfoldable pub record_entry : {W : Type 0} → (AuditEntry → W → W) → AuditEntry → W → W
  record_entry sink entry w =
      sink (record entry { arguments_redacted = redact entry.arguments_redacted }) w
