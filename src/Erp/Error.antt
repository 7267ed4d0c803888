-- ===== src/Erp/Error.antt =====
-- crates/oracle-automate-erp/src/error.rs. Every error code is negative: a code is kept as the
-- absolute value of its i32.
use oracle_automate.Prelude.{ℕ, String, Bool, ◌&&◌, leb}
use oracle_automate.Text.{◌<>◌, decimal}

pub data ErpErrorCode : Type 0 where
  timeout destination_down pool_exhausted circuit_open upstream_rate_limit : ErpErrorCode
  auth_failed not_found table_buffer_overflow invalid_parameter permission_denied : ErpErrorCode
  schema_violation internal partial_bulk stale_metadata : ErpErrorCode

-- `as_i32`, without its sign.
unfoldable pub as_i32 : ErpErrorCode → ℕ
as_i32 timeout = 32110
as_i32 destination_down = 32120
as_i32 pool_exhausted = 32130
as_i32 circuit_open = 32140
as_i32 upstream_rate_limit = 32150
as_i32 auth_failed = 32210
as_i32 not_found = 32220
as_i32 table_buffer_overflow = 32230
as_i32 invalid_parameter = 32240
as_i32 permission_denied = 32250
as_i32 schema_violation = 32260
as_i32 internal = 32299
as_i32 partial_bulk = 32310
as_i32 stale_metadata = 32320

-- `(-32199..=-32100).contains(&v)`
unfoldable pub code_is_transient : ErpErrorCode → Bool
unfolding as_i32
code_is_transient c = leb 32100 (as_i32 c) && leb (as_i32 c) 32199

pub data ErpError : Type 0 where
  timeout : ℕ → ErpError
  destination_down : String → String → ErpError
  pool_exhausted : ℕ → ErpError
  circuit_open : ℕ → ErpError
  auth_failed not_found : String → ErpError
  table_buffer_overflow : String → ℕ → ErpError
  invalid_parameter : String → String → ErpError
  permission_denied schema_violation partial_bulk internal : String → ErpError

unfoldable pub error_code : ErpError → ErpErrorCode
error_code (ErpError.timeout ms) = ErpErrorCode.timeout
error_code (ErpError.destination_down d r) = ErpErrorCode.destination_down
error_code (ErpError.pool_exhausted cap) = ErpErrorCode.pool_exhausted
error_code (ErpError.circuit_open ms) = ErpErrorCode.circuit_open
error_code (ErpError.auth_failed s) = ErpErrorCode.auth_failed
error_code (ErpError.not_found s) = ErpErrorCode.not_found
error_code (ErpError.table_buffer_overflow t n) = ErpErrorCode.table_buffer_overflow
error_code (ErpError.invalid_parameter n r) = ErpErrorCode.invalid_parameter
error_code (ErpError.permission_denied s) = ErpErrorCode.permission_denied
error_code (ErpError.schema_violation s) = ErpErrorCode.schema_violation
error_code (ErpError.partial_bulk s) = ErpErrorCode.partial_bulk
error_code (ErpError.internal s) = ErpErrorCode.internal

-- `ErpError::is_transient`
unfoldable pub is_transient : ErpError → Bool
unfolding error_code code_is_transient
is_transient e = code_is_transient (error_code e)

-- The `#[error(...)]` texts of `ErpError`.
unfoldable pub display : ErpError → String
display (ErpError.timeout ms) = "REST operation timeout after " <> decimal ms <> " ms"
display (ErpError.destination_down d r) = "SAP destination '" <> d <> "' unreachable: " <> r
display (ErpError.pool_exhausted cap) = "connection pool exhausted (cap=" <> decimal cap <> ")"
display (ErpError.circuit_open ms) = "circuit open until ~" <> decimal ms <> " ms from now"
display (ErpError.auth_failed s) = "authentication failed: " <> s
display (ErpError.not_found s) = "not found: " <> s
display (ErpError.table_buffer_overflow t n) =
    "table buffer overflow for '" <> t <> "' (max_rows=" <> decimal n <> ")"
display (ErpError.invalid_parameter n r) = "invalid parameter '" <> n <> "': " <> r
display (ErpError.permission_denied s) = "permission denied: " <> s
display (ErpError.schema_violation s) = "schema violation: " <> s
display (ErpError.partial_bulk s) = "partial result: " <> s
display (ErpError.internal s) = "internal: " <> s

-- `ErpResult<T>`
pub data ErpResult {ℓ} (A : Type ℓ) : Type ℓ where
  ok : A → ErpResult A
  err : ErpError → ErpResult A

infixl 5 ◌>>=◌
abbrev pub ◌>>=◌ {ℓ κ} : {A : Type ℓ} {B : Type κ} → ErpResult A → (A → ErpResult B) → ErpResult B
ok a >>= f = f a
err e >>= f = err e
