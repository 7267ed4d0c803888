-- ===== src/Erp/Retry/Tests.antt =====
-- The unit tests of `retry_with_backoff` of the source, and its theorem at a concrete input.
use oracle_automate.Prelude.{ℕ, ◌+◌, ◌*◌, ◌≡◌, refl, some, [], ◌∷◌, arith, ltb, if◌then◌else◌}
use oracle_automate.Erp.Error.{ErpError, ErpResult, ok, err, is_transient}
use oracle_automate.Erp.Retry.{BackoffPolicy, Run, retry_with_backoff}
use oracle_automate.Erp.Retry.Outcome.{IsRun, retry_with_backoff-IsRun}

abbrev policy : BackoffPolicy
policy = record { max_attempts = 3; initial = 1000000; scale = λ ms. ms * 2; max_delay = 1500000 }

-- Two timeouts, then a success; the world counts the calls.
abbrev flaky : ℕ → ErpResult ℕ × ℕ
flaky n = (if ltb n 2 then err (ErpError.timeout 10) else ok n, n + 1)

abbrev missing : ℕ → ErpResult ℕ × ℕ
missing n = (err (ErpError.not_found "Z_NOPE"), n + 1)

retries_transient :
    retry_with_backoff policy flaky 3 0
    ≡ some (record { result = ok 2; world = 3; attempts = 3; sleeps = 1000000 ∷ 1500000 ∷ [] })
unfolding retry_with_backoff is_transient
retries_transient = refl

permanent_is_final :
    retry_with_backoff policy missing 3 0
    ≡ some (record {
      result = err (ErpError.not_found "Z_NOPE");
      world = 1;
      attempts = 1;
      sleeps = [];
    })
unfolding retry_with_backoff is_transient
permanent_is_final = refl

retry_with_backoff-IsRun_example :
    (r : Run ℕ ℕ) × (retry_with_backoff policy flaky 3 0 ≡ some r) × IsRun policy flaky 0 [] 0 r
retry_with_backoff-IsRun_example =
    retry_with_backoff-IsRun policy flaky 3 0 (omega arith) (omega arith)
