-- ===== src/Erp/Transaction.antt =====
-- crates/oracle-automate-erp/src/transaction.rs: a write is called, checked by its return stack, and
-- committed or rolled back. `call_operation` of the `ErpClient` is a parameter over the world that it
-- acts on.
pub mod Calls
pub mod Safety
mod Tests
use oracle_automate.Prelude.{
  ℕ, String, Bool, true, false, not, ◌||◌, Option, none, some, List, [], ◌∷◌, ◌++◌, str_eq,
  if◌then◌else◌,
}
use oracle_automate.Text.{◌<>◌}
use oracle_automate.Json.{Json, null, str, obj, end, field}
use oracle_automate.Erp.Error.{ErpError, ErpResult, ok, err, display}
use oracle_automate.Erp.Message.{ErpSeverity, warning, ErpMessage, parse_erp_messages, has_failure}

-- `ErpCallRequest` of crates/oracle-automate-erp/src/client.rs.
pub record ErpCallRequest : Type 0 where
  pub function : String
  pub parameters : Json
  pub timeout_ms : ℕ
  pub require_read_only_safe : Bool

-- `ErpClient::call_operation(request, read_only_mode)`
abbrev pub Client : Type 0 → Type 0
Client W = ErpCallRequest → Bool → W → ErpResult Json × W

abbrev pub commit_fn : String
commit_fn = "ebs.fnd.transaction.commit"

abbrev pub rollback_fn : String
rollback_fn = "ebs.fnd.transaction.rollback"

abbrev pub commit_req : ErpCallRequest
commit_req = record {
  function = commit_fn;
  parameters = obj (field "WAIT" (str "X") end);
  timeout_ms = 30000;
  require_read_only_safe = false;
}

abbrev pub rollback_req : ErpCallRequest
rollback_req = record {
  function = rollback_fn;
  parameters = null;
  timeout_ms = 30000;
  require_read_only_safe = false;
}

abbrev pub note : ErpSeverity → String → ErpMessage
note severity text = record {
  severity = severity;
  message_class = "ORAAUTO";
  message_number = "000";
  text = text;
  parameter = none;
  row = none;
  field_name = none;
  system = none;
}

pub record WriteOutcome : Type 0 where
  pub function : String
  pub committed : Bool
  pub rolled_back : Bool
  pub messages : List ErpMessage
  pub result : Json

-- The arms of the `match` in `rollback`.
unfoldable pub rollback_result : ErpResult Json → Bool × List ErpMessage
rollback_result (ok v) = let msgs = parse_erp_messages v in (not (has_failure msgs), msgs)
rollback_result (err e) =
    (false, note warning ("rollback could not be confirmed: " <> display e) ∷ [])

abbrev unconfirmed : ErpMessage
unconfirmed =
    note warning "REST operation returned no FND return stack; outcome unconfirmed — not committed"

module _ {W : Type 0} (client : Client W) where
  -- `rollback`, with the outcome that its caller builds of it: `before` are the messages so far.
  unfoldable pub roll_back_with :
      ErpCallRequest → Json → List ErpMessage → W → ErpResult WriteOutcome × W
  unfolding rollback_result
  roll_back_with request result before w =
      let (r, w') = client rollback_req false w in
      let (rolled_back, rb_msgs) = rollback_result r in
      (
        ok (record {
          function = request.function;
          committed = false;
          rolled_back = rolled_back;
          messages = before ++ rb_msgs;
          result = result;
        }),
        w',
      )

  -- From the answer to the commit on.
  unfoldable pub after_commit :
      ErpCallRequest → Json → List ErpMessage → ErpResult Json → W → ErpResult WriteOutcome × W
  unfolding roll_back_with
  after_commit request result messages (err e) w = (err e, w)
  after_commit request result messages (ok v) w =
      let all = messages ++ parse_erp_messages v in
      if has_failure all then roll_back_with request result all w else (
        ok (record {
          function = request.function;
          committed = true;
          rolled_back = false;
          messages = all;
          result = result;
        }),
        w,
      )

  -- From the messages of the write on, by whether there are any.
  unfoldable pub after_messages :
      ErpCallRequest → Json → List ErpMessage → W → ErpResult WriteOutcome × W
  unfolding roll_back_with after_commit
  after_messages request result [] w = roll_back_with request result (unconfirmed ∷ []) w
  after_messages request result (m ∷ ms) w =
      if has_failure (m ∷ ms)
      then roll_back_with request result (m ∷ ms) w
      else (let (r, w') = client commit_req false w in after_commit request result (m ∷ ms) r w')

  unfoldable pub after_write : ErpCallRequest → ErpResult Json → W → ErpResult WriteOutcome × W
  unfolding after_messages
  after_write request (err e) w = (err e, w)
  after_write request (ok v) w = after_messages request v (parse_erp_messages v) w

  unfoldable pub execute_write_bapi : ErpCallRequest → Bool → W → ErpResult WriteOutcome × W
  unfolding after_write
  execute_write_bapi request read_only_mode w =
      if read_only_mode
      then (
        err (
            ErpError.permission_denied (
              "write workflow for '" <> request.function
              <> "' requires write mode (--enable-writes)")),
        w,
      )
      else if str_eq request.function commit_fn || str_eq request.function rollback_fn
      then (
        err (
            ErpError.invalid_parameter "function"
              "commit/rollback are issued automatically; call the business REST operation instead"),
        w,
      )
      else (let (r, w') = client request false w in after_write request r w')
