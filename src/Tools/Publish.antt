-- ===== src/Tools/Publish.antt =====
-- apps/oracle-automate-server/src/tools.rs, the handler of `workflow_release_transport` (the tool
-- oracle.workflow.publish_sandbox). `elicit` acts on the world of the session, and is a parameter
-- with serde's reading of the arguments.
pub mod Confirmed
use oracle_automate.Prelude.{
  String, Bool, true, false, not, Option, none, some, List, [], ◌∷◌, str_eq, if◌then◌else◌,
}
use oracle_automate.Text.{◌<>◌}
use oracle_automate.Json.{Json, null, bool, str, arr, obj, Items, nil, cons, Fields, end, field}
use oracle_automate.Mcp.Elicit.{ElicitationAction, accept, decline, cancel, ElicitationResult}
use oracle_automate.Mcp.Methods.{Decoded, decoded, malformed}
use oracle_automate.Mcp.Protocol.{CallToolResult}
use oracle_automate.Observability.Audit.{AuditOutcome}
use oracle_automate.Tools.Answer.{
  text_result, error_result, bool_at, str_at, shown, Stamp, Auditing, record_write_audit,
}

abbrev pub items_of : List String → Items
items_of [] = nil
items_of (s ∷ ss) = cons (str s) (items_of ss)

-- Of crates/mcp-server/src/elicit.rs; the keys of an object are walked in their order.
abbrev pub object_schema : Fields → List String → Json
object_schema properties required = obj (
    field "properties" (obj properties)
      (field "required" (arr (items_of required)) (field "type" (str "object") end)))

abbrev pub property : String → String → Json → Json
property type_ description default =
    obj (
      field "default" default
        (field "description" (str description) (field "type" (str type_) end)))

abbrev target_property : Json
target_property = obj (
    field "default" (str "MAINLINE") (
      field "description" (str "Publish target") (
        field "enum" (arr (items_of ("MAINLINE" ∷ "QA_POD" ∷ "PRODUCTION" ∷ [])))
          (field "type" (str "string") end))))

abbrev phrase_property : Json
phrase_property = obj (
    field "description" (str "Type the sandbox name again to confirm")
      (field "type" (str "string") end))

abbrev pub or_empty : Option String → String
or_empty none = ""
or_empty (some s) = s

abbrev pub publish_schema : Option String → Json
publish_schema hint =
    object_schema
      (field "confirmation_phrase" phrase_property (
        field "publish_dependents" (property "boolean" "Publish dependent sandboxes?" (bool false))
          (field "sandbox"
            (property "string" "Sandbox name to publish, e.g. GT_AR_AUTOINVOICE_FIX"
              (str (or_empty hint)))
            (field "skip_validation"
              (property "boolean" "Skip pre-publish validation (dangerous)" (bool false))
              (field "target" target_property end)))))
      ("sandbox" ∷ "target" ∷ "confirmation_phrase" ∷ [])

abbrev pub publish_question : String
publish_question =
    "Publishing a sandbox to the mainline (or a target pod) is irreversible. Confirm details and re-enter the sandbox name to proceed."

abbrev pub or_null : Option Json → Json
or_null none = null
or_null (some v) = v

-- The arm of an accepted form: the answer, and the outcome for the audit.
unfoldable pub on_accept : Json → CallToolResult × AuditOutcome
unfolding bool_at str_at
on_accept v =
    let sb = str_at "sandbox" "" v in
    let phrase = str_at "confirmation_phrase" "" v in
    let target = str_at "target" "MAINLINE" v in
    if not (str_eq sb phrase)
    then (
      error_result (
          "Confirmation phrase '" <> phrase <> "' does not match sandbox '" <> sb
          <> "'. Publish aborted."),
      AuditOutcome.denied "confirmation phrase mismatch",
    )
    else (
      text_result (
          "Sandbox publish plan confirmed (mock):\n  sandbox:             "
          <> sb
          <> "\n  target:              "
          <> target
          <> "\n  publish_dependents:  "
          <> shown (bool_at "publish_dependents" v)
          <> "\n  skip_validation:     "
          <> shown (bool_at "skip_validation" v)
          <> "\n\nNext step (when enable-writes): fusion.fnd.sandbox.publish (cross-pod promotion via an FSM Configuration Package)."),
      AuditOutcome.ok ("sandbox " <> sb <> " publish confirmed → " <> target <> " (mock)"),
    )

abbrev pub on_action : ElicitationAction → Option Json → CallToolResult × AuditOutcome
unfolding on_accept
on_action accept content = on_accept (or_null content)
on_action decline content = (
  text_result "Sandbox publish declined; no action taken.",
  AuditOutcome.declined "user declined publish",
)
on_action cancel content = (
  error_result
      "Sandbox publish cancelled (client lacks elicitation capability — refusing to proceed without confirmation).",
  AuditOutcome.denied "elicitation unavailable",
)

-- The outer `elicit`: its message and schema.
abbrev pub Elicit : Type 0 → Type 0
Elicit W = String → Json → W → ElicitationResult × W

module _ {W L : Type 0} (elicit : Elicit W) (auditing : Auditing L)
    (read_sandbox : Json → Decoded (Option String)) where
  unfoldable pub publish_with :
      Stamp → Json → Decoded (Option String) → W × L → CallToolResult × W × L
  unfolding record_write_audit
  publish_with stamp arguments (malformed e) s =
      (error_result ("oracle.workflow.publish_sandbox: " <> e), s.0, s.1)
  publish_with stamp arguments (decoded hint) (w, l) =
      let (asked, w') = elicit publish_question (publish_schema hint) w in
      let (answer, outcome) = on_action asked.action asked.content in
      let l' =
        record_write_audit auditing stamp "oracle.workflow.publish_sandbox" arguments outcome l in
      (answer, w', l')

  unfoldable pub publish_sandbox : Stamp → Json → W × L → CallToolResult × W × L
  unfolding publish_with
  publish_sandbox stamp arguments s = publish_with stamp arguments (read_sandbox arguments) s
