-- ===== src/Tools/Customer.antt =====
-- apps/oracle-automate-server/src/tools.rs, the handler of `workflow_maintain_customer_master`: two
-- forms in a chain. `elicit` acts on the world of the session, and is a parameter with serde's
-- reading of the arguments.
pub mod Chained
use oracle_automate.Prelude.{
  String, Bool, true, false, Option, none, some, List, [], ◌∷◌, str_eq, if◌then◌else◌,
}
use oracle_automate.Text.{◌<>◌}
use oracle_automate.Json.{Json, null, str, arr, obj, Fields, end, field}
use oracle_automate.Mcp.Elicit.{ElicitationAction, accept, decline, cancel, ElicitationResult}
use oracle_automate.Mcp.Methods.{Decoded, decoded, malformed}
use oracle_automate.Mcp.Protocol.{CallToolResult}
use oracle_automate.Observability.Audit.{AuditOutcome}
use oracle_automate.Tools.Answer.{
  text_result, error_result, str_at, Pretty, Stamp, Auditing, record_write_audit,
}
use oracle_automate.Tools.Publish.{object_schema, property, items_of, or_empty, or_null, Elicit}

abbrev pub plain : String → Json
plain description = obj (field "description" (str description) (field "type" (str "string") end))

abbrev pub choice : List String → Json
choice values = obj (field "enum" (arr (items_of values)) (field "type" (str "string") end))

abbrev pub scope_property : Json
scope_property = obj (
    field "default" (str "general_data") (
      field "description" (str "Which view to maintain") (
        field "enum"
          (arr (items_of ("general_data" ∷ "company_code_data" ∷ "sales_area_data" ∷ [])))
          (field "type" (str "string") end))))

abbrev pub pick_schema : Option String → Json
pick_schema hint =
    object_schema
      (field "company_code" (plain "Company code (only required for company_code_data scope)") (
        field "customer" (property "string" "Customer (KUNNR)" (str (or_empty hint)))
          (field "scope" scope_property end)))
      ("customer" ∷ "scope" ∷ [])

abbrev pub country_property : Json
country_property = obj (
    field "description" (str "Country (ISO-2)") (
      field "enum" (arr (items_of ("DE" ∷ "US" ∷ "GB" ∷ "JP" ∷ "SG" ∷ [])))
        (field "type" (str "string") end)))

abbrev pub fields_schema : String → Fields
fields_schema scope =
    if str_eq scope "general_data"
    then field "city" (plain "City")
        (field "country" country_property (field "name1" (plain "Name 1") end))
    else if str_eq scope "company_code_data"
    then field "dunning_area" (plain "Dunning area") (
        field "payment_terms" (plain "Payment terms (ZTERM)")
          (field "recon_account" (plain "Reconciliation account (HKONT), e.g. 140000") end))
    else if str_eq scope "sales_area_data"
    then field "distribution_channel" (plain "Distribution channel") (
        field "division" (plain "Division") (
          field "incoterms" (choice ("EXW" ∷ "FCA" ∷ "CIF" ∷ "DAP" ∷ "DDP" ∷ []))
            (field "sales_org" (plain "Sales organisation") end)))
    else end

abbrev pub pick_question : String
pick_question = "Select customer and which data view to maintain."

abbrev pub fields_question : String → String → String
fields_question customer scope =
    "Enter new values for customer " <> customer <> " (" <> scope
    <> " view). Leave fields blank to keep current values."

-- `unwrap_or(json!({}))`
abbrev pub or_object : Option Json → Json
or_object none = obj end
or_object (some v) = v

-- `unwrap_or_default` of a printed value.
abbrev pub printed : Decoded String → String
printed (decoded s) = s
printed (malformed e) = ""

abbrev pub customer_tool : String
customer_tool = "oracle.workflow.maintain_customer_master"

-- The arms after the second form: the answer, and the outcome for the audit.
abbrev pub on_fields :
    Pretty → String → String → ElicitationAction → Option Json → CallToolResult × AuditOutcome
on_fields pretty customer scope accept content = (
  text_result (
      "Customer master change confirmed (mock):\n  customer: "
      <> customer
      <> "\n  scope:    "
      <> scope
      <> "\n  changes:\n"
      <> printed (pretty (or_object content))
      <> "\n\nNext step (when enable-writes): oracle.rest.call BAPI_CUSTOMER_CHANGEFROMDATA."),
  AuditOutcome.ok ("customer " <> customer <> " change confirmed (mock)"),
)
on_fields pretty customer scope decline content = (
  text_result "Customer master change declined; no action taken.",
  AuditOutcome.declined "user declined field entry",
)
on_fields pretty customer scope cancel content =
    (error_result "Customer master cancelled.", AuditOutcome.denied "cancelled")

abbrev pub at_selection : CallToolResult × AuditOutcome
at_selection = (
  error_result "Customer master maintenance cancelled at scope selection.",
  AuditOutcome.declined "cancelled at scope selection",
)

module _ {W : Type 0} (elicit : Elicit W) (pretty : Pretty) where
  -- The second form.
  unfoldable pub ask_fields : String → String → W → CallToolResult × AuditOutcome × W
  ask_fields customer scope w =
      let (confirm, w') =
        elicit (fields_question customer scope) (object_schema (fields_schema scope) []) w in
      let (answer, outcome) = on_fields pretty customer scope confirm.action confirm.content in
      (answer, outcome, w')

  unfoldable pub after_pick :
      ElicitationAction → Option Json → W → CallToolResult × AuditOutcome × W
  unfolding ask_fields str_at
  after_pick accept content w =
      let picked = or_null content in
      ask_fields (str_at "customer" "" picked) (str_at "scope" "general_data" picked) w
  after_pick decline content w = (at_selection.0, at_selection.1, w)
  after_pick cancel content w = (at_selection.0, at_selection.1, w)

  module _ {L : Type 0} (auditing : Auditing L)
      (read_customer : Json → Decoded (Option String)) where
    unfoldable pub maintain_with :
        Stamp → Json → Decoded (Option String) → W × L → CallToolResult × W × L
    unfolding after_pick record_write_audit
    maintain_with stamp arguments (malformed e) s =
        (error_result (customer_tool <> ": " <> e), s.0, s.1)
    maintain_with stamp arguments (decoded hint) (w, l) =
        let (pick, w') = elicit pick_question (pick_schema hint) w in
        let (answer, outcome, w'') = after_pick pick.action pick.content w' in
        (answer, w'', record_write_audit auditing stamp customer_tool arguments outcome l)

    unfoldable pub maintain_customer_master : Stamp → Json → W × L → CallToolResult × W × L
    unfolding maintain_with
    maintain_customer_master stamp arguments s =
        maintain_with stamp arguments (read_customer arguments) s
