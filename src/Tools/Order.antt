-- ===== src/Tools/Order.antt =====
-- apps/oracle-automate-server/src/tools.rs, the handler of `workflow_create_purchase_order`. `elicit`
-- acts on the world of the session, and is a parameter with serde's reading of the arguments. A
-- quantity, an f64, is the text that is printed of it.
use oracle_automate.Prelude.{String, Option, none, some, List, [], ◌∷◌}
use oracle_automate.Text.{◌<>◌}
use oracle_automate.Json.{Json, num, str, arr, obj, end, field}
use oracle_automate.Mcp.Elicit.{ElicitationAction, accept, decline, cancel}
use oracle_automate.Mcp.Methods.{Decoded, decoded, malformed}
use oracle_automate.Mcp.Protocol.{CallToolResult}
use oracle_automate.Observability.Audit.{AuditOutcome}
use oracle_automate.Tools.Answer.{
  text_result, error_result, Pretty, Stamp, Auditing, record_write_audit,
}
use oracle_automate.Tools.Publish.{object_schema, property, items_of, or_empty, Elicit}
use oracle_automate.Tools.Customer.{plain, or_object, printed}

pub record PoArgs : Type 0 where
  pub vendor : Option String
  pub material : Option String
  pub quantity : Option String

abbrev pub or_zero : Option String → String
or_zero none = "0.0"
or_zero (some q) = q

abbrev pub listed : String → String → List String → Json
listed description default values = obj (
    field "default" (str default) (
      field "description" (str description)
        (field "enum" (arr (items_of values)) (field "type" (str "string") end))))

abbrev pub order_schema : PoArgs → Json
order_schema args =
    object_schema
      (field "company_code" (listed "Company code (BUKRS)" "1000" ("1000" ∷ "2000" ∷ "3000" ∷ [])) (
        field "cost_centre" (plain "Cost centre (KOSTL), e.g. '1000'") (
          field "currency"
            (listed "Document currency" "USD" ("USD" ∷ "EUR" ∷ "GBP" ∷ "JPY" ∷ "SGD" ∷ []))
            (field "delivery_date" (plain "Requested delivery date (YYYY-MM-DD)") (
              field "material" (property "string" "Material (MATNR)" (str (or_empty args.material)))
                (field "quantity" (property "number" "Order quantity" (num (or_zero args.quantity)))
                  (field "vendor"
                    (property "string" "Vendor (LIFNR), e.g. 'V-100100'"
                      (str (or_empty args.vendor)))
                    end)))))))
      ("vendor" ∷ "material" ∷ "quantity" ∷ "cost_centre" ∷ "company_code" ∷ "delivery_date" ∷ [])

abbrev pub order_question : String
order_question =
    "Confirm purchase-order details before posting. Cost centre + delivery date are mandatory."

abbrev pub order_tool : String
order_tool = "oracle.workflow.create_purchase_order"

-- The arms after the form: the answer, and the outcome for the audit.
abbrev pub on_order : Pretty → ElicitationAction → Option Json → CallToolResult × AuditOutcome
on_order pretty accept content = (
  text_result (
      "Purchase order confirmed (mock execution; no real REST operation fired):\n\n"
      <> printed (pretty (or_object content))
      <> "\n\nNext step (when enable-writes): oracle.rest.call BAPI_PO_CREATE1."),
  AuditOutcome.ok "purchase order confirmed (mock)",
)
on_order pretty decline content = (
  text_result "Purchase order cancelled by user (declined elicitation).",
  AuditOutcome.declined "user declined elicitation",
)
on_order pretty cancel content = (
  error_result
      "Purchase order cancelled (user aborted or elicitation unavailable). No action taken.",
  AuditOutcome.denied "user aborted or elicitation unavailable",
)

module _ {W L : Type 0} (elicit : Elicit W) (pretty : Pretty) (auditing : Auditing L)
    (read_order : Json → Decoded PoArgs) where
  unfoldable pub order_with : Stamp → Json → Decoded PoArgs → W × L → CallToolResult × W × L
  unfolding record_write_audit
  order_with stamp arguments (malformed e) s = (error_result (order_tool <> ": " <> e), s.0, s.1)
  order_with stamp arguments (decoded args) (w, l) =
      let (asked, w') = elicit order_question (order_schema args) w in
      let (answer, outcome) = on_order pretty asked.action asked.content in
      (answer, w', record_write_audit auditing stamp order_tool arguments outcome l)

  unfoldable pub create_purchase_order : Stamp → Json → W × L → CallToolResult × W × L
  unfolding order_with
  create_purchase_order stamp arguments s = order_with stamp arguments (read_order arguments) s
