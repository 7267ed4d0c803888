-- ===== src/Erp/Mock/Table/Scope.antt =====
-- crates/oracle-automate-erp/src/client.rs, `MockErpClient::read_table`: the scope of the connection.
use oracle_automate.Prelude.{
  ◌≡◌, ap, false, some, List, Bool, take, nat_eq, ltb, String, string_Eq, arith,
}
use oracle_automate.Prelude.Map.{Map}
use oracle_automate.Text.{codes}
use oracle_automate.Text.Codes.{Codes}
use oracle_automate.Json.{Json}
use oracle_automate.Erp.Error.{ok}
use oracle_automate.Erp.Mock.Clause.{Condition, eq_ignore_ascii_case}
use oracle_automate.Erp.Mock.Table.{
  Row, MockTable, ReadTableRequest, max_rows_hard_cap, client_field, client_of, scoped, actual,
  rows_of, read_found, read_table,
}
use oracle_automate.Erp.Mock.Table.Rows.{selected, IsRead, collect_rows_lem}

module _ (to_string : Json → String) (lower : Codes → Codes) where
  -- A row belongs to the client of the connection.
  unfoldable pub is_own : Json → String → Row → Bool
  is_own identity field row =
      eq_ignore_ascii_case (actual to_string lower (codes field) row) (codes (client_of identity))

  module _ (upper : Codes → Codes) where
    -- A request within the bounds, with a known table, known fields and conditions that parse, is
    -- answered.
    pub read_table-answers :
        (db : Map String MockTable) (identity : Json) (request : ReadTableRequest) (t : MockTable)
        (fields : List String) (cs : List Condition)
        → IsRead to_string lower upper db identity request t fields cs
        → read_table to_string lower upper db identity request
          ≡ some (
              ok (
                take request.max_rows (
                  selected to_string lower fields
                    (scoped identity (client_field t.structure.fields) cs)
                    t.rows)))
    unfolding IsRead read_table read_found rows_of
    read_table-answers db identity request t fields cs r =
        let positive : nat_eq request.max_rows 0 ≡ false = ground (arith, r.3) in
        let small : ltb max_rows_hard_cap request.max_rows ≡ false = ground (arith, r.4) in
        rw (positive, small, r.0, r.1, r.2)
          (ap (λ rows. some (ok rows))
            (collect_rows_lem to_string lower request.max_rows fields _ t.rows r.3))
