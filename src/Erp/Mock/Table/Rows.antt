-- ===== src/Erp/Mock/Table/Rows.antt =====
-- crates/oracle-automate-erp/src/client.rs, `MockErpClient::read_table`: which rows it answers.
use oracle_automate.Prelude.{
  ℕ, zero, suc, ◌+◌, ◌-◌, ◌≤◌, ◌<◌, ◌≡◌, refl, sym, ap, ◌∙◌, Bool, Bool-cases, true, false, inl,
  inr, Option, none, some, List, [], ◌∷◌, map, take, length, length-take-le, keep_if, nat_eq, ltb,
  leb, String, string_Eq, if◌then◌else◌, arith,
}
use oracle_automate.Prelude.Map.{Map, get}
use oracle_automate.Text.Codes.{Codes}
use oracle_automate.Json.{Json}
use oracle_automate.Erp.Error.{ErpError, ErpResult, ok, err}
use oracle_automate.Erp.Mock.Clause.{Condition, Outcome, then_outcome, parse_conditions}
use oracle_automate.Erp.Mock.Table.{
  Row, MockTable, ReadTableRequest, max_rows_hard_cap, project, projection_of, client_field, scoped,
  match_all, collect_rows, rows_of, read_found, read_table,
}

then_outcome_ok {ℓ κ} :
    {A : Type ℓ} {B : Type κ} (o : Outcome A) (k : A → Outcome B) (b : B)
    → then_outcome o k ≡ some (ok b)
    → (a : A) × (o ≡ some (ok a)) × (k a ≡ some (ok b))
then_outcome_ok none k b h = absurd cc
then_outcome_ok (some (err e)) k b h = absurd cc
then_outcome_ok (some (ok a)) k b h = (a, refl, h)

if_not_err {ℓ} :
    {A : Type ℓ} (t : Bool) (e : ErpError) (o : Outcome A) (a : A)
    → (if t then some (err e) else o) ≡ some (ok a)
    → (t ≡ false) × (o ≡ some (ok a))
if_not_err true e o a h = absurd cc
if_not_err false e o a h = (refl, h)

some_inj {ℓ} : {A : Type ℓ} {a b : A} → some a ≡ some b → a ≡ b
some_inj h = cc

ok_inj {ℓ} : {A : Type ℓ} {a b : A} → ErpResult.ok a ≡ ok b → a ≡ b
ok_inj h = cc

take-nil : (n : ℕ) → take {A = Row} n [] ≡ []
take-nil zero = refl
take-nil (suc n) = refl

module _ (to_string : Json → String) (lower : Codes → Codes) where
  -- The rows of a table that match, with the fields that are asked for.
  unfoldable pub selected : List String → List Condition → List Row → List Row
  unfolding match_all project
  selected fields cs rows =
      map (λ row. project fields row []) (keep_if (λ row. match_all to_string lower row cs) rows)

  collect_rows-take :
      (max_rows : ℕ) (fields : List String) (cs : List Condition) (n : ℕ) (rows : List Row)
      → n < max_rows
      → collect_rows to_string lower max_rows fields cs n rows
        ≡ take (max_rows - n) (selected fields cs rows)
  unfolding collect_rows selected
  collect_rows-take max_rows fields cs n [] less = sym (take-nil (max_rows - n))
  collect_rows-take max_rows fields cs n (row ∷ rows) less =
      elim (Bool-cases (match_all to_string lower row cs)) [
        | inl hit ↦ elim (Bool-cases (leb max_rows (n + 1))) [
          | inl full ↦
              let one : max_rows - n ≡ 1 = ground (arith, full, less) in rw (hit, full, one) refl
          | inr room ↦
              let more : max_rows - n ≡ suc (max_rows - (n + 1)) = ground (arith, room, less) in
              rw (hit, room, more)
                (ap (◌∷◌ (project fields row []))
                  (collect_rows-take max_rows fields cs (n + 1) rows (ground (arith, room))))
        ]
        | inr out ↦ rw out (collect_rows-take max_rows fields cs n rows less)
      ]

  pub collect_rows_lem :
      (max_rows : ℕ) (fields : List String) (cs : List Condition) (rows : List Row)
      → 0 < max_rows
      → collect_rows to_string lower max_rows fields cs 0 rows
        ≡ take max_rows (selected fields cs rows)
  collect_rows_lem max_rows fields cs rows h =
      collect_rows-take max_rows fields cs 0 rows h
      ∙ ap (λ k. take k (selected fields cs rows)) (omega arith)

  module _ (upper : Codes → Codes) where
    -- What a read that answers has gone through.
    unfoldable pub IsRead :
        Map String MockTable
        → Json
        → ReadTableRequest
        → MockTable
        → List String
        → List Condition
        → Type 0
    IsRead db identity request t fields cs =
        (get request.table db ≡ some t)
        × (projection_of t.structure.fields request.fields ≡ ok fields)
        × (parse_conditions upper request.where_conditions ≡ some (ok cs))
        × (0 < request.max_rows)
        × (request.max_rows ≤ 1000)

    read_found-rows :
        (identity : Json) (request : ReadTableRequest) (o : Option MockTable) (rows : List Row)
        → read_found to_string lower upper identity request o ≡ some (ok rows)
        → (t : MockTable) × (fields : List String) × (cs : List Condition) × (o ≡ some t)
          × (projection_of t.structure.fields request.fields ≡ ok fields)
          × (parse_conditions upper request.where_conditions ≡ some (ok cs))
          × (rows_of to_string lower identity t request fields cs ≡ some (ok rows))
    unfolding read_found
    read_found-rows identity request none rows h = absurd cc
    read_found-rows identity request (some t) rows h =
        let p = then_outcome_ok (some (projection_of t.structure.fields request.fields)) _ rows h in
        let c = then_outcome_ok (parse_conditions upper request.where_conditions) _ rows p.2 in
        (t, p.0, c.0, refl, some_inj p.1, c.1, c.2)

    -- A read that answers gives the first `max_rows` of the rows that satisfy the parsed conditions
    -- and the scope of the connection, in the order of the table and with the fields that are asked
    -- for; it has at least one and at most 1000 rows to give.
    pub read_table-rows :
        (db : Map String MockTable) (identity : Json) (request : ReadTableRequest) (rows : List Row)
        → read_table to_string lower upper db identity request ≡ some (ok rows)
        → (t : MockTable) × (fields : List String) × (cs : List Condition) × IsRead db identity
            request t fields cs
          × (rows
              ≡ take request.max_rows
                  (selected fields (scoped identity (client_field t.structure.fields) cs) t.rows))
    unfolding read_table rows_of IsRead
    read_table-rows db identity request rows h =
        let a =
          if_not_err (nat_eq request.max_rows 0)
            (ErpError.invalid_parameter "max_rows" "must be >= 1") _ rows h in
        let b =
          if_not_err (ltb max_rows_hard_cap request.max_rows)
            (ErpError.table_buffer_overflow request.table request.max_rows)
            (read_found to_string lower upper identity request (get request.table db)) rows a.1 in
        let f = read_found-rows identity request (get request.table db) rows b.1 in
        let positive : 0 < request.max_rows = ground (arith, a.0) in
        (
          f.0,
          f.1,
          f.2,
          (f.3, f.4, f.5, positive, ground (arith, b.0)),
          sym (ok_inj (some_inj f.6)) ∙ collect_rows_lem request.max_rows f.1 _ f.0.rows positive,
        )

    -- A read never answers more rows than it is asked for, nor more than 1000.
    pub read_table-le :
        (db : Map String MockTable) (identity : Json) (request : ReadTableRequest) (rows : List Row)
        → read_table to_string lower upper db identity request ≡ some (ok rows)
        → (length rows ≤ request.max_rows) × (request.max_rows ≤ 1000)
    unfolding IsRead
    read_table-le db identity request rows h =
        let r = read_table-rows db identity request rows h in
        (rw r.4 (length-take-le request.max_rows _), r.3.4)
