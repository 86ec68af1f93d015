-- ===== src/FormSync/Excel/Deletion.antt =====
-- When a form's deletion deletes a row of the workbook.
use starion_sync.Base.{
  ℕ, zero, suc, ◌≤◌, ◌≡◌, refl, ap, sym, subst, ◌⊎◌, inl, inr, Bool, true, false, Option, none,
  some, ◌∷◌, String, Outcome, ok, throw, Failure, bind_ok, bind_throw, arith,
}
use starion_sync.Driver.{Driver}
use starion_sync.FormSync.{Store, Graph, Sheet, delete_range, Json, is_record_id, from_graph, sent}
use starion_sync.FormSync.Headers.{Headers, entry}
use starion_sync.FormSync.Metadata.{get_excel_row_pos}
use starion_sync.FormSync.Rows.{hashed_primary_id, last_col_index, last_column_name}
use starion_sync.FormSync.Excel.{
  present, get_worksheet_hashed_headers, delete_checked, delete_found, delete_row, handle_delete,
  row_range, headers_from,
}

module _ (m : Driver) (g : Graph) (sheet : Sheet) (row_id : Option String) (s : Store m) where
  -- A deletion throws and has no effect, or its effect is one call, for the row whose id cell was
  -- read.
  abbrev pub IsSafe : Outcome (Unit {0}) × Store m → Type 0
  IsSafe r =
      ((e : Failure) × (r ≡ (throw e, s)))
      ⊎ ((headers : Headers) × (row col : ℕ) × (cell : Json) × (get_worksheet_hashed_headers m g
              sheet true s
            ≡ (ok headers, s))
          × (entry hashed_primary_id headers ≡ some col)
          × (get_excel_row_pos m row_id s ≡ (ok (some row), s))
          × (g.cell_value sheet row col s.calls ≡ ok cell)
          × (is_record_id row_id cell ≡ true)
          × (1 ≤ row)
          × (r ≡ (
            ok tt,
            record s {
              calls =
                  delete_range sheet (record {
                    row = suc row;
                    last_column = last_column_name (last_col_index headers);
                  })
                  ∷ s.calls;
            },
          )))

  -- The headers that were read, and where their column of ids and the record's row are.
  module _ (headers : Headers)
      (read : get_worksheet_hashed_headers m g sheet true s ≡ (ok headers, s)) where
    by_answer :
        (row col : ℕ) (cell : Json) (a : Outcome (Unit {0}))
        → entry hashed_primary_id headers ≡ some col
        → get_excel_row_pos m row_id s ≡ (ok (some (suc row)), s)
        → g.cell_value sheet (suc row) col s.calls ≡ ok cell
        → is_record_id row_id cell ≡ true
        → IsSafe (sent (delete_range sheet (row_range (suc row) headers)) a s)
    by_answer row col cell (ok tt) k p c same =
        inr (headers, suc row, col, cell, read, k, p, c, same, omega arith, refl)
    by_answer row col cell (throw e) k p c same = inl (_, refl)

    by_id :
        (row col : ℕ) (cell : Json) (b : Bool)
        → entry hashed_primary_id headers ≡ some col
        → get_excel_row_pos m row_id s ≡ (ok (some (suc row)), s)
        → g.cell_value sheet (suc row) col s.calls ≡ ok cell
        → is_record_id row_id cell ≡ b
        → IsSafe (delete_checked m g sheet row_id headers (suc row) cell s)
    unfolding delete_checked
    by_id row col cell true k p c same = rw same (
        by_answer row col cell
          (g.accepts (delete_range sheet (row_range (suc row) headers)) s.calls) k p c same)
    by_id row col cell false k p c other = rw other (inl (_, refl))

    by_cell :
        (row col : ℕ) (c : Outcome Json)
        → entry hashed_primary_id headers ≡ some col
        → get_excel_row_pos m row_id s ≡ (ok (some (suc row)), s)
        → g.cell_value sheet (suc row) col s.calls ≡ c
        → IsSafe (delete_found m g sheet row_id headers (some (suc row)) (some col) s)
    unfolding delete_found
    by_cell row col (throw e) k p c =
        subst IsSafe
          (sym (
            bind_throw (from_graph (g.cell_value sheet (suc row) col))
              (delete_checked m g sheet row_id headers (suc row)) s s e (ap (λ o. (o, s)) c)))
          (inl (_, refl))
    by_cell row col (ok cell) k p c =
        subst IsSafe
          (sym (
            bind_ok (from_graph (g.cell_value sheet (suc row) col))
              (delete_checked m g sheet row_id headers (suc row)) s s cell (ap (λ o. (o, s)) c)))
          (by_id row col cell (is_record_id row_id cell) k p c refl)

    by_position :
        (pos col : Option ℕ)
        → entry hashed_primary_id headers ≡ col
        → get_excel_row_pos m row_id s ≡ (ok pos, s)
        → IsSafe (delete_found m g sheet row_id headers (present pos) (present col) s)
    unfolding delete_found
    by_position none col k p = inl (_, refl)
    by_position (some zero) col k p = inl (_, refl)
    by_position (some (suc row)) none k p = inl (_, refl)
    by_position (some (suc row)) (some zero) k p = inl (_, refl)
    by_position (some (suc row)) (some (suc col)) k p =
        by_cell row (suc col) (g.cell_value sheet (suc row) (suc col) s.calls) k p refl

  by_headers :
      (o : Outcome Headers)
      → get_worksheet_hashed_headers m g sheet true s ≡ (o, s)
      → IsSafe (handle_delete m g sheet row_id s)
  unfolding handle_delete delete_row get_excel_row_pos
  by_headers (throw e) h =
      subst IsSafe
        (sym (
          bind_throw (get_worksheet_hashed_headers m g sheet true) (delete_row m g sheet row_id) s s
            e h))
        (inl (_, refl))
  by_headers (ok headers) h =
      subst IsSafe
        (sym (
          bind_ok (get_worksheet_hashed_headers m g sheet true) (delete_row m g sheet row_id) s s
            headers h))
        (by_position headers h _ (entry hashed_primary_id headers) refl refl)

  -- A deletion throws and changes nothing, or it returns, has sent one call to the workbook, and
  -- changes nothing else. That call deletes the row at which the metadata has the record, counted
  -- from one there, up to the last column of the headers that were read. The cell of that row in
  -- the column that the headers give for the ids was read, and holds the record's id; and the row
  -- is not that of the headers.
  pub handle_delete_lem : IsSafe (handle_delete m g sheet row_id s)
  unfolding get_worksheet_hashed_headers
  handle_delete_lem = by_headers (headers_from m g true (g.row_values sheet 0 s.calls)) refl
