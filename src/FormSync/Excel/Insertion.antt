-- ===== src/FormSync/Excel/Insertion.antt =====
-- What a form's insertion writes to the workbook and to the metadata.
use starion_sync.Base.{
  ℕ, zero, suc, ◌≤◌, ◌≡◌, refl, ap, ◌∙◌, Option, some, ◌∷◌, List, String, Outcome, ok, plain,
  property_of_undefined, or_raise, bind_ok, arith, is_some, IsUnique, ◌==◌,
}
use starion_sync.Driver.{Driver}
use starion_sync.Driver.Laws.{find_one-update_one}
use starion_sync.Entities.{ObjectId}
use starion_sync.FormSync.{
  Store, Graph, Sheet, Range, insert_range, update_range, Json, Fields, Schema, send, sent,
  ExcelDataSource, CommonMetadata, SheetCall,
}
use starion_sync.FormSync.Columns.{Text}
use starion_sync.FormSync.Headers.{Headers, entry}
use starion_sync.FormSync.Metadata.{
  get_excel_row_count, get_excel_common_metadata, get_data_source_schema, increase,
  increase_excel_row_count, schema_of, count_of_rows,
}
use starion_sync.FormSync.Rows.{
  convert_data, last_col_index, empty_row, nulls, fill_values, for_insert,
}
use starion_sync.FormSync.Rows.Values.{get_elem?, fill_values_lem, entry-le_last, length-nulls}
use starion_sync.FormSync.Excel.{
  given_id, timezone_of, with_record_id, get_worksheet_hashed_headers, get_data_source_timezone,
  handle_insert, insert_reads, insert_row, fill_row, write_fields, write_values, write_row,
  row_range, from_outcome,
}

module _ (m : Driver) (g : Graph) (id : ObjectId) (sheet : Sheet) where
  -- The schema that is stored for the data source.
  abbrev schema_in : Store m → Option Schema
  schema_in s = schema_of m (m.find_one (λ d. d.id == id) s.data_sources)

  accepted :
      (call : SheetCall) (s : Store m)
      → g.accepts call s.calls ≡ ok tt
      → send g call s ≡ (ok tt, record s { calls = call ∷ s.calls })
  accepted call s h = ap (λ a. sent call a s) h

  abbrev written : Range → List Json → Store m → Store m
  written range values s = record s {
    calls = update_range sheet range values ∷ s.calls;
    excel_common = m.update_one (λ d. d.data_source_id == id) increase s.excel_common;
  }

  write_row_lem :
      (range : Range) (values : List Json) (count : ℕ) (s : Store m)
      → 1 ≤ count
      → g.accepts (update_range sheet range values) s.calls ≡ ok tt
      → write_row m g id sheet range (values, count) s ≡ (ok tt, written range values s)
  unfolding write_row increase_excel_row_count
  write_row_lem range values zero s h a = absurd (omega (arith, h))
  write_row_lem range values (suc n) s h a =
      bind_ok (send g (update_range sheet range values)) (λ _. increase_excel_row_count m id) s
        (record s { calls = update_range sheet range values ∷ s.calls }) tt
        (accepted (update_range sheet range values) s a)

  module _ (record_id : Option String) (given : Option Fields) (headers : Headers) (name : Text)
      (i last n : ℕ) (v : Json) (fields : Fields) (u : IsUnique (λ e. e.1) headers)
      (at : entry name headers ≡ some i) (l : last_col_index headers ≡ some last)
      (holds : entry name (with_record_id (given_id record_id) fields) ≡ some v) where
    abbrev range : Range
    range = row_range (suc n) headers

    -- The values that are written, with the one that belongs under a header.
    abbrev Writes : Store m → Outcome (Unit {0}) × Store m → Type 0
    Writes s r =
        (values : List Json) × (get_elem? values i ≡ some v) × (r ≡ (ok tt, written range values s))

    write_fields_lem :
        (s : Store m)
        → ((values : List Json) → g.accepts (update_range sheet range values) s.calls ≡ ok tt)
        → Writes s (write_fields m g id sheet record_id (suc n) headers fields s)
    unfolding write_fields write_values
    write_fields_lem s a =
        let chosen = with_record_id (given_id record_id) fields in
        let (there, some') =
          fill_values_lem for_insert chosen name i v headers (nulls (suc last), 0) u at
            (rw (length-nulls (suc last)) (omega (arith, entry-le_last name headers i last at l)))
            holds in
        let filled = fill_values for_insert chosen headers (nulls (suc last), 0) in
        (
          filled.0,
          there,
          bind_ok (from_outcome (empty_row (last_col_index headers)))
                (write_values m g id sheet record_id (suc n) headers fields) s s (nulls (suc last))
                (ap (λ o. (empty_row o, s)) l)
              ∙ write_row_lem range filled.0 filled.1 s some' (a filled.0),
        )

    fill_row_lem :
        (schema : Option Schema) (timezone : String) (s : Store m)
        → convert_data g timezone schema given ≡ ok fields
        → ((values : List Json) → g.accepts (update_range sheet range values) s.calls ≡ ok tt)
        → Writes s (fill_row m g id sheet record_id given (suc n) headers schema timezone s)
    unfolding fill_row
    fill_row_lem schema timezone s c a =
        let (values, there, runs) = write_fields_lem s a in
        (
          values,
          there,
          bind_ok (from_outcome (convert_data g timezone schema given))
                (write_fields m g id sheet record_id (suc n) headers) s s fields
                (ap (λ o. (o, s)) c)
              ∙ runs,
        )

    -- The state after the empty row.
    abbrev with_row : Store m → Store m
    with_row s = record s { calls = insert_range sheet range ∷ s.calls }

    insert_row_lem :
        (schema : Option Schema) (timezone : String) (s : Store m)
        → convert_data g timezone schema given ≡ ok fields
        → g.accepts (insert_range sheet range) s.calls ≡ ok tt
        → ((values : List Json)
            → g.accepts (update_range sheet range values) (with_row s).calls ≡ ok tt)
        → Writes
            (with_row s)
            (insert_row m g id sheet record_id given headers (some (suc n)) schema timezone s)
    unfolding insert_row
    insert_row_lem schema timezone s c first' a =
        let (values, there, runs) = fill_row_lem schema timezone (with_row s) c a in
        (
          values,
          there,
          bind_ok (send g (insert_range sheet range))
                (λ _. fill_row m g id sheet record_id given (suc n) headers schema timezone) s
                (with_row s) tt (accepted (insert_range sheet range) s first')
              ∙ runs,
        )

    insert_reads_lem :
        (s : Store m) (source : ExcelDataSource) (meta : CommonMetadata)
        → m.find_one (λ d. d.id == id) s.excel_sources ≡ some source
        → m.find_one (λ d. d.data_source_id == id) s.excel_common ≡ some meta
        → meta.row_count ≡ some (suc n)
        → insert_reads m g id sheet record_id given headers s
          ≡ insert_row m g id sheet record_id given headers
              (some (suc n))
              (schema_in s)
              source.timezone
              s
    unfolding insert_reads get_excel_row_count get_data_source_schema get_data_source_timezone
        get_excel_common_metadata
    insert_reads_lem s source meta found counted rows =
        let count = count_of_rows m (m.find_one (λ d. d.data_source_id == id) s.excel_common) in
        let counts : count ≡ some (suc n) = ap (count_of_rows m) counted ∙ rows in
        bind_ok (get_data_source_timezone m g id)
          (insert_row m g id sheet record_id given headers count (schema_in s)) s s source.timezone
          (ap (λ o. or_raise (timezone_of o) (plain property_of_undefined) s) found)
        ∙ ap
            (λ c. insert_row m g id sheet record_id given headers c (schema_in s) source.timezone s)
            counts

    rows_after_lem :
        (r : Range) (values : List Json) (s : Store m) (meta : CommonMetadata)
        → m.find_one (λ d. d.data_source_id == id) s.excel_common ≡ some meta
        → meta.row_count ≡ some (suc n)
        → (get_excel_row_count m id (written r values s)).0 ≡ ok (some (suc (suc n)))
    unfolding get_excel_row_count get_excel_common_metadata
    rows_after_lem r values s meta counted rows =
        rw
          (
            find_one-update_one m (λ d. d.data_source_id == id) increase s.excel_common (λ d. refl),
            counted,
            rows,
          )
          refl

    -- An insertion where the data source and its metadata exist, with a count of rows that is not
    -- zero; where the headers are read, each with a column of its own; where the form's values are
    -- converted, and hold `v` for the header `name` of column `i`; and where the workbook accepts
    -- the calls. It returns, and has sent two calls, which insert an empty row below the rows that
    -- were counted and then write the values to it; `v` is the value at `i`. The count of rows is
    -- then one more.
    pub handle_insert_lem :
        (s : Store m) (source : ExcelDataSource) (meta : CommonMetadata)
        → get_worksheet_hashed_headers m g sheet (is_some (given_id record_id)) s ≡ (ok headers, s)
        → m.find_one (λ d. d.id == id) s.excel_sources ≡ some source
        → m.find_one (λ d. d.data_source_id == id) s.excel_common ≡ some meta
        → meta.row_count ≡ some (suc n)
        → convert_data g source.timezone (schema_in s) given ≡ ok fields
        → g.accepts (insert_range sheet range) s.calls ≡ ok tt
        → ((values : List Json)
            → g.accepts (update_range sheet range values) (insert_range sheet range ∷ s.calls)
              ≡ ok tt)
        → (values : List Json) × (get_elem? values i ≡ some v)
          × (handle_insert m g id sheet record_id given s
              ≡ (ok tt, written range values (with_row s)))
          × ((get_excel_row_count m id (written range values (with_row s))).0
              ≡ ok (some (suc (suc n))))
    unfolding handle_insert
    handle_insert_lem s source meta read found counted rows c first' a =
        let (values, there, runs) = insert_row_lem (schema_in s) source.timezone s c first' a in
        (
          values,
          there,
          bind_ok (get_worksheet_hashed_headers m g sheet (is_some (given_id record_id)))
                (insert_reads m g id sheet record_id given) s s headers read
              ∙ (insert_reads_lem s source meta found counted rows ∙ runs),
          rows_after_lem range values (with_row s) meta counted rows,
        )
