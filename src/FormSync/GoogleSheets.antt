-- ===== src/FormSync/GoogleSheets.antt =====
-- form-sync/main/src/modules/formsync/google-sheets/index.ts: `GoogleSheetsFormSyncService`, but
-- for `run`, `runRespectMetadata` and `updateMetadata`, which Service has. A read of a `Promise.all`
-- is taken in the order that it stands in.
pub mod Frame
pub mod Service
use text.Mathlib.Text.{◌==◌ as str_eq}
use starion_sync.Base.{
  ℕ, zero, suc, Bool, true, false, Option, none, some, List, [], ◌∷◌, String, Action, Outcome, ok,
  throw, plain, metadata_does_not_exist, metadata_does_not_match, can_not_be_done,
  unknown_form_sync_type, property_of_undefined, invalid_array_length, pure, raise, or_raise, ◌>>=◌,
  ◌>>◌, if◌then◌else◌, is_some,
}
use starion_sync.Driver.{Driver}
use starion_sync.Entities.{ObjectId}
use starion_sync.FormSync.{
  Store, Graph, Google, GoogleSheetsDataSource, FormSync, FormSyncType, insert_type, update_type,
  delete_type, unknown_type, RowRange, SheetNames, first_row, Json, Fields, Schema, is_record_id,
}
use starion_sync.FormSync.Columns.{Text, hash_field_name}
use starion_sync.FormSync.Headers.{Headers, hashed_headers, by_postfixed, entry}
use starion_sync.FormSync.Metadata.{
  get_google_sheets_row_count, increase_google_sheets_row_count, get_google_sheets_row_pos,
  get_data_source_schema,
}
use starion_sync.FormSync.Rows.{
  hashed_primary_id, convert_data, last_col_index, nulls, fill_values, for_insert, for_update,
}
use starion_sync.FormSync.Excel.{present, given_id, with_record_id, from_outcome, ended_loop}
use starion_sync.FormSync.Spreadsheets.{
  format_sheet_name_in_range, from_google, get_range_value, get_cell_value, update_range_value,
  add_empty_row, delete_sheet_row,
}

-- `res.sheets.find(...)`, by the text of a sheet's id.
unfoldable pub name_of_sheet : String → SheetNames → Option Text
name_of_sheet sheet [] = none
name_of_sheet sheet ((id, name) ∷ names) =
    if str_eq id sheet then some name else name_of_sheet sheet names

-- `(await getRangeValue(...))[0]`, where undefined values or rows are a TypeError.
abbrev pub first_of : Option (List (List String)) → Option (List String)
first_of none = none
first_of (some []) = none
first_of (some (row ∷ rows)) = some row

module _ (m : Driver) (g : Graph) (a : Google) where
  -- `getSheetName`.
  unfoldable pub get_sheet_name : GoogleSheetsDataSource → Action (Store m) (Option Text)
  get_sheet_name d =
      from_google (a.sheets_of d.spreadsheet_id) >>= λ names. pure (name_of_sheet d.sheet_id names)

  -- `getHashedHeaders`; the name of a missing sheet is a TypeError.
  unfoldable pub get_hashed_headers :
      GoogleSheetsDataSource → Option Text → Bool → Action (Store m) Headers
  get_hashed_headers d sheet_name include_header = do
    name ← or_raise sheet_name (plain property_of_undefined)
    values ← get_range_value m a d.spreadsheet_id (first_row (format_sheet_name_in_range name))
    row ← or_raise (first_of values) (plain property_of_undefined)
    from_outcome
        (ended_loop (hashed_headers (hash_field_name g.md5) by_postfixed g.fuel include_header row))

  -- `getSpreadsheetsTimezone`.
  unfoldable pub get_spreadsheets_timezone : GoogleSheetsDataSource → Action (Store m) String
  get_spreadsheets_timezone d = from_google (a.timezone_of d.spreadsheet_id)

  -- The name of the sheet, which the headers were read from.
  abbrev pub quoted : Option Text → Text
  quoted none = []
  quoted (some name) = format_sheet_name_in_range name

  abbrev pub sheet_row : Option Text → ℕ → ℕ → RowRange
  sheet_row name row last = record { sheet_name = quoted name; row = suc row; columns = suc last }

  -- The rest of an insertion, from the values on.
  unfoldable pub insert_values :
      ObjectId → GoogleSheetsDataSource → ℕ → RowRange → List Json × ℕ → Action (Store m) (Unit {0})
  insert_values id d rows range (values, zero) = raise (plain can_not_be_done)
  insert_values id d rows range (values, suc n) =
      add_empty_row m a d.spreadsheet_id d.sheet_id (suc rows)
      >> update_range_value m a d.spreadsheet_id range values
      >> increase_google_sheets_row_count m id

  -- `handleInsert`.
  unfoldable pub handle_insert :
      ObjectId
      → GoogleSheetsDataSource
      → Option String
      → Option Fields
      → Action (Store m) (Unit {0})
  handle_insert id d record_id given = do
    name ← get_sheet_name d
    headers ← get_hashed_headers d name (is_some (given_id record_id))
    row_count ← get_google_sheets_row_count m id
    schema ← get_data_source_schema m id
    timezone ← get_spreadsheets_timezone d
    rows ← or_raise (present row_count) (plain metadata_does_not_exist)
    fields ← from_outcome (convert_data g timezone schema given)
    last ← or_raise (last_col_index headers) (plain invalid_array_length)
    insert_values id d rows (sheet_row name rows last) (
        fill_values for_insert (with_record_id (given_id record_id) fields) headers
          (nulls (suc last), 0))

  -- The end of a deletion, with what the id cell holds.
  unfoldable pub delete_known :
      GoogleSheetsDataSource → Option String → ℕ → Json → Action (Store m) (Unit {0})
  delete_known d row_id row cell =
      if is_record_id row_id cell
      then delete_sheet_row m a d.spreadsheet_id d.sheet_id (suc row)
      else raise (plain metadata_does_not_match)

  -- The cell in the row of a record and the column of the ids, and the row. Of a name that is
  -- missing the headers cannot be read.
  unfoldable pub read_id_cell :
      GoogleSheetsDataSource → Option Text → Headers → Option ℕ → Action (Store m) (ℕ × Json)
  read_id_cell d name headers row_pos = do
    row ← or_raise (present row_pos) (plain metadata_does_not_exist)
    col ← or_raise (present (entry hashed_primary_id headers)) (plain can_not_be_done)
    sheet_name ← or_raise name (plain property_of_undefined)
    cell ← get_cell_value m a d.spreadsheet_id sheet_name (suc row) (suc col)
    pure (row, cell)

  -- `handleDelete`.
  unfoldable pub handle_delete :
      GoogleSheetsDataSource → Option String → Action (Store m) (Unit {0})
  handle_delete d row_id = do
    name ← get_sheet_name d
    headers ← get_hashed_headers d name true
    row_pos ← get_google_sheets_row_pos m row_id
    found ← read_id_cell d name headers row_pos
    delete_known d row_id (found.0) (found.1)

  unfoldable pub update_cells :
      GoogleSheetsDataSource → RowRange → List Json × ℕ → Action (Store m) (Unit {0})
  update_cells d range (values, zero) = raise (plain can_not_be_done)
  update_cells d range (values, suc n) = update_range_value m a d.spreadsheet_id range values

  -- The end of an update, of a row whose id is known to be the record's.
  unfoldable pub update_found :
      GoogleSheetsDataSource
      → Option Text
      → Option Fields
      → Headers
      → Option Schema
      → String
      → ℕ
      → Action (Store m) (Unit {0})
  update_found d name given headers schema timezone row = do
    fields ← from_outcome (convert_data g timezone schema given)
    last ← or_raise (last_col_index headers) (plain invalid_array_length)
    update_cells d (sheet_row name row last)
        (fill_values for_update fields headers (nulls (suc last), 0))

  unfoldable pub update_known :
      GoogleSheetsDataSource
      → Option String
      → Option Text
      → Option Fields
      → Headers
      → Option Schema
      → String
      → ℕ × Json
      → Action (Store m) (Unit {0})
  update_known d row_id name given headers schema timezone (row, cell) =
      if is_record_id row_id cell
      then update_found d name given headers schema timezone row
      else raise (plain metadata_does_not_match)

  -- `handleUpdate`.
  unfoldable pub handle_update :
      ObjectId
      → GoogleSheetsDataSource
      → Option String
      → Option Fields
      → Action (Store m) (Unit {0})
  handle_update id d row_id given = do
    name ← get_sheet_name d
    headers ← get_hashed_headers d name true
    row_pos ← get_google_sheets_row_pos m row_id
    schema ← get_data_source_schema m id
    timezone ← get_spreadsheets_timezone d
    found ← read_id_cell d name headers row_pos
    update_known d row_id name given headers schema timezone found

  -- The `switch` on the type.
  unfoldable pub perform :
      FormSyncType → FormSync → GoogleSheetsDataSource → Action (Store m) (Unit {0})
  perform insert_type f d = handle_insert d.id d f.record_id f.fields
  perform delete_type f d = handle_delete d f.record_id
  perform update_type f d = handle_update f.data_source_id d f.record_id f.fields
  perform unknown_type f d = raise (plain unknown_form_sync_type)
