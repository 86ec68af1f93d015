-- ===== src/FormSync/Excel.antt =====
-- form-sync/main/src/modules/formsync/excel/index.ts: `ExcelFormSyncService`. A read of a
-- `Promise.all` is taken in the order that it stands in.
pub mod Deletion
pub mod Insertion
pub mod Frame
pub mod Service
use text.Mathlib.Text.{◌==◌ as str_eq}
use starion_sync.Base.{
  ℕ, zero, suc, Bool, true, false, not, ◌&&◌, Option, none, some, List, [], ◌∷◌, String, Action,
  Outcome, ok, throw, Failure, plain, api, Cause, metadata_does_not_exist, metadata_does_not_match,
  can_not_be_done, unknown_form_sync_type, still_running, property_of_undefined,
  data_source_not_found, pure, raise, gets, modify, or_raise, raise_if, catch, ◌>>=◌, ◌>>◌, ◌==◌,
  if◌then◌else◌, is_some,
}
use starion_sync.Driver.{Driver}
use starion_sync.Entities.{ObjectId}
use starion_sync.FormSync.{
  Store, Graph, FormSync, FormSyncType, insert_type, update_type, delete_type, unknown_type,
  DelayedFormSync, ExcelDataSource, Sheet, Range, SheetCall, insert_range, update_range,
  delete_range, Json, string, Fields, Schema, is_record_id, from_graph, send,
}
use starion_sync.FormSync.Columns.{hash_field_name}
use starion_sync.FormSync.Headers.{Headers, hashed_headers, by_header, entry, set_entry}
use starion_sync.FormSync.Metadata.{
  get_excel_row_count, increase_excel_row_count, get_excel_row_pos, get_data_source_schema,
  get_excel_c_tag, update_excel_c_tag,
}
use starion_sync.FormSync.Rows.{
  hashed_primary_id, convert_data, last_col_index, last_column_name, empty_row, fill_values,
  for_insert, for_update,
}

-- `!value`, of a number that may be missing: zero counts as missing.
abbrev pub present : Option ℕ → Option ℕ
present none = none
present (some zero) = none
present (some (suc n)) = some (suc n)

-- `recordId ? true : false`, and `if (recordId)`.
abbrev pub given_id : Option String → Option String
given_id none = none
given_id (some id) = if str_eq id "" then none else some id

abbrev pub timezone_of : Option ExcelDataSource → Option String
timezone_of none = none
timezone_of (some d) = some (d.timezone)

abbrev pub with_record_id : Option String → Fields → Fields
with_record_id none fields = fields
with_record_id (some id) fields = set_entry hashed_primary_id (string id) fields

-- The row of an index counted from 0, up to the last column of the headers.
abbrev pub row_range : ℕ → Headers → Range
row_range index headers = record {
  row = suc index;
  last_column = last_column_name (last_col_index headers);
}

abbrev pub from_outcome : {S A : Type 0} → Outcome A → Action S A
from_outcome r s = (r, s)

abbrev pub ended_loop : Option Headers → Outcome Headers
ended_loop none = throw (plain still_running)
ended_loop (some headers) = ok headers

module _ (m : Driver) (g : Graph) where
  unfoldable pub headers_from : Bool → Outcome (List String) → Outcome Headers
  headers_from include_header (throw e) = throw e
  headers_from include_header (ok values) =
      ended_loop (hashed_headers (hash_field_name g.md5) by_header g.fuel include_header values)

  -- `getWorksheetHashedHeaders`.
  unfoldable pub get_worksheet_hashed_headers : Sheet → Bool → Action (Store m) Headers
  get_worksheet_hashed_headers sheet include_header =
      from_graph (λ calls. headers_from include_header (g.row_values sheet 0 calls))

  -- `getDataSourceTimezone`.
  unfoldable pub get_data_source_timezone : ObjectId → Action (Store m) String
  get_data_source_timezone id = do
    source ← gets (λ s. m.find_one (λ d. d.id == id) s.excel_sources)
    or_raise (timezone_of source) (plain property_of_undefined)

  -- The rest of an insertion, from the values on.
  unfoldable pub write_row : ObjectId → Sheet → Range → List Json × ℕ → Action (Store m) (Unit {0})
  write_row id sheet range (values, zero) = raise (plain can_not_be_done)
  write_row id sheet range (values, suc n) =
      send g (update_range sheet range values) >> increase_excel_row_count m id

  unfoldable pub write_values :
      ObjectId
      → Sheet
      → Option String
      → ℕ
      → Headers
      → Fields
      → List Json
      → Action (Store m) (Unit {0})
  write_values id sheet record_id rows headers fields values =
      write_row id sheet (row_range rows headers)
        (fill_values for_insert (with_record_id (given_id record_id) fields) headers (values, 0))

  unfoldable pub write_fields :
      ObjectId → Sheet → Option String → ℕ → Headers → Fields → Action (Store m) (Unit {0})
  write_fields id sheet record_id rows headers fields =
      from_outcome (empty_row (last_col_index headers))
      >>= write_values id sheet record_id rows headers fields

  -- The rest of an insertion, after the empty row.
  unfoldable pub fill_row :
      ObjectId
      → Sheet
      → Option String
      → Option Fields
      → ℕ
      → Headers
      → Option Schema
      → String
      → Action (Store m) (Unit {0})
  fill_row id sheet record_id given rows headers schema timezone =
      from_outcome (convert_data g timezone schema given)
      >>= write_fields id sheet record_id rows headers

  -- The rest of an insertion, after the reads.
  unfoldable pub insert_row :
      ObjectId
      → Sheet
      → Option String
      → Option Fields
      → Headers
      → Option ℕ
      → Option Schema
      → String
      → Action (Store m) (Unit {0})
  insert_row id sheet record_id given headers row_count schema timezone = do
    rows ← or_raise (present row_count) (plain metadata_does_not_exist)
    send g (insert_range sheet (row_range rows headers))
        >> fill_row id sheet record_id given rows headers schema timezone

  -- The reads of an insertion after the headers.
  unfoldable pub insert_reads :
      ObjectId → Sheet → Option String → Option Fields → Headers → Action (Store m) (Unit {0})
  insert_reads id sheet record_id given headers = do
    row_count ← get_excel_row_count m id
    schema ← get_data_source_schema m id
    timezone ← get_data_source_timezone id
    insert_row id sheet record_id given headers row_count schema timezone

  -- `handleInsert`.
  unfoldable pub handle_insert :
      ObjectId → Sheet → Option String → Option Fields → Action (Store m) (Unit {0})
  handle_insert id sheet record_id given =
      get_worksheet_hashed_headers sheet (is_some (given_id record_id))
      >>= insert_reads id sheet record_id given

  -- The end of a deletion, with what the id cell holds.
  unfoldable pub delete_checked :
      Sheet → Option String → Headers → ℕ → Json → Action (Store m) (Unit {0})
  delete_checked sheet row_id headers row cell =
      if is_record_id row_id cell
      then send g (delete_range sheet (row_range row headers))
      else raise (plain metadata_does_not_match)

  -- The rest of a deletion, with the row's position and the column of the ids.
  unfoldable pub delete_found :
      Sheet → Option String → Headers → Option ℕ → Option ℕ → Action (Store m) (Unit {0})
  delete_found sheet row_id headers none col = raise (plain metadata_does_not_exist)
  delete_found sheet row_id headers (some row) none = raise (plain can_not_be_done)
  delete_found sheet row_id headers (some row) (some col) =
      from_graph (g.cell_value sheet row col) >>= delete_checked sheet row_id headers row

  unfoldable pub delete_row : Sheet → Option String → Headers → Action (Store m) (Unit {0})
  delete_row sheet row_id headers = get_excel_row_pos m row_id >>= λ row_pos.
      delete_found sheet row_id headers (present row_pos)
        (present (entry hashed_primary_id headers))

  -- `handleDelete`.
  unfoldable pub handle_delete : Sheet → Option String → Action (Store m) (Unit {0})
  handle_delete sheet row_id = get_worksheet_hashed_headers sheet true >>= delete_row sheet row_id

  unfoldable pub write_update : Sheet → Range → List Json × ℕ → Action (Store m) (Unit {0})
  write_update sheet range (values, zero) = raise (plain can_not_be_done)
  write_update sheet range (values, suc n) = send g (update_range sheet range values)

  unfoldable pub update_values :
      Sheet → Headers → ℕ → Fields → List Json → Action (Store m) (Unit {0})
  update_values sheet headers row fields values =
      write_update sheet (row_range row headers) (fill_values for_update fields headers (values, 0))

  unfoldable pub update_row :
      Sheet → Option Fields → Headers → Option Schema → String → ℕ → Action (Store m) (Unit {0})
  update_row sheet given headers schema timezone row =
      from_outcome (convert_data g timezone schema given) >>= λ fields.
      from_outcome (empty_row (last_col_index headers)) >>= update_values sheet headers row fields

  unfoldable pub update_checked :
      Sheet
      → Option String
      → Option Fields
      → Headers
      → Option Schema
      → String
      → ℕ
      → Json
      → Action (Store m) (Unit {0})
  update_checked sheet row_id given headers schema timezone row cell =
      if is_record_id row_id cell
      then update_row sheet given headers schema timezone row
      else raise (plain metadata_does_not_match)

  -- `handleUpdate`.
  unfoldable pub handle_update :
      ObjectId → Sheet → Option String → Option Fields → Action (Store m) (Unit {0})
  handle_update id sheet row_id given = do
    headers ← get_worksheet_hashed_headers sheet true
    row_pos ← get_excel_row_pos m row_id
    schema ← get_data_source_schema m id
    timezone ← get_data_source_timezone id
    row ← or_raise (present row_pos) (plain metadata_does_not_exist)
    col ← or_raise (present (entry hashed_primary_id headers)) (plain can_not_be_done)
    cell ← from_graph (g.cell_value sheet row col)
    update_checked sheet row_id given headers schema timezone row cell

  -- The `switch` on the type.
  unfoldable pub perform : FormSyncType → FormSync → Sheet → Action (Store m) (Unit {0})
  perform insert_type f sheet = handle_insert f.data_source_id sheet f.record_id f.fields
  perform delete_type f sheet = handle_delete sheet f.record_id
  perform update_type f sheet = handle_update f.data_source_id sheet f.record_id f.fields
  perform unknown_type f sheet = raise (plain unknown_form_sync_type)
