-- ===== src/FormSync/GoogleSheets/Frame.antt =====
-- What the service of Google Sheets leaves as it is: the form syncs and the delayed ones.
use starion_sync.Base.{ℕ, zero, suc, Bool, Option, List, String, Outcome, ok, throw}
use starion_sync.Base.Effects.Keeps.{Keeps, keeps_rules}
use starion_sync.Driver.{Driver}
use starion_sync.Entities.{ObjectId}
use starion_sync.FormSync.{
  Store, Graph, Google, GoogleSheetsDataSource, RowRange, Json, Fields, Schema, FormSync,
  DelayedFormSync, SpreadsheetCall, FormSyncType, insert_type, delete_type, update_type,
  unknown_type,
}
use starion_sync.FormSync.Columns.{Text}
use starion_sync.FormSync.Headers.{Headers}
use starion_sync.FormSync.Metadata.{
  increase_google_sheets_row_count, get_google_sheets_row_count, get_google_sheets_common_metadata,
  get_google_sheets_row_pos, get_data_source_schema,
}
use starion_sync.FormSync.Spreadsheets.{
  from_google, taken, request, get_range_value, get_cell_value, update_range_value, add_empty_row,
  delete_sheet_row,
}
use starion_sync.FormSync.Excel.{from_outcome}
use starion_sync.FormSync.Excel.Frame.{Has}
use starion_sync.FormSync.GoogleSheets.{
  get_sheet_name, get_hashed_headers, get_spreadsheets_timezone, insert_values, handle_insert,
  read_id_cell, delete_known, handle_delete, update_cells, update_found, update_known,
  handle_update, perform,
}

module _ (m : Driver) (g : Graph) (google : Google) (a : m.Coll FormSync)
    (b : m.Coll DelayedFormSync) where
  abbrev Same : Store m → Type 0
  Same = Has m g a b

  request-Keeps : (call : SpreadsheetCall) → Keeps Same (request google call)
  request-Keeps call = record { at = λ s h. after (google.takes call s.google_calls) s h }
    where
      after : (o : Outcome (Unit {0})) (s : Store m) → Same s → Same (taken call o s).1
      after (ok x) s h = h
      after (throw e) s h = h

  count-Keeps : (id : ObjectId) → Keeps Same (increase_google_sheets_row_count m id)
  unfolding increase_google_sheets_row_count
  count-Keeps id = record { at = λ s h. h }

  from_outcome-Keeps : {A : Type 0} (o : Outcome A) → Keeps Same (from_outcome o)
  from_outcome-Keeps o = record { at = λ s h. h }

  from_google-Keeps :
      {A : Type 0} (ask : List SpreadsheetCall → Outcome A) → Keeps Same (from_google {m = m} ask)
  from_google-Keeps ask = record { at = λ s h. h }

  ruleset google_rules =
      (keeps_rules, from_outcome-Keeps, from_google-Keeps, request-Keeps, count-Keeps)

  name-Keeps : (d : GoogleSheetsDataSource) → Keeps Same (get_sheet_name m g google d)
  unfolding get_sheet_name
  name-Keeps d = search google_rules

  headers-Keeps :
      (d : GoogleSheetsDataSource) (name : Option Text) (i : Bool)
      → Keeps Same (get_hashed_headers m g google d name i)
  unfolding get_hashed_headers get_range_value
  headers-Keeps d name i = search google_rules depth 12

  timezone-Keeps :
      (d : GoogleSheetsDataSource) → Keeps Same (get_spreadsheets_timezone m g google d)
  unfolding get_spreadsheets_timezone
  timezone-Keeps d = search google_rules

  insert_values-Keeps :
      (id : ObjectId) (d : GoogleSheetsDataSource) (rows : ℕ) (range : RowRange)
      (values : List Json) (n : ℕ)
      → Keeps Same (insert_values m g google id d rows range (values, n))
  unfolding insert_values add_empty_row update_range_value
  insert_values-Keeps id d rows range values zero = search google_rules
  insert_values-Keeps id d rows range values (suc n) = search google_rules depth 12

  inserted-Keeps :
      (id : ObjectId) (d : GoogleSheetsDataSource) (rows : ℕ) (range : RowRange)
      (filled : List Json × ℕ)
      → Keeps Same (insert_values m g google id d rows range filled)
  inserted-Keeps id d rows range filled = insert_values-Keeps id d rows range (filled.0) (filled.1)

  ruleset read_rules = (google_rules, name-Keeps, headers-Keeps, timezone-Keeps)

  handle_insert-Keeps :
      (id : ObjectId) (d : GoogleSheetsDataSource) (record_id : Option String)
      (given : Option Fields)
      → Keeps Same (handle_insert m g google id d record_id given)
  unfolding handle_insert get_google_sheets_row_count get_google_sheets_common_metadata
      get_data_source_schema
  handle_insert-Keeps id d record_id given = search (read_rules, inserted-Keeps) depth 16

  read_id_cell-Keeps :
      (d : GoogleSheetsDataSource) (name : Option Text) (headers : Headers) (row : Option ℕ)
      → Keeps Same (read_id_cell m g google d name headers row)
  unfolding read_id_cell get_cell_value get_range_value
  read_id_cell-Keeps d name headers row = search google_rules depth 12

  delete_known-Keeps :
      (d : GoogleSheetsDataSource) (row_id : Option String) (row : ℕ) (cell : Json)
      → Keeps Same (delete_known m g google d row_id row cell)
  unfolding delete_known delete_sheet_row
  delete_known-Keeps d row_id row cell = search google_rules

  handle_delete-Keeps :
      (d : GoogleSheetsDataSource) (row_id : Option String)
      → Keeps Same (handle_delete m g google d row_id)
  unfolding handle_delete get_google_sheets_row_pos
  handle_delete-Keeps d row_id =
      search (read_rules, read_id_cell-Keeps, delete_known-Keeps) depth 12

  update_cells-Keeps :
      (d : GoogleSheetsDataSource) (range : RowRange) (values : List Json) (n : ℕ)
      → Keeps Same (update_cells m g google d range (values, n))
  unfolding update_cells update_range_value
  update_cells-Keeps d range values zero = search google_rules
  update_cells-Keeps d range values (suc n) = search google_rules

  filled-Keeps :
      (d : GoogleSheetsDataSource) (range : RowRange) (filled : List Json × ℕ)
      → Keeps Same (update_cells m g google d range filled)
  filled-Keeps d range filled = update_cells-Keeps d range (filled.0) (filled.1)

  update_known-Keeps :
      (d : GoogleSheetsDataSource) (row_id : Option String) (name : Option Text)
      (given : Option Fields) (headers : Headers) (schema : Option Schema) (timezone : String)
      (found : ℕ × Json)
      → Keeps Same (update_known m g google d row_id name given headers schema timezone found)
  unfolding update_known update_found
  update_known-Keeps d row_id name given headers schema timezone found =
      search (google_rules, filled-Keeps) depth 12

  handle_update-Keeps :
      (id : ObjectId) (d : GoogleSheetsDataSource) (row_id : Option String) (given : Option Fields)
      → Keeps Same (handle_update m g google id d row_id given)
  unfolding handle_update get_google_sheets_row_pos get_data_source_schema
  handle_update-Keeps id d row_id given =
      search (read_rules, read_id_cell-Keeps, update_known-Keeps) depth 16

  pub perform-Keeps :
      (type : FormSyncType) (f : FormSync) (d : GoogleSheetsDataSource)
      → Keeps Same (perform m g google type f d)
  unfolding perform
  perform-Keeps insert_type f d = handle_insert-Keeps d.id d f.record_id f.fields
  perform-Keeps delete_type f d = handle_delete-Keeps d f.record_id
  perform-Keeps update_type f d = handle_update-Keeps f.data_source_id d f.record_id f.fields
  perform-Keeps unknown_type f d = search google_rules
