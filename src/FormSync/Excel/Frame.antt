-- ===== src/FormSync/Excel/Frame.antt =====
-- What an insertion, an update and a deletion leave as it is: the form syncs and the delayed ones.
use starion_sync.Base.{ℕ, zero, suc, ◌≡◌, Option, none, some, List, String, Outcome, ok, throw}
use starion_sync.Base.Effects.Keeps.{Keeps, keeps_rules}
use starion_sync.Driver.{Driver}
use starion_sync.Entities.{ObjectId}
use starion_sync.FormSync.{
  Store, Graph, Sheet, Range, Json, Fields, Schema, FormSync, DelayedFormSync, SheetCall, send,
  sent, from_graph, FormSyncType, insert_type, delete_type, update_type, unknown_type,
}
use starion_sync.FormSync.Headers.{Headers}
use starion_sync.FormSync.Metadata.{
  increase_excel_row_count, get_excel_row_count, get_excel_common_metadata, get_excel_row_pos,
  get_data_source_schema,
}
use starion_sync.FormSync.Excel.{
  from_outcome, write_row, write_values, write_fields, fill_row, insert_row, insert_reads,
  handle_insert, get_worksheet_hashed_headers, get_data_source_timezone, delete_checked,
  delete_found, delete_row, handle_delete, write_update, update_row, update_values, update_checked,
  handle_update, perform,
}

module _ (m : Driver) (g : Graph) (a : m.Coll FormSync) (b : m.Coll DelayedFormSync) where
  -- The form syncs, and those that are delayed, are given ones.
  abbrev pub Has : Store m → Type 0
  Has s = (s.form_syncs ≡ a) × (s.delayed ≡ b)

  send-Keeps : (call : SheetCall) → Keeps Has (send g call)
  send-Keeps call = record { at = λ s h. after (g.accepts call s.calls) s h }
    where
      after : (o : Outcome (Unit {0})) (s : Store m) → Has s → Has (sent call o s).1
      after (ok x) s h = h
      after (throw e) s h = h

  count-Keeps : (id : ObjectId) → Keeps Has (increase_excel_row_count m id)
  unfolding increase_excel_row_count
  count-Keeps id = record { at = λ s h. h }

  from_outcome-Keeps : {A : Type 0} (o : Outcome A) → Keeps Has (from_outcome o)
  from_outcome-Keeps o = record { at = λ s h. h }

  from_graph-Keeps :
      {A : Type 0} (ask : List SheetCall → Outcome A) → Keeps Has (from_graph {m = m} ask)
  from_graph-Keeps ask = record { at = λ s h. h }

  ruleset run_rules = (keeps_rules, from_outcome-Keeps, from_graph-Keeps, send-Keeps, count-Keeps)

  write_row-Keeps :
      (id : ObjectId) (sheet : Sheet) (range : Range) (values : List Json) (n : ℕ)
      → Keeps Has (write_row m g id sheet range (values, n))
  unfolding write_row
  write_row-Keeps id sheet range values zero = search run_rules
  write_row-Keeps id sheet range values (suc n) = search run_rules

  write_values-Keeps :
      (id : ObjectId) (sheet : Sheet) (record_id : Option String) (n : ℕ) (headers : Headers)
      (fields : Fields) (values : List Json)
      → Keeps Has (write_values m g id sheet record_id n headers fields values)
  unfolding write_values
  write_values-Keeps id sheet record_id n headers fields values = write_row-Keeps id sheet _ _ _

  write_fields-Keeps :
      (id : ObjectId) (sheet : Sheet) (record_id : Option String) (n : ℕ) (headers : Headers)
      (fields : Fields)
      → Keeps Has (write_fields m g id sheet record_id n headers fields)
  unfolding write_fields
  write_fields-Keeps id sheet record_id n headers fields = search (run_rules, write_values-Keeps)

  fill_row-Keeps :
      (id : ObjectId) (sheet : Sheet) (record_id : Option String) (given : Option Fields) (n : ℕ)
      (headers : Headers) (schema : Option Schema) (timezone : String)
      → Keeps Has (fill_row m g id sheet record_id given n headers schema timezone)
  unfolding fill_row
  fill_row-Keeps id sheet record_id given n headers schema timezone =
      search (run_rules, write_fields-Keeps)

  insert_row-Keeps :
      (id : ObjectId) (sheet : Sheet) (record_id : Option String) (given : Option Fields)
      (headers : Headers) (count : Option ℕ) (schema : Option Schema) (timezone : String)
      → Keeps Has (insert_row m g id sheet record_id given headers count schema timezone)
  unfolding insert_row
  insert_row-Keeps id sheet record_id given headers count schema timezone =
      search (run_rules, fill_row-Keeps)

  timezone-Keeps : (id : ObjectId) → Keeps Has (get_data_source_timezone m g id)
  unfolding get_data_source_timezone
  timezone-Keeps id = search run_rules

  handle_insert-Keeps :
      (id : ObjectId) (sheet : Sheet) (record_id : Option String) (given : Option Fields)
      → Keeps Has (handle_insert m g id sheet record_id given)
  unfolding handle_insert insert_reads get_worksheet_hashed_headers get_excel_row_count
      get_excel_common_metadata get_data_source_schema
  handle_insert-Keeps id sheet record_id given =
      search (run_rules, insert_row-Keeps, timezone-Keeps)

  delete_found-Keeps :
      (sheet : Sheet) (row_id : Option String) (headers : Headers) (row col : Option ℕ)
      → Keeps Has (delete_found m g sheet row_id headers row col)
  unfolding delete_found delete_checked
  delete_found-Keeps sheet row_id headers none col = search run_rules
  delete_found-Keeps sheet row_id headers (some row) none = search run_rules
  delete_found-Keeps sheet row_id headers (some row) (some col) = search run_rules

  handle_delete-Keeps :
      (sheet : Sheet) (row_id : Option String) → Keeps Has (handle_delete m g sheet row_id)
  unfolding handle_delete delete_row get_worksheet_hashed_headers get_excel_row_pos
  handle_delete-Keeps sheet row_id = search (run_rules, delete_found-Keeps)

  write_update-Keeps :
      (sheet : Sheet) (range : Range) (values : List Json) (n : ℕ)
      → Keeps Has (write_update m g sheet range (values, n))
  unfolding write_update
  write_update-Keeps sheet range values zero = search run_rules
  write_update-Keeps sheet range values (suc n) = search run_rules

  update_values-Keeps :
      (sheet : Sheet) (headers : Headers) (row : ℕ) (fields : Fields) (values : List Json)
      → Keeps Has (update_values m g sheet headers row fields values)
  unfolding update_values
  update_values-Keeps sheet headers row fields values = write_update-Keeps sheet _ _ _

  update_row-Keeps :
      (sheet : Sheet) (given : Option Fields) (headers : Headers) (schema : Option Schema)
      (timezone : String) (row : ℕ)
      → Keeps Has (update_row m g sheet given headers schema timezone row)
  unfolding update_row
  update_row-Keeps sheet given headers schema timezone row = search (run_rules, update_values-Keeps)

  handle_update-Keeps :
      (id : ObjectId) (sheet : Sheet) (row_id : Option String) (given : Option Fields)
      → Keeps Has (handle_update m g id sheet row_id given)
  unfolding handle_update update_checked get_worksheet_hashed_headers get_excel_row_pos
      get_data_source_schema
  handle_update-Keeps id sheet row_id given =
      search (run_rules, update_row-Keeps, timezone-Keeps) depth 12

  pub perform-Keeps :
      (type : FormSyncType) (f : FormSync) (sheet : Sheet) → Keeps Has (perform m g type f sheet)
  unfolding perform
  perform-Keeps insert_type f sheet =
      handle_insert-Keeps f.data_source_id sheet f.record_id f.fields
  perform-Keeps delete_type f sheet = handle_delete-Keeps sheet f.record_id
  perform-Keeps update_type f sheet =
      handle_update-Keeps f.data_source_id sheet f.record_id f.fields
  perform-Keeps unknown_type f sheet = search run_rules
