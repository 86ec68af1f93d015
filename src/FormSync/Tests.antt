-- ===== src/FormSync/Tests.antt =====
-- A form sync of one Excel sheet with the headers "__StarionId" and "name", in its second and third
-- columns, and one record in its second row.
use text.Mathlib.Text.{◌==◌ as str_eq}
use starion_sync.Base.{
  ℕ, suc, ◌≡◌, refl, ◌≤◌, ◌⊎◌, Bool, true, false, Option, none, some, List, [], ◌∷◌, String,
  Outcome, ok, throw, Failure, if◌then◌else◌, is_some, ◌==◌, arith,
}
use starion_sync.Base.Int.{pos}
use starion_sync.Driver.Memory.{memory}
use starion_sync.Entities.{microsoft_excel}
use starion_sync.FormSync.{
  Store, Graph, Sheet, Range, FormSync, delete_type, Json, string, Fields, Schema, string_type,
  ExcelDataSource, CommonMetadata, SheetCall, insert_range, update_range, delete_range, null_value,
  GoogleSheetsDataSource, Google, ReadRange, first_row, one_cell, delete_dimension,
}
use starion_sync.FormSync.Columns.{
  Text, column_loop, column_number, hash_field_name, IsLetters, convert_to_excel_column_name,
  convert_to_excel_column_name_lem,
}
use starion_sync.FormSync.Headers.{Headers, by_header, by_postfixed, hashed_headers, entry}
use starion_sync.FormSync.Headers.Distinct.{IsDistinct, Separates, hashed_headers_lem}
use starion_sync.FormSync.Headers.Repeats.{hashed_headers_stuck}
use starion_sync.FormSync.Metadata.{get_excel_row_count}
use starion_sync.FormSync.Rows.{convert_data}
use starion_sync.FormSync.Rows.Values.{get_elem?}
use starion_sync.FormSync.Excel.{handle_insert, handle_delete, get_worksheet_hashed_headers}
use starion_sync.FormSync.Excel.Deletion.{IsSafe, handle_delete_lem}
use starion_sync.FormSync.Excel.Insertion.{handle_insert_lem}
use starion_sync.FormSync.Excel.Service.{run}
use starion_sync.FormSync.GoogleSheets.Service as GoogleSheetsService

convert_to_excel_column_name_lem_example :
    (column_loop 29 (pos 27) [] ≡ some (convert_to_excel_column_name (pos 27)))
    × (column_number 0 (convert_to_excel_column_name (pos 27)) ≡ 28)
    × IsLetters (convert_to_excel_column_name (pos 27))
convert_to_excel_column_name_lem_example = convert_to_excel_column_name_lem (pos 27)

-- The column after Z is AA, and 27 is the index of AB.
column_ab : convert_to_excel_column_name (pos 27) ≡ 65 ∷ 66 ∷ []
unfolding convert_to_excel_column_name column_loop
column_ab = refl

-- Digests of a few texts, with the digits that make the field of "__StarionId" its name.
abbrev md5 : String → Text
md5 name =
    if str_eq name "__StarionId"
    then 103 ∷ 102 ∷ 98 ∷ 98 ∷ 102 ∷ 97 ∷ 98 ∷ 101 ∷ 103 ∷ 103 ∷ 101 ∷ 106 ∷ 105 ∷ 103 ∷ 102 ∷ 103
      ∷ 98 ∷ 102 ∷ 104 ∷ 100 ∷ 99 ∷ 100 ∷ 98 ∷ 101 ∷ 99 ∷ 105 ∷ 102 ∷ 99 ∷ 106 ∷ 104 ∷ 100 ∷ 100
      ∷ []
    else (if str_eq name "name" then 49 ∷ [] else 50 ∷ [])

abbrev three_times : List String
three_times = "x" ∷ "name" ∷ "name" ∷ "y" ∷ "name" ∷ []

hashed_headers_stuck_example : hashed_headers md5 by_postfixed 9 true three_times ≡ none
hashed_headers_stuck_example =
    hashed_headers_stuck md5 by_postfixed 9 true "name" three_times refl (omega arith)

abbrev header_row : List String
header_row = "" ∷ "__StarionId" ∷ "name" ∷ []

abbrev name_field : Text
name_field = 102 ∷ 95 ∷ 97 ∷ []

distinct : IsDistinct header_row
unfolding starion_sync.FormSync.Headers.has
distinct = (refl, (refl, (refl, tt)))

separate : Separates (hash_field_name md5) "name" header_row
unfolding hash_field_name
separate = (refl, (refl, (refl, tt)))

abbrev sheet : Sheet
sheet = record { workbook_id = "book"; worksheet_id = "sheet" }

abbrev graph : Graph
graph = record {
  access_token = λ t. ok t;
  session = λ w t. ok "session";
  row_values = λ s r calls. ok header_row;
  cell_value = λ s r c calls. ok (string "r1");
  accepts = λ c calls. ok tt;
  file_c_tag = λ w. ok (some "tag");
  rebuild = λ id s. ok tt;
  md5 = md5;
  time_of = λ v. pos 0;
  utc_offset = λ z. pos 0;
  now = 5;
  fuel = 1;
}

abbrev excel_source : ExcelDataSource
excel_source = record {
  id = 1;
  workbook_id = "book";
  worksheet_id = "sheet";
  refresh_token = "token";
  timezone = "UTC";
  metadata_job = record { job_id = "j"; cron = record { seconds = 1; start = 2; every = 4 } };
  metadata_synced_at = none;
}

abbrev google_source : GoogleSheetsDataSource
google_source = record {
  id = 1;
  spreadsheet_id = "book";
  sheet_id = "7";
  refresh_token = "token";
  metadata_job = record { job_id = "k"; cron = record { seconds = 1; start = 2; every = 4 } };
  metadata_synced_at = none;
}

abbrev values_in : ReadRange → List (List String)
values_in (first_row name) = header_row ∷ []
values_in (one_cell name row col) = ("r1" ∷ []) ∷ []

abbrev google : Google
google = record {
  get_access_token = λ t. ok t;
  sheets_of = λ s calls. ok (("7", 65 ∷ []) ∷ []);
  timezone_of = λ s calls. ok "UTC";
  values_of = λ s r calls. ok (some (values_in r));
  takes = λ c calls. ok tt;
  rebuild_google = λ id s t. ok tt;
}

abbrev common : CommonMetadata
common = record { data_source_id = 1; row_count = some 2; c_tag = none }

abbrev form_sync : FormSync
form_sync = record {
  id = 4;
  data_source_id = 1;
  type = delete_type;
  record_id = some "r1";
  fields = none;
}

abbrev store : Store memory
store = record {
  form_syncs = form_sync ∷ [];
  delayed = [];
  data_sources =
      record { id = 1; provider = microsoft_excel; schema = some ((name_field, string_type) ∷ []) }
      ∷ [];
  excel_sources = excel_source ∷ [];
  excel_common = common ∷ [];
  excel_rows = record { id = "r1"; pos = some 1 } ∷ [];
  calls = [];
  google_sources = google_source ∷ [];
  google_common = record { data_source_id = 1; row_count = some 2 } ∷ [];
  google_rows = record { id = "r1"; pos = some 1 } ∷ [];
  google_calls = [];
  local_ids = [];
  queue = [];
}

abbrev headers : Headers
headers = (hash_field_name md5 "__StarionId", 1) ∷ (name_field, 2) ∷ []

abbrev form : Fields
form = (name_field, string "Ada") ∷ []

headers_read : get_worksheet_hashed_headers memory graph sheet true store ≡ (ok headers, store)
unfolding get_worksheet_hashed_headers starion_sync.FormSync.Excel.headers_from hashed_headers
    starion_sync.FormSync.Headers.each_header starion_sync.FormSync.Headers.add_header
    starion_sync.FormSync.Headers.has starion_sync.FormSync.Headers.set_entry hash_field_name
headers_read = refl

converted : convert_data graph "UTC" (some ((name_field, string_type) ∷ [])) (some form) ≡ ok form
unfolding convert_data starion_sync.FormSync.Rows.convert_fields entry
    starion_sync.FormSync.Headers.set_entry
converted = refl

abbrev new_range : Range
new_range = record { row = 3; last_column = convert_to_excel_column_name (pos 2) }

abbrev inserted : List Json → Store memory
inserted values = record store {
  calls = update_range sheet new_range values ∷ insert_range sheet new_range ∷ [];
  excel_common = record common { row_count = some 3 } ∷ [];
}

hashed_headers_lem_example :
    (headers : Headers) × (hashed_headers (hash_field_name md5) by_header 0 true header_row
      ≡ some headers)
    × (entry name_field headers ≡ some 2)
unfolding hash_field_name
hashed_headers_lem_example =
    hashed_headers_lem (hash_field_name md5) by_header 0 "name" header_row refl distinct separate

handle_insert_lem_example :
    (values : List Json) × (get_elem? values 2 ≡ some (string "Ada"))
    × (handle_insert memory graph 1 sheet (some "r2") (some form) store ≡ (ok tt, inserted values))
    × ((get_excel_row_count memory 1 (inserted values)).0 ≡ ok (some 3))
unfolding starion_sync.Base.first entry hash_field_name starion_sync.FormSync.Rows.last_col_index
    starion_sync.FormSync.Headers.set_entry starion_sync.Base.modify_first
handle_insert_lem_example =
    handle_insert_lem memory graph 1 sheet (some "r2") (some form) headers name_field 2 2 1
      (string "Ada") form (refl, (refl, tt)) refl refl refl store excel_source common headers_read
      refl refl refl converted refl (λ values. refl)

handle_delete_lem_example :
    IsSafe memory graph sheet (some "r1") store (handle_delete memory graph sheet (some "r1") store)
handle_delete_lem_example = handle_delete_lem memory graph sheet (some "r1") store

-- The deletion is sent: the cell of the id holds it.
deleted : handle_delete memory graph sheet (some "r1") store ≡ (
  ok tt,
  record store { calls = delete_range sheet (record { row = 2; last_column = 67 ∷ [] }) ∷ [] },
)
unfolding handle_delete get_worksheet_hashed_headers starion_sync.FormSync.Excel.headers_from
    hashed_headers starion_sync.FormSync.Headers.each_header
    starion_sync.FormSync.Headers.add_header starion_sync.FormSync.Headers.has
    starion_sync.FormSync.Excel.delete_row starion_sync.FormSync.Metadata.get_excel_row_pos
    starion_sync.FormSync.Excel.delete_found starion_sync.Base.first entry
    starion_sync.FormSync.Headers.set_entry hash_field_name
    starion_sync.FormSync.Excel.delete_checked starion_sync.FormSync.Rows.last_col_index
    convert_to_excel_column_name column_loop
deleted = refl

-- The same deletion in the spreadsheet, where indexes of rows are counted from 0.
google_deleted :
    (GoogleSheetsService.run memory graph google form_sync store).1.google_calls
    ≡ delete_dimension "book" "7" 1 2 ∷ []
unfolding GoogleSheetsService.run starion_sync.Base.first GoogleSheetsService.try_perform
    starion_sync.FormSync.GoogleSheets.perform starion_sync.FormSync.GoogleSheets.handle_delete
    starion_sync.FormSync.GoogleSheets.get_sheet_name
    starion_sync.FormSync.GoogleSheets.get_hashed_headers
    starion_sync.FormSync.GoogleSheets.name_of_sheet
    starion_sync.FormSync.Spreadsheets.get_range_value hashed_headers
    starion_sync.FormSync.Headers.each_header starion_sync.FormSync.Headers.add_header
    starion_sync.FormSync.Headers.has starion_sync.FormSync.Metadata.get_google_sheets_row_pos
    starion_sync.FormSync.GoogleSheets.read_id_cell entry starion_sync.FormSync.Headers.set_entry
    hash_field_name starion_sync.FormSync.Excel.Service.delete_form_sync
    starion_sync.FormSync.GoogleSheets.delete_known
    starion_sync.FormSync.Spreadsheets.delete_sheet_row
    starion_sync.FormSync.Spreadsheets.first_cell starion_sync.FormSync.Spreadsheets.get_cell_value
google_deleted = refl
