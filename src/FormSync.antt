-- ===== src/FormSync.antt =====
-- form-sync/main: edits of rows that come from a form, written to the spreadsheet. The store of the
-- service, what it asks of Microsoft and Google, and the records that both services share. An id
-- is a number, as in Entities; a record's id, which is compared with a cell, is its text.
pub mod Columns
pub mod Headers
pub mod Metadata
pub mod Rows
pub mod Excel
pub mod Spreadsheets
pub mod GoogleSheets
pub mod Service
pub mod DataSources
pub mod Runs
mod Tests
use text.Mathlib.Text.{◌==◌ as str_eq}
use starion_sync.Base.{
  ℕ, zero, suc, Bool, true, false, not, Option, none, some, List, [], ◌∷◌, String, Action, Outcome,
  ok, throw, raise, ◌==◌,
}
use starion_sync.Base.Int.{ℤ, pos, negsuc}
use starion_sync.Driver.{Driver}
use starion_sync.Entities.{ObjectId, ProviderType, CronExpression}
use starion_sync.FormSync.Columns.{Text}

-- lib/formsync.ts; `unknown_type` is any other string.
pub data FormSyncType : Type 0 where
  insert_type update_type delete_type unknown_type : FormSyncType

-- lib/schema.ts
pub data NativeDataType : Type 0 where
  string_type number_type boolean_type date_type list_type object_type : NativeDataType

-- A value of a form or of a cell. A number is a numerator and a denominator; an array or an object
-- stands as its JSON text.
pub data Json : Type 0 where
  null_value : Json
  boolean : Bool → Json
  number : ℤ → ℕ → Json
  string : String → Json
  structure : String → Json

abbrev pub is_truthy : Json → Bool
is_truthy null_value = false
is_truthy (boolean b) = b
is_truthy (number (pos n) d) = not (n == 0)
is_truthy (number (negsuc n) d) = true
is_truthy (string s) = not (str_eq s "")
is_truthy (structure s) = true

-- `value === id`, of a record's id that may be undefined.
abbrev pub is_record_id : Option String → Json → Bool
is_record_id (some id) (string s) = str_eq s id
is_record_id _ _ = false

-- An object of a form's values by field.
abbrev pub Fields : Type 0
Fields = List (Text × Json)

-- `DataSourceSchema`: of a field, its type.
abbrev pub Schema : Type 0
Schema = List (Text × NativeDataType)

-- entities/formsync.ts, with its `payload`.
pub record FormSync : Type 0 where
  pub id : ObjectId
  pub data_source_id : ObjectId
  pub type : FormSyncType
  pub record_id : Option String
  -- `payload.data`.
  pub fields : Option Fields

pub record DelayedFormSync : Type 0 where
  pub form_sync_id : ObjectId

-- entities/dataSource.ts
pub record FormDataSource : Type 0 where
  pub id : ObjectId
  pub provider : ProviderType
  pub schema : Option Schema

-- The job that updates a data source's metadata.
pub record MetadataJob : Type 0 where
  pub job_id : String
  pub cron : CronExpression

-- entities/excel
pub record ExcelDataSource : Type 0 where
  pub id : ObjectId
  pub workbook_id : String
  pub worksheet_id : String
  pub refresh_token : String
  pub timezone : String
  pub metadata_job : MetadataJob
  pub metadata_synced_at : Option ℕ

-- entities/google-sheets
pub record GoogleSheetsDataSource : Type 0 where
  pub id : ObjectId
  pub spreadsheet_id : String
  pub sheet_id : String
  pub refresh_token : String
  pub metadata_job : MetadataJob
  pub metadata_synced_at : Option ℕ

-- entities/excel/metadata.ts; a number that a document lacks is `none`.
pub record CommonMetadata : Type 0 where
  pub data_source_id : ObjectId
  pub row_count : Option ℕ
  pub c_tag : Option String

pub record RowMetadata : Type 0 where
  pub id : String
  pub pos : Option ℕ

-- entities/google-sheets/metadata.ts, of which the rows are as those of Excel.
pub record GoogleSheetsCommonMetadata : Type 0 where
  pub data_source_id : ObjectId
  pub row_count : Option ℕ

pub record Sheet : Type 0 where
  pub workbook_id : String
  pub worksheet_id : String

-- The address `A${row}:${lastColumn}${row}`, by its parts.
pub record Range : Type 0 where
  pub row : ℕ
  pub last_column : Text

-- The calls that write to a workbook.
pub data SheetCall : Type 0 where
  insert_range : Sheet → Range → SheetCall
  update_range : Sheet → Range → List Json → SheetCall
  delete_range : Sheet → Range → SheetCall

-- A row of a sheet whose name is quoted already, from the first column on.
pub record RowRange : Type 0 where
  pub sheet_name : Text
  pub row : ℕ
  pub columns : ℕ

-- The calls that write to a spreadsheet. Of rows, the first index and the one after the last.
pub data SpreadsheetCall : Type 0 where
  insert_dimension : String → String → ℕ → ℕ → SpreadsheetCall
  delete_dimension : String → String → ℕ → ℕ → SpreadsheetCall
  update_row_range : String → RowRange → List Json → SpreadsheetCall

-- The calls of the queues: a repeated update of the metadata, its removal, and a delayed form sync.
pub data QueueCall : Type 0 where
  repeat_update : ProviderType → ObjectId → MetadataJob → QueueCall
  remove_update : ProviderType → MetadataJob → QueueCall
  add_delayed : ProviderType → ObjectId → QueueCall

-- The tables and collections of the service, its cache of local ids by record, and its calls of the
-- workbooks, the spreadsheets and the queues, the last call first.
pub record Store (m : Driver) : Type 0 where
  pub form_syncs : m.Coll FormSync
  pub delayed : m.Coll DelayedFormSync
  pub data_sources : m.Coll FormDataSource
  pub excel_sources : m.Coll ExcelDataSource
  pub excel_common : m.Coll CommonMetadata
  pub excel_rows : m.Coll RowMetadata
  pub calls : List SheetCall
  pub google_sources : m.Coll GoogleSheetsDataSource
  pub google_common : m.Coll GoogleSheetsCommonMetadata
  pub google_rows : m.Coll RowMetadata
  pub google_calls : List SpreadsheetCall
  pub local_ids : List (String × String)
  pub queue : List QueueCall

-- What the services ask outside the repository, and the answers, which may depend on what was
-- written before. The token and the session that they fetch go with every call, and are left out.
pub record Graph : Type 0 where
  pub access_token : String → Outcome String
  pub session : String → String → Outcome String
  pub row_values : Sheet → ℕ → List SheetCall → Outcome (List String)
  pub cell_value : Sheet → ℕ → ℕ → List SheetCall → Outcome Json
  pub accepts : SheetCall → List SheetCall → Outcome (Unit {0})
  -- The `cTag` of a workbook's file.
  pub file_c_tag : String → Outcome (Option String)
  -- The request to the service that rebuilds the metadata.
  pub rebuild : ObjectId → Sheet → Outcome (Unit {0})
  pub md5 : String → Text
  -- `new Date(value).getTime()`.
  pub time_of : Json → ℤ
  -- `moment.tz(timezone).utcOffset()`, in minutes.
  pub utc_offset : String → ℤ
  -- `new Date()`.
  pub now : ℕ
  -- How often the loop over postfixes may turn.
  pub fuel : ℕ

module _ {m : Driver} where
  abbrev pub from_graph : {A : Type 0} → (List SheetCall → Outcome A) → Action (Store m) A
  from_graph ask s = (ask s.calls, s)

  abbrev pub sent : SheetCall → Outcome (Unit {0}) → Action (Store m) (Unit {0})
  sent call (ok a) s = (ok tt, record s { calls = call ∷ s.calls })
  sent call (throw e) s = (throw e, s)

  -- A call that writes to a workbook, if it is accepted.
  abbrev pub send : Graph → SheetCall → Action (Store m) (Unit {0})
  send g call s = sent call (g.accepts call s.calls) s

-- The name of a sheet, and the names that a spreadsheet's sheets have by their ids.
abbrev pub SheetNames : Type 0
SheetNames = List (String × Text)

-- The values that are read: those of `A1:Z1`, and those of one cell, counted from 1.
pub data ReadRange : Type 0 where
  first_row : Text → ReadRange
  one_cell : Text → ℕ → ℕ → ReadRange

-- What the service of Google Sheets asks of Google. The client is made without a request, and is
-- left out.
pub record Google : Type 0 where
  pub get_access_token : String → Outcome String
  pub sheets_of : String → List SpreadsheetCall → Outcome SheetNames
  pub timezone_of : String → List SpreadsheetCall → Outcome String
  pub values_of : String → ReadRange → List SpreadsheetCall → Outcome (Option (List (List String)))
  pub takes : SpreadsheetCall → List SpreadsheetCall → Outcome (Unit {0})
  -- The request to the service that rebuilds the metadata.
  pub rebuild_google : ObjectId → String → String → Outcome (Unit {0})

-- common/constants.ts, `ErrorCode.NO_DATA_EXISTS`: E1.
abbrev pub no_data_exists : ℕ
no_data_exists = 1
