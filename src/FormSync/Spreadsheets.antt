-- ===== src/FormSync/Spreadsheets.antt =====
-- form-sync/main/src/modules/third-party: googleSheets.service.ts, which turns the service's calls
-- into requests to Google, and `formatSheetNameInRange` of utils.ts.
use starion_sync.Base.{
  ℕ, ◌-◌, Option, none, some, List, [], ◌∷◌, ◌++◌, String, Action, Outcome, ok, throw, pure, ◌>>=◌,
  ◌==◌, if◌then◌else◌,
}
use starion_sync.Driver.{Driver}
use starion_sync.FormSync.{
  Store, Google, SpreadsheetCall, insert_dimension, delete_dimension, update_row_range, RowRange,
  ReadRange, one_cell, Json, null_value, string,
}
use starion_sync.FormSync.Columns.{Text}

-- `replace("'", "''")`, which replaces the first quote only.
unfoldable pub double_quote : Text → Text
double_quote [] = []
double_quote (c ∷ cs) = if c == 39 then 39 ∷ 39 ∷ cs else c ∷ double_quote cs

-- `formatSheetNameInRange`.
unfoldable pub format_sheet_name_in_range : Text → Text
format_sheet_name_in_range name = 39 ∷ double_quote name ++ 39 ∷ []

-- `value[0][0]`, or null of no values. The undefined value of an empty row equals no id, as null.
unfoldable pub first_cell : Option (List (List String)) → Json
first_cell none = null_value
first_cell (some []) = null_value
first_cell (some ([] ∷ rows)) = null_value
first_cell (some ((v ∷ vs) ∷ rows)) = string v

module _ {m : Driver} where
  abbrev pub from_google : {A : Type 0} → (List SpreadsheetCall → Outcome A) → Action (Store m) A
  from_google ask s = (ask s.google_calls, s)

  abbrev pub taken : SpreadsheetCall → Outcome (Unit {0}) → Action (Store m) (Unit {0})
  taken call (ok a) s = (ok tt, record s { google_calls = call ∷ s.google_calls })
  taken call (throw e) s = (throw e, s)

  abbrev pub request : Google → SpreadsheetCall → Action (Store m) (Unit {0})
  request a call s = taken call (a.takes call s.google_calls) s

module _ (m : Driver) (a : Google) where
  -- `getRangeValue`.
  unfoldable pub get_range_value :
      String → ReadRange → Action (Store m) (Option (List (List String)))
  get_range_value spreadsheet range = from_google (a.values_of spreadsheet range)

  -- `getCellValue`.
  unfoldable pub get_cell_value : String → Text → ℕ → ℕ → Action (Store m) Json
  get_cell_value spreadsheet name row col =
      get_range_value spreadsheet (one_cell (format_sheet_name_in_range name) row col) >>= λ values.
      pure (first_cell values)

  -- `updateRangeValue`.
  unfoldable pub update_range_value : String → RowRange → List Json → Action (Store m) (Unit {0})
  update_range_value spreadsheet range values =
      request a (update_row_range spreadsheet range values)

  -- `addEmptyRow`.
  unfoldable pub add_empty_row : String → String → ℕ → Action (Store m) (Unit {0})
  add_empty_row spreadsheet sheet position =
      request a (insert_dimension spreadsheet sheet (position - 1) position)

  -- `deleteRow`.
  unfoldable pub delete_sheet_row : String → String → ℕ → Action (Store m) (Unit {0})
  delete_sheet_row spreadsheet sheet position =
      request a (delete_dimension spreadsheet sheet (position - 1) position)
