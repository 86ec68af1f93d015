-- ===== src/FormSync/Metadata.antt =====
-- form-sync/main/src/modules/metadata/metadata.service.ts, and
-- form-sync/main/src/modules/formsync/common.service.ts.
use text.Mathlib.Text.{◌==◌ as str_eq}
use starion_sync.Base.{
  ℕ, suc, Bool, false, Option, none, some, String, Action, gets, modify, ◌==◌, ◌>>=◌, pure,
}
use starion_sync.Driver.{Driver}
use starion_sync.Entities.{ObjectId}
use starion_sync.FormSync.{
  Store, CommonMetadata, GoogleSheetsCommonMetadata, RowMetadata, FormDataSource, Schema,
}

-- `{ $inc: { rowCount: 1 } }`, which makes a missing count 1.
abbrev pub increase : CommonMetadata → CommonMetadata
increase d = record d { row_count = some (elim (d.row_count) [ none ↦ 1 | some n ↦ suc n ]) }

abbrev has_row_id : Option String → RowMetadata → Bool
has_row_id none d = false
has_row_id (some id) d = str_eq d.id id

module _ (m : Driver) where
  unfoldable pub get_excel_common_metadata : ObjectId → Action (Store m) (Option CommonMetadata)
  get_excel_common_metadata id = gets (λ s. m.find_one (λ d. d.data_source_id == id) s.excel_common)

  abbrev pub count_of_rows : Option CommonMetadata → Option ℕ
  count_of_rows none = none
  count_of_rows (some d) = d.row_count

  unfoldable pub get_excel_row_count : ObjectId → Action (Store m) (Option ℕ)
  unfolding get_excel_common_metadata
  get_excel_row_count id = get_excel_common_metadata id >>= λ d. pure (count_of_rows d)

  unfoldable pub increase_excel_row_count : ObjectId → Action (Store m) (Unit {0})
  increase_excel_row_count id = modify (λ s. record s {
    excel_common = m.update_one (λ d. d.data_source_id == id) increase s.excel_common;
  })

  abbrev pub pos_of_row : Option RowMetadata → Option ℕ
  pos_of_row none = none
  pos_of_row (some d) = d.pos

  -- The id of a record may be undefined, which no row has.
  unfoldable pub get_excel_row_pos : Option String → Action (Store m) (Option ℕ)
  get_excel_row_pos id = gets (λ s. pos_of_row (m.find_one (has_row_id id) s.excel_rows))

  abbrev c_tag_of : Option CommonMetadata → Option String
  c_tag_of none = none
  c_tag_of (some d) = d.c_tag

  unfoldable pub get_excel_c_tag : ObjectId → Action (Store m) (Option String)
  get_excel_c_tag id =
      gets (λ s. c_tag_of (m.find_one (λ d. d.data_source_id == id) s.excel_common))

  unfoldable pub update_excel_c_tag : ObjectId → Option String → Action (Store m) (Unit {0})
  update_excel_c_tag id tag = modify (λ s. record s {
    excel_common =
        m.update_one (λ d. d.data_source_id == id) (λ d. record d { c_tag = tag }) s.excel_common;
  })

  abbrev pub schema_of : Option FormDataSource → Option Schema
  schema_of none = none
  schema_of (some d) = d.schema

  unfoldable pub get_data_source_schema : ObjectId → Action (Store m) (Option Schema)
  get_data_source_schema id = gets (λ s. schema_of (m.find_one (λ d. d.id == id) s.data_sources))

  unfoldable pub get_google_sheets_common_metadata :
      ObjectId → Action (Store m) (Option GoogleSheetsCommonMetadata)
  get_google_sheets_common_metadata id =
      gets (λ s. m.find_one (λ d. d.data_source_id == id) s.google_common)

  abbrev count_of_google_rows : Option GoogleSheetsCommonMetadata → Option ℕ
  count_of_google_rows none = none
  count_of_google_rows (some d) = d.row_count

  unfoldable pub get_google_sheets_row_count : ObjectId → Action (Store m) (Option ℕ)
  get_google_sheets_row_count id =
      get_google_sheets_common_metadata id >>= λ d. pure (count_of_google_rows d)

  abbrev increase_google : GoogleSheetsCommonMetadata → GoogleSheetsCommonMetadata
  increase_google d = record d {
    row_count = some (elim (d.row_count) [ none ↦ 1 | some n ↦ suc n ]);
  }

  unfoldable pub increase_google_sheets_row_count : ObjectId → Action (Store m) (Unit {0})
  increase_google_sheets_row_count id = modify (λ s. record s {
    google_common = m.update_one (λ d. d.data_source_id == id) increase_google s.google_common;
  })

  unfoldable pub get_google_sheets_row_pos : Option String → Action (Store m) (Option ℕ)
  get_google_sheets_row_pos id = gets (λ s. pos_of_row (m.find_one (has_row_id id) s.google_rows))
