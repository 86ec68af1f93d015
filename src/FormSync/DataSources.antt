-- ===== src/FormSync/DataSources.antt =====
-- form-sync/main/src/modules: datasource/dataSource.service.ts with the cleaners that it calls, and
-- webhook/webhook.service.ts, but for the signature that it verifies with a cryptographic library.
use starion_sync.Base.{
  ℕ, Bool, ◌||◌, Option, none, some, List, [], ◌∷◌, String, Action, Outcome, plain, pure, raise,
  unknown_provider_type, unsupported_provider_type, property_of_undefined, gets, modify, ◌>>=◌,
  ◌>>◌, ◌==◌, leb, if◌then◌else◌, is_some,
}
use starion_sync.Driver.{Driver}
use starion_sync.Entities.{ObjectId, ProviderType, microsoft_excel, google_sheets, CronExpression}
use starion_sync.Configurator.{Random, floor_times}
use starion_sync.FormSync.{
  Store, ExcelDataSource, GoogleSheetsDataSource, FormDataSource, MetadataJob, NativeDataType,
  Schema, QueueCall, repeat_update, remove_update,
}
use starion_sync.FormSync.Columns.{Text}
use starion_sync.FormSync.Headers.{set_entry}
use starion_sync.FormSync.Excel.{from_outcome}
use starion_sync.FormSync.Metadata.{schema_of}

-- `CreateExcelDataSourceDto`.
pub record CreateExcelDataSource : Type 0 where
  pub data_source_id : ObjectId
  pub workbook_id : String
  pub worksheet_id : String
  pub refresh_token : String
  pub timezone : String

-- `CreateGoogleSheetsDataSourceDto`.
pub record CreateGoogleSheetsDataSource : Type 0 where
  pub data_source_id : ObjectId
  pub spreadsheet_id : String
  pub sheet_id : String
  pub refresh_token : String

-- `DataSourceCreatedDto`, by the provider of its config; any other provider has no config here.
pub data DataSourceCreated : Type 0 where
  excel_created : CreateExcelDataSource → DataSourceCreated
  google_sheets_created : CreateGoogleSheetsDataSource → DataSourceCreated
  other_created : ProviderType → ObjectId → DataSourceCreated

-- A field of a schema, as far as the service reads it.
pub record SchemaField : Type 0 where
  pub id : Text
  pub type : NativeDataType

-- `EXCEL_UPDATE_METADATA_FREQUENCY` and `GOOGLE_SHEETS_UPDATE_METADATA_FREQUENCY`.
abbrev pub update_metadata_frequency : ℕ
update_metadata_frequency = 4

-- `Utils.createCronExpressionFromFrequency`.
unfoldable pub create_cron_expression : Random → ℕ → CronExpression
create_cron_expression r minutes = record {
  seconds = floor_times r.first_draw 60;
  start = floor_times r.second_draw minutes;
  every = minutes;
}

abbrev pub new_job : Random → MetadataJob
new_job r = record { job_id = r.uuid; cron = create_cron_expression r update_metadata_frequency }

-- The object that `forEach` fills by the fields' ids.
unfoldable pub schema_by_id : Schema → List SchemaField → Schema
schema_by_id schema [] = schema
schema_by_id schema (f ∷ fs) = schema_by_id (set_entry f.id f.type schema) fs

module _ (m : Driver) where
  -- `manager.save(entity)`: a row of the same id is updated.
  unfoldable pub save_source : ObjectId → ProviderType → Action (Store m) (Unit {0})
  save_source id p = modify (λ s. record s {
    data_sources =
        if is_some (m.find_one (λ d. d.id == id) s.data_sources)
        then m.update_one (λ d. d.id == id) (λ d. record d { provider = p }) s.data_sources
        else m.save (record { id = id; provider = p; schema = none }) s.data_sources;
  })

  unfoldable pub save_excel_source :
      MetadataJob → CreateExcelDataSource → Action (Store m) (Unit {0})
  save_excel_source job c = modify (λ s. record s {
    excel_sources =
        if is_some (m.find_one (λ d. d.id == c.data_source_id) s.excel_sources)
        then m.update_one (λ d. d.id == c.data_source_id)
            (λ d. record d {
              workbook_id = c.workbook_id;
              worksheet_id = c.worksheet_id;
              refresh_token = c.refresh_token;
              timezone = c.timezone;
              metadata_job = job;
            })
            s.excel_sources
        else m.save
            (record {
              id = c.data_source_id;
              workbook_id = c.workbook_id;
              worksheet_id = c.worksheet_id;
              refresh_token = c.refresh_token;
              timezone = c.timezone;
              metadata_job = job;
              metadata_synced_at = none;
            })
            s.excel_sources;
  })

  unfoldable pub save_google_sheets_source :
      MetadataJob → CreateGoogleSheetsDataSource → Action (Store m) (Unit {0})
  save_google_sheets_source job c = modify (λ s. record s {
    google_sources =
        if is_some (m.find_one (λ d. d.id == c.data_source_id) s.google_sources)
        then m.update_one (λ d. d.id == c.data_source_id)
            (λ d. record d {
              spreadsheet_id = c.spreadsheet_id;
              sheet_id = c.sheet_id;
              refresh_token = c.refresh_token;
              metadata_job = job;
            })
            s.google_sources
        else m.save
            (record {
              id = c.data_source_id;
              spreadsheet_id = c.spreadsheet_id;
              sheet_id = c.sheet_id;
              refresh_token = c.refresh_token;
              metadata_job = job;
              metadata_synced_at = none;
            })
            s.google_sources;
  })

  abbrev pub call_queue : QueueCall → Action (Store m) (Unit {0})
  call_queue q = modify (λ s. record s { queue = q ∷ s.queue })

  -- `createExcelDataSource`; none of the saves throws, so that the transaction commits.
  unfoldable pub create_excel_data_source :
      Random → CreateExcelDataSource → Action (Store m) (Unit {0})
  create_excel_data_source r c = do
    save_source c.data_source_id microsoft_excel
    save_excel_source (new_job r) c
    call_queue (repeat_update microsoft_excel c.data_source_id (new_job r))

  -- `createGoogleSheetsDataSource`.
  unfoldable pub create_google_sheets_data_source :
      Random → CreateGoogleSheetsDataSource → Action (Store m) (Unit {0})
  create_google_sheets_data_source r c = do
    save_source c.data_source_id google_sheets
    save_google_sheets_source (new_job r) c
    call_queue (repeat_update google_sheets c.data_source_id (new_job r))

  unfoldable pub clean_excel : Option ExcelDataSource → Action (Store m) (Unit {0})
  clean_excel none = pure tt
  clean_excel (some d) = call_queue (remove_update microsoft_excel d.metadata_job)

  unfoldable pub clean_google_sheets : Option GoogleSheetsDataSource → Action (Store m) (Unit {0})
  clean_google_sheets none = pure tt
  clean_google_sheets (some d) = call_queue (remove_update google_sheets d.metadata_job)

  -- `this.cleanerFactory.get(provider)`, and its `run`.
  unfoldable pub clean : ProviderType → ObjectId → Action (Store m) (Unit {0})
  clean microsoft_excel id =
      gets (λ s. m.find_one (λ d. d.id == id) s.excel_sources) >>= clean_excel
  clean google_sheets id =
      gets (λ s. m.find_one (λ d. d.id == id) s.google_sources) >>= clean_google_sheets
  clean _ id = raise (plain unknown_provider_type)

  -- `dataSourceRepository.delete(...)`, with the rows that refer to the one that is deleted.
  unfoldable pub delete_source_row : ObjectId → Action (Store m) (Unit {0})
  delete_source_row id = modify (λ s. record s {
    data_sources = m.delete_one (λ d. d.id == id) s.data_sources;
    excel_sources = m.delete_one (λ d. d.id == id) s.excel_sources;
    google_sources = m.delete_one (λ d. d.id == id) s.google_sources;
  })

  unfoldable pub delete_found_source :
      ObjectId → Option FormDataSource → Action (Store m) (Unit {0})
  delete_found_source id none = pure tt
  delete_found_source id (some d) = clean d.provider id >> delete_source_row id

  -- `deleteDataSource`.
  unfoldable pub delete_data_source : ObjectId → Action (Store m) (Unit {0})
  delete_data_source id =
      gets (λ s. m.find_one (λ d. d.id == id) s.data_sources) >>= delete_found_source id

  -- `getSchema`.
  unfoldable pub get_schema : ObjectId → Action (Store m) (Option Schema)
  get_schema id = gets (λ s. schema_of m (m.find_one (λ d. d.id == id) s.data_sources))

  -- `handleDataSourceCreated`.
  unfoldable pub handle_data_source_created :
      Random → DataSourceCreated → Action (Store m) (Unit {0})
  handle_data_source_created r (excel_created c) = create_excel_data_source r c
  handle_data_source_created r (google_sheets_created c) = create_google_sheets_data_source r c
  handle_data_source_created r (other_created p id) = raise (plain unsupported_provider_type)

  -- The schema's fields, where null has no `forEach`.
  unfoldable pub update_schema : ObjectId → Option (List SchemaField) → Action (Store m) (Unit {0})
  update_schema id none = raise (plain property_of_undefined)
  update_schema id (some []) = pure tt
  update_schema id (some (f ∷ fs)) = modify (λ s. record s {
    data_sources =
        m.update_one (λ d. d.id == id) (λ d. record d { schema = some (schema_by_id [] (f ∷ fs)) })
          s.data_sources;
  })

  -- `handleSyncflowSucceed`, where `fetch` is the request for the schema's fields.
  unfoldable pub handle_syncflow_succeed :
      (ObjectId → Outcome (Option (List SchemaField)))
      → ObjectId
      → ℕ
      → Bool
      → Action (Store m) (Unit {0})
  handle_syncflow_succeed fetch id version is_schema_changed =
      if leb version 1 || is_schema_changed
      then from_outcome (fetch id) >>= update_schema id
      else pure tt

  -- `handleDataSourceDeleted`.
  unfoldable pub handle_data_source_deleted : ObjectId → Action (Store m) (Unit {0})
  handle_data_source_deleted id = delete_data_source id
