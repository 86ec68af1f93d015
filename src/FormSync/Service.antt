-- ===== src/FormSync/Service.antt =====
-- form-sync/main/src/modules/formsync: formsync.service.ts and formsync.factory.ts, and the
-- processors of the queues in excel/job.ts and google-sheets/job.ts.
use starion_sync.Base.{
  Bool, false, Option, none, some, List, ◌∷◌, String, Action, plain, api, data_source_not_found,
  unknown_provider_type, property_of_undefined, pure, raise, gets, modify, or_raise, for_each,
  ◌>>=◌, ◌>>◌, ◌==◌,
}
use starion_sync.Driver.{Driver}
use starion_sync.Entities.{ObjectId, ProviderType, microsoft_excel, google_sheets}
use starion_sync.FormSync.{
  Store, Graph, Google, FormSync, FormSyncType, insert_type, DelayedFormSync, Fields, add_delayed,
}
use starion_sync.FormSync.Excel.{given_id}
use starion_sync.FormSync.Excel.Service as ExcelService
use starion_sync.FormSync.GoogleSheets.Service as GoogleSheetsService

-- `FormSyncDto`, with the id of its config's data source and its metadata's local id.
pub record FormSyncDto : Type 0 where
  pub type : FormSyncType
  pub data_source_id : ObjectId
  pub record_id : Option String
  pub fields : Option Fields
  pub local_id : Option String

-- The record id of the payload, where `uuid` is a new one.
unfoldable pub payload_record_id : String → FormSyncType → Option String → Option String
payload_record_id uuid insert_type record_id = some uuid
payload_record_id uuid _ record_id = record_id

-- The local id that is stored: that of an insertion, unless it is empty.
unfoldable pub stored_local_id : FormSyncType → Option String → Option String
stored_local_id insert_type local_id = given_id local_id
stored_local_id _ local_id = none

-- The form sync that a job's delayed form sync refers to, of a data source.
abbrev is_of_source : ObjectId → Option FormSync → Bool
is_of_source id none = false
is_of_source id (some f) = f.data_source_id == id

module _ (m : Driver) (g : Graph) (a : Google) where
  -- `this.formSyncFactory.get(provider)`, and its `run`.
  unfoldable pub run_of : ProviderType → FormSync → Action (Store m) (Unit {0})
  run_of microsoft_excel f = ExcelService.run m g f
  run_of google_sheets f = GoogleSheetsService.run m g a f
  run_of _ f = raise (plain unknown_provider_type)

  unfoldable pub keep_local_id : String → Option String → Action (Store m) (Unit {0})
  keep_local_id uuid none = pure tt
  keep_local_id uuid (some local_id) =
      modify (λ s. record s { local_ids = (uuid, local_id) ∷ s.local_ids })

  abbrev pub form_sync_of : String → FormSyncDto → Store m → FormSync
  form_sync_of uuid dto s = record {
    id = m.new_id (λ f. f.id) s.form_syncs;
    data_source_id = dto.data_source_id;
    type = dto.type;
    record_id = payload_record_id uuid dto.type dto.record_id;
    fields = dto.fields;
  }

  -- `FormSyncService.run`, where `uuid` is what `uuid()` returns.
  unfoldable pub run_form_sync : String → FormSyncDto → Action (Store m) (Unit {0})
  run_form_sync uuid dto = do
    found ← gets (λ s. m.find_one (λ d. d.id == dto.data_source_id) s.data_sources)
    source ← or_raise found (api 404 data_source_not_found)
    keep_local_id uuid (stored_local_id dto.type dto.local_id)
    f ← gets (form_sync_of uuid dto)
    modify (λ s. record s { form_syncs = m.save f s.form_syncs })
    run_of source.provider f

  -- The `find` of the delayed form syncs of a data source.
  unfoldable pub delayed_of : ObjectId → Store m → List DelayedFormSync
  delayed_of id s =
      m.find (λ d. is_of_source id (m.find_one (λ f. f.id == d.form_sync_id) s.form_syncs))
        s.delayed

  unfoldable pub queue_delayed : ProviderType → DelayedFormSync → Action (Store m) (Unit {0})
  queue_delayed p d = modify (λ s. record s { queue = add_delayed p d.form_sync_id ∷ s.queue })

  -- `ExcelUpdateMetadataProcessor.process`. An error is logged and thrown again.
  unfoldable pub process_excel_update : ObjectId → Action (Store m) (Unit {0})
  process_excel_update id = do
    ExcelService.update_metadata m g id
    ds ← gets (delayed_of id)
    for_each ds (queue_delayed microsoft_excel)

  -- `GoogleSheetsUpdateMetadataProcessor.process`.
  unfoldable pub process_google_sheets_update : ObjectId → Action (Store m) (Unit {0})
  process_google_sheets_update id = do
    GoogleSheetsService.update_metadata m g a id
    ds ← gets (delayed_of id)
    for_each ds (queue_delayed google_sheets)

  -- `ExcelFormSyncRespectMetadataProcessor.process`: the properties of a missing form sync are a
  -- TypeError.
  unfoldable pub process_excel_delayed : ObjectId → Action (Store m) (Unit {0})
  process_excel_delayed id = do
    found ← gets (λ s. m.find_one (λ f. f.id == id) s.form_syncs)
    f ← or_raise found (plain property_of_undefined)
    ExcelService.run_respect_metadata m g f

  -- `GoogleSheetsFormSyncRespectMetadataProcessor.process`.
  unfoldable pub process_google_sheets_delayed : ObjectId → Action (Store m) (Unit {0})
  process_google_sheets_delayed id = do
    found ← gets (λ s. m.find_one (λ f. f.id == id) s.form_syncs)
    f ← or_raise found (plain property_of_undefined)
    GoogleSheetsService.run_respect_metadata m g a f
