-- ===== src/Configurator/Sources.antt =====
-- apps/configurator/src/modules/data-source/data-source.service.ts and
-- modules/data-provider/data-provider.service.ts.
use Prim.Native.String.{◌++◌}
use starion_sync.Base.{
  Bool, true, false, Option, none, some, List, [], ◌∷◌, String, Action, Outcome, plain, api,
  data_source_not_found, data_provider_not_found, update_failed, unknown_provider_type,
  property_of_undefined, pure, raise, or_raise, catch, when, ◌>>=◌, ◌>>◌, if◌then◌else◌,
}
use text.Mathlib.Text.{◌==◌ as str_eq}
use starion_sync.Driver.{Driver}
use starion_sync.Entities.{
  ObjectId, Metadata, DataSource, DataProvider, SyncConnection, SyncConnectionStatus, SourceConfig,
  ProviderType, google_sheets, microsoft_excel, air_table,
}
use starion_sync.Repository.{Db, no_options, in_session}
use starion_sync.Repository.DataSources
use starion_sync.Repository.DataSources.{DeletedSource}
use starion_sync.Repository.DataProviders
use starion_sync.Events.{World, on_db}
use starion_sync.Configurator.{
  Discoverer, CreationResult, DeleteResult, invalid_data, no_data_exists,
}
use starion_sync.Configurator.Connections.{
  update_state_with_data_source_id, get_trigger_of_data_source, manual_trigger,
}

abbrev answer : {S A : Type 0} → Outcome A → Action S A
answer r s = (r, s)

-- `driveId ? `${driveId}-${workbookId}` : workbookId`; an empty drive is no drive.
unfoldable pub workbook_external_id : Option String → String → String
workbook_external_id none workbook = workbook
workbook_external_id (some drive) workbook =
    if str_eq drive "" then workbook else drive ++ ("-" ++ workbook)

-- `getOrGenerateProviderExternalId`.
unfoldable pub provider_external_id : {S : Type 0} → ProviderType → SourceConfig → Action S String
unfolding workbook_external_id
provider_external_id microsoft_excel c = pure (workbook_external_id c.drive_id c.workbook_id)
provider_external_id google_sheets c = pure c.spreadsheet_id
provider_external_id air_table c = raise (plain unknown_provider_type)

-- `getOrGenerateDataSourceExternalId`: the id and the local id.
unfoldable pub data_source_external_id :
    {S : Type 0} → ProviderType → SourceConfig → Action S (String × String)
unfolding workbook_external_id
data_source_external_id microsoft_excel c =
    pure (workbook_external_id c.drive_id c.workbook_id, c.worksheet_id)
data_source_external_id google_sheets c = pure (c.spreadsheet_id, c.sheet_id)
data_source_external_id air_table c = raise (plain unknown_provider_type)

-- `CreateDataSourceDto` and `CreateDataProviderDto`.
pub record CreateDto : Type 0 where
  pub type : ProviderType
  pub config : SourceConfig
  pub metadata : Metadata

-- `DeleteDataSourceResult`.
pub record DeletedDataSource : Type 0 where
  pub data_source : DataSource
  pub sync_connection : Option SyncConnection
  pub is_provider_deleted : Bool

abbrev is_empty : {A : Type 0} → List A → Bool
is_empty [] = true
is_empty (x ∷ xs) = false

module _ (m : Driver) where
  -- `DataProviderService.create`.
  unfoldable pub create_provider : CreateDto → Action (World m) (CreationResult DataProvider)
  unfolding provider_external_id
  create_provider dto = do
    external_id ← provider_external_id dto.type dto.config
    existing ← on_db (DataProviders.get_by_external_id m external_id no_options)
    elim existing [
      | some p ↦ pure (record { item = p; is_already_created = true })
      | none ↦ do
        p ← on_db (
            DataProviders.create m (record {
              type = dto.type;
              external_id = external_id;
              config = dto.config;
              metadata = dto.metadata;
            }))
        pure (record { item = p; is_already_created = false })
    ]

  -- `DataProviderService.getById`.
  unfoldable pub get_provider_by_id : ObjectId → Action (World m) DataProvider
  get_provider_by_id id = do
    found ← on_db (DataProviders.get_by_id m id no_options)
    or_raise found (api no_data_exists data_provider_not_found)

  -- `DataProviderService.update`; whatever fails, the error is about invalid data.
  unfoldable pub update_provider :
      DataProviders.UpdateDataProviderData → Action (World m) (Option DataProvider)
  update_provider u =
      catch (on_db (DataProviders.update m u (record no_options { new = true })))
        (λ e. raise (api invalid_data update_failed))

  -- `DataSourceService.getById`.
  unfoldable pub get_by_id : ObjectId → Action (World m) DataSource
  get_by_id id = do
    found ← on_db (DataSources.get_by_id m id no_options)
    or_raise found (api no_data_exists data_source_not_found)

  provider_or_new : Option DataProvider → CreateDto → Action (World m) DataProvider
  unfolding create_provider
  provider_or_new (some p) dto = pure p
  provider_or_new none dto = create_provider dto >>= λ r. pure r.item

  -- `DataSourceService.create`.
  unfoldable pub create : Discoverer → CreateDto → Action (World m) (CreationResult DataSource)
  unfolding data_source_external_id provider_external_id provider_or_new
  create disc dto = do
    (external_id, external_local_id) ← data_source_external_id dto.type dto.config
    provider_id ← provider_external_id dto.type dto.config
    existing ← on_db (DataProviders.get_by_external_id m provider_id no_options)
    provider ← provider_or_new existing dto
    full_config ← answer (disc.discover_config provider.type dto.config)
    answer (disc.check_data_source provider.type full_config)
    source ← on_db (
        DataSources.create m (record {
          provider_type = dto.type;
          provider_id = provider.id;
          external_id = external_id;
          external_local_id = external_local_id;
          config = full_config;
          metadata = dto.metadata;
        }))
    pure (record { item = source; is_already_created = false })

  -- `DataSourceService.update`.
  unfoldable pub update : DataSources.UpdateDataSourceData → Action (World m) (Option DataSource)
  update u =
      catch (on_db (DataSources.update m u (record no_options { new = true })))
        (λ e. raise (api invalid_data update_failed))

  -- `updateSyncConnection`.
  unfoldable pub update_sync_connection :
      ObjectId → Option SyncConnectionStatus → Action (World m) (Unit {0})
  unfolding get_by_id
  update_sync_connection id status = do
    d ← get_by_id id
    update_state_with_data_source_id m d.id status

  -- `triggerSyncConnection`.
  unfoldable pub trigger_sync_connection : ObjectId → Action (World m) (Unit {0})
  unfolding get_by_id
  trigger_sync_connection id = do
    d ← get_by_id id
    found ← get_trigger_of_data_source m d
    t ← or_raise found (plain property_of_undefined)
    manual_trigger m t.id

  delete_existing : ObjectId → DataSource → Action (Db m) (DeleteResult DeletedDataSource)
  delete_existing id existing = do
    old ← DataSources.delete m id (record in_session { old = true })
    data' ← or_raise old (plain property_of_undefined)
    in_provider ← DataSources.get_by_provider_id m existing.provider.id in_session
    when (is_empty in_provider) (DataProviders.delete m existing.provider.id in_session)
    pure (record {
      item = some (record {
        data_source = data'.data_source;
        sync_connection = data'.sync_connection;
        is_provider_deleted = is_empty in_provider;
      });
      is_already_deleted = false;
    })

  -- The callback of `delete`.
  unfoldable pub delete_in_transaction : ObjectId → Action (Db m) (DeleteResult DeletedDataSource)
  unfolding delete_existing
  delete_in_transaction id = do
    found ← DataSources.get_by_id m id in_session
    elim found [
      | none ↦ pure (record { item = none; is_already_deleted = true })
      | some d ↦ delete_existing id d
    ]

  -- `DataSourceService.delete`.
  unfoldable pub delete : ObjectId → Action (World m) (DeleteResult DeletedDataSource)
  delete id = on_db (m.with_transaction (delete_in_transaction id))
