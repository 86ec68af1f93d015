-- ===== src/Repository/DataProviders.antt =====
-- libs/modules/src/repository/mongodb/repositories/dataProvider.repository.ts. `create` starts
-- the save and does not await it; the model takes it at once.
pub mod Keyed
pub mod Deletion
use starion_sync.Base.{
  ℕ, Bool, true, false, not, ◌&&◌, Option, none, some, String, Action, ok, plain,
  data_provider_not_found, property_of_undefined, pure, gets, modify, or_raise, ◌>>=◌, ◌>>◌, ◌==◌,
  if◌then◌else◌, overwrite_opt,
}
use text.Mathlib.Text.{◌==◌ as str_eq}
use starion_sync.Driver.{Driver}
use starion_sync.Entities.{ObjectId, Metadata, DataProvider, SourceConfig, ProviderType}
use starion_sync.Repository.{Db, QueryOptions, is_visible, run_process, set_keys}
use starion_sync.Repository.DataSources

pub record CreateDataProviderData : Type 0 where
  pub type : ProviderType
  pub external_id : String
  pub config : SourceConfig
  pub metadata : Metadata

-- `auth` is a refresh token.
pub record UpdateDataProviderData : Type 0 where
  pub id : ObjectId
  pub auth : Option String
  pub metadata : Option Metadata

abbrev pub set_auth : Option String → DataProvider → DataProvider
set_auth none d = d
set_auth (some token) d = record d { config = record (d.config) { refresh_token = token } }

abbrev pub set_metadata : Option Metadata → DataProvider → DataProvider
set_metadata none d = d
set_metadata (some u) d = record d { metadata = set_keys u d.metadata }

-- `$set` of `state.downloadedAt`, the one key of `DataProviderStateModel`.
abbrev pub set_state : Option ℕ → DataProvider → DataProvider
set_state u d = record d { downloaded_at = overwrite_opt u d.downloaded_at }

abbrev pub mark_deleted : DataProvider → DataProvider
mark_deleted d = record d { is_deleted = true }

abbrev pub by_id : ObjectId → QueryOptions → DataProvider → Bool
by_id id o d = (d.id == id) && is_visible o d.is_deleted

abbrev pub live : ObjectId → DataProvider → Bool
live id d = (d.id == id) && not d.is_deleted

abbrev pub by_external_id : String → QueryOptions → DataProvider → Bool
by_external_id external_id o d = str_eq d.external_id external_id && is_visible o d.is_deleted

module _ (m : Driver) where
  unfoldable pub get_by_id : ObjectId → QueryOptions → Action (Db m) (Option DataProvider)
  get_by_id id o = gets (λ db. m.find_one (by_id id o) db.providers)

  unfoldable pub get_by_external_id : String → QueryOptions → Action (Db m) (Option DataProvider)
  get_by_external_id external_id o =
      gets (λ db. m.find_one (by_external_id external_id o) db.providers)

  save_provider : DataProvider → Action (Db m) DataProvider
  save_provider d db = (ok d, record db { providers = m.save d db.providers })

  unfoldable pub create : CreateDataProviderData → Action (Db m) DataProvider
  unfolding save_provider
  create data' = do
    id ← gets (λ db. m.new_id (λ d. d.id) db.providers)
    save_provider (record {
      id = id;
      external_id = data'.external_id;
      type = data'.type;
      config = data'.config;
      downloaded_at = none;
      metadata = data'.metadata;
      is_deleted = false;
    })

  reload : ObjectId → Action (Db m) (Option DataProvider)
  reload id = do
    found ← gets (λ db. m.find_one (λ d. d.id == id) db.providers)
    provider ← or_raise found (plain property_of_undefined)
    pure (some provider)

  abbrev set_found : ObjectId → (DataProvider → DataProvider) → Db m → Db m
  set_found id f db = record db { providers = m.update_one (λ d. d.id == id) f db.providers }

  update_found : UpdateDataProviderData → QueryOptions → Action (Db m) (Option DataProvider)
  unfolding reload
  update_found u o = do
    found ← gets (λ db. m.find_one (live u.id) db.providers)
    or_raise found (plain data_provider_not_found)
    modify (set_found u.id (λ d. set_metadata u.metadata (set_auth u.auth d)))
    if o.new then reload u.id else pure none

  unfoldable pub update :
      UpdateDataProviderData → QueryOptions → Action (Db m) (Option DataProvider)
  unfolding update_found
  update u o = run_process m o (update_found u o)

  update_state_found : ObjectId → Option ℕ → QueryOptions → Action (Db m) (Option DataProvider)
  unfolding reload
  update_state_found id downloaded_at o = do
    found ← gets (λ db. m.find_one (live id) db.providers)
    or_raise found (plain data_provider_not_found)
    modify (set_found id (set_state downloaded_at))
    if o.new then reload id else pure none

  unfoldable pub update_state :
      ObjectId → Option ℕ → QueryOptions → Action (Db m) (Option DataProvider)
  unfolding update_state_found
  update_state id downloaded_at o = run_process m o (update_state_found id downloaded_at o)

  -- The data sources of a deleted provider go with it, their connections do not.
  delete_found : ObjectId → Action (Db m) (Unit {0})
  delete_found id = do
    found ← gets (λ db. m.find_one (live id) db.providers)
    or_raise found (plain data_provider_not_found)
    modify (set_found id mark_deleted)
    modify (λ db. record db {
      sources = m.update_many (λ d. d.provider.id == id) DataSources.mark_deleted db.sources;
    })

  unfoldable pub delete : ObjectId → QueryOptions → Action (Db m) (Unit {0})
  unfolding delete_found
  delete id o = run_process m o (delete_found id)
