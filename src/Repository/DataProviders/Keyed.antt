-- ===== src/Repository/DataProviders/Keyed.antt =====
-- libs/modules/src/repository/mongodb/repositories/dataProvider.repository.ts: every operation
-- leaves the ids of the documents unique.
use starion_sync.Base.{◌≡◌, refl, Bool, Option, String, modify}
use starion_sync.Base.Effects.Keeps.{Keeps, keeps_rules}
use starion_sync.Driver.{Driver}
use starion_sync.Driver.Laws.{save-IsKeyed, update_many-IsKeyed}
use starion_sync.Entities.{ObjectId, Metadata, DataSource, DataProvider}
use starion_sync.Repository.{Db, QueryOptions}
use starion_sync.Repository.Keyed.{HasIds, run_process-Keeps, providers-Keeps}
use starion_sync.Base.{ℕ, none, some}
use starion_sync.Repository.DataSources
use starion_sync.Repository.DataProviders.{
  CreateDataProviderData, UpdateDataProviderData, set_metadata, set_auth, create, save_provider,
  reload, update, update_found, update_state, update_state_found, delete, delete_found,
}

module _ (m : Driver) where
  pub create-HasIds : (given : CreateDataProviderData) → Keeps (HasIds m) (create m given)
  unfolding create save_provider
  create-HasIds given = record {
    at = λ s (a, b, c, d, e, f, g).
        (a, save-IsKeyed m (λ d. d.id) _ s.providers refl b, c, d, e, f, g);
  }

  reload-HasIds : (id : ObjectId) → Keeps (HasIds m) (reload m id)
  unfolding reload
  reload-HasIds id = search keeps_rules

  -- The id stays, whichever keys are given.
  set_keys-id :
      (u : Option Metadata) (a : Option String) (d : DataProvider)
      → (set_metadata u (set_auth a d)).id ≡ d.id
  set_keys-id none none d = refl
  set_keys-id none (some a) d = refl
  set_keys-id (some u) none d = refl
  set_keys-id (some u) (some a) d = refl

  pub update-HasIds :
      (u : UpdateDataProviderData) (o : QueryOptions) → Keeps (HasIds m) (update m u o)
  unfolding update update_found
  update-HasIds u o =
      search (keeps_rules, run_process-Keeps, reload-HasIds, providers-Keeps, set_keys-id) depth 12

  pub update_state-HasIds :
      (id : ObjectId) (at : Option ℕ) (o : QueryOptions) → Keeps (HasIds m) (update_state m id at o)
  unfolding update_state update_state_found
  update_state-HasIds id at o =
      search (keeps_rules, run_process-Keeps, reload-HasIds, providers-Keeps) depth 12

  all_sources-Keeps :
      (q : DataSource → Bool)
      → Keeps (HasIds m) (
          modify (λ (db : Db m). record db {
            sources = m.update_many q DataSources.mark_deleted db.sources;
          }))
  all_sources-Keeps q = record {
    at = λ s (a, b, c, d, e, f, g). (
      update_many-IsKeyed m (λ d. d.id) q DataSources.mark_deleted s.sources (λ d. refl) a,
      b,
      c,
      d,
      e,
      f,
      g,
    );
  }

  pub delete-HasIds : (id : ObjectId) (o : QueryOptions) → Keeps (HasIds m) (delete m id o)
  unfolding delete delete_found
  delete-HasIds id o =
      search (keeps_rules, run_process-Keeps, all_sources-Keeps, providers-Keeps) depth 12
