-- ===== src/Repository/DataProviders/Deletion.antt =====
-- libs/modules/src/repository/mongodb/repositories/dataProvider.repository.ts, `delete`.
use starion_sync.Base.{
  ◌≡◌, refl, ap, Bool, true, false, not, ◌&&◌, none, some, [], ok, throw, plain,
  data_provider_not_found, ◌==◌, arith,
}
use starion_sync.Driver.{Driver}
use starion_sync.Driver.Laws.{IsKeyed, find_one-update_key_gone, find-update_many_none}
use starion_sync.Entities.{ObjectId, DataProvider}
use starion_sync.Repository.{Db, QueryOptions, no_options}
use starion_sync.Repository.Transactions.{run_process_commits, run_process_unchanged}
use starion_sync.Repository.DataSources
use starion_sync.Repository.DataProviders.{
  live, mark_deleted, get_by_id, delete, delete_found, set_found,
}

module _ (m : Driver) where
  abbrev without : ObjectId → Db m → Db m
  without id db = record (set_found m id mark_deleted db) {
    sources = m.update_many (λ d. d.provider.id == id) DataSources.mark_deleted db.sources;
  }

  delete_present :
      (id : ObjectId) (o : QueryOptions) (db : Db m) (p : DataProvider)
      → m.find_one (live id) db.providers ≡ some p
      → delete m id o db ≡ (ok tt, without id db)
  unfolding delete delete_found
  delete_present id o db p h = run_process_commits m o (delete_found m id) db _ tt (rw h refl)

  delete_missing :
      (id : ObjectId) (o : QueryOptions) (db : Db m)
      → m.find_one (live id) db.providers ≡ none
      → delete m id o db ≡ (throw (plain data_provider_not_found), db)
  unfolding delete delete_found
  delete_missing id o db h = run_process_unchanged m o (delete_found m id) db _ (rw h refl)

  and_false : (b : Bool) → (b && false) ≡ false
  and_false b = ground arith

  and-left : (a b : Bool) → (a && b) ≡ true → a ≡ true
  and-left a b h = ground arith

  -- Where provider ids are unique, `delete` of a provider that exists returns, and then neither
  -- the provider nor any data source of it is found.
  pub delete_provider :
      (id : ObjectId) (o : QueryOptions) (db : Db m) (p : DataProvider)
      → IsKeyed m (λ d. d.id) db.providers
      → m.find_one (live id) db.providers ≡ some p
      → ((delete m id o db).0 ≡ ok tt)
        × ((get_by_id m id no_options (delete m id o db).1).0 ≡ ok none)
        × ((DataSources.get_by_provider_id m id no_options (delete m id o db).1).0 ≡ ok [])
  unfolding get_by_id DataSources.get_by_provider_id
  delete_provider id o db p u h = rw (delete_present id o db p h) (
    refl,
    ap ok (
        find_one-update_key_gone m (λ e. e.id) id (λ d. not d.is_deleted) mark_deleted db.providers
          u (λ e. refl)),
    ap ok (
        find-update_many_none m (DataSources.by_provider_id id no_options)
          (λ d. d.provider.id == id) DataSources.mark_deleted db.sources
          (λ d. and_false (d.provider.id == id))
          (λ d e. and-left (d.provider.id == id) (not d.is_deleted) e)),
  )
