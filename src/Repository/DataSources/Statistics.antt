-- ===== src/Repository/DataSources/Statistics.antt =====
-- libs/modules/src/repository/mongodb/repositories/dataSource.repository.ts, `updateStatistics`.
use starion_sync.Base.{◌≡◌, refl, none, some, ok, ◌==◌}
use starion_sync.Driver.{Driver}
use starion_sync.Entities.{ObjectId, DataSource}
use starion_sync.Repository.{Db, no_options}
use starion_sync.Repository.Transactions.{run_process_commits}
use starion_sync.Repository.DataSources.{
  StatisticsUpdate, set_statistics, update_statistics, update_statistics_found,
}

module _ (m : Driver) where
  pub update_statistics_present :
      (id : ObjectId) (u : StatisticsUpdate) (db : Db m) (d : DataSource)
      → m.find_one (λ e. e.id == id) db.sources ≡ some d
      → update_statistics m id u no_options db ≡ (
        ok none,
        record db { sources = m.update_one (λ e. e.id == id) (set_statistics u) db.sources },
      )
  unfolding update_statistics update_statistics_found
  update_statistics_present id u db d h =
      run_process_commits m no_options (update_statistics_found m id u no_options) db _ none
        (rw h refl)
