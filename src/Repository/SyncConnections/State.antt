-- ===== src/Repository/SyncConnections/State.antt =====
-- libs/modules/src/repository/mongodb/repositories/syncConnection.repository.ts, `updateState`.
use starion_sync.Base.{◌≡◌, refl, none, some, ok, ◌==◌}
use starion_sync.Driver.{Driver}
use starion_sync.Entities.{SyncConnection}
use starion_sync.Repository.{Db, no_options}
use starion_sync.Repository.Transactions.{run_process_commits}
use starion_sync.Repository.SyncConnections.{
  UpdateSyncConnectionStateData, set_state, update_state, update_state_found,
}

module _ (m : Driver) where
  pub update_state_present :
      (u : UpdateSyncConnectionStateData) (db : Db m) (c : SyncConnection)
      → m.find_one (λ d. d.id == u.id) db.connections ≡ some c
      → update_state m u no_options db ≡ (
        ok none,
        record db { connections = m.update_one (λ d. d.id == u.id) (set_state u) db.connections },
      )
  unfolding update_state update_state_found
  update_state_present u db c h =
      run_process_commits m no_options (update_state_found m u no_options) db _ none (rw h refl)
