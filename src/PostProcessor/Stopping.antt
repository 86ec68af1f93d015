-- ===== src/PostProcessor/Stopping.antt =====
-- apps/post-processor/src/modules/data-source: a connection is stopped when its data source
-- breaks.
use starion_sync.Base.{
  ◌≡◌, refl, ap, inl, inr, true, false, none, some, ok, ◌==◌, Bool-cases, bind_ok, arith, pure, ◌∙◌,
}
use starion_sync.Driver.{Driver}
use starion_sync.Driver.Laws.{IsKeyed, find_one-update_found, find_one-own_key}
use starion_sync.Entities.{ObjectId, SyncConnection, SyncConnectionStatus, inactive, is_active}
use starion_sync.Repository.{no_options}
use starion_sync.Repository.SyncConnections
use starion_sync.Repository.SyncConnections.{by_source_id, set_state, UpdateSyncConnectionStateData}
use starion_sync.Repository.SyncConnections.State.{update_state_present}
use starion_sync.Events.{World, on_db}
use starion_sync.PostProcessor.{Storage, stop_sync_connection, stop_found}

-- A connection that was stopped: its health is as it was.
abbrev pub stopped : SyncConnection → SyncConnection
stopped c = record c { state = record (c.state) { status = inactive } }

module _ (m : Driver) (storage : Storage) where
  abbrev stop_data : SyncConnection → UpdateSyncConnectionStateData
  stop_data c = record { id = c.id; status = some inactive; health_status = none }

  abbrev after_stop : SyncConnection → World m → World m
  after_stop c w = record w {
    db = record (w.db) {
      connections = m.update_one (λ d. d.id == c.id) (set_state (stop_data c)) w.db.connections;
    };
  }

  stop_active :
      (c : SyncConnection) (id : ObjectId) (w : World m)
      → IsKeyed m (λ d. d.id) w.db.connections
      → m.find_one (by_source_id id no_options) w.db.connections ≡ some c
      → is_active c.state.status ≡ true
      → stop_found m storage (some c) w ≡ (ok tt, after_stop c w)
  unfolding stop_found
  stop_active c id w u h a = simp a (
      bind_ok (on_db (SyncConnections.update_state m (stop_data c) no_options)) (λ _. pure tt) w
        (after_stop c w) none
        (ap (λ r. (r.0, record w { db = r.1 }))
          (update_state_present m (stop_data c) w.db c
            (find_one-own_key m (λ d. d.id) (by_source_id id no_options) w.db.connections c u h))))

  stop_inactive :
      (c : SyncConnection) (w : World m)
      → is_active c.state.status ≡ false
      → stop_found m storage (some c) w ≡ (ok tt, w)
  unfolding stop_found
  stop_inactive c w a = simp a refl

  inactive-stopped : (c : SyncConnection) → is_active c.state.status ≡ false → c ≡ stopped c
  inactive-stopped c a =
      ap (λ x. record c { state = record (c.state) { status = x } }) (is_inactive c.state.status a)
    where
      is_inactive : (x : SyncConnectionStatus) → is_active x ≡ false → x ≡ inactive
      is_inactive x e = ground (arith, e)

  stop_present :
      (id : ObjectId) (w : World m) (c : SyncConnection)
      → m.find_one (by_source_id id no_options) w.db.connections ≡ some c
      → stop_sync_connection m storage id w ≡ stop_found m storage (some c) w
  unfolding stop_sync_connection SyncConnections.get_by_data_source_id
  stop_present id w c h = rw h refl

  -- Where connection ids are unique, `stopSyncConnection` of a data source that has a connection
  -- returns and emits nothing, and the lookup by data source then finds the same connection,
  -- inactive, its health as it was; whether it was active before or not.
  pub stop_sync_connection_lem :
      (id : ObjectId) (w : World m) (c : SyncConnection)
      → IsKeyed m (λ d. d.id) w.db.connections
      → m.find_one (by_source_id id no_options) w.db.connections ≡ some c
      → let r = stop_sync_connection m storage id w in
        (r.0 ≡ ok tt)
        × (r.1.events ≡ w.events)
        × (m.find_one (by_source_id id no_options) r.1.db.connections ≡ some (stopped c))
  stop_sync_connection_lem id w c u h = elim (Bool-cases (is_active c.state.status)) [
    | inl yes' ↦
        simp (stop_present id w c h, stop_active c id w u h yes')
          (
            refl,
            refl,
            find_one-update_found m (λ d. d.id) (by_source_id id no_options)
                (set_state (stop_data c)) w.db.connections c u (λ e. refl) h,
          )
    | inr no' ↦
        simp (stop_present id w c h, stop_inactive c w no')
          (refl, refl, h ∙ ap some (inactive-stopped c no'))
  ]
