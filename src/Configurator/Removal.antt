-- ===== src/Configurator/Removal.antt =====
-- apps/configurator: what a connection's deletion returns and emits.
use starion_sync.Base.{
  ◌≡◌, refl, ap, subst, ◌∙◌, true, false, not, none, some, ◌∷◌, ok, ◌==◌, bind_ok, pure, when,
  Action, ◌>>◌, arith,
}
use starion_sync.Driver.{Driver}
use starion_sync.Driver.Laws.{IsKeyed, find_one_sound, find_one-own_key}
use starion_sync.Entities.{ObjectId, SyncConnection}
use starion_sync.Repository.{no_options}
use starion_sync.Repository.SyncConnections
use starion_sync.Repository.SyncConnections.{CreateSyncflowData, CreateSyncConnectionData}
use starion_sync.Repository.SyncConnections.Entries.{all_have_documents}
use starion_sync.Repository.SyncConnections.Deletion.{delete_present}
use starion_sync.Events.{connection_deleted, World, emit_event, on_db}
use starion_sync.Configurator.{DeleteResult}
use starion_sync.Configurator.Connections.{delete, delete_existing}
use starion_sync.Configurator.Workflows.{delete_sync_connection_wf}

abbrev really_deleted : SyncConnection → DeleteResult SyncConnection
really_deleted c = record { item = some c; is_already_deleted = false }

module _ (m : Driver) where
  abbrev deleting : DeleteResult SyncConnection → Action (World m) (DeleteResult SyncConnection)
  deleting result =
      when (not (not result.is_already_deleted)) (emit_event (connection_deleted result.item))
      >> pure result

  delete_absent :
      (id : ObjectId) (w : World m)
      → m.find_one (SyncConnections.by_id id no_options) w.db.connections ≡ none
      → delete m id w ≡ (ok (record { item = none; is_already_deleted = true }), w)
  unfolding delete delete_existing SyncConnections.get_by_id
  delete_absent id w h = rw h refl

  same_connection :
      (k : ObjectId) (c : SyncConnection) → SyncConnections.by_id k no_options c ≡ true → c.id ≡ k
  same_connection k c h = ground (arith, h)

  delete_existing_lem :
      (id : ObjectId) (w : World m) (c : SyncConnection)
      → m.find_one (λ d. d.id == id) w.db.connections ≡ some c
      → all_have_documents m w.db c.syncflows ≡ true
      → (v : World m) × (delete_existing m id (some c) w ≡ (ok (really_deleted c), v))
        × (v.events ≡ w.events)
  unfolding delete_existing
  delete_existing_lem id w c h all =
      let o = record no_options { old = true } in
      let e = delete_present m id o w.db c h all in
      (
        record w { db = (SyncConnections.delete m id o w.db).1 },
        bind_ok (on_db (SyncConnections.delete m id o))
            (λ old. pure (record { item = old; is_already_deleted = false })) w
            (record w { db = (SyncConnections.delete m id o w.db).1 }) (some c)
            (ap (λ x. (x.0, record w { db = (SyncConnections.delete m id o w.db).1 })) e),
        refl,
      )

  delete_visible :
      (id : ObjectId) (w : World m) (c : SyncConnection)
      → m.find_one (SyncConnections.by_id id no_options) w.db.connections ≡ some c
      → delete m id w ≡ delete_existing m id (some c) w
  unfolding delete SyncConnections.get_by_id
  delete_visible id w c h = rw h refl

  -- A deletion that is real, of a connection whose syncflows and triggers exist, returns the
  -- connection and emits no event.
  pub delete_sync_connection_wf_silent :
      (id : ObjectId) (w : World m) (c : SyncConnection)
      → IsKeyed m (λ d. d.id) w.db.connections
      → m.find_one (SyncConnections.by_id id no_options) w.db.connections ≡ some c
      → all_have_documents m w.db c.syncflows ≡ true
      → ((delete_sync_connection_wf m id w).0 ≡ ok (really_deleted c))
        × ((delete_sync_connection_wf m id w).1.events ≡ w.events)
  unfolding delete_sync_connection_wf
  delete_sync_connection_wf_silent id w c u h all =
      let k =
        same_connection id c
          (find_one_sound m (SyncConnections.by_id id no_options) w.db.connections h) in
      let here =
        find_one-own_key m (λ d. d.id) (SyncConnections.by_id id no_options) w.db.connections c u
          h in
      let (v, e, f) =
        delete_existing_lem id w c
          (subst (λ x. m.find_one (λ d. d.id == x) w.db.connections ≡ some c) k here) all in
      let g = bind_ok (delete m id) deleting w v (really_deleted c) (delete_visible id w c h ∙ e) in
      (ap (λ x. x.0) g, ap (λ x. x.1.events) g ∙ f)

  -- A deletion of a connection that is not there, or was deleted before, emits that a connection
  -- was deleted, with an undefined payload.
  pub delete_sync_connection_wf_absent :
      (id : ObjectId) (w : World m)
      → m.find_one (SyncConnections.by_id id no_options) w.db.connections ≡ none
      → delete_sync_connection_wf m id w ≡ (
        ok (record { item = none; is_already_deleted = true }),
        record w { events = connection_deleted none ∷ w.events },
      )
  unfolding delete_sync_connection_wf
  delete_sync_connection_wf_absent id w h =
      bind_ok (delete m id) deleting w w (record { item = none; is_already_deleted = true })
        (delete_absent id w h)
