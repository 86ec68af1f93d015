-- ===== src/Configurator/Lifecycle.antt =====
-- apps/configurator: what a connection's creation returns and emits.
use starion_sync.Base.{
  ℕ, ◌≡◌, refl, ap, sym, subst, ◌∙◌, Bool, true, false, not, Option, none, some, List, [], ◌∷◌, ok,
  bind_ok, pure, when, Action, ◌>>◌, ◌>>=◌, map_each, ok_inj,
}
use starion_sync.Driver.{Driver}
use starion_sync.Entities.{
  SyncConnection, DataSource, ProviderType, google_sheets, microsoft_excel, excel_full, sheets_full,
  excel_cron, sheets_webhook, cron_trigger,
}
use starion_sync.Entities.Names
use starion_sync.Entities.Registry.{
  get_syncflow, get_trigger, get_provider_syncflows, map_get, map_set, registries,
  register_provider, register_definitions,
}
use starion_sync.Repository.{no_options}
use starion_sync.Repository.DataSources
use starion_sync.Repository.SyncConnections
use starion_sync.Repository.SyncConnections.{CreateSyncflowData, CreateSyncConnectionData}
use starion_sync.Repository.SyncConnections.Creation.{AllRegistered, create_lem}
use starion_sync.Events.{connection_created, World, emit_event, on_db}
use starion_sync.Configurator.{Random, CreationResult}
use starion_sync.Configurator.Connections.{
  CreateSyncConnectionDto, build_syncflow_data, build_syncflow, build_trigger_data, create,
  create_new, create_for, create_unless,
}
use starion_sync.Configurator.Workflows.{create_sync_connection_wf}

-- What `buildSyncflowData` makes for a kind of source that has a syncflow.
abbrev pub syncflow_data : Random → Option ℕ → ProviderType → List CreateSyncflowData
unfolding build_trigger_data
syncflow_data r frequency microsoft_excel =
    record {
      name = excel_full;
      trigger_name = excel_cron;
      trigger_config = build_trigger_data r cron_trigger frequency;
    }
    ∷ []
syncflow_data r frequency google_sheets =
    record { name = sheets_full; trigger_name = sheets_webhook; trigger_config = none } ∷ []
syncflow_data r frequency _ = []

abbrev pub has_syncflows : ProviderType → Bool
has_syncflows microsoft_excel = true
has_syncflows google_sheets = true
has_syncflows _ = false

build_syncflow_data_lem :
    {S : Type 0} (r : Random) (frequency : Option ℕ) (p : ProviderType) (s : S)
    → has_syncflows p ≡ true
    → build_syncflow_data r frequency p s ≡ (ok (syncflow_data r frequency p), s)
unfolding build_syncflow_data build_syncflow build_trigger_data syncflow_data map_each get_syncflow
    get_trigger get_provider_syncflows map_get map_set registries register_provider
    register_definitions
build_syncflow_data_lem r frequency microsoft_excel s h = refl
build_syncflow_data_lem r frequency google_sheets s h = refl
build_syncflow_data_lem r frequency Names.air_table s h = cc

syncflow_data-AllRegistered :
    (r : Random) (frequency : Option ℕ) (p : ProviderType)
    → AllRegistered (syncflow_data r frequency p)
unfolding syncflow_data get_syncflow get_trigger map_get map_set registries register_provider
    register_definitions
syncflow_data-AllRegistered r frequency microsoft_excel = ((refl, refl), tt)
syncflow_data-AllRegistered r frequency google_sheets = ((refl, refl), tt)
syncflow_data-AllRegistered r frequency Names.air_table = tt

abbrev request : Random → CreateSyncConnectionDto → DataSource → CreateSyncConnectionData
request r dto d = record {
  source_id = dto.source_id;
  syncflows = syncflow_data r dto.frequency d.provider.type;
}

abbrev newly : SyncConnection → CreationResult SyncConnection
newly c = record { item = c; is_already_created = false }

module _ (m : Driver) where
  -- The work of the workflow, with its result.
  abbrev announce : CreationResult SyncConnection → Action (World m) (CreationResult SyncConnection)
  announce result =
      when (not result.is_already_created) (emit_event (connection_created result.item))
      >> pure result

  create_existing :
      (r : Random) (dto : CreateSyncConnectionDto) (w : World m) (c : SyncConnection)
      → m.find_one (SyncConnections.by_source_id dto.source_id no_options) w.db.connections ≡ some c
      → create m r dto w ≡ (ok (record { item = c; is_already_created = true }), w)
  unfolding create create_unless SyncConnections.get_by_data_source_id
  create_existing r dto w c h = rw h refl

  create_absent :
      (r : Random) (dto : CreateSyncConnectionDto) (w : World m) (d : DataSource)
      → m.find_one (SyncConnections.by_source_id dto.source_id no_options) w.db.connections ≡ none
      → m.find_one (DataSources.by_id dto.source_id no_options) w.db.sources ≡ some d
      → create m r dto w ≡ create_for m r dto d w
  unfolding create create_unless create_new SyncConnections.get_by_data_source_id
      DataSources.get_by_id
  create_absent r dto w d h hd = rw (h, hd) refl

  -- Where the data source has a connection, the workflow returns it as already created, and
  -- neither writes nor emits anything.
  create_sync_connection_wf_existing :
      (r : Random) (dto : CreateSyncConnectionDto) (w : World m) (c : SyncConnection)
      → m.find_one (SyncConnections.by_source_id dto.source_id no_options) w.db.connections ≡ some c
      → create_sync_connection_wf m r dto w
        ≡ (ok (record { item = c; is_already_created = true }), w)
  unfolding create_sync_connection_wf
  create_sync_connection_wf_existing r dto w c h =
      bind_ok (create m r dto) announce w w (record { item = c; is_already_created = true })
        (create_existing r dto w c h)

  create_for_lem :
      (r : Random) (dto : CreateSyncConnectionDto) (w : World m) (d : DataSource)
      (c : SyncConnection)
      → has_syncflows d.provider.type ≡ true
      → (SyncConnections.create m (request r dto d) no_options w.db).0 ≡ ok c
      → create_for m r dto d w ≡ (
        ok (newly c),
        record w { db = (SyncConnections.create m (request r dto d) no_options w.db).1 },
      )
  unfolding create_for
  create_for_lem r dto w d c k e =
      let v = record w { db = (SyncConnections.create m (request r dto d) no_options w.db).1 } in
      bind_ok (build_syncflow_data r dto.frequency d.provider.type)
        (λ xs.
          on_db (
            SyncConnections.create m (record { source_id = dto.source_id; syncflows = xs })
              no_options)
          >>= λ created. pure (newly created))
        w w (syncflow_data r dto.frequency d.provider.type)
        (build_syncflow_data_lem r dto.frequency d.provider.type w k)
      ∙ bind_ok (on_db (SyncConnections.create m (request r dto d) no_options))
          (λ created. pure (newly created)) w v c (ap (λ x. (x, v)) e)

  -- Where the data source exists, has no connection, and is of a kind that has a syncflow, the
  -- workflow creates one and emits that it was created; and a second run of the workflow, such as
  -- a retry, returns the same connection as already created and changes nothing.
  pub create_sync_connection_wf_twice :
      (r : Random) (dto : CreateSyncConnectionDto) (w : World m) (d : DataSource)
      → m.find_one (SyncConnections.by_source_id dto.source_id no_options) w.db.connections ≡ none
      → m.find_one (DataSources.by_id dto.source_id no_options) w.db.sources ≡ some d
      → has_syncflows d.provider.type ≡ true
      → let one = create_sync_connection_wf m r dto w in
        (c : SyncConnection) × (one.0 ≡ ok (record { item = c; is_already_created = false }))
        × (one.1.events ≡ connection_created c ∷ w.events)
        × (create_sync_connection_wf m r dto one.1
            ≡ (ok (record { item = c; is_already_created = true }), one.1))
  unfolding create_sync_connection_wf SyncConnections.get_by_data_source_id
  create_sync_connection_wf_twice r dto w d h hd k =
      let (c, e, found, _, _, _) =
        create_lem m (request r dto d) no_options w.db
          (syncflow_data-AllRegistered r dto.frequency d.provider.type) (ap ok h) in
      let v = record w { db = (SyncConnections.create m (request r dto d) no_options w.db).1 } in
      let one =
        bind_ok (create m r dto) announce w v (newly c)
          (create_absent r dto w d h hd ∙ create_for_lem r dto w d c k e) in
      (
        c,
        ap (λ x. x.0) one,
        ap (λ x. x.1.events) one,
        subst
            (λ (x : World m).
              create_sync_connection_wf m r dto x
              ≡ (ok (record { item = c; is_already_created = true }), x))
            (sym (ap (λ x. x.1) one))
            (create_sync_connection_wf_existing r dto
              (record v { events = connection_created c ∷ w.events }) c (ok_inj found)),
      )
