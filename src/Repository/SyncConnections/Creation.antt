-- ===== src/Repository/SyncConnections/Creation.antt =====
-- libs/modules/src/repository/mongodb/repositories/syncConnection.repository.ts, `create`.
use starion_sync.Base.{
  ◌≡◌, refl, ap, sym, ◌∙◌, true, false, Option, none, some, List, [], ◌∷◌, map, ok, map_each,
  map_each_ok, ==_refl, ok_inj, bind_ok, is_some, first, Action, ◌>>=◌,
}
use starion_sync.Driver.{Driver}
use starion_sync.Driver.Laws.{find_one-save}
use starion_sync.Entities.{
  excel_full, sheets_full, air_table_initial, air_table_incremental, ObjectId, Syncflow,
  SyncConnection, SyncflowRef, SyncflowName, default_sync_connection_state,
}
use starion_sync.Entities.Registry.{
  SyncflowRegistryRecord, get_syncflow, get_trigger, map_get, map_set, registries,
  register_provider, register_definitions,
}
use starion_sync.Repository.{Db, QueryOptions, no_options}
use starion_sync.Repository.Transactions.{run_process_commits}
use starion_sync.Repository.SyncConnections.{
  CreateSyncflowData, CreateSyncConnectionData, converted, TriggerDocument, trigger_id_of,
  syncflow_ref, zip_data, save_syncflow, save_trigger, save_connection, create_syncflow,
  create_trigger, create_documents, create, get_by_data_source_id, by_source_id,
}

-- Whether the names of an entry and of its trigger are registered.
abbrev pub IsRegistered : CreateSyncflowData → Type 0
IsRegistered c =
    (is_some (get_syncflow c.name) ≡ true) × (is_some (get_trigger c.trigger_name) ≡ true)

abbrev pub AllRegistered : List CreateSyncflowData → Type 0
AllRegistered [] = Unit
AllRegistered (c ∷ cs) = IsRegistered c × AllRegistered cs

-- No entry names its trigger's id.
abbrev pub NoTriggerIds : List SyncflowRef → Type 0
NoTriggerIds [] = Unit
NoTriggerIds (s ∷ ss) = (s.trigger.id ≡ none) × NoTriggerIds ss

-- Every `workflow.id` is an object of its own.
abbrev AllConverted : List TriggerDocument → Type 0
AllConverted [] = Unit
AllConverted (t ∷ ts) = ((k : ObjectId) × (t.0 ≡ converted k)) × AllConverted ts

some_of : {A : Type 0} (o : Option A) → is_some o ≡ true → (a : A) × (o ≡ some a)
some_of none h = cc
some_of (some a) h = (a, refl)

abbrev name_or : SyncflowName → Option SyncflowRegistryRecord → SyncflowName
name_or n none = n
name_or n (some r) = r.name

-- What is registered under a name has that name.
get_syncflow-name : (n : SyncflowName) → name_or n (get_syncflow n) ≡ n
unfolding get_syncflow map_get registries register_provider register_definitions map_set
get_syncflow-name excel_full = refl
get_syncflow-name sheets_full = refl
get_syncflow-name air_table_initial = refl
get_syncflow-name air_table_incremental = refl

registered_name :
    (n : SyncflowName) (r : SyncflowRegistryRecord) → get_syncflow n ≡ some r → r.name ≡ n
registered_name n r h = ap (name_or n) (sym h) ∙ get_syncflow-name n

trigger_id_of-converted :
    (s : Syncflow) (ts : List TriggerDocument) → AllConverted ts → trigger_id_of s ts ≡ none
unfolding first
trigger_id_of-converted s [] h = refl
trigger_id_of-converted s ((o, t) ∷ ts) ((k, e), h) = rw e (trigger_id_of-converted s ts h)

syncflow_ref-NoTriggerIds :
    (ts : List TriggerDocument) (ss : List Syncflow)
    → AllConverted ts
    → NoTriggerIds (map (syncflow_ref ts) ss)
syncflow_ref-NoTriggerIds ts [] h = tt
syncflow_ref-NoTriggerIds ts (s ∷ ss) h =
    (trigger_id_of-converted s ts h, syncflow_ref-NoTriggerIds ts ss h)

map-name :
    (ts : List TriggerDocument) (ss : List Syncflow)
    → map (λ r. r.name) (map (syncflow_ref ts) ss) ≡ map (λ s. s.name) ss
map-name ts [] = refl
map-name ts (s ∷ ss) = ap (λ ns. s.name ∷ ns) (map-name ts ss)

module _ (m : Driver) where
  -- A saved syncflow has the name that was asked for.
  create_syncflow_lem :
      (id : ObjectId) (c : CreateSyncflowData) (db : Db m)
      → IsRegistered c
      → (s : Syncflow) × (after : Db m) × (create_syncflow m id c db ≡ (ok s, after))
        × (s.name ≡ c.name)
        × (after.connections ≡ db.connections)
  unfolding create_syncflow save_syncflow
  create_syncflow_lem id c db (h, g) =
      let (r, e) = some_of (get_syncflow c.name) h in
      let (t, f) = some_of (get_trigger c.trigger_name) g in
      rw (e, f) (_, _, refl, registered_name c.name r e, refl)

  create_syncflows_lem :
      (id : ObjectId) (cs : List CreateSyncflowData) (db : Db m)
      → AllRegistered cs
      → (ss : List Syncflow) × (after : Db m) × (map_each (create_syncflow m id) cs db
          ≡ (ok ss, after))
        × (map (λ s. s.name) ss ≡ map (λ c. c.name) cs)
        × (after.connections ≡ db.connections)
  unfolding map_each
  create_syncflows_lem id [] db h = ([], db, refl, refl, refl)
  create_syncflows_lem id (c ∷ cs) db (h, hs) =
      let (s, db1, e, n, k) = create_syncflow_lem id c db h in
      let (ss, db2, es, ns, ks) = create_syncflows_lem id cs db1 hs in
      (
        s ∷ ss,
        db2,
        map_each_ok (create_syncflow m id) c cs db db1 db2 s ss e es,
        rw (n, ns) refl,
        ks ∙ k,
      )

  create_triggers_lem :
      (id : ObjectId) (cs : List (CreateSyncflowData × Syncflow)) (db : Db m)
      → (ts : List TriggerDocument) × (after : Db m) × (map_each (create_trigger m id) cs db
          ≡ (ok ts, after))
        × AllConverted ts
        × (after.connections ≡ db.connections)
  unfolding map_each create_trigger save_trigger
  create_triggers_lem id [] db = ([], db, refl, tt, refl)
  create_triggers_lem id ((c, s) ∷ cs) db =
      let r = create_trigger m id (c, s) db in
      let (ts, after, e, all, k) = create_triggers_lem id cs r.1 in
      (
        _,
        after,
        map_each_ok (create_trigger m id) (c, s) cs db r.1 after _ ts refl e,
        ((s.id, refl), all),
        k,
      )

  abbrev new_connection :
      CreateSyncConnectionData → List Syncflow → List TriggerDocument → Db m → SyncConnection
  new_connection c ss ts db = record {
    id = m.new_id (λ d. d.id) db.connections;
    state = default_sync_connection_state;
    source_id = c.source_id;
    syncflows = map (syncflow_ref ts) ss;
    is_deleted = false;
  }

  abbrev save_new :
      CreateSyncConnectionData → List Syncflow → List TriggerDocument → Action (Db m) SyncConnection
  save_new c ss ts db = (
    ok (new_connection c ss ts db),
    record db { connections = m.save (new_connection c ss ts db) db.connections },
  )

  create_present :
      (c : CreateSyncConnectionData) (o : QueryOptions) (db db1 db2 : Db m) (ss : List Syncflow)
      (ts : List TriggerDocument)
      → map_each (create_syncflow m c.source_id) c.syncflows db ≡ (ok ss, db1)
      → map_each (create_trigger m c.source_id) (zip_data c.syncflows ss) db1 ≡ (ok ts, db2)
      → create m c o db ≡ save_new c ss ts db2
  unfolding create create_documents save_connection
  create_present c o db db1 db2 ss ts e f = run_process_commits m o (create_documents m c) db _ _ (
      bind_ok (map_each (create_syncflow m c.source_id) c.syncflows)
        (λ xs. map_each (create_trigger m c.source_id) (zip_data c.syncflows xs) >>= save_new c xs)
        db db1 ss e
      ∙ bind_ok (map_each (create_trigger m c.source_id) (zip_data c.syncflows ss)) (save_new c ss)
          db1 db2 ts f)

  -- `create` of syncflows that are registered returns a connection to the data source, active and
  -- healthy, with an entry for each of them in order, and leaves it as the lookup by data source
  -- finds it where that found none before. No entry has the id of its trigger.
  pub create_lem :
      (c : CreateSyncConnectionData) (o : QueryOptions) (db : Db m)
      → AllRegistered c.syncflows
      → (get_by_data_source_id m c.source_id no_options db).0 ≡ ok none
      → (d : SyncConnection) × ((create m c o db).0 ≡ ok d)
        × ((get_by_data_source_id m c.source_id no_options (create m c o db).1).0 ≡ ok (some d))
        × (d.state ≡ default_sync_connection_state)
        × (map (λ s. s.name) d.syncflows ≡ map (λ s. s.name) c.syncflows)
        × NoTriggerIds d.syncflows
  unfolding get_by_data_source_id
  create_lem c o db h fresh =
      let (ss, db1, e, ns, k) = create_syncflows_lem c.source_id c.syncflows db h in
      let (ts, db2, f, all, j) = create_triggers_lem c.source_id (zip_data c.syncflows ss) db1 in
      rw (create_present c o db db1 db2 ss ts e f) (
        new_connection c ss ts db2,
        refl,
        ap ok (
            find_one-save m (by_source_id c.source_id no_options) _ db2.connections
              (rw (j ∙ k) (ok_inj fresh)) (rw (==_refl c.source_id) refl)),
        refl,
        map-name ts ss ∙ ns,
        syncflow_ref-NoTriggerIds ts ss all,
      )
