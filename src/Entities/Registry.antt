-- ===== src/Entities/Registry.antt =====
-- The registries of libs/core/src/entities/syncflow and trigger: maps that the modules
-- microsoft-excel and google-sheets fill when they are loaded, in that order.
use starion_sync.Base.{ℕ, Option, none, some, List, [], ◌∷◌, map, ◌==◌, if◌then◌else◌}
use starion_sync.Entities.{SyncflowAttributes}
use starion_sync.Entities.Names.{
  ProviderType, google_sheets, microsoft_excel, TriggerName, excel_cron, sheets_webhook,
  TriggerType, cron_trigger, event_webhook, SyncflowName, excel_full, sheets_full,
  syncflow_name_index, trigger_name_index, provider_type_index, forward, refresh, full_method,
  full_target, full_type,
}

-- `Map.get` and `Map.set`.
module _ {K V : Type 0} (index : K → ℕ) where
  unfoldable pub map_get : K → List (K × V) → Option V
  map_get k [] = none
  map_get k ((j, v) ∷ rest) = if index j == index k then some v else map_get k rest

  unfoldable pub map_set : K → V → List (K × V) → List (K × V)
  map_set k v [] = (k, v) ∷ []
  map_set k v ((j, w) ∷ rest) =
      if index j == index k then (k, v) ∷ rest else (j, w) ∷ map_set k v rest

pub record SyncflowRegistryRecord : Type 0 where
  pub name : SyncflowName
  pub attributes : SyncflowAttributes
  pub trigger_name : TriggerName

pub record TriggerRegistryRecord : Type 0 where
  pub name : TriggerName
  pub type : TriggerType

-- An entry of `...SyncflowDefinitions`.
pub record SyncflowDefinition : Type 0 where
  pub name : SyncflowName
  pub attributes : SyncflowAttributes
  pub trigger : TriggerRegistryRecord

abbrev full_sync_attributes : ProviderType → SyncflowAttributes
full_sync_attributes p = record {
  direction = forward;
  sync_mode = refresh;
  provider_type = p;
  sync_method = full_method;
  sync_target = full_target;
  sync_type = full_type;
}

abbrev pub microsoft_excel_definitions : List SyncflowDefinition
microsoft_excel_definitions =
    record {
      name = excel_full;
      attributes = full_sync_attributes microsoft_excel;
      trigger = record { name = excel_cron; type = cron_trigger };
    }
    ∷ []

abbrev pub google_sheets_definitions : List SyncflowDefinition
google_sheets_definitions =
    record {
      name = sheets_full;
      attributes = full_sync_attributes google_sheets;
      trigger = record { name = sheets_webhook; type = event_webhook };
    }
    ∷ []

-- `TRIGGERS`, `SYNCFLOWS` and `PROVIDER_SYNCFLOWS`.
pub record Registries : Type 0 where
  pub triggers : List (TriggerName × TriggerRegistryRecord)
  pub syncflows : List (SyncflowName × SyncflowRegistryRecord)
  pub provider_syncflows : List (ProviderType × List SyncflowName)

-- The `forEach` over the definitions.
unfoldable pub register_definitions : List SyncflowDefinition → Registries → Registries
unfolding map_set
register_definitions [] r = r
register_definitions (d ∷ ds) r = register_definitions ds (record r {
  triggers = map_set trigger_name_index d.trigger.name d.trigger r.triggers;
  syncflows =
      map_set syncflow_name_index d.name
        (record { name = d.name; attributes = d.attributes; trigger_name = d.trigger.name })
        r.syncflows;
})

unfoldable pub register_provider : ProviderType → List SyncflowDefinition → Registries → Registries
unfolding map_set register_definitions
register_provider p ds r =
    let s = register_definitions ds r in
    record s {
      provider_syncflows =
          map_set provider_type_index p (map (λ d. d.name) ds) s.provider_syncflows;
    }

unfoldable pub registries : Registries
unfolding register_provider
registries = register_provider google_sheets google_sheets_definitions (
    register_provider microsoft_excel microsoft_excel_definitions
      (record { triggers = []; syncflows = []; provider_syncflows = [] }))

unfoldable pub get_syncflow : SyncflowName → Option SyncflowRegistryRecord
unfolding map_get registries
get_syncflow name = map_get syncflow_name_index name registries.syncflows

unfoldable pub get_trigger : TriggerName → Option TriggerRegistryRecord
unfolding map_get registries
get_trigger name = map_get trigger_name_index name registries.triggers

unfoldable pub get_provider_syncflows : ProviderType → Option (List SyncflowName)
unfolding map_get registries
get_provider_syncflows p = map_get provider_type_index p registries.provider_syncflows
