-- ===== src/Configurator.antt =====
-- apps/configurator: the services behind the API, and its workflows.
pub mod Connections
pub mod Sources
pub mod Workflows
pub mod Lifecycle
pub mod Removal
mod Tests
use Prim.Native.Nat.{◌/◌}
use starion_sync.Base.{ℕ, ◌*◌, String, Outcome, Action, Option, none, some, Bool, true, false}
use text.Mathlib.Text.{◌==◌ as str_eq}
use starion_sync.Entities.{ProviderType, SourceConfig}

-- `ErrorCode` of common/constants.ts.
abbrev pub invalid_data : ℕ
invalid_data = 0

abbrev pub no_data_exists : ℕ
no_data_exists = 1

-- What `Math.random` and `uuidv4` return: two numbers that are at least 0 and less than 1, each as a
-- numerator over `resolution`, and a new id.
pub record Random : Type 0 where
  pub first_draw : ℕ
  pub second_draw : ℕ
  pub uuid : String

-- 2 ^ 53, the precision of a number.
abbrev pub resolution : ℕ
resolution = 9007199254740992

-- `Math.floor(Math.random() * n)`, of what `Math.random` returned.
unfoldable pub floor_times : ℕ → ℕ → ℕ
floor_times draw n = (draw * n) / resolution

-- The discoverers of apps/configurator/src/modules/discoverer, as far as a service sees them.
pub record Discoverer : Type 0 where
  pub discover_config : ProviderType → SourceConfig → Outcome SourceConfig
  pub check_data_source : ProviderType → SourceConfig → Outcome (Unit {0})

-- `CreationResult` and `DeleteResult`.
pub record CreationResult (A : Type 0) : Type 0 where
  pub item : A
  pub is_already_created : Bool

pub record DeleteResult (A : Type 0) : Type 0 where
  pub item : Option A
  pub is_already_deleted : Bool
