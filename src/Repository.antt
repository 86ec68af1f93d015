-- ===== src/Repository.antt =====
-- libs/modules/src/repository/mongodb: the database, and what the repositories share. A child
-- has the operations of one repository, and its children what they keep and change.
mod Tests
pub mod Transactions
pub mod Keyed
pub mod Reachable
pub mod Syncflows
pub mod Triggers
pub mod SyncConnections
pub mod DataSources
pub mod DataProviders
pub mod Operations
pub mod Webhooks
use starion_sync.Base.{
  ℕ, Bool, true, false, not, ◌&&◌, Option, none, some, Action, Outcome, ◌==◌, if◌then◌else◌,
  overwrite, overwrite_opt, List, [], ◌∷◌, String,
}
use text.Mathlib.Text.{◌==◌ as str_eq}
use starion_sync.Driver.{Driver}
use starion_sync.Entities.{
  ObjectId, Syncflow, Trigger, SyncConnection, DataSource, DataProvider, Operation, Webhook,
  Metadata,
}

-- The collections that the models register.
pub record Db (m : Driver) : Type 0 where
  pub sources : m.Coll DataSource
  pub providers : m.Coll DataProvider
  pub connections : m.Coll SyncConnection
  pub syncflows : m.Coll Syncflow
  pub triggers : m.Coll Trigger
  pub operations : m.Coll Operation
  pub webhooks : m.Coll Webhook

-- `QueryOptions`. `session` says that the caller has a transaction open; `select` narrows the
-- fields of a result and is left out.
pub record QueryOptions : Type 0 where
  pub old : Bool
  pub new : Bool
  pub include_deleted : Bool
  pub session : Bool

abbrev pub no_options : QueryOptions
no_options = record { old = false; new = false; include_deleted = false; session = false }

abbrev pub deleted_too : QueryOptions
deleted_too = record { old = false; new = false; include_deleted = true; session = false }

abbrev pub in_session : QueryOptions
in_session = record { old = false; new = false; include_deleted = false; session = true }

-- The `isDeleted: false` of a query's conditions, which `includeDeleted` takes out.
abbrev pub is_visible : QueryOptions → Bool → Bool
is_visible o deleted = if o.include_deleted then true else not deleted

-- A query's condition on a path that a document may lack.
abbrev pub equals_id : Option ObjectId → ObjectId → Bool
equals_id none id = false
equals_id (some k) id = k == id

-- A condition of `getByConfig`, which a key that is not given leaves out.
abbrev pub equals_key : Option String → Option String → Bool
equals_key none actual = true
equals_key (some k) none = false
equals_key (some k) (some actual) = str_eq k actual

abbrev pub equals_number : Option ℕ → Option ℕ → Bool
equals_number none actual = true
equals_number (some k) none = false
equals_number (some k) (some actual) = k == actual

-- `if (options?.session) await processFunc(); else await session.withTransaction(processFunc);`
abbrev pub run_process :
    (m : Driver) {A : Type 0} → QueryOptions → Action (Db m) A → Action (Db m) A
run_process m o f = if o.session then f else m.with_transaction f

-- `$set` of the keys `metadata.${key}`.
abbrev pub set_key : String → String → Metadata → Metadata
set_key k v [] = (k, v) ∷ []
set_key k v ((j, w) ∷ rest) = if str_eq j k then (k, v) ∷ rest else (j, w) ∷ set_key k v rest

abbrev pub set_keys : Metadata → Metadata → Metadata
set_keys [] old = old
set_keys ((k, v) ∷ rest) old = set_keys rest (set_key k v old)
