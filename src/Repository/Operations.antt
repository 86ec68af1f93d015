-- ===== src/Repository/Operations.antt =====
-- libs/modules/src/repository/mongodb/repositories/idempotency.repository.ts. The source stores the
-- operations in the collection of the data providers, where here they have one of their own. A
-- provider has no `name`, and an operation neither an `externalId` nor an `isDeleted`, so that the
-- queries by these see no document of the other kind. What is left out is a query of either kind by
-- the id of the other.
pub mod Keyed
use starion_sync.Base.{
  Option, String, Action, plain, operation_not_found, gets, modify, or_raise, ◌>>=◌, ◌==◌,
}
use text.Mathlib.Text.{◌==◌ as str_eq}
use starion_sync.Driver.{Driver}
use starion_sync.Entities.{ObjectId, Operation}
use starion_sync.Repository.{Db, QueryOptions, run_process}

module _ (m : Driver) where
  unfoldable pub get_by_id : ObjectId → Action (Db m) (Option Operation)
  get_by_id id = gets (λ db. m.find_one (λ d. d.id == id) db.operations)

  unfoldable pub get_by_operation_name : String → Action (Db m) (Option Operation)
  get_by_operation_name name = gets (λ db. m.find_one (λ d. str_eq d.name name) db.operations)

  unfoldable pub save_operation : String → Action (Db m) (Unit {0})
  save_operation name = modify λ db. record db {
    operations =
        m.save (record { id = m.new_id (λ d. d.id) db.operations; name = name }) db.operations;
  }

  -- The document that was found is deleted by its id.
  delete_found : String → Action (Db m) (Unit {0})
  delete_found name = do
    found ← gets (λ db. m.find_one (λ d. str_eq d.name name) db.operations)
    operation ← or_raise found (plain operation_not_found)
    modify (λ db. record db { operations = m.delete_one (λ d. d.id == operation.id) db.operations })

  unfoldable pub delete_by_name : String → QueryOptions → Action (Db m) (Unit {0})
  unfolding delete_found
  delete_by_name name o = run_process m o (delete_found name)
