-- ===== src/Repository/Operations/Keyed.antt =====
-- libs/modules/src/repository/mongodb/repositories/idempotency.repository.ts: every operation
-- leaves the ids of the documents unique.
use starion_sync.Base.{refl, Bool, String, modify}
use starion_sync.Base.Effects.Keeps.{Keeps, keeps_rules}
use starion_sync.Driver.{Driver}
use starion_sync.Driver.Laws.{save-IsKeyed, delete_one-IsKeyed}
use starion_sync.Repository.{QueryOptions}
use starion_sync.Repository.Keyed.{HasIds, run_process-Keeps}
use starion_sync.Entities.{Operation}
use starion_sync.Repository.Operations.{save_operation, delete_by_name, delete_found}

module _ (m : Driver) where
  pub save_operation-HasIds : (name : String) → Keeps (HasIds m) (save_operation m name)
  unfolding save_operation
  save_operation-HasIds name = record {
    at = λ s (a, b, c, d, e, f, g).
        (a, b, c, d, e, save-IsKeyed m (λ d. d.id) _ s.operations refl f, g);
  }

  removes-Keeps :
      (q : Operation → Bool)
      → Keeps (HasIds m) (modify (λ db. record db { operations = m.delete_one q db.operations }))
  removes-Keeps q = record {
    at = λ s (a, b, c, d, e, f, g).
        (a, b, c, d, e, delete_one-IsKeyed m (λ d. d.id) q s.operations f, g);
  }

  pub delete_by_name-HasIds :
      (name : String) (o : QueryOptions) → Keeps (HasIds m) (delete_by_name m name o)
  unfolding delete_by_name delete_found
  delete_by_name-HasIds name o = search (keeps_rules, run_process-Keeps, removes-Keeps)
