-- ===== src/Repository/Keyed.antt =====
-- libs/modules/src/repository/mongodb: documents of one collection have ids of their own. What the
-- repositories' operations share in keeping that so.
use starion_sync.Base.{◌≡◌, Bool, Action, Outcome, ok, throw, modify, Bool-cases, inl, inr}
use starion_sync.Base.Effects.Keeps.{Keeps}
use starion_sync.Driver.{Driver}
use starion_sync.Driver.Laws.{IsKeyed, transaction_lem, update_one-IsKeyed}
use starion_sync.Entities.{Syncflow, Trigger, SyncConnection, DataSource, DataProvider, Webhook}
use starion_sync.Repository.{Db, QueryOptions, run_process}

module _ (m : Driver) where
  -- Ids are unique in each collection.
  abbrev pub HasIds : Db m → Type 0
  HasIds db =
      IsKeyed m (λ d. d.id) db.sources
      × IsKeyed m (λ d. d.id) db.providers
      × IsKeyed m (λ d. d.id) db.connections
      × IsKeyed m (λ d. d.id) db.syncflows
      × IsKeyed m (λ d. d.id) db.triggers
      × IsKeyed m (λ d. d.id) db.operations
      × IsKeyed m (λ d. d.id) db.webhooks

module _ (m : Driver) {A : Type 0} where
  pub transaction-Keeps :
      {P : Db m → Type 0} (f : Action (Db m) A) → Keeps P f → Keeps P (m.with_transaction f)
  transaction-Keeps {P} f k = record {
    at = λ s p. rw (transaction_lem m f s) (after (f s).0 (f s).1 s p (k.at s p));
  }
    where
      after :
          (r : Outcome A) (t s : Db m)
          → P s
          → P t
          → P (elim r as (λ _. Outcome A × Db m) [ ok a ↦ (ok a, t) | throw e ↦ (throw e, s) ]).1
      after (ok a) t s p q = q
      after (throw e) t s p q = p

  pub run_process-Keeps :
      {P : Db m → Type 0} (o : QueryOptions) (f : Action (Db m) A)
      → Keeps P f
      → Keeps P (run_process m o f)
  run_process-Keeps o f k = elim (Bool-cases (o.session)) [
    | inl yes' ↦ rw yes' k
    | inr no' ↦ rw no' (transaction-Keeps f k)
  ]

module _ (m : Driver) where
  -- An update of a collection's documents that leaves their ids.
  pub sources-Keeps :
      (q : DataSource → Bool) (f : DataSource → DataSource)
      → ((d : DataSource) → (f d).id ≡ d.id)
      → Keeps
          (HasIds m)
          (modify (λ (db : Db m). record db { sources = m.update_one q f db.sources }))
  sources-Keeps q f keep = record {
    at = λ s (h0, h1, h2, h3, h4, h5, h6).
        (update_one-IsKeyed m (λ d. d.id) q f s.sources keep h0, h1, h2, h3, h4, h5, h6);
  }

  pub providers-Keeps :
      (q : DataProvider → Bool) (f : DataProvider → DataProvider)
      → ((d : DataProvider) → (f d).id ≡ d.id)
      → Keeps
          (HasIds m)
          (modify (λ (db : Db m). record db { providers = m.update_one q f db.providers }))
  providers-Keeps q f keep = record {
    at = λ s (h0, h1, h2, h3, h4, h5, h6).
        (h0, update_one-IsKeyed m (λ d. d.id) q f s.providers keep h1, h2, h3, h4, h5, h6);
  }

  pub connections-Keeps :
      (q : SyncConnection → Bool) (f : SyncConnection → SyncConnection)
      → ((d : SyncConnection) → (f d).id ≡ d.id)
      → Keeps
          (HasIds m)
          (modify (λ (db : Db m). record db { connections = m.update_one q f db.connections }))
  connections-Keeps q f keep = record {
    at = λ s (h0, h1, h2, h3, h4, h5, h6).
        (h0, h1, update_one-IsKeyed m (λ d. d.id) q f s.connections keep h2, h3, h4, h5, h6);
  }

  pub syncflows-Keeps :
      (q : Syncflow → Bool) (f : Syncflow → Syncflow)
      → ((d : Syncflow) → (f d).id ≡ d.id)
      → Keeps
          (HasIds m)
          (modify (λ (db : Db m). record db { syncflows = m.update_one q f db.syncflows }))
  syncflows-Keeps q f keep = record {
    at = λ s (h0, h1, h2, h3, h4, h5, h6).
        (h0, h1, h2, update_one-IsKeyed m (λ d. d.id) q f s.syncflows keep h3, h4, h5, h6);
  }

  pub triggers-Keeps :
      (q : Trigger → Bool) (f : Trigger → Trigger)
      → ((d : Trigger) → (f d).id ≡ d.id)
      → Keeps
          (HasIds m)
          (modify (λ (db : Db m). record db { triggers = m.update_one q f db.triggers }))
  triggers-Keeps q f keep = record {
    at = λ s (h0, h1, h2, h3, h4, h5, h6).
        (h0, h1, h2, h3, update_one-IsKeyed m (λ d. d.id) q f s.triggers keep h4, h5, h6);
  }

  pub webhooks-Keeps :
      (q : Webhook → Bool) (f : Webhook → Webhook)
      → ((d : Webhook) → (f d).id ≡ d.id)
      → Keeps
          (HasIds m)
          (modify (λ (db : Db m). record db { webhooks = m.update_one q f db.webhooks }))
  webhooks-Keeps q f keep = record {
    at = λ s (h0, h1, h2, h3, h4, h5, h6).
        (h0, h1, h2, h3, h4, h5, update_one-IsKeyed m (λ d. d.id) q f s.webhooks keep h6);
  }
