-- ===== src/Repository/SyncConnections/Entries.antt =====
-- libs/modules/src/repository/mongodb/repositories/syncConnection.repository.ts, `delete`: the
-- entries of a connection, each with its syncflow and its trigger, deleted in turn.
use starion_sync.Base.{
  ◌≡◌, refl, subst, sym, ◌∙◌, ◌⊎◌, inl, inr, Bool, true, false, not, ◌&&◌, none, some, List, [],
  ◌∷◌, ok, throw, plain, property_of_undefined, ◌==◌, if◌then◌else◌, for_each, for_each_ok,
  for_each_throw, is_some, Option-cases, arith,
}
use starion_sync.Driver.{Driver}
use starion_sync.Driver.Laws.{
  IsKeyed, find_one-update_key_gone, is_some-find_one-update_one, find_one-update_one_none,
  find_one-update_other_key, update_one-IsKeyed,
}
use starion_sync.Entities.{ObjectId, Trigger, SyncflowRef}
use starion_sync.Repository.{Db}
use starion_sync.Repository.Syncflows
use starion_sync.Repository.Triggers
use starion_sync.Repository.SyncConnections.{delete_syncflow}

-- The trigger of a syncflow that is not deleted.
abbrev pub live_trigger : ObjectId → Trigger → Bool
live_trigger k d = (d.workflow.id == k) && not d.is_deleted

module _ (m : Driver) where
  -- Whether the documents that an entry of a connection names exist, deleted or not.
  abbrev pub has_documents : Db m → SyncflowRef → Bool
  has_documents db s =
      is_some (m.find_one (λ d. d.id == s.id) db.syncflows)
      && is_some (m.find_one (λ d. d.workflow.id == s.id) db.triggers)

  abbrev pub all_have_documents : Db m → List SyncflowRef → Bool
  all_have_documents db [] = true
  all_have_documents db (s ∷ ss) = has_documents db s && all_have_documents db ss

  -- Neither the syncflow of an entry nor a trigger of it is left undeleted.
  abbrev pub IsGone : Db m → SyncflowRef → Type 0
  IsGone db s =
      (m.find_one (Syncflows.live s.id) db.syncflows ≡ none)
      × (m.find_one (live_trigger s.id) db.triggers ≡ none)

  abbrev pub AllGone : Db m → List SyncflowRef → Type 0
  AllGone db [] = Unit
  AllGone db (s ∷ ss) = IsGone db s × AllGone db ss

  -- Ids are unique, and a workflow has one trigger.
  abbrev pub HasKeys : Db m → Type 0
  HasKeys db =
      IsKeyed m (λ d. d.id) db.syncflows
      × IsKeyed m (λ d. d.id) db.triggers
      × IsKeyed m (λ d. d.workflow.id) db.triggers

  -- The database after an entry's documents are marked.
  abbrev pub marked : SyncflowRef → Trigger → Db m → Db m
  marked s t db = record db {
    syncflows = m.update_one (λ d. d.id == s.id) Syncflows.mark_deleted db.syncflows;
    triggers = m.update_one (λ d. d.id == t.id) Triggers.mark_deleted db.triggers;
  }

  pub delete_syncflow_lem :
      (s : SyncflowRef) (db : Db m)
      → ((has_documents db s ≡ false)
          × ((after : Db m) × (delete_syncflow m s db
                ≡ (throw (plain property_of_undefined), after))))
        ⊎ ((has_documents db s ≡ true)
            × ((t : Trigger) × (m.find_one (λ d. d.workflow.id == s.id) db.triggers ≡ some t)
                × (delete_syncflow m s db ≡ (ok tt, marked s t db))))
  unfolding delete_syncflow
  delete_syncflow_lem s db = elim (Option-cases (m.find_one (λ d. d.id == s.id) db.syncflows)) [
    | inl h ↦ inl (rw h (refl, (_, refl)))
    | inr (d, h) ↦ elim (Option-cases (m.find_one (λ d. d.workflow.id == s.id) db.triggers)) [
      | inl g ↦ inl (rw (h, g) (refl, (_, refl)))
      | inr (t, g) ↦ inr (rw (h, g) (refl, (t, refl, refl)))
    ]
  ]

  pub all_have_documents-marked :
      (ss : List SyncflowRef) (s : SyncflowRef) (t : Trigger) (db : Db m)
      → all_have_documents (marked s t db) ss ≡ all_have_documents db ss
  all_have_documents-marked [] s t db = refl
  all_have_documents-marked (x ∷ ss) s t db =
      simp
        (
          is_some-find_one-update_one m (λ d. d.id == x.id) (λ d. d.id == s.id)
              Syncflows.mark_deleted db.syncflows (λ d. refl),
          is_some-find_one-update_one m (λ d. d.workflow.id == x.id) (λ d. d.id == t.id)
              Triggers.mark_deleted db.triggers (λ d. refl),
          all_have_documents-marked ss s t db,
        )
        refl

  HasKeys-marked :
      (s : SyncflowRef) (t : Trigger) (db : Db m) → HasKeys db → HasKeys (marked s t db)
  HasKeys-marked s t db (u, v, w) = (
    update_one-IsKeyed m (λ d. d.id) _ Syncflows.mark_deleted db.syncflows (λ d. refl) u,
    update_one-IsKeyed m (λ d. d.id) _ Triggers.mark_deleted db.triggers (λ d. refl) v,
    update_one-IsKeyed m (λ d. d.workflow.id) _ Triggers.mark_deleted db.triggers (λ d. refl) w,
  )

  IsGone-marked :
      (x s : SyncflowRef) (t : Trigger) (db : Db m) → IsGone db x → IsGone (marked s t db) x
  IsGone-marked x s t db (g, h) = (
    find_one-update_one_none m (Syncflows.live x.id) _ Syncflows.mark_deleted db.syncflows
        (λ d. ground arith) g,
    find_one-update_one_none m (live_trigger x.id) _ Triggers.mark_deleted db.triggers
        (λ d. ground arith) h,
  )

  marked-IsGone :
      (s : SyncflowRef) (t : Trigger) (db : Db m)
      → HasKeys db
      → m.find_one (λ d. d.workflow.id == s.id) db.triggers ≡ some t
      → IsGone (marked s t db) s
  marked-IsGone s t db (u, v, w) h = (
    find_one-update_key_gone m (λ d. d.id) s.id (λ d. not d.is_deleted) Syncflows.mark_deleted
        db.syncflows u (λ d. refl),
    find_one-update_other_key m (λ d. d.workflow.id) (λ d. d.id) s.id (λ d. not d.is_deleted)
        Triggers.mark_deleted db.triggers t w v (λ d. refl) h,
  )

  pub and-left : (a b : Bool) → (a && b) ≡ true → a ≡ true
  and-left a b h = ground arith

  pub and-right : (a b : Bool) → (a && b) ≡ true → b ≡ true
  and-right a b h = ground arith

  pub for_each-delete_syncflow :
      (ss : List SyncflowRef) (db : Db m)
      → (for_each ss (delete_syncflow m) db).0
        ≡ (if all_have_documents db ss then ok tt else throw (plain property_of_undefined))
  unfolding for_each
  for_each-delete_syncflow [] db = refl
  for_each-delete_syncflow (s ∷ ss) db = elim (delete_syncflow_lem s db) [
    | inl (no', (t, h)) ↦ rw (no', for_each_throw s ss (delete_syncflow m) db t _ h) refl
    | inr (yes', (t, g, h)) ↦
        rw
          (
            yes',
            for_each_ok s ss (delete_syncflow m) db _ h,
            sym (all_have_documents-marked ss s t db),
          )
          (for_each-delete_syncflow ss (marked s t db))
  ]

  -- The entries of a list, deleted in turn: the connections stay as they are.
  pub connections-delete_syncflow :
      (ss : List SyncflowRef) (db : Db m)
      → all_have_documents db ss ≡ true
      → (for_each ss (delete_syncflow m) db).1.connections ≡ db.connections
  unfolding for_each
  connections-delete_syncflow [] db all = refl
  connections-delete_syncflow (s ∷ ss) db all = elim (delete_syncflow_lem s db) [
    | inl (no', (t, h)) ↦ ground (arith, no', all)
    | inr (yes', (t, g, h)) ↦ rw (for_each_ok s ss (delete_syncflow m) db _ h) (
        connections-delete_syncflow ss (marked s t db)
          (all_have_documents-marked ss s t db ∙ and-right _ _ all))
  ]

  -- And so do the data sources.
  pub sources-delete_syncflow :
      (ss : List SyncflowRef) (db : Db m)
      → all_have_documents db ss ≡ true
      → (for_each ss (delete_syncflow m) db).1.sources ≡ db.sources
  unfolding for_each
  sources-delete_syncflow [] db all = refl
  sources-delete_syncflow (s ∷ ss) db all = elim (delete_syncflow_lem s db) [
    | inl (no', (t, h)) ↦ ground (arith, no', all)
    | inr (yes', (t, g, h)) ↦ rw (for_each_ok s ss (delete_syncflow m) db _ h) (
        sources-delete_syncflow ss (marked s t db)
          (all_have_documents-marked ss s t db ∙ and-right _ _ all))
  ]

  IsGone-delete_syncflow :
      (x : SyncflowRef) (ss : List SyncflowRef) (db : Db m)
      → all_have_documents db ss ≡ true
      → IsGone db x
      → IsGone (for_each ss (delete_syncflow m) db).1 x
  unfolding for_each
  IsGone-delete_syncflow x [] db all gone = gone
  IsGone-delete_syncflow x (s ∷ ss) db all gone = elim (delete_syncflow_lem s db) [
    | inl (no', (t, h)) ↦ ground (arith, no', all)
    | inr (yes', (t, g, h)) ↦ rw (for_each_ok s ss (delete_syncflow m) db _ h) (
        IsGone-delete_syncflow x ss (marked s t db)
          (all_have_documents-marked ss s t db ∙ and-right _ _ all) (IsGone-marked x s t db gone))
  ]

  pub delete_syncflow-AllGone :
      (ss : List SyncflowRef) (db : Db m)
      → HasKeys db
      → all_have_documents db ss ≡ true
      → AllGone (for_each ss (delete_syncflow m) db).1 ss
  unfolding for_each
  delete_syncflow-AllGone [] db keys all = tt
  delete_syncflow-AllGone (s ∷ ss) db keys all = elim (delete_syncflow_lem s db) [
    | inl (no', (t, h)) ↦ ground (arith, no', all)
    | inr (yes', (t, g, h)) ↦
        let rest = all_have_documents-marked ss s t db ∙ and-right _ _ all in
        (
          rw (for_each_ok s ss (delete_syncflow m) db _ h)
              (IsGone-delete_syncflow s ss (marked s t db) rest (marked-IsGone s t db keys g)),
          subst (λ r. AllGone r.1 ss) (sym (for_each_ok s ss (delete_syncflow m) db _ h))
              (delete_syncflow-AllGone ss (marked s t db) (HasKeys-marked s t db keys) rest),
        )
  ]
