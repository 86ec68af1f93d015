-- ===== src/Driver/Laws.antt =====
-- What follows from a driver's laws for a query after an update, with the collections shut.
use starion_sync.Base.{
  ℕ, ◌≡◌, refl, Bool, true, false, ◌&&◌, none, some, [], ◌==◌, Action, Outcome, ok, throw, IsUnique,
  is_some,
}
use starion_sync.Base.Lists.{
  first-modify_first, first-modify_first_other, first-modify_first_gone, first_sound, first-append,
  first-append_hit, first-append_miss, first-modify_all-none, select-modify_all_none,
  modify_first-IsUnique, modify_all-IsUnique, append-IsUnique,
}
use starion_sync.Base.Lists.Keys.{
  first-modify_key, first-modify_key_gone, remove_first-append, first-remove_first-none,
  remove_first-IsUnique,
}
use starion_sync.Base.Lists.Marks.{
  is_some-first-modify_first, first-modify_first-none, first-modify_other_key, modify_first_same,
  first-modify_found, first-own_key,
}
use starion_sync.Driver.{Driver}

module _ (m : Driver) {D : Type 0} where
  -- The documents of a collection have keys of their own.
  abbrev pub IsKeyed : (D → ℕ) → m.Coll D → Type 0
  IsKeyed key c = IsUnique key (m.docs c)

  pub find_one_sound : (q : D → Bool) (c : m.Coll D) {d : D} → m.find_one q c ≡ some d → q d ≡ true
  find_one_sound q c h = first_sound q (m.docs c) (rw m.find_one-docs at h)

  pub find_one-update_one :
      (q : D → Bool) (f : D → D) (c : m.Coll D)
      → ((d : D) → q (f d) ≡ q d)
      → m.find_one q (m.update_one q f c)
        ≡ elim (m.find_one q c) [ none ↦ none | some d ↦ some (f d) ]
  find_one-update_one q f c keep =
      simp (m.find_one-docs, m.docs-update_one) (first-modify_first q f (m.docs c) keep)

  pub find_one-update_one_other :
      (p q : D → Bool) (f : D → D) (c : m.Coll D)
      → ((d : D) → q d ≡ true → p d ≡ false)
      → ((d : D) → q d ≡ true → p (f d) ≡ false)
      → m.find_one p (m.update_one q f c) ≡ m.find_one p c
  find_one-update_one_other p q f c before after =
      simp (m.find_one-docs, m.docs-update_one)
        (first-modify_first_other p q f (m.docs c) before after)

  pub find_one-update_one_gone :
      (key : D → ℕ) (k : ℕ) (p q : D → Bool) (f : D → D) (c : m.Coll D)
      → IsKeyed key c
      → ((d : D) → p (f d) ≡ false)
      → ((d : D) → p d ≡ true → q d ≡ true)
      → m.find_one (λ d. (key d == k) && p d) (m.update_one (λ d. (key d == k) && q d) f c) ≡ none
  find_one-update_one_gone key k p q f c u gone hit =
      simp (m.find_one-docs, m.docs-update_one)
        (first-modify_first_gone key k p q f (m.docs c) u gone hit)

  pub find_one-update_many_none :
      (p q : D → Bool) (f : D → D) (c : m.Coll D)
      → ((d : D) → p (f d) ≡ false)
      → ((d : D) → p d ≡ true → q d ≡ true)
      → m.find_one p (m.update_many q f c) ≡ none
  find_one-update_many_none p q f c gone hit =
      simp (m.find_one-docs, m.docs-update_many) (first-modify_all-none p q f (m.docs c) gone hit)

  pub find-update_many_none :
      (p q : D → Bool) (f : D → D) (c : m.Coll D)
      → ((d : D) → p (f d) ≡ false)
      → ((d : D) → p d ≡ true → q d ≡ true)
      → m.find p (m.update_many q f c) ≡ []
  find-update_many_none p q f c gone hit =
      simp (m.find-docs, m.docs-update_many) (select-modify_all_none p q f (m.docs c) gone hit)

  pub find_one-save :
      (q : D → Bool) (d : D) (c : m.Coll D)
      → m.find_one q c ≡ none
      → q d ≡ true
      → m.find_one q (m.save d c) ≡ some d
  find_one-save q d c h e =
      simp (m.find_one-docs, m.docs-save) (first-append q (m.docs c) d (rw m.find_one-docs at h) e)

  pub find_one-save_miss :
      (q : D → Bool) (d : D) (c : m.Coll D)
      → q d ≡ false
      → m.find_one q (m.save d c) ≡ m.find_one q c
  find_one-save_miss q d c e =
      simp (m.find_one-docs, m.docs-save) (first-append_miss q (m.docs c) d e)

  pub find_one-save_hit :
      (q : D → Bool) (d e : D) (c : m.Coll D)
      → m.find_one q c ≡ some e
      → m.find_one q (m.save d c) ≡ some e
  find_one-save_hit q d e c h =
      simp (m.find_one-docs, m.docs-save)
        (first-append_hit q (m.docs c) d e (rw m.find_one-docs at h))

  -- A document rewritten by its key is then found by its key, or not, by what it became.
  pub find_one-update_key :
      (key : D → ℕ) (k : ℕ) (p r : D → Bool) (f : D → D) (c : m.Coll D) (d : D)
      → IsKeyed key c
      → ((e : D) → key (f e) ≡ key e)
      → ((e : D) → p e ≡ true → r (f e) ≡ true)
      → m.find_one (λ e. (key e == k) && p e) c ≡ some d
      → m.find_one (λ e. (key e == k) && r e) (m.update_one (λ e. key e == k) f c) ≡ some (f d)
  find_one-update_key key k p r f c d u keep hit h =
      simp (m.find_one-docs, m.docs-update_one)
        (first-modify_key key k p r f (m.docs c) d u keep hit (rw m.find_one-docs at h))

  pub find_one-update_key_gone :
      (key : D → ℕ) (k : ℕ) (r : D → Bool) (f : D → D) (c : m.Coll D)
      → IsKeyed key c
      → ((e : D) → r (f e) ≡ false)
      → m.find_one (λ e. (key e == k) && r e) (m.update_one (λ e. key e == k) f c) ≡ none
  find_one-update_key_gone key k r f c u gone =
      simp (m.find_one-docs, m.docs-update_one) (first-modify_key_gone key k r f (m.docs c) u gone)

  pub find_one-update_found :
      (id : D → ℕ) (p : D → Bool) (f : D → D) (c : m.Coll D) (t : D)
      → IsKeyed id c
      → ((e : D) → p (f e) ≡ p e)
      → m.find_one p c ≡ some t
      → m.find_one p (m.update_one (λ e. id e == id t) f c) ≡ some (f t)
  find_one-update_found id p f c t u keep h =
      simp (m.find_one-docs, m.docs-update_one)
        (first-modify_found id p f (m.docs c) t u keep (rw m.find_one-docs at h))

  pub find_one-own_key :
      (id : D → ℕ) (p : D → Bool) (c : m.Coll D) (t : D)
      → IsKeyed id c
      → m.find_one p c ≡ some t
      → m.find_one (λ e. id e == id t) c ≡ some t
  find_one-own_key id p c t u h =
      simp m.find_one-docs (first-own_key id p (m.docs c) t u (rw m.find_one-docs at h))

  pub find_one-update_one_same :
      (p q : D → Bool) (f : D → D) (c : m.Coll D)
      → ((d : D) → f d ≡ d)
      → m.find_one p (m.update_one q f c) ≡ m.find_one p c
  find_one-update_one_same p q f c same =
      simp (m.find_one-docs, m.docs-update_one, modify_first_same q f (m.docs c) same) refl

  pub is_some-find_one-update_one :
      (p q : D → Bool) (f : D → D) (c : m.Coll D)
      → ((d : D) → p (f d) ≡ p d)
      → is_some (m.find_one p (m.update_one q f c)) ≡ is_some (m.find_one p c)
  is_some-find_one-update_one p q f c keep =
      simp (m.find_one-docs, m.docs-update_one) (is_some-first-modify_first p q f (m.docs c) keep)

  pub find_one-update_one_none :
      (p q : D → Bool) (f : D → D) (c : m.Coll D)
      → ((d : D) → p (f d) ≡ false)
      → m.find_one p c ≡ none
      → m.find_one p (m.update_one q f c) ≡ none
  find_one-update_one_none p q f c gone h =
      simp (m.find_one-docs, m.docs-update_one)
        (first-modify_first-none p q f (m.docs c) gone (rw m.find_one-docs at h))

  pub find_one-update_other_key :
      (key id : D → ℕ) (k : ℕ) (r : D → Bool) (f : D → D) (c : m.Coll D) (t : D)
      → IsKeyed key c
      → IsKeyed id c
      → ((e : D) → r (f e) ≡ false)
      → m.find_one (λ e. key e == k) c ≡ some t
      → m.find_one (λ e. (key e == k) && r e) (m.update_one (λ e. id e == id t) f c) ≡ none
  find_one-update_other_key key id k r f c t u v gone h =
      simp (m.find_one-docs, m.docs-update_one)
        (first-modify_other_key key id k r f (m.docs c) t u v gone (rw m.find_one-docs at h))

  -- A document that is saved under a new id and deleted by it leaves every query as it was.
  pub find_one-delete_saved :
      (key : D → ℕ) (p : D → Bool) (d : D) (c : m.Coll D)
      → key d ≡ m.new_id key c
      → m.find_one p (m.delete_one (λ e. key e == key d) (m.save d c)) ≡ m.find_one p c
  find_one-delete_saved key p d c e =
      simp
        (
          m.find_one-docs,
          m.docs-delete_one,
          m.docs-save,
          remove_first-append key (m.docs c) d (rw e (m.new_id_fresh key c)),
        )
        refl

  pub find_one-delete_key :
      (key : D → ℕ) (k : ℕ) (c : m.Coll D)
      → IsKeyed key c
      → m.find_one (λ e. key e == k) (m.delete_one (λ e. key e == k) c) ≡ none
  find_one-delete_key key k c u =
      simp (m.find_one-docs, m.docs-delete_one) (first-remove_first-none key k (m.docs c) u)

  pub update_one-IsKeyed :
      (key : D → ℕ) (q : D → Bool) (f : D → D) (c : m.Coll D)
      → ((d : D) → key (f d) ≡ key d)
      → IsKeyed key c
      → IsKeyed key (m.update_one q f c)
  update_one-IsKeyed key q f c keep u =
      rw m.docs-update_one (modify_first-IsUnique key q f (m.docs c) keep u)

  pub update_many-IsKeyed :
      (key : D → ℕ) (q : D → Bool) (f : D → D) (c : m.Coll D)
      → ((d : D) → key (f d) ≡ key d)
      → IsKeyed key c
      → IsKeyed key (m.update_many q f c)
  update_many-IsKeyed key q f c keep u =
      rw m.docs-update_many (modify_all-IsUnique key q f (m.docs c) keep u)

  pub delete_one-IsKeyed :
      (key : D → ℕ) (q : D → Bool) (c : m.Coll D) → IsKeyed key c → IsKeyed key (m.delete_one q c)
  delete_one-IsKeyed key q c u = rw m.docs-delete_one (remove_first-IsUnique key q (m.docs c) u)

  -- A document saved under a new id has it to itself.
  pub save-IsKeyed :
      (key : D → ℕ) (d : D) (c : m.Coll D)
      → key d ≡ m.new_id key c
      → IsKeyed key c
      → IsKeyed key (m.save d c)
  save-IsKeyed key d c e u =
      rw m.docs-save (append-IsUnique key (m.docs c) d (rw e (m.new_id_fresh key c)) u)

module _ (m : Driver) {S A : Type 0} where
  -- `await session.withTransaction(fn)`: all of what `fn` wrote, or nothing.
  pub transaction_lem :
      (f : Action S A) (s : S)
      → m.with_transaction f s ≡ elim (f s).0 [ ok a ↦ (ok a, (f s).1) | throw e ↦ (throw e, s) ]
  transaction_lem f s = by_outcome (f s).0 (f s).1 refl
    where
      by_outcome :
          (r : Outcome A) (t : S)
          → f s ≡ (r, t)
          → m.with_transaction f s ≡ elim r [ ok a ↦ (ok a, t) | throw e ↦ (throw e, s) ]
      by_outcome (ok a) t h = m.transaction_commits f s t a h
      by_outcome (throw e) t h = m.transaction_aborts f s t e h
