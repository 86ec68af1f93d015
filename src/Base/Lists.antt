-- ===== src/Base/Lists.antt =====
-- Sequences of documents, and how queries and updates act on them.
pub mod Keys
pub mod Marks
use Prim.Native.Nat.{ℕ, zero, suc, ◌+◌}
use mathlib.Core.Path.{◌≡◌, refl, ap, sym}
use mathlib.Core.Logic.{◌≢◌, inl, inr}
use mathlib.Core.Bool.{Bool, true, false, not, ◌&&◌, ◌||◌}
use mathlib.Core.Option.{Option, none, some}
use mathlib.Core.List.{List, [], ◌∷◌, ◌++◌, map}
use native.Mathlib.Omega.{arith}
use starion_sync.Base.Tests.{◌==◌, if◌then◌else◌, Bool-cases}

module _ {D : Type 0} where
  -- The first document that a query selects.
  unfoldable pub first : (D → Bool) → List D → Option D
  first q [] = none
  first q (d ∷ ds) = if q d then some d else first q ds

  -- All that it selects, in order.
  unfoldable pub select : (D → Bool) → List D → List D
  select q [] = []
  select q (d ∷ ds) = if q d then d ∷ select q ds else select q ds

  -- The first that it selects, rewritten.
  unfoldable pub modify_first : (D → Bool) → (D → D) → List D → List D
  modify_first q f [] = []
  modify_first q f (d ∷ ds) = if q d then f d ∷ ds else d ∷ modify_first q f ds

  -- All that it selects, rewritten.
  unfoldable pub modify_all : (D → Bool) → (D → D) → List D → List D
  modify_all q f [] = []
  modify_all q f (d ∷ ds) = (if q d then f d else d) ∷ modify_all q f ds

  unfoldable pub remove_first : (D → Bool) → List D → List D
  remove_first q [] = []
  remove_first q (d ∷ ds) = if q d then ds else d ∷ remove_first q ds

  -- No two documents share a key.
  abbrev pub IsUnique : (D → ℕ) → List D → Type 0
  IsUnique key [] = Unit
  IsUnique key (d ∷ ds) = (first (λ e. key e == key d) ds ≡ none) × IsUnique key ds

  -- An update that the query does not see through acts on what the query finds.
  pub first-modify_first :
      (q : D → Bool) (f : D → D) (ds : List D)
      → ((d : D) → q (f d) ≡ q d)
      → first q (modify_first q f ds) ≡ elim (first q ds) [ none ↦ none | some d ↦ some (f d) ]
  unfolding first modify_first
  first-modify_first q f [] keep = refl
  first-modify_first q f (d ∷ ds) keep = ground (arith, keep d, first-modify_first q f ds keep)

  -- A query that an update's targets never meet, before or after, finds what it found.
  pub first-modify_first_other :
      (p q : D → Bool) (f : D → D) (ds : List D)
      → ((d : D) → q d ≡ true → p d ≡ false)
      → ((d : D) → q d ≡ true → p (f d) ≡ false)
      → first p (modify_first q f ds) ≡ first p ds
  unfolding first modify_first
  first-modify_first_other p q f [] before after = refl
  first-modify_first_other p q f (d ∷ ds) before after =
      ground (arith, before d, after d, first-modify_first_other p q f ds before after)

  pub first_sound : (q : D → Bool) (ds : List D) {d : D} → first q ds ≡ some d → q d ≡ true
  unfolding first
  first_sound q [] h = cc
  first_sound q (x ∷ ds) h = elim (Bool-cases (q x)) [
    | inl yes' ↦ ground (arith, yes')
    | inr no' ↦ first_sound q ds (rw no' at h)
  ]

  -- A query over the key and the rest still selects a document whose update keeps the key.
  pub first-modify_all-none :
      (p q : D → Bool) (f : D → D) (ds : List D)
      → ((d : D) → p (f d) ≡ false)
      → ((d : D) → p d ≡ true → q d ≡ true)
      → first p (modify_all q f ds) ≡ none
  unfolding first modify_all
  first-modify_all-none p q f [] gone hit = refl
  first-modify_all-none p q f (d ∷ ds) gone hit =
      ground (arith, gone d, hit d, first-modify_all-none p q f ds gone hit)

  pub select-modify_all_none :
      (p q : D → Bool) (f : D → D) (ds : List D)
      → ((d : D) → p (f d) ≡ false)
      → ((d : D) → p d ≡ true → q d ≡ true)
      → select p (modify_all q f ds) ≡ []
  unfolding select modify_all
  select-modify_all_none p q f [] gone hit = refl
  select-modify_all_none p q f (d ∷ ds) gone hit =
      ground (arith, gone d, hit d, select-modify_all_none p q f ds gone hit)

  pub first-append :
      (q : D → Bool) (xs : List D) (d : D)
      → first q xs ≡ none
      → q d ≡ true
      → first q (xs ++ d ∷ []) ≡ some d
  unfolding first
  first-append q [] d h e = ground arith
  first-append q (x ∷ xs) d h e = ground (arith, first-append q xs d)

  pub first-append_miss :
      (q : D → Bool) (xs : List D) (d : D) → q d ≡ false → first q (xs ++ d ∷ []) ≡ first q xs
  unfolding first
  first-append_miss q [] d e = ground arith
  first-append_miss q (x ∷ xs) d e = ground (arith, first-append_miss q xs d e)

  pub first-append_hit :
      (q : D → Bool) (xs : List D) (d e : D) → first q xs ≡ some e → first q (xs ++ d ∷ []) ≡ some e
  unfolding first
  first-append_hit q [] d e h = cc
  first-append_hit q (x ∷ xs) d e h = ground (arith, first-append_hit q xs d e)

module _ {D : Type 0} (key : D → ℕ) where
  abbrev has_key : ℕ → D → Bool
  has_key k d = key d == k

  first_key-modify_first :
      (k : ℕ) (q : D → Bool) (f : D → D) (ds : List D)
      → ((d : D) → key (f d) ≡ key d)
      → first (has_key k) ds ≡ none
      → first (has_key k) (modify_first q f ds) ≡ none
  unfolding first modify_first
  first_key-modify_first k q f [] keep h = refl
  first_key-modify_first k q f (d ∷ ds) keep h =
      ground (arith, keep d, first_key-modify_first k q f ds keep)

  -- An update that leaves the keys alone keeps them apart.
  pub modify_first-IsUnique :
      (q : D → Bool) (f : D → D) (ds : List D)
      → ((d : D) → key (f d) ≡ key d)
      → IsUnique key ds
      → IsUnique key (modify_first q f ds)
  unfolding modify_first
  modify_first-IsUnique q f [] keep u = tt
  modify_first-IsUnique q f (d ∷ ds) keep (fresh, u) = elim (Bool-cases (q d)) [
    | inl hit ↦ rw (hit, keep d) (fresh, u)
    | inr miss ↦
        rw miss
          (first_key-modify_first (key d) q f ds keep fresh, modify_first-IsUnique q f ds keep u)
  ]

  pub first-none_narrow :
      (k : ℕ) (p : D → Bool) (ds : List D)
      → first (has_key k) ds ≡ none
      → first (λ d. (key d == k) && p d) ds ≡ none
  unfolding first
  first-none_narrow k p [] h = refl
  first-none_narrow k p (d ∷ ds) h = ground (arith, first-none_narrow k p ds)

  -- With keys apart, rewriting the document of a key leaves nothing for a narrower query on it.
  pub first-modify_first_gone :
      (k : ℕ) (p q : D → Bool) (f : D → D) (ds : List D)
      → IsUnique key ds
      → ((d : D) → p (f d) ≡ false)
      → ((d : D) → p d ≡ true → q d ≡ true)
      → first (λ d. (key d == k) && p d) (modify_first (λ d. (key d == k) && q d) f ds) ≡ none
  unfolding first modify_first
  first-modify_first_gone k p q f [] u gone hit = refl
  first-modify_first_gone k p q f (d ∷ ds) (fresh, u) gone hit = ground (
    arith,
    gone d,
    hit d,
    first-none_narrow (key d) p ds fresh,
    first-modify_first_gone k p q f ds u gone hit,
  )

  first_key-modify_all :
      (k : ℕ) (q : D → Bool) (f : D → D) (ds : List D)
      → ((d : D) → key (f d) ≡ key d)
      → first (has_key k) ds ≡ none
      → first (has_key k) (modify_all q f ds) ≡ none
  unfolding first modify_all
  first_key-modify_all k q f [] keep h = refl
  first_key-modify_all k q f (d ∷ ds) keep h =
      ground (arith, keep d, first_key-modify_all k q f ds keep)

  pub modify_all-IsUnique :
      (q : D → Bool) (f : D → D) (ds : List D)
      → ((d : D) → key (f d) ≡ key d)
      → IsUnique key ds
      → IsUnique key (modify_all q f ds)
  unfolding modify_all
  modify_all-IsUnique q f [] keep u = tt
  modify_all-IsUnique q f (d ∷ ds) keep (fresh, u) = elim (Bool-cases (q d)) [
    | inl hit ↦
        rw (hit, keep d)
          (first_key-modify_all (key d) q f ds keep fresh, modify_all-IsUnique q f ds keep u)
    | inr miss ↦
        rw miss (first_key-modify_all (key d) q f ds keep fresh, modify_all-IsUnique q f ds keep u)
  ]

  pub append-IsUnique :
      (ds : List D) (d : D)
      → first (has_key (key d)) ds ≡ none
      → IsUnique key ds
      → IsUnique key (ds ++ d ∷ [])
  unfolding first
  append-IsUnique [] d h u = ground arith
  append-IsUnique (x ∷ ds) d h (fresh, u) =
      ground (arith, first-append_miss (has_key (key x)) ds d, append-IsUnique ds d)
