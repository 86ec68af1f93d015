-- ===== src/Base/Lists/Marks.antt =====
-- Sequences of documents, and updates that mark a document so that a query misses it.
use Prim.Native.Nat.{ℕ}
use mathlib.Core.Path.{◌≡◌, refl}
use mathlib.Core.Bool.{Bool, false, ◌&&◌}
use mathlib.Core.Option.{none, some}
use mathlib.Core.List.{List, [], ◌∷◌}
use native.Mathlib.Omega.{arith}
use starion_sync.Base.Tests.{◌==◌, is_some, ==_refl}
use starion_sync.Base.Lists.{first, modify_first, IsUnique, first-none_narrow}

module _ {D : Type 0} where
  -- An update that a query does not see through changes nothing about what exists for it.
  pub is_some-first-modify_first :
      (p q : D → Bool) (f : D → D) (ds : List D)
      → ((d : D) → p (f d) ≡ p d)
      → is_some (first p (modify_first q f ds)) ≡ is_some (first p ds)
  unfolding first modify_first
  is_some-first-modify_first p q f [] keep = refl
  is_some-first-modify_first p q f (d ∷ ds) keep =
      ground (arith, keep d, is_some-first-modify_first p q f ds keep)

  pub first-modify_first-none :
      (p q : D → Bool) (f : D → D) (ds : List D)
      → ((d : D) → p (f d) ≡ false)
      → first p ds ≡ none
      → first p (modify_first q f ds) ≡ none
  unfolding first modify_first
  first-modify_first-none p q f [] gone h = refl
  first-modify_first-none p q f (d ∷ ds) gone h =
      ground (arith, gone d, first-modify_first-none p q f ds gone)

  first-none_at :
      (p q : D → Bool) (ds : List D) (t : D) → first p ds ≡ some t → first q ds ≡ none → q t ≡ false
  unfolding first
  first-none_at p q [] t h n = cc
  first-none_at p q (d ∷ ds) t h n = ground (arith, first-none_at p q ds t)

  -- With two keys apart, the document of one key, marked by its other key, leaves nothing.
  pub first-modify_other_key :
      (key id : D → ℕ) (k : ℕ) (r : D → Bool) (f : D → D) (ds : List D) (t : D)
      → IsUnique key ds
      → IsUnique id ds
      → ((e : D) → r (f e) ≡ false)
      → first (λ e. key e == k) ds ≡ some t
      → first (λ e. (key e == k) && r e) (modify_first (λ e. id e == id t) f ds) ≡ none
  unfolding first modify_first
  first-modify_other_key key id k r f [] t u v gone h = refl
  first-modify_other_key key id k r f (d ∷ ds) t (fresh, u) (alone, v) gone h = ground (
    arith,
    gone d,
    ==_refl (id d),
    first-none_narrow key (key d) r ds fresh,
    first-none_at (λ e. key e == k) (λ e. id e == id d) ds t,
    first-modify_other_key key id k r f ds t u v gone,
  )

  -- An update that rewrites nothing leaves the sequence as it is.
  pub modify_first_same :
      (q : D → Bool) (f : D → D) (ds : List D) → ((d : D) → f d ≡ d) → modify_first q f ds ≡ ds
  unfolding modify_first
  modify_first_same q f [] same = refl
  modify_first_same q f (d ∷ ds) same = ground (arith, same d, modify_first_same q f ds same)

  -- What a query finds, rewritten by its key.
  pub first-modify_found :
      (id : D → ℕ) (p : D → Bool) (f : D → D) (ds : List D) (t : D)
      → IsUnique id ds
      → ((e : D) → p (f e) ≡ p e)
      → first p ds ≡ some t
      → first p (modify_first (λ e. id e == id t) f ds) ≡ some (f t)
  unfolding first modify_first
  first-modify_found id p f [] t u keep h = cc
  first-modify_found id p f (d ∷ ds) t (alone, u) keep h = ground (
    arith,
    keep d,
    ==_refl (id d),
    first-none_at p (λ e. id e == id d) ds t,
    first-modify_found id p f ds t u keep,
  )

  -- What a query finds is what its own key finds.
  pub first-own_key :
      (id : D → ℕ) (p : D → Bool) (ds : List D) (t : D)
      → IsUnique id ds
      → first p ds ≡ some t
      → first (λ e. id e == id t) ds ≡ some t
  unfolding first
  first-own_key id p [] t u h = cc
  first-own_key id p (d ∷ ds) t (alone, u) h =
      ground
        (arith, ==_refl (id d), first-none_at p (λ e. id e == id d) ds t, first-own_key id p ds t u)
