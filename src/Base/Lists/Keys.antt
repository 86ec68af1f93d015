-- ===== src/Base/Lists/Keys.antt =====
-- Sequences of documents with keys of their own: an update of the document of a key.
use Prim.Native.Nat.{ℕ}
use mathlib.Core.Path.{◌≡◌, refl}
use mathlib.Core.Bool.{Bool, true, false, ◌&&◌}
use mathlib.Core.Logic.{inl, inr}
use mathlib.Core.Option.{none, some}
use mathlib.Core.List.{List, [], ◌∷◌, ◌++◌}
use native.Mathlib.Omega.{arith}
use starion_sync.Base.Tests.{==_refl, ==→eq, ◌==◌, Bool-cases}
use starion_sync.Base.Lists.{first, modify_first, remove_first, IsUnique, first-none_narrow}

module _ {D : Type 0} (key : D → ℕ) where
  -- The rewritten document is found by its key, if what it became is asked for.
  pub first-modify_key :
      (k : ℕ) (p r : D → Bool) (f : D → D) (ds : List D) (d : D)
      → IsUnique key ds
      → ((e : D) → key (f e) ≡ key e)
      → ((e : D) → p e ≡ true → r (f e) ≡ true)
      → first (λ e. (key e == k) && p e) ds ≡ some d
      → first (λ e. (key e == k) && r e) (modify_first (λ e. key e == k) f ds) ≡ some (f d)
  unfolding first modify_first
  first-modify_key k p r f [] d u keep hit h = cc
  first-modify_key k p r f (x ∷ ds) d (fresh, u) keep hit h = ground (
    arith,
    keep x,
    hit x,
    first-none_narrow key (key x) p ds fresh,
    first-modify_key k p r f ds d u keep hit,
  )

  -- And it is all that is found by its key.
  pub first-modify_key_gone :
      (k : ℕ) (r : D → Bool) (f : D → D) (ds : List D)
      → IsUnique key ds
      → ((e : D) → r (f e) ≡ false)
      → first (λ e. (key e == k) && r e) (modify_first (λ e. key e == k) f ds) ≡ none
  unfolding first modify_first
  first-modify_key_gone k r f [] u gone = refl
  first-modify_key_gone k r f (x ∷ ds) (fresh, u) gone = ground (
    arith,
    gone x,
    first-none_narrow key (key x) r ds fresh,
    first-modify_key_gone k r f ds u gone,
  )

  -- What was added last under a new key is all that a removal by the key takes.
  pub remove_first-append :
      (ds : List D) (d : D)
      → first (λ e. key e == key d) ds ≡ none
      → remove_first (λ e. key e == key d) (ds ++ d ∷ []) ≡ ds
  unfolding first remove_first
  remove_first-append [] d h = ground (arith, ==_refl (key d))
  remove_first-append (x ∷ ds) d h = ground (arith, remove_first-append ds d)

  -- A removal by a key leaves none of that key.
  pub first-remove_first-none :
      (k : ℕ) (ds : List D)
      → IsUnique key ds
      → first (λ e. key e == k) (remove_first (λ e. key e == k) ds) ≡ none
  unfolding first remove_first
  first-remove_first-none k [] u = refl
  first-remove_first-none k (x ∷ ds) (fresh, u) =
      ground (arith, ==→eq (key x) k, fresh, first-remove_first-none k ds u)

  first-remove_first-keeps :
      (p q : D → Bool) (ds : List D) → first p ds ≡ none → first p (remove_first q ds) ≡ none
  unfolding first remove_first
  first-remove_first-keeps p q [] h = refl
  first-remove_first-keeps p q (x ∷ ds) h = ground (arith, h, first-remove_first-keeps p q ds)

  pub remove_first-IsUnique :
      (q : D → Bool) (ds : List D) → IsUnique key ds → IsUnique key (remove_first q ds)
  unfolding remove_first
  remove_first-IsUnique q [] u = tt
  remove_first-IsUnique q (x ∷ ds) (fresh, u) = elim (Bool-cases (q x)) [
    | inl yes' ↦ rw yes' u
    | inr no' ↦
        rw no'
          (first-remove_first-keeps (λ e. key e == key x) q ds fresh, remove_first-IsUnique q ds u)
  ]
