-- ===== src/Base/Effects/Keeps.antt =====
-- What an asynchronous method keeps, whether it returns or throws: a rule for each way to build one.
use mathlib.Core.Bool.{Bool, true, false}
use mathlib.Core.Option.{Option, none, some}
use mathlib.Core.List.{List, [], ◌∷◌}
use starion_sync.Base.Tests.{if◌then◌else◌}
use starion_sync.Base.Effects.{
  Action, Outcome, ok, throw, Failure, pure, raise, gets, modify, or_raise, raise_if, catch,
  for_each, map_each, ◌>>=◌, ◌>>◌,
}

pub record Keeps {S A : Type 0} (P : S → Type 0) (f : Action S A) : Type 0 where
  pub at : (s : S) → P s → P (f s).1

module _ {S A : Type 0} {P : S → Type 0} where
  pub Keeps-pure : (a : A) → Keeps P (pure a)
  Keeps-pure a = record { at = λ s h. h }

  pub Keeps-raise : (e : Failure) → Keeps P (raise {A = A} e)
  Keeps-raise e = record { at = λ s h. h }

  pub Keeps-gets : (f : S → A) → Keeps P (gets f)
  Keeps-gets f = record { at = λ s h. h }

  pub Keeps-or_raise : (o : Option A) (e : Failure) → Keeps P (or_raise o e)
  Keeps-or_raise none e = record { at = λ s h. h }
  Keeps-or_raise (some a) e = record { at = λ s h. h }

  pub Keeps-if :
      (b : Bool) (f g : Action S A) → Keeps P f → Keeps P g → Keeps P (if b then f else g)
  Keeps-if true f g kf kg = kf
  Keeps-if false f g kf kg = kg

  -- An action that gives back the state as it was.
  pub Keeps-reads : (f : S → Outcome A) → Keeps P (λ s. (f s, s))
  Keeps-reads f = record { at = λ s h. h }

  pub Keeps-catch :
      (f : Action S A) (h : Failure → Action S A)
      → Keeps P f
      → ((e : Failure) → Keeps P (h e))
      → Keeps P (catch f h)
  Keeps-catch f h kf kh = record { at = λ s p. after (f s).0 (f s).1 (kf.at s p) }
    where
      after :
          (r : Outcome A) (t : S)
          → P t
          → P (elim r as (λ _. Outcome A × S) [ ok a ↦ (ok a, t) | throw e ↦ h e t ]).1
      after (ok a) t p = p
      after (throw e) t p = (kh e).at t p

pub Keeps-modify :
    {S : Type 0} {P : S → Type 0} (f : S → S) → ((s : S) → P s → P (f s)) → Keeps P (modify f)
Keeps-modify f k = record { at = k }

pub Keeps-raise_if :
    {S : Type 0} {P : S → Type 0} (b : Bool) (e : Failure) → Keeps P (raise_if {S = S} b e)
Keeps-raise_if true e = record { at = λ s h. h }
Keeps-raise_if false e = record { at = λ s h. h }

module _ {S A B : Type 0} {P : S → Type 0} where
  pub Keeps-bind :
      (f : Action S A) (k : A → Action S B)
      → Keeps P f
      → ((a : A) → Keeps P (k a))
      → Keeps P (f >>= k)
  Keeps-bind f k kf kk = record { at = λ s p. after (f s).0 (f s).1 (kf.at s p) }
    where
      after :
          (r : Outcome A) (t : S)
          → P t
          → P (elim r as (λ _. Outcome B × S) [ ok a ↦ k a t | throw e ↦ raise e t ]).1
      after (ok a) t p = (kk a).at t p
      after (throw e) t p = p

  -- What is read of the state may be used in the state that it was read of.
  pub Keeps-fresh :
      (f : S → A) (k : A → Action S B) → ((s : S) → P s → P (k (f s) s).1) → Keeps P (gets f >>= k)
  Keeps-fresh f k h = record { at = h }

pub Keeps-then :
    {S A B : Type 0} {P : S → Type 0} (f : Action S A) (k : Action S B)
    → Keeps P f
    → Keeps P k
    → Keeps P (f >> k)
Keeps-then f k kf kk = Keeps-bind f (λ _. k) kf (λ _. kk)

pub Keeps-for_each :
    {S A : Type 0} {P : S → Type 0} (xs : List A) (f : A → Action S (Unit {0}))
    → ((x : A) → Keeps P (f x))
    → Keeps P (for_each xs f)
unfolding for_each
Keeps-for_each [] f k = record { at = λ s h. h }
Keeps-for_each (x ∷ xs) f k = Keeps-then (f x) (for_each xs f) (k x) (Keeps-for_each xs f k)

pub Keeps-map_each :
    {S A B : Type 0} {P : S → Type 0} (f : A → Action S B) (xs : List A)
    → ((x : A) → Keeps P (f x))
    → Keeps P (map_each f xs)
unfolding map_each
Keeps-map_each f [] k = record { at = λ s h. h }
Keeps-map_each f (x ∷ xs) k =
    Keeps-bind (f x) _ (k x)
      (λ y. Keeps-bind (map_each f xs) _ (Keeps-map_each f xs k) (λ ys. Keeps-pure (y ∷ ys)))

pub ruleset keeps_rules = (
  Keeps-pure, Keeps-raise, Keeps-gets, Keeps-or_raise, Keeps-raise_if, Keeps-if, Keeps-reads,
  Keeps-catch, Keeps-bind, Keeps-then,
)
