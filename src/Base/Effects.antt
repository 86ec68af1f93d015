-- ===== src/Base/Effects.antt =====
-- Asynchronous methods: state, and what `throw` throws. The state comes back after a throw too,
-- since what was written stays written unless a transaction undoes it.
pub mod Keeps
use mathlib.Core.Path.{◌≡◌, refl, ap, ◌∙◌}
use mathlib.Core.Bool.{Bool, true, false}
use mathlib.Core.Logic.{◌⊎◌, inl, inr}
use mathlib.Core.Option.{Option, none, some}
use mathlib.Core.List.{List, [], ◌∷◌}
use Prim.Native.Nat.{ℕ}

-- What an error says, with the texts of the messages left out.
pub data Cause : Type 0 where
  data_source_not_found data_provider_not_found sync_connection_not_found : Cause
  syncflow_not_found workflow_not_found trigger_not_found operation_not_found : Cause
  workflow_already_scheduled syncflow_already_scheduled syncflow_already_started : Cause
  connection_not_active data_source_not_changed unknown_workflow_type : Cause
  unknown_provider_type unsupported_provider_type unsupported_trigger_type : Cause
  no_syncflow_for_provider update_failed property_of_undefined : Cause
  metadata_does_not_exist metadata_does_not_match can_not_be_done : Cause
  invalid_array_length unknown_form_sync_type still_running unknown_webhook : Cause
  unsupported_event processor_failed other_cause : Cause

-- libs/core/src/error/index.ts, `ErrorType`.
pub data ErrorType : Type 0 where
  internal_type external_type : ErrorType

-- The `errorData` of an activity error: type, code and message of a processor's error.
pub record ErrorData : Type 0 where
  pub type : ErrorType
  pub code : ℕ

-- `UnacceptableActivityErrorData`; a key that was not given is `none`.
pub record ErrorDetail : Type 0 where
  pub should_activity_retry : Option Bool
  pub should_workflow_fail : Option Bool
  pub error_data : Option ErrorData

-- The classes of what the code throws.
pub data Failure : Type 0 where
  plain : Cause → Failure
  api : ℕ → Cause → Failure
  acceptable : Cause → Failure
  unacceptable : Cause → ErrorDetail → Failure
  external internal : ℕ → Failure
  application : Bool → ErrorDetail → Failure

pub data Outcome (A : Type 0) : Type 0 where
  ok : A → Outcome A
  throw : Failure → Outcome A

abbrev pub Action : Type 0 → Type 0 → Type 0
Action S A = S → Outcome A × S

module _ {S A : Type 0} where
  abbrev pub pure : A → Action S A
  pure a s = (ok a, s)

  abbrev pub raise : Failure → Action S A
  raise e s = (throw e, s)

  abbrev pub gets : (S → A) → Action S A
  gets f s = (ok (f s), s)

  -- `if (!value) throw ...`.
  abbrev pub or_raise : Option A → Failure → Action S A
  or_raise none e = raise e
  or_raise (some a) e = pure a

abbrev pub modify : {S : Type 0} → (S → S) → Action S (Unit {0})
modify f s = (ok tt, f s)

infixl 5 ◌>>=◌ ◌>>◌
abbrev pub ◌>>=◌ : {S A B : Type 0} → Action S A → (A → Action S B) → Action S B
◌>>=◌ m f s = let (r, t) = m s in elim r [ ok a ↦ f a t | throw e ↦ raise e t ]

abbrev pub ◌>>◌ : {S A B : Type 0} → Action S A → Action S B → Action S B
m >> k = m >>= λ _. k

-- `if (condition) throw ...`.
abbrev pub raise_if : {S : Type 0} → Bool → Failure → Action S (Unit {0})
raise_if true e = raise e
raise_if false e = pure tt

-- `if (condition) await ...`.
abbrev pub when : {S : Type 0} → Bool → Action S (Unit {0}) → Action S (Unit {0})
when true m = m
when false m = pure tt

-- `try { ... } catch (error) { ... }`.
abbrev pub catch : {S A : Type 0} → Action S A → (Failure → Action S A) → Action S A
catch m h s = let (r, t) = m s in elim r [ ok a ↦ (ok a, t) | throw e ↦ h e t ]

-- `for (const x of xs)`, and `Promise.all` with its calls taken in order.
unfoldable pub for_each : {S A : Type 0} → List A → (A → Action S (Unit {0})) → Action S (Unit {0})
for_each [] f = pure tt
for_each (x ∷ xs) f = f x >> for_each xs f

-- `Promise.all(xs.map(f))`, with its calls taken in order.
unfoldable pub map_each : {S A B : Type 0} → (A → Action S B) → List A → Action S (List B)
map_each f [] = pure []
map_each f (x ∷ xs) = do y ← f x; ys ← map_each f xs; pure (y ∷ ys)

-- A sequence whose first part returns, or throws.
module _ {S A B : Type 0} (m : Action S A) (k : A → Action S B) (s t : S) where
  pub bind_ok : (a : A) → m s ≡ (ok a, t) → (m >>= k) s ≡ k a t
  bind_ok a h = ap (λ r. elim (r.0) [ ok b ↦ k b r.1 | throw e ↦ (throw e, r.1) ]) h

  pub bind_throw : (e : Failure) → m s ≡ (throw e, t) → (m >>= k) s ≡ (throw e, t)
  bind_throw e h = ap (λ r. elim (r.0) [ ok b ↦ k b r.1 | throw d ↦ (throw d, r.1) ]) h

module _ {S A : Type 0} (x : A) (xs : List A) (f : A → Action S (Unit {0})) (s t : S) where
  pub for_each_ok : f x s ≡ (ok tt, t) → for_each (x ∷ xs) f s ≡ for_each xs f t
  unfolding for_each
  for_each_ok h = bind_ok (f x) (λ _. for_each xs f) s t tt h

  pub for_each_throw : (e : Failure) → f x s ≡ (throw e, t) → for_each (x ∷ xs) f s ≡ (throw e, t)
  unfolding for_each
  for_each_throw e h = bind_throw (f x) (λ _. for_each xs f) s t e h

module _ {S A B : Type 0} (f : A → Action S B) (x : A) (xs : List A) (s t u : S) (y : B)
    (ys : List B) where
  pub map_each_ok :
      f x s ≡ (ok y, t) → map_each f xs t ≡ (ok ys, u) → map_each f (x ∷ xs) s ≡ (ok (y ∷ ys), u)
  unfolding map_each
  map_each_ok h g =
      bind_ok (f x) (λ z. map_each f xs >>= λ zs. pure (z ∷ zs)) s t y h
      ∙ bind_ok (map_each f xs) (λ zs. pure (y ∷ zs)) t u ys g

pub ok_inj : {A : Type 0} {a b : A} → ok a ≡ ok b → a ≡ b
ok_inj {A} {a} h = ap (λ r. elim r as (λ _. A) [ ok x ↦ x | throw e ↦ a ]) h

-- A `try` whose body returns, or throws.
module _ {S A : Type 0} (m : Action S A) (h : Failure → Action S A) (s t : S) where
  pub catch_ok : (a : A) → m s ≡ (ok a, t) → catch m h s ≡ (ok a, t)
  catch_ok a e = ap (λ r. elim (r.0) [ ok b ↦ (ok b, r.1) | throw d ↦ h d r.1 ]) e

  pub catch_throw : (d : Failure) → m s ≡ (throw d, t) → catch m h s ≡ h d t
  catch_throw d e = ap (λ r. elim (r.0) [ ok b ↦ (ok b, r.1) | throw f ↦ h f r.1 ]) e

pub Outcome-cases :
    {A : Type 0} (r : Outcome A) → ((a : A) × (r ≡ ok a)) ⊎ ((e : Failure) × (r ≡ throw e))
Outcome-cases (ok a) = inl (a, refl)
Outcome-cases (throw e) = inr (e, refl)
