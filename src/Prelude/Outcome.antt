-- ===== src/Prelude/Outcome.antt =====
-- Fallible actions on a state, as the service functions are: what was written before a raise
-- stays written in the session, so the state comes back beside the error too.
use mathlib.Core.Bool.{Bool, true, false}
use mathlib.Core.Option.{Option, none, some}
use mathlib.Core.Path.{◌≡◌, refl, ap}
use native.Mathlib.Omega.{arith}
use mathlib.Core.Logic.{◌⊎◌, inl, inr}

-- `NotFoundError`, `ConflictError`, `ValidationError`, SQLAlchemy's `IntegrityError`, and
-- `IllegalDispatchTransition` and `EngineError`.
pub data Error : Type 0 where
  not_found conflict validation integrity illegal_transition engine_failure : Error

pub data Result {ℓ} (A : Type ℓ) : Type ℓ where
  ok : A → Result A
  err : Error → Result A

abbrev pub Exec {ℓ} : Type ℓ → Type ℓ → Type ℓ
Exec S A = S → Result A × S

module _ {ℓ} {S A : Type ℓ} where
  abbrev pub pure : A → Exec S A
  pure a s = (ok a, s)

  abbrev pub raise : Error → Exec S A
  raise e s = (err e, s)

  abbrev pub gets : (S → A) → Exec S A
  gets f s = (ok (f s), s)

  abbrev pub or_raise : Option A → Error → Exec S A
  or_raise none e s = (err e, s)
  or_raise (some a) e s = (ok a, s)

infixl 5 ◌>>=◌ ◌>>◌
abbrev pub ◌>>=◌ {ℓ} : {S A B : Type ℓ} → Exec S A → (A → Exec S B) → Exec S B
◌>>=◌ m f s = let (r, s') = m s in elim r [ ok a ↦ f a s' | err e ↦ (err e, s') ]

abbrev pub ◌>>◌ {ℓ} : {S A B : Type ℓ} → Exec S A → Exec S B → Exec S B
m >> k = m >>= λ _. k

module _ {S : Type 0} where
  abbrev pub modify : (S → S) → Exec S Unit
  modify f s = (ok tt, f s)

  -- `if not test: raise e`
  abbrev pub require : Bool → Error → Exec S Unit
  require true e s = (ok tt, s)
  require false e s = (err e, s)

  abbrev pub when : Bool → Exec S Unit → Exec S Unit
  when true m s = m s
  when false m s = (ok tt, s)

-- `if x is not None: act(x)`
abbrev pub if_some : {S A : Type 0} → Option A → (A → Exec S Unit) → Exec S Unit
if_some none act s = (ok tt, s)
if_some (some a) act s = act a s

pub Result-cases {ℓ} :
    {A : Type ℓ} (r : Result A) → ((a : A) × (r ≡ ok a)) ⊎ ((e : Error) × (r ≡ err e))
Result-cases (ok a) = inl (a, refl)
Result-cases (err e) = inr (e, refl)

module _ {S : Type 0} (m k : Exec S Unit) (s : S) where
  -- A sequence that returns has run both of its parts.
  pub ok_both : ((m >> k) s).0 ≡ ok tt → ((m s).0 ≡ ok tt) × ((m >> k) s ≡ k (m s).1)
  ok_both h = go (m s) h
    where
      go :
          (r : Result Unit × S)
          → (◌>>◌ {S = S} (λ (_ : S). r) k s).0 ≡ ok tt
          → (r.0 ≡ ok tt) × (◌>>◌ {S = S} (λ (_ : S). r) k s ≡ k r.1)
      go (ok a, s') h = (refl, refl)
      go (err e, s') h = ground arith

  -- A first part that does nothing can be left out.
  pub skip_first : m s ≡ (ok tt, s) → (m >> k) s ≡ k s
  skip_first h = ap (λ (r : Result Unit × S). ◌>>◌ {S = S} (λ (_ : S). r) k s) h
