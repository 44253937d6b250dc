-- ===== src/Prelude/Invariants.antt =====
-- Invariants of actions, by a rule for each way to build one: whatever an action returns or raises,
-- the state that it leaves still has the property.
use mathlib.Core.Bool.{Bool, true, false}
use mathlib.Core.Option.{Option, none, some}
use mathlib.Core.Path.{◌≡◌, refl, sym, ap, subst, ◌∙◌}
use carestechs_agent_orchest.Prelude.Tests.{if◌then◌else◌}
use carestechs_agent_orchest.Prelude.Outcome.{
  Error, Result, ok, err, Exec, pure, gets, or_raise, modify, require, when, if_some, ◌>>=◌, ◌>>◌,
  ok_both, skip_first,
}

pub record Keeps {ℓ} {State Res : Type ℓ} (I : State → Type ℓ) (act : Exec State Res) : Type ℓ where
  pub at : (now : State) → I now → I (act now).1

module _ {ℓ} {State X Y : Type ℓ} {I : State → Type ℓ} where
  -- What follows may use that the first action returned.
  pub Keeps-bind_at :
      (first : Exec State X) (next : X → Exec State Y)
      → Keeps I first
      → ((now : State) (x : X) → I now → (first now).0 ≡ ok x → I (next x (first now).1).1)
      → Keeps I (first >>= next)
  Keeps-bind_at first next kept step = record { at = λ now i. go now i (first now).0 refl }
    where
      go :
          (now : State)
          → I now
          → (r : Result X) → (first now).0 ≡ r
          → I (◌>>=◌ {A = X} {B = Y} (λ (_ : State). (r, (first now).1)) next now).1
      go now i (ok x) e = step now x i e
      go now i (err code) e = kept.at now i

  pub Keeps-bind :
      (first : Exec State X) (next : X → Exec State Y)
      → Keeps I first
      → ((x : X) → Keeps I (next x))
      → Keeps I (first >>= next)
  Keeps-bind first next kept rest =
      Keeps-bind_at first next kept (λ now x i _. (rest x).at (first now).1 (kept.at now i))

module _ {ℓ} {State X : Type ℓ} {I : State → Type ℓ} where
  pub Keeps-or_raise : (o : Option X) (code : Error) → Keeps I (or_raise o code)
  Keeps-or_raise (some x) code = record { at = λ now i. i }
  Keeps-or_raise none code = record { at = λ now i. i }

  pub Keeps-if :
      (b : Bool) (left right : Exec State X)
      → Keeps I left
      → Keeps I right
      → Keeps I (if b then left else right)
  Keeps-if false left right kl kr = kr
  Keeps-if true left right kl kr = kl

  pub Keeps-gets : (read : State → X) → Keeps I (gets read)
  Keeps-gets read = record { at = λ now i. i }

  pub Keeps-pure : (x : X) → Keeps I (pure x)
  Keeps-pure x = record { at = λ now i. i }

module _ {State : Type 0} {I : State → Type 0} where
  pub Keeps-modify :
      (change : State → State) → ((now : State) → I now → I (change now)) → Keeps I (modify change)
  Keeps-modify change holds = record { at = holds }

  pub Keeps-require : (b : Bool) (code : Error) → Keeps I (require b code)
  Keeps-require false code = record { at = λ now i. i }
  Keeps-require true code = record { at = λ now i. i }

  pub Keeps-when : (b : Bool) (act : Exec State Unit) → Keeps I act → Keeps I (when b act)
  Keeps-when false act k = record { at = λ now i. i }
  Keeps-when true act k = k

pub Keeps-if_some :
    {State X : Type 0} {I : State → Type 0} (o : Option X) (act : X → Exec State Unit)
    → ((x : X) → Keeps I (act x))
    → Keeps I (if_some o act)
Keeps-if_some none act kept = record { at = λ now i. i }
Keeps-if_some (some x) act kept = kept x

pub ruleset keeps_rules = (
  Keeps-if_some, Keeps-gets, Keeps-pure, Keeps-or_raise, Keeps-if, Keeps-require, Keeps-when,
  Keeps-bind,
)

-- Once `first` has returned, `again` finds nothing to do.
pub record Again {State : Type 0} (first again : Exec State Unit) : Type 0 where
  pub at : (now : State) → (first now).0 ≡ ok tt → again (first now).1 ≡ (ok tt, (first now).1)

-- A sequence has nothing left to do when its second part has not, and its first part leaves a
-- property that idles its repetition and that the second part keeps.
pub Again-then :
    {State : Type 0} (I : State → Type 0) (m k m' k' : Exec State Unit)
    → ((now : State) → (m now).0 ≡ ok tt → I (m now).1)
    → Keeps I k
    → ((now : State) → I now → m' now ≡ (ok tt, now))
    → Again k k'
    → Again (m >> k) (m' >> k')
Again-then {State} I m k m' k' sets kept idle rest = record {
  at = λ now h. go now (ok_both m k now h) h;
}
  where
    go :
        (now : State)
        → ((m now).0 ≡ ok tt) × ((m >> k) now ≡ k (m now).1)
        → ((m >> k) now).0 ≡ ok tt
        → (m' >> k') ((m >> k) now).1 ≡ (ok tt, ((m >> k) now).1)
    go now (done, e) h =
        subst (λ r. (m' >> k') r.1 ≡ (ok tt, r.1)) (sym e)
          (skip_first m' k' (k (m now).1).1
              (idle (k (m now).1).1 (kept.at (m now).1 (sets now done)))
            ∙ rest.at (m now).1 (ap (λ r. r.0) (sym e) ∙ h))
