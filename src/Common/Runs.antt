-- ===== src/Common/Runs.antt =====
-- The events of a run, one after the other: each is handled and keeps an invariant, or is a fault.
use grit.Common.Outcomes.{Fault, Outcome, ◌>>=◌, ok, fault}
use mathlib.Core.Path.{◌≡◌, refl, ap}
use mathlib.Core.List.{List, [], ◌∷◌, ◌++◌}

module _ {ℓ κ} {E : Type ℓ} {S : Type κ} where
  unfoldable pub run_all : (E → S → Outcome S) → List E → S → Outcome S
  run_all step [] s = ok s
  run_all step (e ∷ es) s = step e s >>= run_all step es

  -- One event, and all the events up to the first that is refused. `P` is the invariant and `R e s`
  -- says that the event `e` is refused in the state `s`.
  pub data Stride (step : E → S → Outcome S) (P : S → Type 0) (R : E → S → Type 0) (e : E) (s : S)
      : Type κ where
    carries_on : (s' : S) → step e s ≡ ok s' → P s' → Stride step P R e s
    halts : (f : Fault) → step e s ≡ fault f → R e s → Stride step P R e s

  pub data Trace (step : E → S → Outcome S) (P : S → Type 0) (R : E → S → Type 0) (es : List E)
      (s : S) : Type (ℓ ⊔ κ) where
    all_handled : (s' : S) → run_all step es s ≡ ok s' → P s' → Trace step P R es s
    halted_at :
        (before : List E) (e : E) (after : List E) (s' : S) (f : Fault)
        → es ≡ before ++ e ∷ after
        → run_all step before s ≡ ok s'
        → P s'
        → R e s'
        → run_all step es s ≡ fault f
        → Trace step P R es s

  Trace-later :
      (step : E → S → Outcome S) (P : S → Type 0) (R : E → S → Type 0) (e : E) (es : List E)
      (s s₁ : S)
      → step e s ≡ ok s₁
      → Trace step P R es s₁
      → Trace step P R (e ∷ es) s
  unfolding run_all
  Trace-later step P R e es s s₁ i (all_handled s' run p) = all_handled s' (rw i run) p
  Trace-later step P R e es s s₁ i (halted_at before e' after s' f split run p r halt) =
      halted_at (e ∷ before) e' after s' f (ap (◌∷◌ e) split) (rw i run) p r (rw i halt)

  pub run_all-Trace :
      (step : E → S → Outcome S) (P : S → Type 0) (R : E → S → Type 0)
      → ((e : E) (s : S) → P s → Stride step P R e s)
      → (es : List E) (s : S) → P s
      → Trace step P R es s
  unfolding run_all
  run_all-Trace step P R k [] s p = all_handled s refl p
  run_all-Trace step P R k (e ∷ es) s p = elim (k e s p) [
    | carries_on s₁ i p₁ ↦ Trace-later step P R e es s s₁ i (run_all-Trace step P R k es s₁ p₁)
    | halts f i r ↦ halted_at [] e es s f refl refl p r (rw i refl)
  ]
