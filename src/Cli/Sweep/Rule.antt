-- ===== src/Cli/Sweep/Rule.antt =====
-- What holds after a part of a sweep of cmd/bench/commands.go that may end with an error.
use mathlib.Core.Sum.{inr-injective}
use browser_analysis.Prelude.{◌≡◌, ap, subst, ◌⊎◌, inl, inr}
use browser_analysis.Cli.Sweep.{SweepError, Sweeping, ◌>>=◌}

-- What holds of a result and the world after it, if there is no error.
pub data Holds {E W A : Type 0} (P : A → W → Type 0) : (SweepError E ⊎ A) × W → Type 0 where
  stopped : {e : SweepError E} {w : W} → Holds P (inl e, w)
  gave : {a : A} {w : W} → P a w → Holds P (inr a, w)

pub bind_rule :
    {E W A B : Type 0} (P : A → W → Type 0) (Q : B → W → Type 0) (m : Sweeping E W A)
    (f : A → Sweeping E W B) (w : W)
    → Holds P (m w)
    → ((a : A) (w' : W) → P a w' → Holds Q (f a w'))
    → Holds Q ((m >>= f) w)
bind_rule {E} {W} {A} P Q m f w h next = go (m w) h
  where
    go :
        (r : (SweepError E ⊎ A) × W)
        → Holds P r
        → Holds {E = E} Q (elim r.0 [ inl e ↦ (inl e, r.1) | inr a ↦ f a r.1 ])
    go (inl e, w') h' = stopped
    go (inr a, w') (gave p) = next a w' p

pub holds_ok :
    {E W A : Type 0} (P : A → W → Type 0) (r : (SweepError E ⊎ A) × W) (a : A) (w : W)
    → r ≡ (inr a, w)
    → Holds P r
    → P a w
holds_ok P (inl x, v) a w e h = absurd (cc)
holds_ok {E} P (inr b, v) a w e (gave p) =
    subst (P a) (ap (λ y. y.1) e)
      (subst (λ x. P x v) (inr-injective {A = SweepError E} b a (ap (λ y. y.0) e)) p)

pub weaken :
    {E W A : Type 0} (P Q : A → W → Type 0) (r : (SweepError E ⊎ A) × W)
    → ((a : A) (w : W) → P a w → Q a w)
    → Holds P r
    → Holds Q r
weaken P Q (inl e, w) k h = stopped
weaken P Q (inr a, w) k (gave p) = gave (k a w p)
