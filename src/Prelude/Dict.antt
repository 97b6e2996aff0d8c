-- ===== src/Prelude/Dict.antt =====
-- Go's maps as association lists, and the loops that fill one from a list.
use Prim.Native.Nat.{ℕ}
use mathlib.Core.Path.{◌≡◌, refl, ap, ◌∙◌}
use mathlib.Core.Logic.{◌↔◌, inl, inr}
use mathlib.Core.Bool.{Bool, true}
use mathlib.Core.Option.{Option, none, some}
use mathlib.Core.List.{List, [], ◌∷◌}
use native.Mathlib.Omega.{arith}
use browser_analysis.Prelude.Int.{ℤ, eq_ℤ, eq_ℤ_iff}
use browser_analysis.Prelude.Text.{Text, eq_text, eq_text_iff}
use browser_analysis.Prelude.Tests.{◌==◌, ==_iff, if◌then◌else◌, Bool-cases}

pub record Eq (K : Type 0) : Type 0 where
  pub beq : K → K → Bool
  pub beq_iff : (a b : K) → (beq a b ≡ true) ↔ (a ≡ b)

instance abbrev pub text_eq : Eq Text
text_eq = record { beq = eq_text; beq_iff = eq_text_iff }

instance abbrev pub int_eq : Eq ℤ
int_eq = record { beq = eq_ℤ; beq_iff = eq_ℤ_iff }

instance abbrev pub nat_eq : Eq ℕ
nat_eq = record { beq = ◌==◌; beq_iff = ==_iff }

abbrev pub Dict : Type 0 → Type 0 → Type 0
Dict K V = List (K × V)

module _ {K V : Type 0} ⦃e : Eq K⦄ where
  unfoldable pub look_up : K → Dict K V → Option V
  look_up k [] = none
  look_up k ((j, v) ∷ m) = if e.beq j k then some v else look_up k m

  unfoldable pub put : K → V → Dict K V → Dict K V
  put k v [] = (k, v) ∷ []
  put k v ((j, w) ∷ m) = if e.beq j k then (k, v) ∷ m else (j, w) ∷ put k v m

  pub look_up-put :
      (k j : K) (v : V) (m : Dict K V)
      → look_up j (put k v m) ≡ (if e.beq k j then some v else look_up j m)
  unfolding look_up put
  look_up-put k j v [] = refl
  look_up-put k j v ((i, w) ∷ m) =
      ground (arith, e.beq_iff k j, e.beq_iff i k, e.beq_iff i j, look_up-put k j v m)

  -- `m[j] = step(m[j])`, seen at any key.
  pub look_up-put_step :
      (step : Option V → V) (k j : K) (m : Dict K V)
      → look_up k (put j (step (look_up j m)) m)
        ≡ (if e.beq j k then some (step (look_up k m)) else look_up k m)
  look_up-put_step step k j m =
      look_up-put j k (step (look_up j m)) m ∙ elim (Bool-cases (e.beq j k)) [
        | inl hit ↦ rw hit (ap (λ i. some (step (look_up i m))) ((e.beq_iff j k).0 hit))
        | inr miss ↦ rw miss refl
      ]

  module _ {A : Type 0} (key : A → K) (step : Option V → A → V) where
    -- `for _, x := range xs { m[key(x)] = step(m[key(x)], x) }`.
    unfoldable pub tally : List A → Dict K V → Dict K V
    unfolding look_up put
    tally [] m = m
    tally (x ∷ xs) m = tally xs (put (key x) (step (look_up (key x) m) x) m)

    -- What such a loop leaves at one key: the entries of that key, in their order.
    unfoldable pub fold_key : K → Option V → List A → Option V
    fold_key k o [] = o
    fold_key k o (x ∷ xs) = fold_key k (if e.beq (key x) k then some (step o x) else o) xs

    pub look_up-tally :
        (k : K) (xs : List A) (m : Dict K V) → look_up k (tally xs m) ≡ fold_key k (look_up k m) xs
    unfolding tally fold_key
    look_up-tally k [] m = refl
    look_up-tally k (x ∷ xs) m =
        look_up-tally k xs (put (key x) (step (look_up (key x) m) x) m)
        ∙ ap (λ o. fold_key k o xs) (look_up-put_step (λ o. step o x) k (key x) m)
