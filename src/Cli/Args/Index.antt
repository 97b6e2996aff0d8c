-- ===== src/Cli/Args/Index.antt =====
-- `levelIdx` of cmd/bench/commands.go on levels that are all different.
use browser_analysis.Prelude.{
  ℕ, zero, suc, ◌+◌, ◌-◌, ◌≡◌, refl, Bool, true, false, not, ◌&&◌, ◌||◌, List, [], ◌∷◌, ◌++◌,
  length, arith,
}
use browser_analysis.Prelude.Text.{Text, eq_text, eq_text_iff}
use browser_analysis.Cli.Args.{index_from, level_idx}

-- `levels[i:]`.
abbrev pub drop {ℓ} : {A : Type ℓ} → ℕ → List A → List A
drop zero xs = xs
drop (suc i) [] = []
drop (suc i) (x ∷ xs) = drop i xs

abbrev pub is_in : Text → List Text → Bool
is_in s [] = false
is_in s (x ∷ xs) = eq_text x s || is_in s xs

-- No entry stands twice.
abbrev pub all_different : List Text → Bool
all_different [] = true
all_different (x ∷ xs) = not (is_in x xs) && all_different xs

is_in-append : (s : Text) (xs : List Text) (ys : List Text) → is_in s (xs ++ s ∷ ys) ≡ true
is_in-append s [] ys = ground (arith, eq_text_iff s s)
is_in-append s (x ∷ xs) ys = ground (arith, is_in-append s xs ys)

index_found :
    (last i : ℕ) (before : List Text) (s : Text) (ys : List Text)
    → all_different (before ++ s ∷ ys) ≡ true
    → index_from last i (before ++ s ∷ ys) s ≡ i + length before
unfolding index_from
index_found last i [] s ys h = ground (arith, eq_text_iff s s)
index_found last i (x ∷ xs) s ys h =
    ground (arith, index_found last (suc i) xs s ys, is_in-append s xs ys, eq_text_iff x s)

drop-length {ℓ} : {A : Type ℓ} (xs ys : List A) → drop (length xs) (xs ++ ys) ≡ ys
drop-length [] ys = refl
drop-length (x ∷ xs) ys = drop-length xs ys

-- From the index of a level on stand that level and those after it.
pub drop-level_idx :
    (before : List Text) (s : Text) (ys : List Text)
    → all_different (before ++ s ∷ ys) ≡ true
    → drop (level_idx (before ++ s ∷ ys) s) (before ++ s ∷ ys) ≡ s ∷ ys
unfolding level_idx
drop-level_idx before s ys h =
    rw (index_found (length (before ++ s ∷ ys) - 1) 0 before s ys h)
      (rw (zero_add (length before)) (drop-length before (s ∷ ys)))
  where
    zero_add : (n : ℕ) → 0 + n ≡ n
    zero_add n = omega arith
