-- ===== src/Results/Columns.antt =====
-- The columns of browser_metrics.csv, by internal/results/results.go.
use browser_analysis.Prelude.{
  ℕ, zero, suc, ◌≤◌, ◌≡◌, refl, ap, ◌∙◌, false, List, [], ◌∷◌, none, map, arith, length, get_elem?,
  if◌then◌else◌,
}
use browser_analysis.Prelude.Text.{Text, is_empty}
use browser_analysis.Metrics.Recorder.{Recorder}
use browser_analysis.Results.{cell, larger, browser_rows_from, browser_rows}

-- A series behind its first `i` entries, and the cells of a column that are not empty.
abbrev pub drop : {A : Type 0} → ℕ → List A → List A
drop i [] = []
drop zero (x ∷ xs) = x ∷ xs
drop (suc i) (x ∷ xs) = drop i xs

abbrev pub filled : List Text → List Text
filled [] = []
filled (t ∷ ts) = let rest = filled ts in if is_empty t then rest else t ∷ rest

drop-none : {A : Type 0} (xs : List A) (i : ℕ) → get_elem? xs i ≡ none → drop i xs ≡ []
drop-none [] i h = refl
drop-none (x ∷ xs) zero h = cc
drop-none (x ∷ xs) (suc i) h = drop-none xs i h

module _ {F : Type 0} (format : F → Text) (shown : (x : F) → is_empty (format x) ≡ false) where
  -- The cells of a column from row `i` on.
  abbrev pub column : List F → ℕ → ℕ → List Text
  column xs zero i = []
  column xs (suc k) i = cell format xs i ∷ column xs k (suc i)

  column_done : (k i : ℕ) → filled (column [] k i) ≡ []
  unfolding cell
  column_done zero i = refl
  column_done (suc k) i = column_done k (suc i)

  column_later : (x : F) (xs : List F) (k i : ℕ) → column (x ∷ xs) k (suc i) ≡ column xs k i
  unfolding cell
  column_later x xs zero i = refl
  column_later x xs (suc k) i = ap (◌∷◌ (cell format xs i)) (column_later x xs k (suc i))

  pub column-filled : (xs : List F) (k : ℕ) → length xs ≤ k → filled (column xs k 0) ≡ map format xs
  unfolding cell
  column-filled [] k h = column_done k 0
  column-filled (x ∷ xs) zero h = absurd (omega arith)
  column-filled (x ∷ xs) (suc k) h = rw (shown x) (
      ap (λ rest. format x ∷ filled rest) (column_later x xs k 0)
      ∙ ap (◌∷◌ (format x)) (column-filled xs k (omega arith)))

  module _ (launches contexts connects : List F) where
    columns :
        (k i : ℕ)
        → let rows = browser_rows_from format launches contexts connects k i in
          (map (λ r. r.0) rows ≡ column launches k i)
          × (map (λ r. r.1) rows ≡ column contexts k i)
          × (map (λ r. r.2) rows ≡ column connects k i)
    unfolding browser_rows_from
    columns zero i = (refl, refl, refl)
    columns (suc k) i =
        let (a, b, c) = columns k (suc i) in
        (
          ap (◌∷◌ (cell format launches i)) a,
          ap (◌∷◌ (cell format contexts i)) b,
          ap (◌∷◌ (cell format connects i)) c,
        )

  pub larger_le : (m n : ℕ) → (m ≤ larger m n) × (n ≤ larger m n)
  larger_le m n = ground arith

  -- With a formatter that never gives an empty text, the cells of each column of browser_metrics.csv
  -- that are not empty are all of the column's series, in order: launches, context creations and CDP
  -- connects, whichever of the three is the longest.
  pub columns_read_back :
      (rec : Recorder F)
      → let rows = browser_rows format rec in
        (filled (map (λ r. r.0) rows) ≡ map format rec.browser_launches)
        × (filled (map (λ r. r.1) rows) ≡ map format rec.context_creations)
        × (filled (map (λ r. r.2) rows) ≡ map format rec.cdp_connects)
  unfolding browser_rows
  columns_read_back rec =
      let m = larger (length rec.browser_launches) (length rec.context_creations) in
      let n = length rec.cdp_connects in
      let (a, b) = larger_le (length rec.browser_launches) (length rec.context_creations) in
      let (u, v) = larger_le m n in
      let (x, y, z) =
        columns rec.browser_launches rec.context_creations rec.cdp_connects (larger m n) 0 in
      (
        ap filled x ∙ column-filled rec.browser_launches (larger m n) (omega (arith, a, u)),
        ap filled y ∙ column-filled rec.context_creations (larger m n) (omega (arith, b, u)),
        ap filled z ∙ column-filled rec.cdp_connects (larger m n) (omega (arith, v)),
      )
