-- ===== src/Results/Tests.antt =====
-- The rows of a run of internal/results with two launches and one context.
use browser_analysis.Prelude.{ℕ, ◌+◌, ◌≡◌, refl, false, [], ◌∷◌, map}
use browser_analysis.Prelude.Text.{Text, codes, is_empty}
use browser_analysis.Prelude.Double.{nat_double}
use browser_analysis.Metrics.Recorder.{Recorder, new_recorder}
use browser_analysis.Results.{browser_rows}
use browser_analysis.Results.Columns.{filled, columns_read_back}

abbrev format : ℕ → Text
format n = (48 + n) ∷ []

shown : (n : ℕ) → is_empty (format n) ≡ false
shown n = refl

abbrev recorder : Recorder ℕ
recorder = record new_recorder { browser_launches = 3 ∷ 4 ∷ []; context_creations = 1 ∷ [] }

rows_test : browser_rows format recorder ≡ (codes "3", codes "1", []) ∷ (codes "4", [], []) ∷ []
unfolding browser_rows new_recorder
rows_test = refl

columns_read_back_example :
    let rows = browser_rows format recorder in
    (filled (map (λ r. r.0) rows) ≡ map format recorder.browser_launches)
    × (filled (map (λ r. r.1) rows) ≡ map format recorder.context_creations)
    × (filled (map (λ r. r.2) rows) ≡ map format recorder.cdp_connects)
columns_read_back_example = columns_read_back format shown recorder
