-- ===== src/Cli/Quick/Cells.antt =====
-- The runs that `cmdQuick` of cmd/bench/commands.go makes.
use browser_analysis.Prelude.{
  ◌≢◌, ◌≡◌, refl, ap, ◌∙◌, ◌≤◌, List, [], ◌∷◌, ◌++◌, Option, none, some, ◌⊎◌, inl, inr, arith, All,
  All-append, map,
}
use browser_analysis.Prelude.Int.{ℤ, pos_part}
use browser_analysis.Prelude.Text.{Text, codes}
use browser_analysis.Config.{Config}
use browser_analysis.Config.Valid.{IsValid}
use browser_analysis.Cli.Flags.{RunOptions}
use browser_analysis.Cli.Quick.{
  Cell, quick_levels, quick_scenarios, quick_config, cell_config, run_levels, run_scenarios,
  cmd_quick,
}

abbrev cell_on : RunOptions → Config → Cell
cell_on o c = record {
  config = c;
  workflow = o.workflow;
  mode = codes "fixed";
  repetition = o.repetition;
}

abbrev quick_cell : RunOptions → Config → Text → ℤ → Cell
quick_cell o c scenario lvl = cell_on o (cell_config c scenario lvl)

-- The matrix, scenario by scenario, each cell on the configuration of the quick benchmark.
abbrev pub cells_of : RunOptions → Config → List Text → List ℤ → List Cell
cells_of o c [] lvls = []
cells_of o c (s ∷ ss) lvls = map (quick_cell o c s) lvls ++ cells_of o c ss lvls

abbrev pub quick_cells : RunOptions → List Cell
quick_cells o = cells_of o (quick_config o.config) quick_scenarios quick_levels

-- Two configurations that differ at most in what every cell sets.
abbrev Alike : Config → Config → Type 0
Alike c b = (s : Text) (l : ℤ) → cell_config c s l ≡ cell_config b s l

module _ {E S W : Type 0} (run : Cell → W → (E ⊎ S) × W) where
  -- Run after run, up to the first error.
  abbrev pub until_error : List Cell → W → Option E × W
  until_error [] w = (none, w)
  until_error (k ∷ ks) w =
      let (got, w') = run k w in elim got [ inl e ↦ (some e, w') | inr s ↦ until_error ks w' ]

  -- What follows the inner loop.
  abbrev and_then : (E ⊎ Config) × W → (Config → W → Option E × W) → Option E × W
  and_then (inl e, w) k = (some e, w)
  and_then (inr c, w) k = k c w

  step_lem :
      (r : (E ⊎ S) × W) (f : W → (E ⊎ Config) × W) (k : Config → W → Option E × W)
      (g : W → Option E × W)
      → ((w : W) → and_then (f w) k ≡ g w)
      → and_then (elim r.0 [ inl e ↦ (inl e, r.1) | inr x ↦ f r.1 ]) k
        ≡ elim r.0 [ inl e ↦ (some e, r.1) | inr x ↦ g r.1 ]
  step_lem (inl e, w) f k g h = refl
  step_lem (inr x, w) f k g h = h w

  levels_lem :
      (o : RunOptions) (s : Text) (lvls : List ℤ) (c b : Config) (w : W)
      (k : Config → W → Option E × W) (rest : List Cell)
      → Alike c b
      → ((c' : Config) (w' : W) → Alike c' b → k c' w' ≡ until_error rest w')
      → and_then (run_levels run o s lvls c w) k
        ≡ until_error (map (quick_cell o b s) lvls ++ rest) w
  unfolding run_levels
  levels_lem o s [] c b w k rest like later = later c w like
  levels_lem o s (l ∷ ls) c b w k rest like later =
      let same : quick_cell o c s l ≡ quick_cell o b s l = ap (cell_on o) (like s l) in
      step_lem (run (quick_cell o c s l) w) (run_levels run o s ls (cell_config c s l)) k
        (until_error (map (quick_cell o b s) ls ++ rest))
        (λ w'. levels_lem o s ls (cell_config c s l) b w' k rest like later)
      ∙ ap (λ q. until_error (q ∷ (map (quick_cell o b s) ls ++ rest)) w) same

  scenarios_lem :
      (o : RunOptions) (ss : List Text) (c b : Config) (w : W)
      → Alike c b
      → run_scenarios run o ss c w ≡ until_error (cells_of o b ss quick_levels) w
  unfolding run_scenarios
  scenarios_lem o [] c b w like = refl
  scenarios_lem o (s ∷ ss) c b w like =
      next_lem (run_levels run o s quick_levels c w) (run_scenarios run o ss)
      ∙ levels_lem o s quick_levels c b w (run_scenarios run o ss) (cells_of o b ss quick_levels)
          like (λ c' w' like'. scenarios_lem o ss c' b w' like')
    where
      next_lem :
          (r : (E ⊎ Config) × W) (k : Config → W → Option E × W)
          → elim r.0 [ inl e ↦ (some e, r.1) | inr c' ↦ k c' r.1 ] ≡ and_then r k
      next_lem (inl e, w') k = refl
      next_lem (inr c', w') k = refl

quick_config-IsValid : (c : Config) → IsValid c → IsValid (quick_config c)
unfolding quick_config
quick_config-IsValid c v = ground arith

cell-IsValid :
    (c : Config) (s : Text) (l : ℤ)
    → IsValid c
    → s ≢ []
    → 1 ≤ pos_part l
    → IsValid (cell_config c s l)
cell-IsValid c s l v named some_tasks = ground arith

abbrev pub Runs : Cell → Type 0
Runs k = IsValid k.config × (pos_part k.config.concurrency.browser_worker_limit ≤ 10)

capped : (c : Config) → pos_part (quick_config c).concurrency.browser_worker_limit ≤ 10
unfolding quick_config
capped c = ground arith

levels-Runs :
    (o : RunOptions) (c : Config) (s : Text) (lvls : List ℤ)
    → IsValid c
    → pos_part c.concurrency.browser_worker_limit ≤ 10
    → s ≢ []
    → All (λ l. 1 ≤ pos_part l) lvls
    → All Runs (map (quick_cell o c s) lvls)
levels-Runs o c s [] v few named h = tt
levels-Runs o c s (l ∷ ls) v few named h =
    ((cell-IsValid c s l v named h.0, few), levels-Runs o c s ls v few named h.1)

cells-Runs :
    (o : RunOptions) (c : Config) (ss : List Text) (lvls : List ℤ)
    → IsValid c
    → pos_part c.concurrency.browser_worker_limit ≤ 10
    → All (λ s. s ≢ []) ss
    → All (λ l. 1 ≤ pos_part l) lvls
    → All Runs (cells_of o c ss lvls)
cells-Runs o c [] lvls v few named h = tt
cells-Runs o c (s ∷ ss) lvls v few named h =
    All-append Runs (map (quick_cell o c s) lvls) (cells_of o c ss lvls)
      (levels-Runs o c s lvls v few named.0 h) (cells-Runs o c ss lvls v few named.1 h)

-- With options of a valid configuration, `cmdQuick` makes the runs of its matrix in their order, each
-- scenario at each level, up to the first error, which it returns; and each has a valid configuration with
-- at most ten browser workers.
pub cmd_quick_cells :
    {E S W : Type 0} (run : Cell → W → (E ⊎ S) × W) (o : RunOptions) (w : W)
    → IsValid o.config
    → (cmd_quick run (inr o) w ≡ until_error run (quick_cells o) w) × All Runs (quick_cells o)
unfolding cmd_quick
cmd_quick_cells run o w v = (
  scenarios_lem run o quick_scenarios (quick_config o.config) (quick_config o.config) w
      (λ s l. refl),
  cells-Runs o (quick_config o.config) quick_scenarios quick_levels
      (quick_config-IsValid o.config v) (capped o.config) named levelled,
)
  where
    named : All (λ s. s ≢ []) quick_scenarios
    named = unfold quick_scenarios in ((λ e. cc), ((λ e. cc), ((λ e. cc), ((λ e. cc), tt))))

    levelled : All (λ l. 1 ≤ pos_part l) quick_levels
    levelled = unfold quick_levels in omega arith
