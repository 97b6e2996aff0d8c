-- ===== src/Cli/Report/Groups.antt =====
-- The groups that the reports of cmd/bench/commands.go are made of.
use browser_analysis.Prelude.{
  suc, ◌+◌, ◌≡◌, refl, sym, ap, ◌∙◌, Bool, ◌&&◌, List, [], ◌∷◌, ◌++◌, Option, none, some, map,
  length, count_if, arith, append_assoc, append_nil, if◌then◌else◌, Bool-cases, inl, inr,
}
use browser_analysis.Prelude.Int.{ℤ, eq_ℤ}
use browser_analysis.Prelude.Text.{Text, eq_text}
use browser_analysis.Prelude.Double.{Double}
use browser_analysis.Prelude.Dict.{
  Dict, Eq, look_up, fold_key, look_up-put_step, look_up-tally, text_eq, int_eq,
}
use browser_analysis.Accounting.Stats.{sum_floats}
use browser_analysis.Cli.Runs.{RunAgg}
use browser_analysis.Cli.Sweep.{Row}
use browser_analysis.Cli.Report.{
  Sums, SweepLine, or_empty, scenario_of, concurrency_of, or_no_sums, no_sums, add_run,
  add_to_scenario, group_runs, count_saturated, by_scenario, analyze_sweep,
}

-- A change to every value is a change to what is looked up.
look_up-map :
    {K V U : Type 0} ⦃e : Eq K⦄ (f : V → U) (k : K) (m : Dict K V)
    → look_up k (map (λ g. (g.0, f g.1)) m)
      ≡ elim (look_up k m) [ none ↦ none | some v ↦ some (f v) ]
unfolding look_up
look_up-map ⦃e⦄ f k [] = refl
look_up-map ⦃e⦄ f k ((j, v) ∷ m) = elim (Bool-cases (e.beq j k)) [
  | inl hit ↦ rw hit refl
  | inr miss ↦ rw miss (look_up-map f k m)
]

abbrev pub or_no_line : Option SweepLine → SweepLine
or_no_line none = record { cells = 0; saturated = 0 }
or_no_line (some l) = l

module _ {F : Type 0} where
  -- The cells of a scenario, in their order.
  abbrev pub cells_in : Text → List (Row F) → List (Row F)
  cells_in s [] = []
  cells_in s (c ∷ cs) = let rest = cells_in s cs in if eq_text c.scenario s then c ∷ rest else rest

  fold_key-cells_in :
      (s : Text) (o : Option (List (Row F))) (cells : List (Row F))
      → or_empty (fold_key (λ c. c.scenario) (λ o c. or_empty o ++ c ∷ []) s o cells)
        ≡ or_empty o ++ cells_in s cells
  unfolding fold_key
  fold_key-cells_in s o [] = sym (append_nil (or_empty o))
  fold_key-cells_in s o (c ∷ cs) = elim (Bool-cases (eq_text c.scenario s)) [
    | inl hit ↦ rw hit (
        fold_key-cells_in s (some (or_empty o ++ c ∷ [])) cs
        ∙ append_assoc (or_empty o) (c ∷ []) (cells_in s cs))
    | inr miss ↦ rw miss (fold_key-cells_in s o cs)
  ]

  by_scenario_lem :
      (s : Text) (cells : List (Row F))
      → or_empty (look_up s (by_scenario cells)) ≡ cells_in s cells
  unfolding by_scenario
  by_scenario_lem s cells =
      ap or_empty (look_up-tally (λ c. c.scenario) (λ o c. or_empty o ++ c ∷ []) s cells [])
      ∙ unfold look_up in fold_key-cells_in s none cells

  count_saturated_lem :
      (s : Text) (cells : List (Row F))
      → count_saturated (cells_in s cells)
        ≡ count_if (λ (c : Row F). c.saturated && eq_text c.scenario s) cells
  unfolding count_saturated
  count_saturated_lem s [] = refl
  count_saturated_lem s (c ∷ cs) = ground (arith, count_saturated_lem s cs)

  length-cells_in :
      (s : Text) (cells : List (Row F))
      → length (cells_in s cells) ≡ count_if (λ (c : Row F). eq_text c.scenario s) cells
  length-cells_in s [] = refl
  length-cells_in s (c ∷ cs) = ground (arith, length-cells_in s cs)

  -- The line that `analyze-sweep` prints for a scenario counts the cells of that scenario, and
  -- those of them that are saturated; a scenario without a line has none of either.
  pub analyze_sweep_counts :
      (s : Text) (cells : List (Row F))
      → or_no_line (look_up s (analyze_sweep cells).1) ≡ record {
        cells = count_if (λ (c : Row F). eq_text c.scenario s) cells;
        saturated = count_if (λ (c : Row F). c.saturated && eq_text c.scenario s) cells;
      }
  unfolding analyze_sweep
  analyze_sweep_counts s cells =
      ap or_no_line (look_up-map line s (by_scenario cells))
      ∙ through (look_up s (by_scenario cells))
      ∙ ap line (by_scenario_lem s cells)
      ∙ ground (arith, length-cells_in s cells, count_saturated_lem s cells)
    where
      line : List (Row F) → SweepLine
      line cs = record { cells = length cs; saturated = count_saturated cs }

      through :
          (o : Option (List (Row F)))
          → or_no_line (elim o [ none ↦ none | some cs ↦ some (line cs) ]) ≡ line (or_empty o)
      through none = unfold count_saturated in refl
      through (some cs) = refl

module _ {F : Type 0} ⦃d : Double F⦄ where
  abbrev pub is_at : Text → ℤ → RunAgg F → Bool
  is_at s c r = eq_text (scenario_of r) s && eq_ℤ (concurrency_of r) c

  -- The sums over the runs of a scenario at a concurrency, in their order, and no sums if there is no
  -- such run.
  abbrev pub sums_at : Text → ℤ → Option (Sums F) → List (RunAgg F) → Option (Sums F)
  sums_at s c o [] = o
  sums_at s c o (r ∷ rs) = sums_at s c (if is_at s c r then some (add_run o r) else o) rs

  look_up-add_to_scenario :
      (c : ℤ) (o : Option (Dict ℤ (Sums F))) (r : RunAgg F)
      → look_up c (add_to_scenario o r) ≡ (
          if eq_ℤ (concurrency_of r) c
          then some (add_run (look_up c (or_empty o)) r)
          else look_up c (or_empty o))
  unfolding add_to_scenario
  look_up-add_to_scenario c o r =
      look_up-put_step (λ v. add_run v r) c (concurrency_of r) (or_empty o)

  fold_key-sums_at :
      (s : Text) (c : ℤ) (o : Option (Dict ℤ (Sums F))) (runs : List (RunAgg F))
      → look_up c (or_empty (fold_key scenario_of add_to_scenario s o runs))
        ≡ sums_at s c (look_up c (or_empty o)) runs
  unfolding fold_key
  fold_key-sums_at s c o [] = refl
  fold_key-sums_at s c o (r ∷ rs) = elim (Bool-cases (eq_text (scenario_of r) s)) [
    | inl hit ↦ rw hit (
        fold_key-sums_at s c (some (add_to_scenario o r)) rs
        ∙ ap (λ v. sums_at s c v rs) (look_up-add_to_scenario c o r))
    | inr miss ↦ rw miss (fold_key-sums_at s c o rs)
  ]

  -- The runs of a scenario at a concurrency, in their order, and their sums from given ones on.
  abbrev pub runs_at : Text → ℤ → List (RunAgg F) → List (RunAgg F)
  runs_at s c [] = []
  runs_at s c (r ∷ rs) = let rest = runs_at s c rs in if is_at s c r then r ∷ rest else rest

  abbrev summed : (RunAgg F → F) → F → List (RunAgg F) → F
  summed f from rs = sum_floats from (map f rs)

  abbrev pub sums_from : Sums F → List (RunAgg F) → Sums F
  sums_from c rs = record {
    n = length rs + c.n;
    tput = summed (λ r. r.summary.built.throughput) c.tput rs;
    p50 = summed (λ r. r.summary.built.latency.median) c.p50 rs;
    p95 = summed (λ r. r.summary.built.latency.p95) c.p95 rs;
    p99 = summed (λ r. r.summary.built.latency.p99) c.p99 rs;
    total_rss = summed (λ r. d.of_nat r.resource.total_rss.mean) c.total_rss rs;
    browser_rss = summed (λ r. d.of_nat r.resource.browser_rss.mean) c.browser_rss rs;
    procs = summed (λ r. d.of_nat r.resource.total_processes.mean) c.procs rs;
  }

  -- The sums over runs, if there are any.
  abbrev pub sums_of : List (RunAgg F) → Option (Sums F)
  sums_of [] = none
  sums_of (r ∷ rs) = some (sums_from no_sums (r ∷ rs))

  sums_from-add_run :
      (o : Option (Sums F)) (r : RunAgg F) (rs : List (RunAgg F))
      → sums_from (add_run o r) rs ≡ sums_from (or_no_sums o) (r ∷ rs)
  unfolding add_run sum_floats
  sums_from-add_run o r rs =
      let count : length rs + suc (or_no_sums o).n ≡ length (r ∷ rs) + (or_no_sums o).n =
        omega arith in
      ap (λ k. record (sums_from (or_no_sums o) (r ∷ rs)) { n = k }) count

  sums_at-some :
      (s : Text) (c : ℤ) (v : Sums F) (runs : List (RunAgg F))
      → sums_at s c (some v) runs ≡ some (sums_from v (runs_at s c runs))
  unfolding sum_floats
  sums_at-some s c v [] =
      let count : v.n ≡ 0 + v.n = omega arith in ap (λ k. some (record v { n = k })) count
  sums_at-some s c v (r ∷ rs) = elim (Bool-cases (is_at s c r)) [
    | inl hit ↦ rw hit (
        sums_at-some s c (add_run (some v) r) rs
        ∙ ap some (sums_from-add_run (some v) r (runs_at s c rs)))
    | inr miss ↦ rw miss (sums_at-some s c v rs)
  ]

  sums_at-none :
      (s : Text) (c : ℤ) (runs : List (RunAgg F))
      → sums_at s c none runs ≡ sums_of (runs_at s c runs)
  sums_at-none s c [] = refl
  sums_at-none s c (r ∷ rs) = elim (Bool-cases (is_at s c r)) [
    | inl hit ↦
        rw hit (
          sums_at-some s c (add_run none r) rs
          ∙ ap some (sums_from-add_run none r (runs_at s c rs)))
    | inr miss ↦ rw miss (sums_at-none s c rs)
  ]

  -- In the groups of the holistic summary the cell of a scenario and a concurrency holds the number of
  -- exactly the runs with both, and the sums, in their order, of their throughputs, medians, 95th and
  -- 99th percentiles, mean total and browser memories and mean numbers of processes; where there is
  -- no such run there is no cell.
  pub group_runs_sums :
      (s : Text) (c : ℤ) (runs : List (RunAgg F))
      → look_up c (or_empty (look_up s (group_runs runs))) ≡ sums_of (runs_at s c runs)
  unfolding group_runs
  group_runs_sums s c runs =
      ap (λ m. look_up c (or_empty m)) (look_up-tally scenario_of add_to_scenario s runs [])
      ∙ unfold look_up in fold_key-sums_at s c none runs ∙ sums_at-none s c runs
