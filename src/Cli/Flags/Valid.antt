-- ===== src/Cli/Flags/Valid.antt =====
-- The options that `runConfigFromFlags` of cmd/bench/main.go returns.
use mathlib.Core.Sum.{inr-injective}
use browser_analysis.Prelude.{
  ◌≡◌, refl, sym, ap, ◌∙◌, subst, Option, none, some, ◌⊎◌, inl, inr, if◌then◌else◌, Bool-cases,
}
use browser_analysis.Prelude.Int.{pos, ltb_ℤ}
use browser_analysis.Prelude.Text.{Text, is_empty}
use browser_analysis.Config.{Config, ConfigError, LoadError, load, validate}
use browser_analysis.Config.Valid.{IsValid, validate_iff}
use browser_analysis.Workflow.{Workflow, get}
use browser_analysis.Cli.Flags.{
  Flags, RunOptions, positive, options_of, set_scenario, set_workflow, set_concurrency,
  set_duration, set_warmup, set_cooldown, overlay, check_options, with_config,
  run_config_from_flags,
}

-- Each field is the flag's if that is given, the file's if it is not; no flag sets the others.
pub record IsOverlaid (f : Flags) (c o : Config) : Type 0 where
  pub scenario_set : o.scenario ≡ (if is_empty f.scenario then c.scenario else f.scenario)
  pub workflow_set :
      o.workflow_name ≡ (if is_empty f.workflow_name then c.workflow_name else f.workflow_name)
  pub tasks_set :
      o.concurrency.logical_tasks
      ≡ (if ltb_ℤ (pos 0) f.concurrency then f.concurrency else c.concurrency.logical_tasks)
  pub duration_set :
      o.timing.measurement_seconds
      ≡ (if ltb_ℤ (pos 0) f.duration then f.duration else c.timing.measurement_seconds)
  pub warmup_set :
      o.timing.warmup_seconds
      ≡ (if ltb_ℤ (pos 0) f.warmup then f.warmup else c.timing.warmup_seconds)
  pub cooldown_set :
      o.timing.cooldown_seconds
      ≡ (if ltb_ℤ (pos 0) f.cooldown then f.cooldown else c.timing.cooldown_seconds)
  pub browsers_kept : o.concurrency.browser_worker_limit ≡ c.concurrency.browser_worker_limit
  pub clients_kept : o.concurrency.http_worker_limit ≡ c.concurrency.http_worker_limit
  pub browser_kept : o.browser ≡ c.browser
  pub contexts_kept : o.contexts_count ≡ c.contexts_count
  pub target_kept : o.base_url ≡ c.base_url
  pub interval_kept : o.interval_seconds ≡ c.interval_seconds
  pub escalation_kept : o.escalation ≡ c.escalation

set_scenario_lem :
    (f : Flags) (c : Config)
    → set_scenario f c
      ≡ record c { scenario = if is_empty f.scenario then c.scenario else f.scenario }
unfolding set_scenario
set_scenario_lem f c = elim (Bool-cases (is_empty f.scenario)) [
  | inl e ↦ rw e refl
  | inr e ↦ rw e refl
]

set_workflow_lem :
    (f : Flags) (c : Config)
    → set_workflow f c ≡ record c {
      workflow_name = if is_empty f.workflow_name then c.workflow_name else f.workflow_name;
    }
unfolding set_workflow
set_workflow_lem f c = elim (Bool-cases (is_empty f.workflow_name)) [
  | inl e ↦ rw e refl
  | inr e ↦ rw e refl
]

set_concurrency_lem :
    (f : Flags) (c : Config)
    → set_concurrency f c ≡ record c {
      concurrency = record c.concurrency {
        logical_tasks =
            if positive f.concurrency then f.concurrency else c.concurrency.logical_tasks;
      };
    }
unfolding set_concurrency
set_concurrency_lem f c = elim (Bool-cases (positive f.concurrency)) [
  | inl e ↦ rw e refl
  | inr e ↦ rw e refl
]

set_duration_lem :
    (f : Flags) (c : Config)
    → set_duration f c ≡ record c {
      timing = record c.timing {
        measurement_seconds =
            if positive f.duration then f.duration else c.timing.measurement_seconds;
      };
    }
unfolding set_duration
set_duration_lem f c = elim (Bool-cases (positive f.duration)) [
  | inl e ↦ rw e refl
  | inr e ↦ rw e refl
]

set_warmup_lem :
    (f : Flags) (c : Config)
    → set_warmup f c ≡ record c {
      timing = record c.timing {
        warmup_seconds = if positive f.warmup then f.warmup else c.timing.warmup_seconds;
      };
    }
unfolding set_warmup
set_warmup_lem f c = elim (Bool-cases (positive f.warmup)) [ inl e ↦ rw e refl | inr e ↦ rw e refl ]

set_cooldown_lem :
    (f : Flags) (c : Config)
    → set_cooldown f c ≡ record c {
      timing = record c.timing {
        cooldown_seconds = if positive f.cooldown then f.cooldown else c.timing.cooldown_seconds;
      };
    }
unfolding set_cooldown
set_cooldown_lem f c = elim (Bool-cases (positive f.cooldown)) [
  | inl e ↦ rw e refl
  | inr e ↦ rw e refl
]

-- All six at once.
abbrev overlaid : Flags → Config → Config
overlaid f c = record c {
  scenario = if is_empty f.scenario then c.scenario else f.scenario;
  workflow_name = if is_empty f.workflow_name then c.workflow_name else f.workflow_name;
  concurrency = record c.concurrency {
    logical_tasks = if positive f.concurrency then f.concurrency else c.concurrency.logical_tasks;
  };
  timing = record {
    measurement_seconds = if positive f.duration then f.duration else c.timing.measurement_seconds;
    warmup_seconds = if positive f.warmup then f.warmup else c.timing.warmup_seconds;
    cooldown_seconds = if positive f.cooldown then f.cooldown else c.timing.cooldown_seconds;
  };
}

overlay_lem : (f : Flags) (c : Config) → overlay f c ≡ overlaid f c
unfolding overlay
overlay_lem f c =
    ap (λ x. set_cooldown f (set_warmup f (set_duration f (set_concurrency f (set_workflow f x)))))
      (set_scenario_lem f c)
    ∙ ap (λ x. set_cooldown f (set_warmup f (set_duration f (set_concurrency f x))))
        (set_workflow_lem f _)
    ∙ ap (λ x. set_cooldown f (set_warmup f (set_duration f x))) (set_concurrency_lem f _)
    ∙ ap (λ x. set_cooldown f (set_warmup f x)) (set_duration_lem f _)
    ∙ ap (set_cooldown f) (set_warmup_lem f _)
    ∙ set_cooldown_lem f _

overlay-IsOverlaid : (f : Flags) (c : Config) → IsOverlaid f c (overlay f c)
overlay-IsOverlaid f c = subst (IsOverlaid f c) (sym (overlay_lem f c)) (record {
  scenario_set = refl;
  workflow_set = refl;
  tasks_set = refl;
  duration_set = refl;
  warmup_set = refl;
  cooldown_set = refl;
  browsers_kept = refl;
  clients_kept = refl;
  browser_kept = refl;
  contexts_kept = refl;
  target_kept = refl;
  interval_kept = refl;
  escalation_kept = refl;
})

-- What the options have: a valid configuration over that of the file, and its workflow.
pub record IsRunnable (f : Flags) (c : Config) (o : RunOptions) : Type 0 where
  pub valid : IsValid o.config
  pub found : get o.config.workflow_name ≡ some o.workflow
  pub over : IsOverlaid f c o.config
  pub repeated : o.repetition ≡ f.repeat

check_options-IsRunnable :
    {E : Type 0} (f : Flags) (c b : Config) (w : Option Workflow) (err : Option ConfigError)
    (o : RunOptions)
    → w ≡ get b.workflow_name
    → err ≡ validate b
    → IsOverlaid f c b
    → check_options {E = E} f b w err ≡ inr o
    → IsRunnable f c o
unfolding check_options
check_options-IsRunnable f c b none err o hw he k h = absurd (cc)
check_options-IsRunnable f c b (some w) (some e) o hw he k h = absurd (cc)
check_options-IsRunnable {E} f c b (some w) none o hw he k h =
    subst (IsRunnable f c) (inr-injective (options_of f b w) o h)
      (record { valid = (validate_iff b).0 (sym he); found = sym hw; over = k; repeated = refl })

with_config-IsRunnable :
    {E : Type 0} (f : Flags) (loaded : Config × Option (LoadError E)) (o : RunOptions)
    → with_config f loaded ≡ inr o
    → (loaded.1 ≡ none) × IsRunnable f loaded.0 o
unfolding with_config
with_config-IsRunnable f (c, some e) o h = absurd (cc)
with_config-IsRunnable {E} f (c, none) o h =
    let c' = overlay f c in
    (
      refl,
      check_options-IsRunnable {E = E} f c c' (get c'.workflow_name) (validate c') o refl refl
          (overlay-IsOverlaid f c) h,
    )

module _ {E : Type 0} (read_file : Text → E ⊎ Text)
    (unmarshal : Text → Config → Config × Option E) where
  -- The options, if there are any, are those of a configuration that was loaded without an
  -- error, with each field that a flag sets set, and no other; that is valid as a whole, after the
  -- flags; and whose workflow is the one found under its name.
  pub options-IsRunnable :
      (f : Flags) (o : RunOptions)
      → run_config_from_flags read_file unmarshal f ≡ inr o
      → ((load read_file unmarshal f.config_path).1 ≡ none)
        × IsRunnable f (load read_file unmarshal f.config_path).0 o
  unfolding run_config_from_flags
  options-IsRunnable f o h = with_config-IsRunnable f (load read_file unmarshal f.config_path) o h
