-- ===== src/Cli/Flags.antt =====
-- cmd/bench/main.go and commands.go: the flags of a run over the configuration. The flags are parsed
-- by package flag; the file system and the YAML decoder are the parameters of `load`.
pub mod Valid
use browser_analysis.Prelude.{
  Bool, true, false, [], Option, none, some, ◌⊎◌, inl, inr, if◌then◌else◌,
}
use browser_analysis.Prelude.Int.{ℤ, pos, ltb_ℤ}
use browser_analysis.Prelude.Text.{Text, codes, is_empty}
use browser_analysis.Config.{Config, ConfigError, LoadError, load, validate}
use browser_analysis.Workflow.{Workflow, get}

pub record Flags : Type 0 where
  pub config_path : Text
  pub scenario : Text
  pub workflow_name : Text
  pub concurrency : ℤ
  pub duration : ℤ
  pub warmup : ℤ
  pub cooldown : ℤ
  pub mode : Text
  pub results_dir : Text
  pub repeat : ℤ
  pub metrics_addr : Text

-- What the flags are when none is given.
abbrev pub default_flags : Flags
default_flags = record {
  config_path = codes "bench.yaml";
  scenario = [];
  workflow_name = [];
  concurrency = pos 0;
  duration = pos 0;
  warmup = pos 0;
  cooldown = pos 0;
  mode = codes "fixed";
  results_dir = codes "results";
  repeat = pos 1;
  metrics_addr = [];
}

pub record RunOptions : Type 0 where
  pub config : Config
  pub workflow : Workflow
  pub mode : Text
  pub results_dir : Text
  pub repetition : ℤ
  pub metrics_addr : Text

pub data FlagError {ℓ} (E : Type ℓ) : Type ℓ where
  not_loaded : LoadError E → FlagError E
  unknown_workflow : Text → FlagError E
  not_valid : ConfigError → FlagError E

abbrev pub positive : ℤ → Bool
positive z = ltb_ℤ (pos 0) z

-- The six `if` statements, one after the other.
pub set_scenario : Flags → Config → Config
set_scenario f c = if is_empty f.scenario then c else record c { scenario = f.scenario }

pub set_workflow : Flags → Config → Config
set_workflow f c =
    if is_empty f.workflow_name then c else record c { workflow_name = f.workflow_name }

pub set_concurrency : Flags → Config → Config
set_concurrency f c =
    if positive f.concurrency
    then record c { concurrency = record c.concurrency { logical_tasks = f.concurrency } }
    else c

pub set_duration : Flags → Config → Config
set_duration f c =
    if positive f.duration
    then record c { timing = record c.timing { measurement_seconds = f.duration } }
    else c

pub set_warmup : Flags → Config → Config
set_warmup f c =
    if positive f.warmup
    then record c { timing = record c.timing { warmup_seconds = f.warmup } }
    else c

pub set_cooldown : Flags → Config → Config
set_cooldown f c =
    if positive f.cooldown
    then record c { timing = record c.timing { cooldown_seconds = f.cooldown } }
    else c

unfoldable pub overlay : Flags → Config → Config
unfolding set_scenario set_workflow set_concurrency set_duration set_warmup set_cooldown
overlay f c =
    set_cooldown f
      (set_warmup f (set_duration f (set_concurrency f (set_workflow f (set_scenario f c)))))

abbrev pub options_of : Flags → Config → Workflow → RunOptions
options_of f c w = record {
  config = c;
  workflow = w;
  mode = f.mode;
  results_dir = f.results_dir;
  repetition = f.repeat;
  metrics_addr = f.metrics_addr;
}

-- The tests on the overlaid configuration.
unfoldable pub check_options :
    {E : Type 0} → Flags → Config → Option Workflow → Option ConfigError → FlagError E ⊎ RunOptions
check_options f c none err = inl (unknown_workflow c.workflow_name)
check_options f c (some w) (some e) = inl (not_valid e)
check_options f c (some w) none = inr (options_of f c w)

unfoldable pub with_config :
    {E : Type 0} → Flags → Config × Option (LoadError E) → FlagError E ⊎ RunOptions
unfolding overlay check_options
with_config f (c, some e) = inl (not_loaded e)
with_config f (c, none) =
    let c' = overlay f c in check_options f c' (get c'.workflow_name) (validate c')

module _ {E : Type 0} (read_file : Text → E ⊎ Text)
    (unmarshal : Text → Config → Config × Option E) where
  unfoldable pub run_config_from_flags : Flags → FlagError E ⊎ RunOptions
  unfolding with_config
  run_config_from_flags f = with_config f (load read_file unmarshal f.config_path)
