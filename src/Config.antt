-- ===== src/Config.antt =====
-- internal/config/config.go: the configuration, its defaults, its validation and its loading. The file
-- system and the YAML decoder are parameters of `load`.
pub mod Valid
mod Tests
use browser_analysis.Prelude.{
  ℕ, suc, ◌*◌, ◌%◌, ◌≡◌, Bool, true, false, not, ◌&&◌, ◌||◌, Option, none, some, ◌⊎◌, inl, inr,
  if◌then◌else◌,
}
use browser_analysis.Prelude.Int.{ℤ, pos, ltb_ℤ}
use browser_analysis.Prelude.Text.{Text, codes, eq_text, is_empty}

pub record Concurrency : Type 0 where
  pub logical_tasks : ℤ
  pub browser_worker_limit : ℤ
  pub http_worker_limit : ℤ

pub record BrowserOptions : Type 0 where
  pub engine : Text
  pub headless : Bool
  pub reuse_browser : Bool

pub record Timing : Type 0 where
  pub warmup_seconds : ℤ
  pub measurement_seconds : ℤ
  pub cooldown_seconds : ℤ

-- The structs with one field are that field.
pub record Config : Type 0 where
  pub scenario : Text
  pub concurrency : Concurrency
  pub browser : BrowserOptions
  pub contexts_count : ℤ
  pub workflow_name : Text
  pub timing : Timing
  pub base_url : Text
  pub interval_seconds : ℤ
  pub escalation : Text

unfoldable pub defaults : Config
defaults = record {
  scenario = codes "http";
  concurrency = record {
    logical_tasks = pos 100;
    browser_worker_limit = pos 50;
    http_worker_limit = pos 100;
  };
  browser = record { engine = codes "chromium"; headless = true; reuse_browser = true };
  contexts_count = pos 100;
  workflow_name = codes "complex";
  timing = record {
    warmup_seconds = pos 30;
    measurement_seconds = pos 180;
    cooldown_seconds = pos 30;
  };
  base_url = codes "http://localhost:8080";
  interval_seconds = pos 1;
  escalation = codes "workflow";
}

-- The messages of `Validate`, in its order.
pub data ConfigError : Type 0 where
  scenario_empty few_logical_tasks few_browser_workers few_http_workers : ConfigError
  bad_timing base_url_empty short_interval : ConfigError
  bad_escalation : Text → ConfigError

-- `z < 1` and `z < 0`.
abbrev pub below_one : ℤ → Bool
below_one z = ltb_ℤ z (pos 1)

abbrev pub negative : ℤ → Bool
negative z = ltb_ℤ z (pos 0)

unfoldable pub validate : Config → Option ConfigError
validate c =
    if is_empty c.scenario
    then some scenario_empty
    else if below_one c.concurrency.logical_tasks
    then some few_logical_tasks
    else if below_one c.concurrency.browser_worker_limit
    then some few_browser_workers
    else if below_one c.concurrency.http_worker_limit
    then some few_http_workers
    else if negative c.timing.warmup_seconds
        || below_one c.timing.measurement_seconds
        || negative c.timing.cooldown_seconds
    then some bad_timing
    else if is_empty c.base_url
    then some base_url_empty
    else if below_one c.interval_seconds
    then some short_interval
    else if not (is_empty c.escalation) && not (eq_text c.escalation (codes "workflow"))
    then some (bad_escalation c.escalation)
    else none

-- What `Load` returns beside the configuration: an error of the system's, the decoder's, or `Validate`'s.
pub data LoadError {ℓ} (E : Type ℓ) : Type ℓ where
  read_failed : E → LoadError E
  parse_failed : Text → E → LoadError E
  invalid : Text → ConfigError → LoadError E

-- The last test of `Load`, on what `Validate` says, and the one before it, on what the decoder does.
unfoldable pub judge :
    {E : Type 0} → Text → Config → Option ConfigError → Config × Option (LoadError E)
judge path c none = (c, none)
judge path c (some e) = (c, some (invalid path e))

unfoldable pub check_loaded :
    {E : Type 0} → Text → Config × Option E → Config × Option (LoadError E)
check_loaded path (c, some e) = (c, some (parse_failed path e))
check_loaded path (c, none) = judge path c (validate c)

module _ {E : Type 0} (read_file : Text → E ⊎ Text)
    (unmarshal : Text → Config → Config × Option E) where
  decode : Text → E ⊎ Text → Config × Option (LoadError E)
  decode path (inl e) = (defaults, some (read_failed e))
  decode path (inr content) = check_loaded path (unmarshal content defaults)

  unfoldable pub load : Text → Config × Option (LoadError E)
  unfolding decode
  load path = decode path (read_file path)
