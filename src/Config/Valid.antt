-- ===== src/Config/Valid.antt =====
-- What a configuration that internal/config/config.go accepts has.
use browser_analysis.Prelude.{
  ◌≤◌, ◌≡◌, refl, ◌≢◌, ◌↔◌, ◌∷◌, true, Option, none, some, ◌⊎◌, inl, inr, arith, [],
}
use browser_analysis.Prelude.Int.{pos_part, neg_part}
use browser_analysis.Prelude.Text.{Text, codes, is_empty, eq_text_iff}
use browser_analysis.Config.{
  Config, ConfigError, validate, load, defaults, check_loaded, judge, decode,
}

-- A number is at least 1 if its positive part is, and at least 0 if it has no negative part.
pub record IsValid (c : Config) : Type 0 where
  pub scenario_named : c.scenario ≢ []
  pub some_tasks : 1 ≤ pos_part c.concurrency.logical_tasks
  pub some_browsers : 1 ≤ pos_part c.concurrency.browser_worker_limit
  pub some_clients : 1 ≤ pos_part c.concurrency.http_worker_limit
  pub warmup_counts : neg_part c.timing.warmup_seconds ≡ 0
  pub measured : 1 ≤ pos_part c.timing.measurement_seconds
  pub cooldown_counts : neg_part c.timing.cooldown_seconds ≡ 0
  pub target_named : c.base_url ≢ []
  pub sampled : 1 ≤ pos_part c.interval_seconds
  pub escalates : (c.escalation ≡ []) ⊎ (c.escalation ≡ codes "workflow")

is_empty_iff : (t : Text) → (is_empty t ≡ true) ↔ (t ≡ [])
is_empty_iff [] = ground arith
is_empty_iff (x ∷ t) = (λ h. absurd (cc), λ h. absurd (cc))

accepted : (c : Config) → validate c ≡ none → IsValid c
unfolding validate
accepted c h = record {
  scenario_named = λ e. ground (arith, is_empty_iff c.scenario);
  some_tasks = ground arith;
  some_browsers = ground arith;
  some_clients = ground arith;
  warmup_counts = ground arith;
  measured = ground arith;
  cooldown_counts = ground arith;
  target_named = λ e. ground (arith, is_empty_iff c.base_url);
  sampled = ground arith;
  escalates =
      ground (arith, is_empty_iff c.escalation, eq_text_iff c.escalation (codes "workflow"));
}

valid-accepted : (c : Config) → IsValid c → validate c ≡ none
unfolding validate
valid-accepted c v = ground (
  arith,
  is_empty_iff c.scenario,
  is_empty_iff c.base_url,
  is_empty_iff c.escalation,
  eq_text_iff c.escalation (codes "workflow"),
)

-- `Validate` accepts exactly the valid configurations: a name, a target, positive
-- numbers of tasks and workers, a positive measurement and sampling interval, a warm-up and a
-- cooldown that are not negative, and no escalation policy or the policy `workflow`.
pub validate_iff : (c : Config) → (validate c ≡ none) ↔ IsValid c
validate_iff c = (accepted c, valid-accepted c)

pub defaults-IsValid : IsValid defaults
unfolding defaults validate
defaults-IsValid = accepted defaults refl

judge-IsValid :
    {E : Type 0} (path : Text) (c : Config) (v : Option ConfigError)
    → validate c ≡ v
    → (judge {E = E} path c v).1 ≡ none
    → IsValid (judge {E = E} path c v).0
unfolding judge
judge-IsValid path c none e h = accepted c e
judge-IsValid path c (some x) e h = absurd (cc)

check_loaded-IsValid :
    {E : Type 0} (path : Text) (r : Config × Option E)
    → (check_loaded path r).1 ≡ none
    → IsValid (check_loaded path r).0
unfolding check_loaded
check_loaded-IsValid path (c, some e) h = absurd (cc)
check_loaded-IsValid path (c, none) h = judge-IsValid path c (validate c) refl h

module _ {E : Type 0} (read_file : Text → E ⊎ Text)
    (unmarshal : Text → Config → Config × Option E) where
  decode-IsValid :
      (path : Text) (got : E ⊎ Text)
      → (decode read_file unmarshal path got).1 ≡ none
      → IsValid (decode read_file unmarshal path got).0
  unfolding decode
  decode-IsValid path (inl e) h = absurd (cc)
  decode-IsValid path (inr content) h = check_loaded-IsValid path (unmarshal content defaults) h

  -- A configuration that `Load` returns without an error is valid, whatever the file and the decoder
  -- give; and if the file can be read and decoded to a valid configuration, `Load` returns it.
  pub load-IsValid :
      (path : Text)
      → let (c, failed) = load read_file unmarshal path in
        (failed ≡ none → IsValid c)
        × ((content : Text) (given : Config)
            → read_file path ≡ inr content
            → unmarshal content defaults ≡ (given, none)
            → IsValid given
            → (c ≡ given) × (failed ≡ none))
  unfolding load decode check_loaded judge
  load-IsValid path = (
    decode-IsValid path (read_file path),
    λ content given e r v. ground (arith, valid-accepted given v),
  )
