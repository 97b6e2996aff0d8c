-- ===== src/Config/Tests.antt =====
-- Configurations read from concrete files.
use browser_analysis.Prelude.{ℕ, ◌≡◌, refl, Option, none, some, ◌⊎◌, inr}
use browser_analysis.Prelude.Text.{Text, codes}
use browser_analysis.Config.{
  Config, defaults, validate, check_loaded, judge, load, invalid, bad_escalation,
}
use browser_analysis.Config.Valid.{IsValid, load-IsValid}

-- A decoder that only reads the escalation policy, from the whole file.
abbrev decoder : Text → Config → Config × Option ℕ
decoder content c = (record c { escalation = content }, none)

abbrev file : Text → ℕ ⊎ Text
file path = inr path

wrong_policy :
    (load file decoder (codes "eager")).1
    ≡ some (invalid (codes "eager") (bad_escalation (codes "eager")))
unfolding load check_loaded judge validate defaults
wrong_policy = refl

load-IsValid_example :
    let (c, failed) = load file decoder (codes "workflow") in
    (failed ≡ none → IsValid c)
    × ((content : Text) (given : Config)
        → file (codes "workflow") ≡ inr content
        → decoder content defaults ≡ (given, none)
        → IsValid given
        → (c ≡ given) × (failed ≡ none))
load-IsValid_example = load-IsValid file decoder (codes "workflow")
