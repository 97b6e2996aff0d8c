-- ===== src/Process/Ownership.antt =====
-- internal/process/ownership.go: which part of the benchmark each process belongs to: the name
-- patterns, the parent walk and `Classify`. `isOwned` follows parent links in a loop that need not
-- end; it takes fuel here, and `none` is a walk that has not ended within it.
pub mod Walk
pub mod Roles
pub mod Classify
mod Tests
use browser_analysis.Prelude.{
  ℕ, zero, suc, Bool, true, false, not, ◌&&◌, ◌||◌, List, [], ◌∷◌, Option, none, some, ◌==◌,
  if◌then◌else◌,
}
use browser_analysis.Prelude.Text.{Text, codes, contains, to_lower}
use browser_analysis.Process.{
  Role, Entry, Snapshot, unknown, controller, browser, renderer, utility, gpu, target, aux,
}

pub record Ownership : Type 0 where
  pub controller_pid : ℕ
  pub target_pid : ℕ  -- 0 if the target is not a process of its own

abbrev chromium_names : List Text
chromium_names =
    codes "chrome.exe"
    ∷ codes "chrome"
    ∷ codes "chromium"
    ∷ codes "chrome-headless-shell.exe"
    ∷ codes "chrome_headless_shell"
    ∷ codes "headless_shell"
    ∷ []

contains_any : Text → List Text → Bool
contains_any n [] = false
contains_any n (c ∷ cs) = contains n c || contains_any n cs

unfoldable pub is_chromium_name : Text → Bool
unfolding contains_any to_lower
is_chromium_name name = contains_any (to_lower name) chromium_names

unfoldable pub role_from_name : Text → Role
unfolding to_lower
role_from_name name =
    let n = to_lower name in
    if contains n (codes "renderer") || contains n (codes "render")
    then renderer
    else if contains n (codes "gpu") || contains n (codes "gpu_process")
    then gpu
    else if contains n (codes "utility")
    then utility
    else unknown

module _ {F : Type 0} where
  -- The map from a PID to its entry: of two entries with one PID the later is kept.
  unfoldable pub by_pid : List (Entry F) → ℕ → Option (Entry F)
  by_pid [] pid = none
  by_pid (e ∷ es) pid = elim (by_pid es pid) [
    | some later ↦ some later
    | none ↦ if e.pid == pid then some e else none
  ]

  -- `for cur := pid; cur != 0;`: one unit of fuel for each test of `cur`.
  unfoldable pub is_owned : Ownership → List (Entry F) → ℕ → ℕ → Option Bool
  is_owned o es zero cur = none
  is_owned o es (suc fuel) cur =
      let up : Option Bool = elim (by_pid es cur) [
        | none ↦ some false
        | some e ↦ is_owned o es fuel e.ppid
      ] in
      if cur == 0 then some false else if cur == o.controller_pid then some true else up

  parent_is_chromium : List (Entry F) → ℕ → Bool
  parent_is_chromium es ppid = elim (by_pid es ppid) [
    | none ↦ false
    | some p ↦ is_chromium_name p.name
  ]

  -- The role of a process in the controller's tree that is neither controller nor target.
  unfoldable pub owned_role : List (Entry F) → Entry F → Role
  unfolding parent_is_chromium
  owned_role es e =
      if is_chromium_name e.name
      then (if parent_is_chromium es e.ppid then renderer else browser)
      else if parent_is_chromium es e.ppid
      then elim (role_from_name e.name) [ unknown ↦ utility | r ↦ r ]
      else aux

  -- One round of the loop over the entries.
  unfoldable pub role_of : Ownership → List (Entry F) → ℕ → Entry F → Option Role
  role_of o es fuel e =
      if e.pid == o.controller_pid
      then some controller
      else if not (o.target_pid == 0) && (e.pid == o.target_pid)
      then some target
      else elim (is_owned o es fuel e.pid) [
        | none ↦ none
        | some true ↦ some (owned_role es e)
        | some false ↦ some unknown
      ]

  -- The loop: `table` is the whole snapshot, whose names and parents it never changes.
  pub classify_entries : Ownership → List (Entry F) → ℕ → List (Entry F) → Option (List (Entry F))
  classify_entries o table fuel [] = some []
  classify_entries o table fuel (e ∷ es) = elim (role_of o table fuel e) [
    | none ↦ none
    | some r ↦ elim (classify_entries o table fuel es) [
      | none ↦ none
      | some done ↦ some (record e { role = r } ∷ done)
    ]
  ]

  unfoldable pub classify : Ownership → ℕ → Snapshot F → Option (Snapshot F)
  unfolding classify_entries
  classify o fuel snap = elim (classify_entries o snap.entries fuel snap.entries) [
    | none ↦ none
    | some done ↦ some (record snap { entries = done })
  ]
