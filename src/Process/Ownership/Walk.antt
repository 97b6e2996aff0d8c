-- ===== src/Process/Ownership/Walk.antt =====
-- The parent walk of internal/process/ownership.go against the relation "descends from".
use browser_analysis.Prelude.{
  ℕ, zero, suc, ◌<◌, ◌≡◌, refl, sym, ◌∙◌, ◌≢◌, ◌↔◌, inl, inr, Bool, true, false, List, none, some,
  arith, ℕ_discrete, Option-cases,
}
use browser_analysis.Process.{Entry}
use browser_analysis.Process.Ownership.{Ownership, by_pid, is_owned}

-- The controller, or a process whose recorded parent descends from it. PID 0 ends every chain.
pub data Descends {F : Type 0} (o : Ownership) (es : List (Entry F)) : ℕ → Type 0 where
  self : {pid : ℕ} → pid ≢ 0 → pid ≡ o.controller_pid → Descends o es pid
  child :
      {pid : ℕ} (e : Entry F)
      → pid ≢ 0
      → by_pid es pid ≡ some e
      → Descends o es e.ppid
      → Descends o es pid

-- What one test of the loop can find.
data Turn {F : Type 0} (o : Ownership) (es : List (Entry F)) (pid : ℕ) : Type 0 where
  at_zero : pid ≡ 0 → Turn o es pid
  at_controller : pid ≢ 0 → pid ≡ o.controller_pid → Turn o es pid
  at_missing : pid ≢ 0 → pid ≢ o.controller_pid → by_pid es pid ≡ none → Turn o es pid
  at_child :
      (e : Entry F) → pid ≢ 0 → pid ≢ o.controller_pid → by_pid es pid ≡ some e → Turn o es pid

module _ {F : Type 0} (o : Ownership) (es : List (Entry F)) where
  turn : (pid : ℕ) → Turn o es pid
  turn pid = elim (ℕ_discrete pid 0) [
    | yes z ↦ at_zero z
    | no nz ↦ elim (ℕ_discrete pid o.controller_pid) [
      | yes c ↦ at_controller nz c
      | no nc ↦ elim (Option-cases (by_pid es pid)) [
        | inl m ↦ at_missing nz nc m
        | inr (e, f) ↦ at_child e nz nc f
      ]
    ]
  ]

  is_owned_zero : (fuel pid : ℕ) → pid ≡ 0 → is_owned o es (suc fuel) pid ≡ some false
  unfolding is_owned
  is_owned_zero fuel pid z = ground arith

  is_owned_self :
      (fuel pid : ℕ) → pid ≢ 0 → pid ≡ o.controller_pid → is_owned o es (suc fuel) pid ≡ some true
  unfolding is_owned
  is_owned_self fuel pid nz c = ground arith

  is_owned_missing :
      (fuel pid : ℕ)
      → pid ≢ 0
      → pid ≢ o.controller_pid
      → by_pid es pid ≡ none
      → is_owned o es (suc fuel) pid ≡ some false
  unfolding is_owned
  is_owned_missing fuel pid nz c m = ground arith

  is_owned_parent :
      (fuel pid : ℕ) (e : Entry F)
      → pid ≢ 0
      → pid ≢ o.controller_pid
      → by_pid es pid ≡ some e
      → is_owned o es (suc fuel) pid ≡ is_owned o es fuel e.ppid
  unfolding is_owned
  is_owned_parent fuel pid e nz c f = ground arith

  sound : (fuel pid : ℕ) → is_owned o es fuel pid ≡ some true → Descends o es pid
  unfolding is_owned
  sound zero pid h = cc
  sound (suc fuel) pid h = elim (turn pid) [
    | at_zero z ↦ cc (is_owned_zero fuel pid z)
    | at_controller nz c ↦ self nz c
    | at_missing nz nc m ↦ cc (is_owned_missing fuel pid nz nc m)
    | at_child e nz nc f ↦
        child e nz f (sound fuel e.ppid (sym (is_owned_parent fuel pid e nz nc f) ∙ h))
  ]

  complete : (fuel : ℕ) {pid : ℕ} → is_owned o es fuel pid ≡ some false → ¬ Descends o es pid
  unfolding is_owned
  complete zero h d = cc
  complete (suc fuel) {pid} h (self nz c) = cc (is_owned_self fuel pid nz c)
  complete (suc fuel) {pid} h (child e nz f d) = elim (ℕ_discrete pid o.controller_pid) [
    | yes c ↦ cc (is_owned_self fuel pid nz c)
    | no nc ↦ complete fuel (sym (is_owned_parent fuel pid e nz nc f) ∙ h) d
  ]

  -- Whenever the parent walk ends, its verdict on a PID is true exactly when the PID descends, by
  -- recorded parents, from the controller.
  pub is_owned-iff_Descends :
      (fuel pid : ℕ) (b : Bool) → is_owned o es fuel pid ≡ some b → (b ≡ true) ↔ Descends o es pid
  is_owned-iff_Descends fuel pid true h = (λ _. sound fuel pid h, λ _. refl)
  is_owned-iff_Descends fuel pid false h = (λ e. cc, λ d. absurd (complete fuel h d))

  -- If the recorded parents are ranked, each parent below its child (as by start time), the walk
  -- from a PID ends within one test more than the PID's rank. (The idle process, PID 0, may be its
  -- own parent.)
  pub is_owned_total :
      (rank : ℕ → ℕ)
      → ((pid : ℕ) (e : Entry F) → pid ≢ 0 → by_pid es pid ≡ some e → rank e.ppid < rank pid)
      → (fuel pid : ℕ) → rank pid < fuel
      → (b : Bool) × (is_owned o es fuel pid ≡ some b)
  unfolding is_owned
  is_owned_total rank falls zero pid h = absurd (omega arith)
  is_owned_total rank falls (suc fuel) pid h = elim (turn pid) [
    | at_zero z ↦ (false, is_owned_zero fuel pid z)
    | at_controller nz c ↦ (true, is_owned_self fuel pid nz c)
    | at_missing nz nc m ↦ (false, is_owned_missing fuel pid nz nc m)
    | at_child e nz nc f ↦
        let (b, p) = is_owned_total rank falls fuel e.ppid (omega (arith, falls pid e nz f)) in
        (b, is_owned_parent fuel pid e nz nc f ∙ p)
  ]

  -- A set of PIDs, none of them 0 or the controller's, that holds the recorded parent of each of its
  -- members, such as a cycle of parents that reused PIDs have made: from a PID of the set the walk
  -- never ends, whatever the fuel.
  pub is_owned_diverges :
      (Loop : ℕ → Type 0)
      → ((pid : ℕ)
          → Loop pid
          → (e : Entry F) × (pid ≢ 0)
            × (pid ≢ o.controller_pid)
            × (by_pid es pid ≡ some e)
            × Loop e.ppid)
      → (fuel pid : ℕ) → Loop pid
      → is_owned o es fuel pid ≡ none
  unfolding is_owned
  is_owned_diverges Loop closed zero pid l = refl
  is_owned_diverges Loop closed (suc fuel) pid l =
      let (e, nz, nc, f, up) = closed pid l in
      is_owned_parent fuel pid e nz nc f ∙ is_owned_diverges Loop closed fuel e.ppid up
