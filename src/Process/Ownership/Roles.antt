-- ===== src/Process/Ownership/Roles.antt =====
-- What `Classify` of internal/process/ownership.go assigns.
use browser_analysis.Prelude.{
  ℕ, ◌≡◌, refl, ◌≢◌, ◌↔◌, ◌⊎◌, inl, inr, Bool, true, false, List, some, arith, ℕ_discrete,
}
use browser_analysis.Prelude.Text.{Text}
use browser_analysis.Process.{Role, Entry, unknown, controller, target}
use browser_analysis.Process.Ownership.{Ownership, is_owned, role_from_name, owned_role, role_of}
use browser_analysis.Process.Ownership.Walk.{Descends, is_owned-iff_Descends}

-- The roles of the processes that the controller has started, itself not included.
abbrev pub in_tree : Role → Bool
in_tree unknown = false
in_tree controller = false
in_tree target = false
in_tree _ = true

role_from_name_cases :
    (n : Text) → (role_from_name n ≡ unknown) ⊎ (in_tree (role_from_name n) ≡ true)
unfolding role_from_name
role_from_name_cases n = ground arith

module _ {F : Type 0} (o : Ownership) (es : List (Entry F)) where
  owned_role-in_tree : (e : Entry F) → in_tree (owned_role es e) ≡ true
  unfolding owned_role
  owned_role-in_tree e = ground (arith, role_from_name_cases e.name)

  -- The controller, or the separate target process.
  abbrev pub IsSpecial : ℕ → Type 0
  IsSpecial pid = (o.target_pid ≢ 0) × (pid ≡ o.target_pid)

  role_of_controller :
      (fuel : ℕ) (e : Entry F) → e.pid ≡ o.controller_pid → role_of o es fuel e ≡ some controller
  unfolding role_of
  role_of_controller fuel e c = ground arith

  role_of_target :
      (fuel : ℕ) (e : Entry F)
      → e.pid ≢ o.controller_pid
      → o.target_pid ≢ 0
      → e.pid ≡ o.target_pid
      → role_of o es fuel e ≡ some target
  unfolding role_of
  role_of_target fuel e nc nz t = ground arith

  -- Away from the controller and the target the walk decides.
  role_of_walk :
      (fuel : ℕ) (e : Entry F) {r : Role}
      → e.pid ≢ o.controller_pid
      → ¬ IsSpecial e.pid
      → role_of o es fuel e ≡ some r
      → ((is_owned o es fuel e.pid ≡ some true) × (r ≡ owned_role es e))
        ⊎ ((is_owned o es fuel e.pid ≡ some false) × (r ≡ unknown))
  unfolding role_of
  role_of_walk fuel e nc nt h = ground arith

  -- What the roles mean. `unknown` is what is left: the processes outside the tree.
  pub record IsRight (pid : ℕ) (r : Role) : Type 0 where
    pub is_controller : (r ≡ controller) ↔ (pid ≡ o.controller_pid)
    pub is_target : (r ≡ target) ↔ ((pid ≢ o.controller_pid) × IsSpecial pid)
    pub is_in_tree :
        (in_tree r ≡ true) ↔ ((pid ≢ o.controller_pid) × (¬ IsSpecial pid) × Descends o es pid)

  IsRight-walk :
      (fuel : ℕ) (e : Entry F) {r : Role}
      → e.pid ≢ o.controller_pid
      → ¬ IsSpecial e.pid
      → role_of o es fuel e ≡ some r
      → IsRight e.pid r
  IsRight-walk fuel e {r} nc nt h = elim (role_of_walk fuel e nc nt h) [
    | inl (walk, is) ↦
        let inside : in_tree r ≡ true = rw is (owned_role-in_tree e) in
        record {
          is_controller = (λ q. absurd (cc), λ q. absurd (nc q));
          is_target = (λ q. absurd (cc), λ q. absurd (nt q.1));
          is_in_tree = (
            λ _. (nc, nt, (is_owned-iff_Descends o es fuel e.pid true walk).0 refl),
            λ _. inside,
          );
        }
    | inr (walk, is) ↦
        let outside : in_tree r ≡ false = rw is in
        record {
          is_controller = (λ q. absurd (cc), λ q. absurd (nc q));
          is_target = (λ q. absurd (cc), λ q. absurd (nt q.1));
          is_in_tree = (
            λ q. absurd (cc),
            λ q. absurd (cc ((is_owned-iff_Descends o es fuel e.pid false walk).1 q.2)),
          );
        }
  ]

  -- The role that one round of the loop gives is right.
  pub role_of-IsRight :
      (fuel : ℕ) (e : Entry F) {r : Role} → role_of o es fuel e ≡ some r → IsRight e.pid r
  role_of-IsRight fuel e {r} h = elim (ℕ_discrete e.pid o.controller_pid) [
    | yes c ↦
        let is : r ≡ controller = cc (role_of_controller fuel e c) in
        record {
          is_controller = (λ _. c, λ _. is);
          is_target = (λ q. absurd (cc), λ q. absurd (q.0 c));
          is_in_tree = (λ q. absurd (cc), λ q. absurd (q.0 c));
        }
    | no nc ↦ elim (ℕ_discrete o.target_pid 0) [
      | yes z ↦ IsRight-walk fuel e nc (λ s. s.0 z) h
      | no nz ↦ elim (ℕ_discrete e.pid o.target_pid) [
        | yes t ↦
            let is : r ≡ target = cc (role_of_target fuel e nc nz t) in
            record {
              is_controller = (λ q. absurd (cc), λ q. absurd (nc q));
              is_target = (λ _. (nc, (nz, t)), λ _. is);
              is_in_tree = (λ q. absurd (cc), λ q. absurd (q.1 (nz, t)));
            }
        | no nt ↦ IsRight-walk fuel e nc (λ s. nt s.1) h
      ]
    ]
  ]
