-- ===== src/Process/Ownership/Classify.antt =====
-- `Classify` of internal/process/ownership.go on a whole snapshot.
use browser_analysis.Prelude.{
  ℕ, ◌<◌, ◌≡◌, refl, ap, ◌≢◌, ◌↔◌, ◌⊎◌, inl, inr, Bool, true, List, [], ◌∷◌, some, map, arith,
  Option-cases, Bool-cases, if◌then◌else◌, All,
}
use browser_analysis.Process.{Role, Entry, Snapshot, unknown, browser, renderer}
use browser_analysis.Process.Ownership.{
  Ownership, by_pid, is_owned, is_chromium_name, parent_is_chromium, owned_role, role_of,
  classify_entries, classify,
}
use browser_analysis.Process.Ownership.Walk.{is_owned_total}
use browser_analysis.Process.Ownership.Roles.{IsRight, role_of-IsRight, in_tree}

-- An entry with its role forgotten.
abbrev pub unlabelled : {F : Type 0} → Entry F → Entry F
unlabelled e = record e { role = unknown }

module _ {F : Type 0} (o : Ownership) (table : List (Entry F)) (fuel : ℕ) where
  entries_cons :
      (e : Entry F) (es : List (Entry F)) {out : List (Entry F)}
      → classify_entries o table fuel (e ∷ es) ≡ some out
      → (r : Role) × (done : List (Entry F)) × (role_of o table fuel e ≡ some r)
        × (classify_entries o table fuel es ≡ some done)
        × (out ≡ record e { role = r } ∷ done)
  unfolding classify_entries
  entries_cons e es h = elim (Option-cases (role_of o table fuel e)) [
    | inl m ↦ absurd (ground arith)
    | inr (r, p) ↦ elim (Option-cases (classify_entries o table fuel es)) [
      | inl m ↦ absurd (ground arith)
      | inr (done, q) ↦ (r, done, p, q, ground arith)
    ]
  ]

  entries-IsRight :
      (es : List (Entry F)) {out : List (Entry F)}
      → classify_entries o table fuel es ≡ some out
      → All (λ e. IsRight o table e.pid e.role) out
  unfolding classify_entries
  entries-IsRight [] {out} h = let is : [] ≡ out = cc h in rw (← is) tt
  entries-IsRight (e ∷ es) h =
      let (r, done, p, q, is) = entries_cons e es h in
      rw is (role_of-IsRight o table fuel e p, entries-IsRight es q)

  entries-unlabelled :
      (es : List (Entry F)) {out : List (Entry F)}
      → classify_entries o table fuel es ≡ some out
      → map unlabelled out ≡ map unlabelled es
  unfolding classify_entries
  entries-unlabelled [] {out} h = let is : [] ≡ out = cc h in rw (← is)
  entries-unlabelled (e ∷ es) h =
      let (r, done, p, q, is) = entries_cons e es h in
      rw is (ap (◌∷◌ (unlabelled e)) (entries-unlabelled es q))

  role_of_total :
      (e : Entry F) {b : Bool}
      → is_owned o table fuel e.pid ≡ some b
      → (r : Role) × (role_of o table fuel e ≡ some r)
  unfolding role_of
  role_of_total e {b} h = elim (Option-cases (role_of o table fuel e)) [
    | inl m ↦ absurd (ground arith)
    | inr found ↦ found
  ]

  entries_total :
      (rank : ℕ → ℕ)
      → ((pid : ℕ) (e : Entry F) → pid ≢ 0 → by_pid table pid ≡ some e → rank e.ppid < rank pid)
      → (es : List (Entry F)) → All (λ e. rank e.pid < fuel) es
      → (out : List (Entry F)) × (classify_entries o table fuel es ≡ some out)
  unfolding classify_entries
  entries_total rank falls [] h = ([], refl)
  entries_total rank falls (e ∷ es) (low, rest) =
      let (b, w) = is_owned_total o table rank falls fuel e.pid low in
      let (r, p) = role_of_total e w in
      let (done, q) = entries_total rank falls es rest in
      (record e { role = r } ∷ done, rw (classify_entries, p, q))

module _ {F : Type 0} (o : Ownership) (fuel : ℕ) (snap : Snapshot F) where
  classify_inv :
      {out : Snapshot F}
      → classify o fuel snap ≡ some out
      → (classify_entries o snap.entries fuel snap.entries ≡ some out.entries)
        × (out.captured_at ≡ snap.captured_at)
  unfolding classify
  classify_inv h = ground arith

  -- After `Classify` every process has the right role: `controller` exactly at the controller's PID,
  -- `target` exactly at a separate target's PID, and one of the browser roles or `aux` exactly at
  -- the other processes that descend from the controller by the parents in the snapshot.
  pub classify-IsRight :
      {out : Snapshot F}
      → classify o fuel snap ≡ some out
      → All (λ e. IsRight o snap.entries e.pid e.role) out.entries
  classify-IsRight h = entries-IsRight o snap.entries fuel snap.entries (classify_inv h).0

  -- `Classify` changes nothing but the roles: capture time, PIDs, names and measurements stay, in
  -- their order.
  pub classify_keeps :
      {out : Snapshot F}
      → classify o fuel snap ≡ some out
      → (map unlabelled out.entries ≡ map unlabelled snap.entries)
        × (out.captured_at ≡ snap.captured_at)
  classify_keeps h =
      let (e, t) = classify_inv h in (entries-unlabelled o snap.entries fuel snap.entries e, t)

  -- If the recorded parents are ranked, each below its child, `Classify` returns, once the fuel is
  -- above every rank.
  pub classify_total :
      (rank : ℕ → ℕ)
      → ((pid : ℕ) (e : Entry F)
          → pid ≢ 0
          → by_pid snap.entries pid ≡ some e
          → rank e.ppid < rank pid)
      → All (λ e. rank e.pid < fuel) snap.entries
      → (out : Snapshot F) × (classify o fuel snap ≡ some out)
  unfolding classify
  classify_total rank falls low =
      let (done, p) = entries_total o snap.entries fuel rank falls snap.entries low in
      (record snap { entries = done }, rw (classify, p))

-- Some entry is recorded under the PID, and its name looks like Chromium.
abbrev pub IsChromiumPid : {F : Type 0} → List (Entry F) → ℕ → Type 0
IsChromiumPid {F} table pid =
    (p : Entry F) × (by_pid table pid ≡ some p) × (is_chromium_name p.name ≡ true)

module _ {F : Type 0} (o : Ownership) (table : List (Entry F)) (fuel : ℕ) where
  parent_is_chromium_inv :
      (ppid : ℕ) → parent_is_chromium table ppid ≡ true → IsChromiumPid table ppid
  unfolding parent_is_chromium
  parent_is_chromium_inv ppid h = elim (Option-cases (by_pid table ppid)) [
    | inl m ↦ absurd (ground arith)
    | inr (p, f) ↦ (p, f, ground arith)
  ]

  parent_is_chromium_pid :
      (ppid : ℕ) → IsChromiumPid table ppid → parent_is_chromium table ppid ≡ true
  unfolding parent_is_chromium
  parent_is_chromium_pid ppid (p, f, c) = ground arith

  role_of_chromium :
      (e : Entry F) {r : Role}
      → is_chromium_name e.name ≡ true
      → role_of o table fuel e ≡ some r
      → in_tree r ≡ true
      → r ≡ (if parent_is_chromium table e.ppid then renderer else browser)
  unfolding role_of owned_role
  role_of_chromium e c h i = ground arith

  -- A process of the controller's tree whose name looks like Chromium is a renderer exactly if its
  -- parent's name does too, and otherwise a browser. It is never put down as `gpu` or `utility`,
  -- whatever its name says: the refinement that the source's comment announces is not reached.
  pub chromium_child_renderer :
      (e : Entry F) {r : Role}
      → is_chromium_name e.name ≡ true
      → role_of o table fuel e ≡ some r
      → in_tree r ≡ true
      → ((r ≡ renderer) ↔ IsChromiumPid table e.ppid) × ((r ≡ renderer) ⊎ (r ≡ browser))
  chromium_child_renderer e {r} c h i =
      let is = role_of_chromium e c h i in
      elim (Bool-cases (parent_is_chromium table e.ppid)) [
        | inl up ↦
            let red : r ≡ renderer = ground (arith, is) in
            ((λ _. parent_is_chromium_inv e.ppid up, λ _. red), inl red)
        | inr top ↦
            let top_role : r ≡ browser = ground (arith, is) in
            ((λ q. absurd (cc), λ q. absurd (cc (parent_is_chromium_pid e.ppid q))), inr top_role)
      ]
