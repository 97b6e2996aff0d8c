-- ===== src/System/Tree.antt =====
-- The memory of a process tree in internal/system/collector_windows.go.
use browser_analysis.Prelude.{
  ◌≤◌, count_if, ◌==◌, ==_iff, if◌then◌else◌, Bool-cases, subst, inl, inr, sym, ap, ◌∙◌, Bool, true,
  false, ◌≢◌, ◌+◌, ◌%◌, none, some, Option, ℕ, ◌<◌, ◌≡◌, refl, List, [], ◌∷◌, All, arith,
}
use browser_analysis.Prelude.Word.{u64_mod, add64}
use browser_analysis.Process.{Entry}
use browser_analysis.Process.Ownership.{by_pid, is_owned}
use browser_analysis.Process.Ownership.Walk.{Descends, is_owned-iff_Descends, is_owned_total}
use browser_analysis.System.{put_process, processes, rooted_at, add_tree, memory_at, tree_rss}

-- The sum of the memory of those processes of a list whose parent is the root or descends from it.
pub data Summed {F : Type 0} (root : ℕ) (procs : List (Entry F)) : List (Entry F) → ℕ → Type 0 where
  none_left : Summed root procs [] 0
  inside :
      {e : Entry F} {es : List (Entry F)} {n m : ℕ}
      → Descends (rooted_at root) procs e.ppid
      → Summed root procs es n
      → m ≡ e.rss_bytes + n
      → Summed root procs (e ∷ es) m
  outside :
      {e : Entry F} {es : List (Entry F)} {n : ℕ}
      → ¬ Descends (rooted_at root) procs e.ppid
      → Summed root procs es n
      → Summed root procs (e ∷ es) n

module _ {F : Type 0} (root : ℕ) (procs : List (Entry F)) (rank : ℕ → ℕ)
    (falls : (pid : ℕ) (e : Entry F) → pid ≢ 0 → by_pid procs pid ≡ some e → rank e.ppid < rank pid)
    (fuel : ℕ) where
  -- What is reached from a total.
  abbrev Reaches : List (Entry F) → ℕ → Type 0
  Reaches es total =
      (n : ℕ) × Summed root procs es n
      × (add_tree root procs fuel es total ≡ some ((total + n) % u64_mod))

  add_one :
      (e : Entry F) (es : List (Entry F)) (total : ℕ) (b : Bool)
      → is_owned (rooted_at root) procs fuel e.ppid ≡ some b
      → total < u64_mod
      → ((t : ℕ) → t < u64_mod → Reaches es t)
      → Reaches (e ∷ es) total
  unfolding add_tree
  add_one e es total true walked small later =
      let (n, summed, reached) = later (add64 total e.rss_bytes) (omega arith) in
      (
        e.rss_bytes + n,
        inside ((is_owned-iff_Descends (rooted_at root) procs fuel e.ppid true walked).0 refl)
            summed refl,
        rw (walked, add_tree) (reached ∙ ap some (omega arith)),
      )
  add_one e es total false walked small later =
      let (n, summed, reached) = later total small in
      (
        n,
        outside
            (λ d. cc ((is_owned-iff_Descends (rooted_at root) procs fuel e.ppid false walked).1 d))
            summed,
        rw (walked, add_tree) reached,
      )

  add_tree_lem :
      (es : List (Entry F)) (total : ℕ)
      → All (λ (e : Entry F). rank e.ppid < fuel) es
      → total < u64_mod
      → Reaches es total
  unfolding add_tree
  add_tree_lem [] total h small = (0, none_left, ap some (omega arith))
  add_tree_lem (e ∷ es) total h small =
      let (b, walked) = is_owned_total (rooted_at root) procs rank falls fuel e.ppid h.0 in
      add_one e es total b walked small (λ t lt. add_tree_lem es t h.1 lt)

module _ {F : Type 0} where
  abbrev pub rows_of : ℕ → List (Entry F) → ℕ
  rows_of pid ps = count_if (λ (p : Entry F). p.pid == pid) ps

  put_process-other :
      (e : Entry F) (ps : List (Entry F)) (pid : ℕ)
      → e.pid ≢ pid
      → rows_of pid (put_process e ps) ≡ rows_of pid ps
  unfolding put_process
  put_process-other e [] pid h = ground (arith, ==_iff e.pid pid)
  put_process-other e (p ∷ ps) pid h =
      ground (
        arith,
        ==_iff e.pid pid,
        ==_iff p.pid pid,
        ==_iff p.pid e.pid,
        put_process-other e ps pid h,
      )

  put_process-same :
      (e : Entry F) (ps : List (Entry F))
      → rows_of e.pid ps ≤ 1
      → rows_of e.pid (put_process e ps) ≤ 1
  unfolding put_process
  put_process-same e [] h = ground (arith, ==_iff e.pid e.pid)
  put_process-same e (p ∷ ps) h = ground (arith, ==_iff e.pid e.pid, put_process-same e ps)

  put_process-once :
      (e : Entry F) (ps : List (Entry F))
      → ((pid : ℕ) → rows_of pid ps ≤ 1)
      → (pid : ℕ) → rows_of pid (put_process e ps) ≤ 1
  put_process-once e ps h pid = elim (Bool-cases (e.pid == pid)) [
    | inl hit ↦
        subst (λ k. rows_of k (put_process e ps) ≤ 1) ((==_iff e.pid pid).0 hit)
          (put_process-same e ps (h e.pid))
    | inr miss ↦
        omega
          (arith, h pid, put_process-other e ps pid (λ same. cc (miss, (==_iff e.pid pid).1 same)))
  ]

  processes-once :
      (ps rows : List (Entry F))
      → ((pid : ℕ) → rows_of pid ps ≤ 1)
      → (pid : ℕ) → rows_of pid (processes ps rows) ≤ 1
  unfolding processes
  processes-once ps [] h = h
  processes-once ps (e ∷ es) h = processes-once (put_process e ps) es (put_process-once e ps h)

  by_pid-absent : (ps : List (Entry F)) (pid : ℕ) → rows_of pid ps ≡ 0 → by_pid ps pid ≡ none
  unfolding by_pid
  by_pid-absent [] pid h = refl
  by_pid-absent (p ∷ ps) pid h = ground (arith, by_pid-absent ps pid)

  by_pid-put_process :
      (e : Entry F) (ps : List (Entry F)) (pid : ℕ)
      → rows_of e.pid ps ≤ 1
      → by_pid (put_process e ps) pid ≡ (if e.pid == pid then some e else by_pid ps pid)
  unfolding by_pid put_process
  by_pid-put_process e [] pid h = refl
  by_pid-put_process e (p ∷ ps) pid h = ground (
    arith,
    ==_iff e.pid pid,
    ==_iff p.pid pid,
    ==_iff p.pid e.pid,
    by_pid-absent ps pid,
    by_pid-put_process e ps pid,
  )

  -- What a later row for a PID leaves of an earlier one.
  abbrev pub later_of : Option (Entry F) → Option (Entry F) → Option (Entry F)
  later_of early none = early
  later_of early (some e) = some e

  later_of-none : (o : Option (Entry F)) → later_of none o ≡ o
  later_of-none none = refl
  later_of-none (some e) = refl

  later_of-if :
      (b : Bool) (e : Entry F) (o later : Option (Entry F))
      → later_of (if b then some e else o) later
        ≡ later_of o (elim later [ some l ↦ some l | none ↦ if b then some e else none ])
  later_of-if b e o (some l) = refl
  later_of-if true e o none = refl
  later_of-if false e o none = refl

  processes-by_pid :
      (ps rows : List (Entry F)) (pid : ℕ)
      → ((k : ℕ) → rows_of k ps ≤ 1)
      → by_pid (processes ps rows) pid ≡ later_of (by_pid ps pid) (by_pid rows pid)
  unfolding processes by_pid
  processes-by_pid ps [] pid h = refl
  processes-by_pid ps (e ∷ es) pid h =
      processes-by_pid (put_process e ps) es pid (put_process-once e ps h)
      ∙ ap (λ o. later_of o (by_pid es pid)) (by_pid-put_process e ps pid (h e.pid))
      ∙ later_of-if (e.pid == pid) e (by_pid ps pid) (by_pid es pid)

  -- Of the rows of a snapshot there is one for each PID, the last.
  processes-last :
      (rows : List (Entry F)) (pid : ℕ) → by_pid (processes [] rows) pid ≡ by_pid rows pid
  unfolding by_pid
  processes-last rows pid =
      processes-by_pid [] rows pid (λ k. omega arith) ∙ later_of-none (by_pid rows pid)

  rss_of : Option (Entry F) → ℕ
  rss_of o = elim o [ none ↦ 0 | some e ↦ e.rss_bytes ]

-- If the recorded parents are ranked, each parent below its child, the fuel is above the ranks of all
-- parents, and the root's memory fits in 64 bits, `TreeRSS` returns the memory of the root and of
-- exactly those processes that descend from it, as a sum modulo 2^64. The processes are those of the
-- snapshot, each PID once, and of several rows with one PID it is the last.
pub tree_rss_sum :
    {F : Type 0} (root : ℕ) (rows : List (Entry F)) (rank : ℕ → ℕ) (fuel : ℕ)
    → ((pid : ℕ) (e : Entry F) → pid ≢ 0 → by_pid rows pid ≡ some e → rank e.ppid < rank pid)
    → All (λ (e : Entry F). rank e.ppid < fuel) (processes [] rows)
    → memory_at rows root < u64_mod
    → (n : ℕ) × Summed root (processes [] rows) (processes [] rows) n
      × (tree_rss root rows fuel ≡ some ((memory_at rows root + n) % u64_mod))
      × ((pid : ℕ) → rows_of pid (processes [] rows) ≤ 1)
      × ((pid : ℕ) → by_pid (processes [] rows) pid ≡ by_pid rows pid)
unfolding tree_rss rss_of
tree_rss_sum root rows rank fuel falls ranked small =
    let at_root : memory_at (processes [] rows) root ≡ memory_at rows root =
      ap rss_of (processes-last rows root) in
    let (n, summed, total) =
      add_tree_lem root (processes [] rows) rank
        (λ pid e nz found. falls pid e nz (sym (processes-last rows pid) ∙ found)) fuel
        (processes [] rows) (memory_at (processes [] rows) root) ranked
        (omega (arith, small, at_root)) in
    (
      n,
      summed,
      total ∙ ap (λ k. some ((k + n) % u64_mod)) at_root,
      processes-once [] rows (λ k. omega arith),
      processes-last rows,
    )
