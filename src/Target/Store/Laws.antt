-- ===== src/Target/Store/Laws.antt =====
-- What target/backend/store.go relies on in database/sql and SQLite.
use browser_analysis.Prelude.{ℕ, ◌/◌, ◌*◌, ◌≡◌, inr, Bool, List, Option, none, some, count_if}
use browser_analysis.Workflow.{GoError}
use browser_analysis.Target.Tables.{Tables}
use browser_analysis.Target.Store.{Sql}

-- `view` is what the connection sees, `saved` the tables at the start of an open transaction. A query
-- that gives rows gives those of the tables; a statement that gives an error has done nothing; what a
-- failed commit leaves is what was there before the transaction. `arranged` also says that no error
-- ends the iteration over the rows of a result before its last, which the loops of the store would not
-- notice. A time is kept to the second.
pub record IsSqlite {F W : Type 0} (sql : Sql F W) : Type 1 where
  pub view : W → Tables F
  pub saved : W → Option (Tables F)
  pub queried :
      {A : Type 0} (q : Tables F → A) (w : W) (x : A) → sql.query q w ≡ inr x → x ≡ q (view w)
  pub exec_ok :
      (s : Tables F → Option (Tables F)) (w : W)
      → (sql.exec s w).0 ≡ none
      → let w' = (sql.exec s w).1 in (s (view w) ≡ some (view w')) × (saved w' ≡ saved w)
  pub exec_bad :
      (s : Tables F → Option (Tables F)) (w : W) (e : GoError)
      → (sql.exec s w).0 ≡ some e
      → let w' = (sql.exec s w).1 in (view w' ≡ view w) × (saved w' ≡ saved w)
  pub begin_ok :
      (w : W)
      → (sql.begin w).0 ≡ none
      → let w' = (sql.begin w).1 in (view w' ≡ view w) × (saved w' ≡ some (view w))
  pub begin_bad :
      (w : W) (e : GoError)
      → (sql.begin w).0 ≡ some e
      → let w' = (sql.begin w).1 in (view w' ≡ view w) × (saved w' ≡ saved w)
  pub commit_ok :
      (w : W)
      → (sql.commit w).0 ≡ none
      → let w' = (sql.commit w).1 in (view w' ≡ view w) × (saved w' ≡ none)
  pub commit_bad :
      (w : W) (e : GoError) (t : Tables F)
      → (sql.commit w).0 ≡ some e
      → saved w ≡ some t
      → let w' = (sql.commit w).1 in (view w' ≡ t) × (saved w' ≡ none)
  pub rollback_open :
      (w : W) (t : Tables F)
      → saved w ≡ some t
      → let w' = sql.rollback w in (view w' ≡ t) × (saved w' ≡ none)
  pub rollback_done :
      (w : W) → saved w ≡ none → let w' = sql.rollback w in (view w' ≡ view w) × (saved w' ≡ none)
  pub arranged :
      {A : Type 0} (p : A → Bool) (w : W) (xs : List A)
      → count_if p (sql.arrange w xs) ≡ count_if p xs
  pub to_second : (t : ℕ) → sql.parse (sql.format t) ≡ t / 1_000_000_000 * 1_000_000_000
