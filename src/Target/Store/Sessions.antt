-- ===== src/Target/Store/Sessions.antt =====
-- Sessions of target/backend/store.go: what is read back of one.
use browser_analysis.Prelude.{
  ℕ, ◌+◌, ◌/◌, ◌*◌, ◌≡◌, refl, ap, ◌∙◌, inr, true, [], ◌∷◌, ◌++◌, none, some, arith,
}
use browser_analysis.Prelude.Text.{codes, eq_text, eq_text_iff}
use browser_analysis.Prelude.Double.{Double}
use browser_analysis.Target.Tables.{Tables, SessionRow, insert_session, find_session}
use browser_analysis.Target.Store.{
  Sql, Store, create_session, get_session, scan_row, read_session, unique_id,
}
use browser_analysis.Target.Store.Laws.{IsSqlite}
use browser_analysis.Target.Store.RoundTrip.{IsAnswering, answered, find-append}

insert_session-found :
    {F : Type 0} (row : SessionRow) (t u : Tables F)
    → insert_session row t ≡ some u
    → (find_session row.id t ≡ none) × (u ≡ record t { sessions = t.sessions ++ row ∷ [] })
unfolding insert_session find_session
insert_session-found row t u h = ground arith

-- A time to the second.
abbrev pub second : ℕ → ℕ
second t = t / 1_000_000_000 * 1_000_000_000

module _ {F W : Type 0} ⦃d : Double F⦄ (sql : Sql F W) (laws : IsSqlite sql) where
  inserted-find :
      (row : SessionRow) (w : W)
      → (sql.exec (insert_session row) w).0 ≡ none
      → find_session row.id (laws.view (sql.exec (insert_session row) w).1) ≡ some row
  unfolding find_session
  inserted-find row w ok =
      let t = laws.view w in
      let (new, added) = insert_session-found row t _ (laws.exec_ok (insert_session row) w ok).0 in
      let same : eq_text row.id row.id ≡ true = (eq_text_iff row.id row.id).1 refl in
      ap (find_session row.id) added
      ∙ find-append (λ r. eq_text r.id row.id) t.sessions (row ∷ []) new
      ∙ ground (arith, same)

  get_session-found :
      (answers : IsAnswering sql) (row : SessionRow) (s : Store W)
      → find_session row.id (laws.view s.db) ≡ some row
      → get_session sql row.id s ≡ read_session sql (inr row)
  unfolding get_session scan_row
  get_session-found answers row s found =
      rw (answered sql laws answers (find_session row.id) s.db) (rw found refl)

  -- With queries that do not fail, a session that `CreateSession` gives without an error is what
  -- `GetSession` then reads under its identifier, its two times being cut to the second.
  pub session_reads_back :
      (answers : IsAnswering sql) (ttl : ℕ) (s : Store W)
      → let (made, err, s') = create_session sql ttl s in
        err ≡ none
        → get_session sql made.id s'
          ≡ inr (record {
            id = made.id;
            created_at = second made.created_at;
            expires_at = second made.expires_at;
          })
  unfolding create_session read_session
  session_reads_back answers ttl s ok =
      let (id, s1) = unique_id sql (codes "sess") s in
      let now = sql.clock s1.db in
      let row : SessionRow = record {
        id = id;
        created_at = sql.format now;
        expires_at = sql.format (now + ttl);
      } in
      get_session-found answers row _ (inserted-find row s1.db ok)
      ∙ ground (arith, laws.to_second now, laws.to_second (now + ttl))
