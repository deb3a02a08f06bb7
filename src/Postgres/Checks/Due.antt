-- ===== src/Postgres/Checks/Due.antt =====
-- internal/repository/postgres/check_repo.go: FetchDue, which takes the checks that are due and moves
-- their next run on, in one transaction.
use pingerus.Base.{
  ℕ, ◌+◌, ◌*◌, Bool, ◌&&◌, List, [], ◌∷◌, map, leb, exists, select, take, sort_by, modify,
}
use pingerus.Base.Int.{ℤ, int_eq, limit_or}
use pingerus.World.{
  Op, with_tx, statement, begin, commit, deferring_rollback, wrapping, pure, ◌>>=◌, ◌>>◌,
}
use pingerus.World.Errors.{Result, ok}
use pingerus.World.Rows.{Time, Check, CheckRow, Tables}
use pingerus.Postgres.Checks.{second, scan_full}

-- The WHERE clause of qFetchDue.
abbrev pub is_due : Time → CheckRow → Bool
is_due at r = r.active && leb r.next_run at

abbrev pub earlier : CheckRow → CheckRow → Bool
earlier a b = leb a.next_run b.next_run

unfoldable pub due_rows : ℕ → Time → List CheckRow → List CheckRow
due_rows limit at rows = take limit (sort_by earlier (select (is_due at) rows))

-- qFetchDue
unfoldable pub select_due : ℕ → Time → Tables → Result (List CheckRow) × Tables
unfolding due_rows
select_due limit at t = (ok (due_rows limit at t.checks), t)

abbrev pub bump_row : Time → CheckRow → CheckRow
bump_row at r = record r { next_run = at + r.interval_sec * second; updated_at = at }

abbrev pub among : List CheckRow → CheckRow → Bool
among rows r = exists (λ x. int_eq x.id r.id) rows

-- qBumpNextRun
unfoldable pub bump_rows : List CheckRow → Time → Tables → Result (Unit {0}) × Tables
bump_rows rows at t = (ok tt, record t { checks = modify (among rows) (bump_row at) t.checks })

-- With no row found the transaction is left to the deferred rollback.
abbrev pub take_rows : List CheckRow → Op (List Check)
take_rows [] = pure []
take_rows (r ∷ rs) = do
  wrapping "bump next_run" (statement with_tx (bump_rows (r ∷ rs)))
  wrapping "commit" commit
  pure (map scan_full (r ∷ rs))

unfoldable pub fetch_due : ℤ → Op (List Check)
unfolding select_due bump_rows scan_full statement begin commit deferring_rollback wrapping ◌>>=◌
fetch_due limit = do
  wrapping "begin" begin
  deferring_rollback (do
    rows ← wrapping "fetch due" (statement with_tx (select_due (limit_or 100 limit)))
    take_rows rows)
