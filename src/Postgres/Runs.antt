-- ===== src/Postgres/Runs.antt =====
-- internal/repository/postgres/run_repo.go.
use pingerus.Base.{ℕ, suc, Bool, List, ◌∷◌, leb, exists, select, take, sort_by, if◌then◌else◌}
use pingerus.Base.Int.{ℤ, pos, int_eq, limit_or}
use pingerus.World.{Op, Context, background, statement, wrapping}
use pingerus.World.Errors.{driver, pgx5_error, Result, ok, err}
use pingerus.World.Rows.{Time, Run, Tables}

-- qRunInsert; the check must exist (REFERENCES checks).
unfoldable pub insert_row : Run → Time → Tables → Result ℤ × Tables
insert_row r at t =
    if exists (λ c. int_eq c.id r.check_id) t.checks
    then (ok (pos t.run_seq), record t { runs = row ∷ t.runs; run_seq = suc t.run_seq })
    else (err (driver (pgx5_error 23503)), t)
  where
    row : Run
    row = record r { id = pos t.run_seq }

-- RunRepoImpl.Insert, in the transaction of the context if it has one.
unfoldable pub insert : Context → Run → Op ℤ
unfolding statement insert_row
insert c r = statement c (insert_row r)

abbrev newer : Run → Run → Bool
newer a b = leb b.timestamp a.timestamp

-- qRunsByCheck
unfoldable pub select_by_check : ℤ → ℕ → Time → Tables → Result (List Run) × Tables
select_by_check check_id limit at t =
    (ok (take limit (sort_by newer (select (λ r. int_eq r.check_id check_id) t.runs))), t)

unfoldable pub list_by_check : ℤ → ℤ → Op (List Run)
unfolding statement wrapping select_by_check
list_by_check check_id limit =
    wrapping "query runs" (statement background (select_by_check check_id (limit_or 50 limit)))
