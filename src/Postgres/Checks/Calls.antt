-- ===== src/Postgres/Checks/Calls.antt =====
-- What each call of the repository does to the world: the rows that it leaves and the row that it returns.
use pingerus.Base.{◌≡◌, not, some, arith, find?, select, modify, Option-cases, inl, inr, ◌⊎◌}
use pingerus.Base.Int.{ℤ}
use pingerus.World.{World, background, interact}
use pingerus.World.Errors.{Error, ok, err}
use pingerus.World.Laws.{db-interact}
use pingerus.World.Rows.{Check, CheckRow}
use pingerus.Postgres.Checks.{
  has_id, scan_full, set_status, get_by_id, list_by_user, update, delete,
}

-- A check that GetByID returns is the scan of the first row with the identifier; nothing is written.
pub record Loaded (id : ℤ) (w : World) (c : Check) : Type 0 where
  pub row : CheckRow
  pub stored : find? (has_id id) w.db.checks ≡ some row
  pub scanned : c ≡ scan_full row

pub db-get_by_id : (id : ℤ) (w : World) → (get_by_id id w).1.db ≡ w.db
unfolding get_by_id
db-get_by_id id w = ground (arith, db-interact w)

pub get_by_id-Loaded : (id : ℤ) (w : World) (c : Check) → (get_by_id id w).0 ≡ ok c → Loaded id w c
unfolding get_by_id
get_by_id-Loaded id w c e = elim (Option-cases (find? (has_id id) w.db.checks)) [
  | inl missing ↦ ground (arith, db-interact w)
  | inr (row, stored) ↦ record {
    row = row;
    stored = stored;
    scanned = ground (arith, db-interact w);
  }
]

pub checks-update :
    (c : Check) (w : World)
    → (((update background c w).0 ≡ ok tt)
        × ((update background c w).1.db ≡ record w.db {
          checks = modify (has_id c.id) (set_status c.last_status (interact w).1.clock) w.db.checks;
        }))
      ⊎ ((e : Error) × ((update background c w).0 ≡ err e) × ((update background c w).1.db ≡ w.db))
unfolding update
checks-update c w = ground (arith, db-interact w)

pub checks-delete :
    (id : ℤ) (w : World)
    → ((delete id w).1.db ≡ w.db)
      ⊎ (((delete id w).1.db.checks ≡ select (λ r. not (has_id id r)) w.db.checks)
          × ((delete id w).1.db.check_seq ≡ w.db.check_seq))
unfolding delete
checks-delete id w = ground (arith, db-interact w)

pub db-list_by_user : (user : ℤ) (w : World) → (list_by_user user w).1.db ≡ w.db
unfolding list_by_user
db-list_by_user user w = ground (arith, db-interact w)
