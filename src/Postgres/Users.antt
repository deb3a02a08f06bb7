-- ===== src/Postgres/Users.antt =====
-- internal/repository/postgres/user_repo.go.
use pingerus.Base.{
  ℕ, suc, Bool, true, false, not, ◌&&◌, modify, Option, none, some, ◌∷◌, ◌==◌, find?, exists,
  if◌then◌else◌,
}
use pingerus.Base.Int.{ℤ, pos, int_eq}
use pingerus.Text.{Text, text_eq}
use pingerus.World.{Op, background, statement, map_error, wrapping}
use pingerus.World.Errors.{
  Error, sentinel, driver, wrap, not_found, conflict, no_rows, pgx5_error, pgconn1_error, Result,
  ok, err,
}
use pingerus.World.Rows.{Time, User, Tables}

-- qUserInsert, with the UNIQUE constraint on the email.
unfoldable pub insert_row : Text → Text → Time → Tables → Result User × Tables
insert_row email password at t =
    if exists (λ u. text_eq u.email email) t.users
    then (err (driver (pgx5_error 23505)), t)
    else (ok row, record t { users = row ∷ t.users; user_seq = suc t.user_seq })
  where
    row : User
    row = record {
      id = pos t.user_seq;
      email = email;
      password = password;
      created_at = at;
      updated_at = at;
    }

abbrev found {ℓ} : {A : Type ℓ} → Option A → Result A
found none = err (driver no_rows)
found (some a) = ok a

-- qUserByID
unfoldable pub select_by_id : ℤ → Time → Tables → Result User × Tables
select_by_id id at t = (found (find? (λ u. int_eq u.id id) t.users), t)

-- qUserByEmail
unfoldable pub select_by_email : Text → Time → Tables → Result User × Tables
select_by_email email at t = (found (find? (λ u. text_eq u.email email) t.users), t)

-- errors.As(err, &pgErr) for the PgError of github.com/jackc/pgconn.
unfoldable pub as_pgconn1 : Error → Option ℕ
as_pgconn1 (driver (pgconn1_error code)) = some code
as_pgconn1 (wrap label e) = as_pgconn1 e
as_pgconn1 _ = none

abbrev insert_error : Error → Option ℕ → Error
insert_error e none = wrap "user insert" e
insert_error e (some code) = if code == 23505 then sentinel conflict else wrap "user insert" e

-- UserRepo.Create: the user as the row came back.
unfoldable pub create : User → Op User
unfolding statement map_error insert_row as_pgconn1
create u =
    map_error (λ e. insert_error e (as_pgconn1 e))
      (statement background (insert_row u.email u.password))

-- errors.Is(err, pgx.ErrNoRows)
unfoldable pub is_no_rows : Error → Bool
is_no_rows (driver no_rows) = true
is_no_rows (wrap label e) = is_no_rows e
is_no_rows _ = false

-- scanUser
unfoldable pub scan_error : Error → Error
unfolding is_no_rows
scan_error e = if is_no_rows e then sentinel not_found else wrap "scan user" e

unfoldable pub get_by_id : ℤ → Op User
unfolding statement map_error select_by_id scan_error
get_by_id id = map_error scan_error (statement background (select_by_id id))

unfoldable pub get_by_email : Text → Op User
unfolding statement map_error select_by_email scan_error
get_by_email email = map_error scan_error (statement background (select_by_email email))

-- The user of a row that qUserUpdate has changed.
abbrev pub updated_row : Text → Text → Time → User → User
updated_row email password at u = record u { email = email; password = password; updated_at = at }

-- qUserUpdate, with the UNIQUE constraint on the email.
unfoldable pub update_row : ℤ → Text → Text → Time → Tables → Result User × Tables
update_row id email password at t = elim (find? (λ u. int_eq u.id id) t.users) [
  | none ↦ (err (driver no_rows), t)
  | some u ↦
      if exists (λ v. text_eq v.email email && not (int_eq v.id id)) t.users
      then (err (driver (pgx5_error 23505)), t)
      else (
        ok (updated_row email password at u),
        record t { users = modify (λ v. int_eq v.id id) (updated_row email password at) t.users },
      )
]

-- UserRepo.Update: the user as the row came back.
unfoldable pub update : User → Op User
unfolding statement wrapping update_row
update u = wrapping "user update" (statement background (update_row u.id u.email u.password))
