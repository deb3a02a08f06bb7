-- ===== src/Postgres/Tokens.antt =====
-- internal/repository/postgres/refresh_token_repo.go.
use pingerus.Base.{
  suc, Bool, true, false, not, ◌&&◌, Option, none, some, ◌∷◌, ltb, find?, modify, exists,
  if◌then◌else◌,
}
use pingerus.Base.Int.{ℤ, pos, int_eq}
use pingerus.Text.{Text, text_eq}
use pingerus.World.{Op, background, statement, map_error, wrapping}
use pingerus.World.Errors.{
  Error, driver, sentinel, wrap, not_found, no_rows, pgx5_error, Result, ok, err,
}
use pingerus.World.Rows.{Time, RefreshToken, Tables}

-- qRTCreate; the user must exist (REFERENCES users).
unfoldable pub insert_row : RefreshToken → Time → Tables → Result ℤ × Tables
insert_row r at t =
    if exists (λ u. int_eq u.id r.user_id) t.users
    then (ok (pos t.token_seq), record t { tokens = row ∷ t.tokens; token_seq = suc t.token_seq })
    else (err (driver (pgx5_error 23503)), t)
  where
    row : RefreshToken
    row = record r { id = pos t.token_seq; revoked = false }

-- The WHERE clause of qRTFindValid.
unfoldable pub is_valid : Text → Time → RefreshToken → Bool
is_valid hash at r = text_eq r.token_hash hash && not r.revoked && ltb at r.expires_at

abbrev found {ℓ} : {A : Type ℓ} → Option A → Result A
found none = err (driver no_rows)
found (some a) = ok a

-- qRTFindValid
unfoldable pub select_valid : Text → Time → Tables → Result RefreshToken × Tables
select_valid hash at t = (found (find? (is_valid hash at) t.tokens), t)

abbrev pub revoke_row : RefreshToken → RefreshToken
revoke_row r = record r { revoked = true }

-- qRTRevoke
unfoldable pub update_revoked : Text → Time → Tables → Result (Unit {0}) × Tables
update_revoked hash at t =
    (ok tt, record t { tokens = modify (λ r. text_eq r.token_hash hash) revoke_row t.tokens })

unfoldable pub create : RefreshToken → Op ℤ
unfolding statement insert_row
create r = statement background (insert_row r)

-- err.Error() == "no rows in result set": the text of pgx.ErrNoRows itself.
abbrev find_error : Error → Error
find_error (driver no_rows) = sentinel not_found
find_error e = wrap "find valid refresh" e

unfoldable pub find_valid : Text → Op RefreshToken
unfolding statement map_error select_valid
find_valid hash = map_error find_error (statement background (select_valid hash))

unfoldable pub revoke : Text → Op (Unit {0})
unfolding statement wrapping update_revoked
revoke hash = wrapping "revoke refresh" (statement background (update_revoked hash))
