-- ===== src/Postgres/Notifications.antt =====
-- internal/repository/postgres/notification_repo.go.
use pingerus.Base.{
  ℕ, suc, Bool, ◌&&◌, List, ◌∷◌, leb, ◌==◌, exists, select, take, sort_by, if◌then◌else◌,
}
use pingerus.Base.Int.{ℤ, pos, int_eq, limit_or}
use pingerus.World.{Op, background, statement, wrapping}
use pingerus.World.Errors.{driver, pgx5_error, Result, ok, err}
use pingerus.World.Rows.{Time, Notification, Tables}

-- qNotifInsert: the zero time is sent as NULL (nullTime), and COALESCE puts now() in its place.
unfoldable pub insert_row : Notification → Time → Tables → Result Notification × Tables
insert_row n at t =
    if exists (λ c. int_eq c.id n.check_id) t.checks && exists (λ u. int_eq u.id n.user_id) t.users
    then (
      ok row,
      record t { notifications = row ∷ t.notifications; notification_seq = suc t.notification_seq },
    )
    else (err (driver (pgx5_error 23503)), t)
  where
    row : Notification
    row = record n {
      id = pos t.notification_seq;
      sent_at = if n.sent_at == 0 then at else n.sent_at;
    }

unfoldable pub create : Notification → Op Notification
unfolding statement wrapping insert_row
create n = wrapping "insert notification" (statement background (insert_row n))

abbrev newer : Notification → Notification → Bool
newer a b = leb b.sent_at a.sent_at

-- qNotifByUser
unfoldable pub select_by_user : ℤ → ℕ → Time → Tables → Result (List Notification) × Tables
select_by_user user_id limit at t =
    (ok (take limit (sort_by newer (select (λ n. int_eq n.user_id user_id) t.notifications))), t)

unfoldable pub list_by_user : ℤ → ℤ → Op (List Notification)
unfolding statement wrapping select_by_user
list_by_user user_id limit =
    wrapping "query notifications"
      (statement background (select_by_user user_id (limit_or 50 limit)))
