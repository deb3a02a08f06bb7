-- ===== src/Notifier/Clock.antt =====
-- The notifier's handler and the clock.
use pingerus.Base.{◌==◌, ◌&&◌, Bool, Bool-cases, inl, inr, Option, arith}
use pingerus.Base.Int.{ℤ, not_positive}
use pingerus.Text.{Text, is_empty}
use pingerus.World.Errors.{ok, err, message}
use pingerus.World.Forward.{
  IsForward, now-IsForward, call-IsForward, take_mail-IsForward, statement-IsForward,
  bind-IsForward, map_error-IsForward, wrapping-IsForward, attempt-IsForward, lift-IsForward,
  if-IsForward,
}
use pingerus.World.Rows.{Time, Check, User, Mail, Notification}
use pingerus.Postgres.Checks
use pingerus.Postgres.Users
use pingerus.Postgres.Notifications
use pingerus.Notifier.{
  StatusChange, read_check, read_user, subject_of, body_of, notification_of, same, time_of,
  time_or_now, notify, handle_status_change, on_change_at, on_status_change,
}
use pingerus.Notifier.Smtp.{Mailer, mail_of, authenticate, send_tls, send_mail, send}

get_check-IsForward : (id : ℤ) → IsForward (Checks.get_by_id id)
unfolding Checks.get_by_id
get_check-IsForward id = record {
  later = λ w. (statement-IsForward (Checks.select_by_id id)).later w;
}

get_user-IsForward : (id : ℤ) → IsForward (Users.get_by_id id)
unfolding Users.get_by_id
get_user-IsForward id =
    map_error-IsForward Users.scan_error (statement-IsForward (Users.select_by_id id))

create-IsForward : (n : Notification) → IsForward (Notifications.create n)
unfolding Notifications.create
create-IsForward n =
    wrapping-IsForward "insert notification" (statement-IsForward (Notifications.insert_row n))

module _ (m : Mailer) where
  authenticate-IsForward : IsForward (authenticate m)
  unfolding authenticate
  authenticate-IsForward = record {
    later = λ w. elim (Bool-cases (m.auth && m.offers_auth w)) [
      | inl asked ↦ rw asked (call-IsForward.later w)
      | inr silent ↦ rw silent (omega arith)
    ];
  }

  send_tls-IsForward : (mail : Mail) → IsForward (send_tls m mail)
  unfolding send_tls
  send_tls-IsForward mail = bind-IsForward call-IsForward λ _. bind-IsForward call-IsForward λ _.
      bind-IsForward authenticate-IsForward λ _. bind-IsForward call-IsForward λ _.
        bind-IsForward call-IsForward λ _.
          bind-IsForward call-IsForward
            λ _. bind-IsForward call-IsForward λ _. take_mail-IsForward mail

  send_mail-IsForward : (mail : Mail) → IsForward (send_mail m mail)
  unfolding send_mail
  send_mail-IsForward mail = bind-IsForward (take_mail-IsForward mail) λ _. call-IsForward

  send-IsForward : (recipient subject body : Text) → IsForward (send m recipient subject body)
  unfolding send
  send-IsForward recipient subject body =
      let mail = mail_of m recipient subject body in
      if-IsForward m.use_tls (send_tls-IsForward mail) (send_mail-IsForward mail)

  notify-IsForward : (ev : StatusChange) (chk : Check) (u : User) → IsForward (notify m ev chk u)
  unfolding notify
  notify-IsForward ev chk u =
      if-IsForward (is_empty u.email) (lift-IsForward (err (message "user has no email"))) (
        bind-IsForward now-IsForward λ at.
          bind-IsForward
            (wrapping-IsForward "send email"
              (send-IsForward u.email (subject_of ev) (body_of chk.url ev at)))
            λ _. bind-IsForward now-IsForward λ sent.
              bind-IsForward
                (attempt-IsForward
                  (create-IsForward (notification_of chk u (body_of chk.url ev at) sent)))
                λ _. lift-IsForward (ok tt))

  handle_status_change-IsForward : (ev : StatusChange) → IsForward (handle_status_change m ev)
  unfolding handle_status_change
  handle_status_change-IsForward ev =
      bind-IsForward (wrapping-IsForward "get check" (get_check-IsForward ev.check_id)) λ c.
        bind-IsForward (wrapping-IsForward "get user" (get_user-IsForward (read_check c).user_id))
          λ u. notify-IsForward ev (read_check c) (read_user u)

  time_or_now-IsForward : (t : Time) → IsForward (time_or_now t)
  unfolding time_or_now
  time_or_now-IsForward t = if-IsForward (t == 0) now-IsForward (lift-IsForward (ok t))

  on_change_at-IsForward :
      (id : ℤ) (old new : Bool) (t : Time) → IsForward (on_change_at m id old new t)
  unfolding on_change_at
  on_change_at-IsForward id old new t = bind-IsForward (time_or_now-IsForward t) λ at.
      if-IsForward (same old new) (lift-IsForward (ok tt)) (
        handle_status_change-IsForward
          (record { check_id = id; old_status = old; new_status = new; at = at }))

  pub on_status_change-IsForward :
      (id : ℤ) (old new : Bool) (ts : Option Time) → IsForward (on_status_change m id old new ts)
  unfolding on_status_change
  on_status_change-IsForward id old new ts =
      if-IsForward (not_positive id) (lift-IsForward (ok tt))
        (on_change_at-IsForward id old new (time_of ts))
