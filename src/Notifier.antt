-- ===== src/Notifier.antt =====
-- internal/services/email-notifier: handler.go with the adapters of repo/adapters.go, and the function
-- that controller.go hands to the consumer. A panic in a handler is not modelled.
pub mod Smtp
pub mod Sending
pub mod Calls
pub mod Outcome
pub mod Messages
pub mod Clock
pub mod Controller
use pingerus.Base.{
  ℕ, ◌*◌, ◌/◌, ◌==◌, Bool, true, false, not, Option, none, some, List, [], ◌∷◌, ◌++◌, if◌then◌else◌,
}
use pingerus.Base.Int.{ℤ, pos, not_positive}
use pingerus.Text.{Text, codes, is_empty}
use pingerus.Text.Timestamp.{format_rfc3339}
use pingerus.World.{Op, now, raise, pure, wrapping, attempt, ◌>>=◌, ◌>>◌}
use pingerus.World.Errors.{message}
use pingerus.World.Rows.{Time, User, Check, Notification}
use pingerus.Postgres.Checks
use pingerus.Postgres.Checks.{second}
use pingerus.Postgres.Users
use pingerus.Postgres.Notifications
use pingerus.Notifier.Smtp.{Mailer, send}

-- StatusChange of handler.go
pub record StatusChange : Type 0 where
  pub check_id : ℤ
  pub old_status : Bool
  pub new_status : Bool
  pub at : Time

-- CheckReader.GetByID: the three fields that it copies.
unfoldable pub read_check : Check → Check
read_check c = record {
  id = c.id;
  user_id = c.user_id;
  name = [];
  url = c.url;
  interval = pos 0;
  active = false;
  last_status = none;
  next_run = 0;
  created_at = 0;
  updated_at = 0;
}

-- UserReader.GetByID: the two fields that it copies.
unfoldable pub read_user : User → User
read_user u = record { id = u.id; email = u.email; password = []; created_at = 0; updated_at = 0 }

-- %t
abbrev pub format_bool : Bool → Text
format_bool true = codes "true"
format_bool false = codes "false"

-- The two statuses with an arrow between them.
abbrev pub change_text : StatusChange → Text
change_text ev = format_bool ev.old_status ++ (codes " → " ++ format_bool ev.new_status)

-- buildEmail: the subject.
unfoldable pub subject_of : StatusChange → Text
subject_of ev = codes "Site status changed: " ++ change_text ev

-- buildEmail: the body, with the time that the clock shows.
unfoldable pub body_of : Text → StatusChange → Time → Text
unfolding format_rfc3339
body_of url ev at =
    codes "Hello!\n\nYour check ("
    ++ (url
        ++ (codes ") changed status: "
            ++ (change_text ev
                ++ (codes " at " ++ (format_rfc3339 (at / second) ++ codes ".\n\n— Pingerus")))))

abbrev pub notification_of : Check → User → Text → Time → Notification
notification_of chk u body at = record {
  id = pos 0;
  check_id = chk.id;
  user_id = u.id;
  type = codes "email";
  sent_at = at;
  payload = body;
}

-- ev.GetTs().AsTime(): an absent timestamp is the Unix epoch.
abbrev pub time_of : Option Time → Time
time_of none = 62135596800 * second
time_of (some t) = t

-- ts, or the present time if ts.IsZero().
unfoldable pub time_or_now : Time → Op Time
unfolding now
time_or_now ts = if ts == 0 then now else pure ts

abbrev pub same : Bool → Bool → Bool
same a b = if a then b else not b

module _ (m : Mailer) where
  -- HandleStatusChange, once the check and the user are there.
  unfoldable pub notify : StatusChange → Check → User → Op (Unit {0})
  unfolding subject_of body_of now wrapping attempt ◌>>=◌
  notify ev chk u = if is_empty u.email then raise (message "user has no email") else do
    at ← now
    wrapping "send email" (send m u.email (subject_of ev) (body_of chk.url ev at))
    sent ← now
    attempt (Notifications.create (notification_of chk u (body_of chk.url ev at) sent))
    pure tt

  -- Handler.HandleStatusChange
  unfoldable pub handle_status_change : StatusChange → Op (Unit {0})
  unfolding read_check read_user notify wrapping ◌>>=◌
  handle_status_change ev = do
    c ← wrapping "get check" (Checks.get_by_id ev.check_id)
    u ← wrapping "get user" (Users.get_by_id (read_check c).user_id)
    notify ev (read_check c) (read_user u)

  -- The rest of the function below, from the time of the event.
  unfoldable pub on_change_at : ℤ → Bool → Bool → Time → Op (Unit {0})
  unfolding time_or_now handle_status_change ◌>>=◌
  on_change_at check_id old_status new_status ts = do
    at ← time_or_now ts
    if same old_status new_status
        then pure tt
        else handle_status_change (record {
          check_id = check_id;
          old_status = old_status;
          new_status = new_status;
          at = at;
        })

  -- The function that Controller.Run gives to ProtoHandler, on the fields of pb.StatusChange.
  unfoldable pub on_status_change : ℤ → Bool → Bool → Option Time → Op (Unit {0})
  unfolding on_change_at
  on_status_change check_id old_status new_status ts =
      if not_positive check_id
      then pure tt
      else on_change_at check_id old_status new_status (time_of ts)
