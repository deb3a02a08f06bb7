-- ===== src/Notifier/Outcome.antt =====
-- Whom HandleStatusChange mails, and what it stores.
use pingerus.Base.{
  ◌≡◌, refl, subst, sym, ◌∙◌, ap, ◌⊎◌, inl, inr, some, ◌∷◌, find?, Bool, true, false, not,
  Bool-cases,
}
use pingerus.Base.Int.{ℤ, int_eq}
use pingerus.Text.{is_empty}
use pingerus.World.{World, Op, now, wrapping, attempt, pure, ◌>>=◌, ◌>>◌}
use pingerus.World.Errors.{Error, message, wrap, Result, ok, err}
use pingerus.World.Laws.{db-interact, mails-interact, Result-cases}
use pingerus.World.Rows.{Time, User, Check, CheckRow, Notification, Mail}
use pingerus.Postgres.Checks
use pingerus.Postgres.Checks.{has_id, scan_full}
use pingerus.Postgres.Checks.Calls.{db-get_by_id, get_by_id-Loaded}
use pingerus.Postgres.Users
use pingerus.Postgres.Notifications
use pingerus.Notifier.{
  StatusChange, read_check, read_user, subject_of, body_of, notification_of, notify,
  handle_status_change,
}
use pingerus.Notifier.Smtp.{Mailer, mail_of, send}
use pingerus.Notifier.Calls.{
  OneNote, create-OneNote, mails-create, mails-get_check, get_user-IsReading, get_user-found,
}
use pingerus.Notifier.Sending.{IsReading, send-MaySend}

-- A mail to the owner of the check, and no word to anybody else.
pub record Notified (m : Mailer) (ev : StatusChange) (w : World) (x : Result (Unit {0}) × World)
    : Type 0 where
  pub row : CheckRow
  pub user : User
  pub at : Time
  pub stored : find? (has_id ev.check_id) w.db.checks ≡ some row
  pub owner : find? (λ u. int_eq u.id row.user_id) w.db.users ≡ some user
  pub reachable : is_empty user.email ≡ false
  pub answers : x.0 ≡ ok tt
  pub mailed : x.1.mails ≡ mail_of m user.email (subject_of ev) (body_of row.host ev at) ∷ w.mails
  pub note : OneNote row.id user.id w.db x.1.db

-- There was an error, and nobody was mailed and nothing stored.
pub record Quiet (w : World) (x : Result (Unit {0}) × World) : Type 0 where
  pub error : Error
  pub answers : x.0 ≡ err error
  pub same_db : x.1.db ≡ w.db
  pub same_mails : x.1.mails ≡ w.mails

-- There was an error of smtp.SendMail after the server had taken the mail to the owner: nothing is stored.
pub record Unconfirmed (m : Mailer) (ev : StatusChange) (w : World) (x : Result (Unit {0}) × World)
    : Type 0 where
  pub row : CheckRow
  pub user : User
  pub at : Time
  pub error : Error
  pub stored : find? (has_id ev.check_id) w.db.checks ≡ some row
  pub owner : find? (λ u. int_eq u.id row.user_id) w.db.users ≡ some user
  pub reachable : is_empty user.email ≡ false
  pub plain : m.use_tls ≡ false
  pub answers : x.0 ≡ err error
  pub mailed : x.1.mails ≡ mail_of m user.email (subject_of ev) (body_of row.host ev at) ∷ w.mails
  pub same_db : x.1.db ≡ w.db

abbrev pub Ended : Mailer → StatusChange → World → Result (Unit {0}) × World → Type 0
Ended m ev w x = Notified m ev w x ⊎ Quiet w x ⊎ Unconfirmed m ev w x

false_of : (b : Bool) → not b ≡ true → b ≡ false
false_of true e = cc
false_of false e = refl

now-IsReading : IsReading now
unfolding now
now-IsReading w = (db-interact w, mails-interact w)

module _ (m : Mailer) (ev : StatusChange) (w : World) (row : CheckRow) (user : User)
    (stored : find? (has_id ev.check_id) w.db.checks ≡ some row)
    (owner : find? (λ u. int_eq u.id row.user_id) w.db.users ≡ some user) where
  abbrev chk : Check
  chk = read_check (scan_full row)

  abbrev usr : User
  usr = read_user user

  -- The part after the mail was taken.
  abbrev store : Time → Op (Unit {0})
  store at = do
    sent ← now
    attempt (Notifications.create (notification_of chk usr (body_of chk.url ev at) sent))
    pure tt

  abbrev mail : Time → Mail
  mail at = mail_of m usr.email (subject_of ev) (body_of chk.url ev at)

  record Stored (v : World) (x : Result (Unit {0}) × World) : Type 0 where
    answers : x.0 ≡ ok tt
    mails : x.1.mails ≡ v.mails
    note : OneNote row.id user.id w.db x.1.db

  store-Stored : (at : Time) (v : World) → v.db ≡ w.db → Stored v (store at v)
  unfolding now attempt ◌>>=◌ read_check read_user scan_full
  store-Stored at v same =
      let n : Notification = notification_of chk usr (body_of chk.url ev at) (now v).1.clock in
      record {
        answers = refl;
        mails = mails-create n (now v).1 ∙ mails-interact v;
        note =
            subst (λ t. OneNote row.id user.id t (Notifications.create n (now v).1).1.db)
              (db-interact v ∙ same) (create-OneNote n (now v).1);
      }

  mail_out :
      (at : Time) (v : World)
      → is_empty usr.email ≡ false
      → v.db ≡ w.db
      → v.mails ≡ w.mails
      → Ended m ev w (
          (do
            wrapping "send email" (send m usr.email (subject_of ev) (body_of chk.url ev at))
            store at)
            v)
  unfolding wrapping ◌>>=◌ read_check read_user scan_full
  mail_out at v reachable same mails =
      let s = send-MaySend m usr.email (subject_of ev) (body_of chk.url ev at) v in
      let u : World = (send m usr.email (subject_of ev) (body_of chk.url ev at) v).1 in
      elim s.sent [
        | inl (fine, taken) ↦
            let done = store-Stored at u (s.same_db ∙ same) in
            rw fine (
              inl (record {
                row = row;
                user = user;
                at = at;
                stored = stored;
                owner = owner;
                reachable = reachable;
                answers = done.answers;
                mailed = done.mails ∙ taken ∙ ap (λ l. mail at ∷ l) mails;
                note = done.note;
              }))
        | inr (inl (e, failed, none_taken)) ↦ rw failed (
            inr (
              inl (record {
                error = wrap "send email" e;
                answers = refl;
                same_db = s.same_db ∙ same;
                same_mails = none_taken ∙ mails;
              })))
        | inr (inr (plain, (e, failed, taken))) ↦ rw failed (
            inr (
              inr (record {
                row = row;
                user = user;
                at = at;
                error = wrap "send email" e;
                stored = stored;
                owner = owner;
                reachable = reachable;
                plain = false_of m.use_tls plain;
                answers = refl;
                mailed = taken ∙ ap (λ l. mail at ∷ l) mails;
                same_db = s.same_db ∙ same;
              })))
      ]

  notify-Ended :
      (v : World) → v.db ≡ w.db → v.mails ≡ w.mails → Ended m ev w (notify m ev chk usr v)
  unfolding notify now ◌>>=◌
  notify-Ended v same mails = elim (Bool-cases (is_empty usr.email)) [
    | inl missing ↦ rw missing (
        inr (
          inl (record {
            error = message "user has no email";
            answers = refl;
            same_db = same;
            same_mails = mails;
          })))
    | inr reachable ↦ rw reachable (
        mail_out (now v).1.clock (now v).1 reachable (db-interact v ∙ same)
          (mails-interact v ∙ mails))
  ]

module _ (m : Mailer) (ev : StatusChange) (w : World) where
  unsent : (e : Error) (v : World) → v.db ≡ w.db → v.mails ≡ w.mails → Quiet w (err e, v)
  unsent e v same mails = record { error = e; answers = refl; same_db = same; same_mails = mails }

  check_found :
      (row : CheckRow) (v : World)
      → find? (has_id ev.check_id) w.db.checks ≡ some row
      → v.db ≡ w.db
      → v.mails ≡ w.mails
      → Ended m ev w (
          (do
            u ← wrapping "get user" (Users.get_by_id (read_check (scan_full row)).user_id)
            notify m ev (read_check (scan_full row)) (read_user u))
            v)
  unfolding wrapping ◌>>=◌
  check_found row v stored same mails =
      let id : ℤ = (read_check (scan_full row)).user_id in
      let (same_db, same_mails) = get_user-IsReading id v in
      let u : World = (Users.get_by_id id v).1 in
      elim (Result-cases (Users.get_by_id id v).0) [
        | inl (user, found) ↦
            let owner : find? (λ x. int_eq x.id row.user_id) w.db.users ≡ some user =
              unfold read_check scan_full in
              (ap (λ t. find? (λ x. int_eq x.id row.user_id) t.users) (sym same)
                ∙ get_user-found id v user found) in
            rw found
              (notify-Ended m ev w row user stored owner u (same_db ∙ same) (same_mails ∙ mails))
        | inr (e, failed) ↦
            rw failed
              (inr (inl (unsent (wrap "get user" e) u (same_db ∙ same) (same_mails ∙ mails))))
      ]

  -- Whatever the mail server answers and whichever calls fail, HandleStatusChange ends in one of three
  -- ways: it returns no error, and exactly one mail was taken, with the subject and text of the change,
  -- for the user who owns the stored check, and at most one notification, of this check and user, was
  -- stored; or it returns an error, and no mail was taken and nothing stored; or, only for a mailer
  -- without TLS, it returns an error and nothing was stored, but that one mail was taken.
  pub handle_status_change-Ended : Ended m ev w (handle_status_change m ev w)
  unfolding handle_status_change wrapping ◌>>=◌
  handle_status_change-Ended =
      let same = db-get_by_id ev.check_id w in
      let mails = mails-get_check ev.check_id w in
      elim (Result-cases (Checks.get_by_id ev.check_id w).0) [
        | inl (c, found) ↦
            let l = get_by_id-Loaded ev.check_id w c found in
            rw (found, l.scanned)
              (check_found l.row (Checks.get_by_id ev.check_id w).1 l.stored same mails)
        | inr (e, failed) ↦
            rw failed (
              inr (inl (unsent (wrap "get check" e) (Checks.get_by_id ev.check_id w).1 same mails)))
      ]
