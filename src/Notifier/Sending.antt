-- ===== src/Notifier/Sending.antt =====
-- What a mailer leaves: the mail was taken or not, and by smtp.SendMail it may be taken although there is
-- an error.
use pingerus.Base.{
  Bool, true, false, not, ◌≡◌, refl, subst, ◌∙◌, ◌⊎◌, inl, inr, ◌∷◌, ◌&&◌, arith, Bool-cases,
  Option-cases,
}
use pingerus.Text.{Text}
use pingerus.World.{World, Op, interact, call, take_mail, ◌>>=◌, ◌>>◌}
use pingerus.World.Errors.{Error, driver, ok, err}
use pingerus.World.Laws.{db-interact, mails-interact, Result-cases}
use pingerus.World.Rows.{Mail}
use pingerus.Notifier.Smtp.{Mailer, mail_of, authenticate, send_tls, send_mail, send}

-- The operation writes nothing to the database and sends no mail.
abbrev pub IsReading {ℓ} : {A : Type ℓ} → Op A → Type 0
IsReading m = (w : World) → ((m w).1.db ≡ w.db) × ((m w).1.mails ≡ w.mails)

-- The mail was taken, or there was an error; the database is as it was.
pub record Sends (mail : Mail) (m : Op (Unit {0})) (w : World) : Type 0 where
  pub same_db : (m w).1.db ≡ w.db
  pub sent :
      (((m w).0 ≡ ok tt) × ((m w).1.mails ≡ mail ∷ w.mails))
      ⊎ ((e : Error) × ((m w).0 ≡ err e) × ((m w).1.mails ≡ w.mails))

call-IsReading : IsReading call
unfolding call
call-IsReading w = ground (arith, db-interact w, mails-interact w)

take_mail-Sends : (mail : Mail) (w : World) → Sends mail (take_mail mail) w
unfolding take_mail
take_mail-Sends mail w = elim (Option-cases (interact w).0) [
  | inl fine ↦ record {
    same_db = ground (arith, db-interact w);
    sent = inl (ground (arith, fine), ground (arith, fine, mails-interact w));
  }
  | inr (x, fails) ↦ record {
    same_db = ground (arith, db-interact w);
    sent = inr (driver x, ground (arith, fails), ground (arith, fails, mails-interact w));
  }
]

then-Sends :
    (mail : Mail) (c k : Op (Unit {0}))
    → IsReading c
    → ((w : World) → Sends mail k w)
    → (w : World) → Sends mail (c >> k) w
unfolding ◌>>=◌
then-Sends mail c k reads after w = elim (Result-cases (c w).0) [
  | inl (u, fine) ↦
      let rest = after (c w).1 in
      let (same, mails) = reads w in
      record {
        same_db = rw fine (rest.same_db ∙ same);
        sent = rw fine (
            subst
              (λ l.
                ((((k (c w).1).0 ≡ ok tt) × ((k (c w).1).1.mails ≡ mail ∷ l))
                  ⊎ ((e : Error) × ((k (c w).1).0 ≡ err e) × ((k (c w).1).1.mails ≡ l))))
              mails rest.sent);
      }
  | inr (e, failed) ↦ record {
    same_db = rw failed (reads w).0;
    sent = rw failed (inr (e, refl, (reads w).1));
  }
]

module _ (m : Mailer) where
  authenticate-IsReading : IsReading (authenticate m)
  unfolding authenticate
  authenticate-IsReading w = elim (Bool-cases (m.auth && m.offers_auth w)) [
    | inl asked ↦ rw asked (call-IsReading w)
    | inr free ↦ rw free (refl, refl)
  ]

  send_tls-Sends : (mail : Mail) (w : World) → Sends mail (send_tls m mail) w
  unfolding send_tls
  send_tls-Sends mail = then-Sends mail call _ call-IsReading (
      then-Sends mail call _ call-IsReading (
        then-Sends mail (authenticate m) _ authenticate-IsReading (
          then-Sends mail call _ call-IsReading (
            then-Sends mail call _ call-IsReading (
              then-Sends mail call _ call-IsReading
                (then-Sends mail call (take_mail mail) call-IsReading (take_mail-Sends mail)))))))

-- The mail was taken and the end of the dialogue failed, or the mail was sent or not as above.
pub record MaySend (plain : Bool) (mail : Mail) (m : Op (Unit {0})) (w : World) : Type 0 where
  pub same_db : (m w).1.db ≡ w.db
  pub sent :
      (((m w).0 ≡ ok tt) × ((m w).1.mails ≡ mail ∷ w.mails))
      ⊎ ((e : Error) × ((m w).0 ≡ err e) × ((m w).1.mails ≡ w.mails))
      ⊎ ((plain ≡ true) × ((e : Error) × ((m w).0 ≡ err e) × ((m w).1.mails ≡ mail ∷ w.mails)))

call_cases : (w : World) → ((call w).0 ≡ ok tt) ⊎ ((e : Error) × ((call w).0 ≡ err e))
unfolding call
call_cases w = ground arith

module _ (m : Mailer) where
  send_mail-MaySend : (mail : Mail) (w : World) → MaySend true mail (send_mail m mail) w
  unfolding send_mail ◌>>=◌
  send_mail-MaySend mail w =
      let s = take_mail-Sends mail w in
      let v : World = (take_mail mail w).1 in
      let (same, mails) = call-IsReading v in
      elim s.sent [
        | inl (fine, taken) ↦ elim (call_cases v) [
          | inl quit ↦ record {
            same_db = rw fine (same ∙ s.same_db);
            sent = inl (rw fine quit, rw fine (mails ∙ taken));
          }
          | inr (e, failed) ↦ record {
            same_db = rw fine (same ∙ s.same_db);
            sent = inr (inr (refl, (e, rw fine failed, rw fine (mails ∙ taken))));
          }
        ]
        | inr (e, failed, kept) ↦ record {
          same_db = rw failed s.same_db;
          sent = inr (inl (e, rw failed refl, rw failed kept));
        }
      ]

  of_Sends :
      (plain : Bool) (mail : Mail) (op : Op (Unit {0})) (w : World)
      → Sends mail op w
      → MaySend plain mail op w
  of_Sends plain mail op w s = record {
    same_db = s.same_db;
    sent = elim s.sent [ inl done ↦ inl done | inr failed ↦ inr (inl failed) ];
  }

  pub send-MaySend :
      (recipient subject body : Text) (w : World)
      → MaySend (not m.use_tls) (mail_of m recipient subject body) (send m recipient subject body) w
  unfolding send
  send-MaySend recipient subject body w = elim (Bool-cases m.use_tls) [
    | inl tls ↦
        rw tls (of_Sends false _ _ w (send_tls-Sends m (mail_of m recipient subject body) w))
    | inr plain ↦ rw plain (send_mail-MaySend (mail_of m recipient subject body) w)
  ]
