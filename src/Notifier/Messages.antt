-- ===== src/Notifier/Messages.antt =====
-- What the notifier does with a message of the topic.
use pingerus.Base.{
  ◌≡◌, refl, sym, subst, if◌then◌else◌, ◌⊎◌, inl, inr, Bool, true, false, Option, ◌∷◌, ◌==◌, arith,
  Bool-cases,
}
use pingerus.Base.Int.{ℤ, not_positive}
use pingerus.World.{World, Op, pure, interact, now, ◌>>=◌}
use pingerus.World.Errors.{Result, ok}
use pingerus.World.Laws.{db-interact, mails-interact}
use pingerus.World.Rows.{Time, Mail}
use pingerus.Notifier.{
  StatusChange, same, time_of, time_or_now, handle_status_change, on_change_at, on_status_change,
}
use pingerus.Notifier.Smtp.{Mailer}
use pingerus.Notifier.Outcome.{handle_status_change-Ended}

-- One mail more, or none.
abbrev pub AtMostOneMail : World → World → Type 0
AtMostOneMail w v = (v.mails ≡ w.mails) ⊎ ((mail : Mail) × (v.mails ≡ mail ∷ w.mails))

time_or_now_cases :
    (t : Time) (w : World)
    → (at : Time) × ((time_or_now t w).0 ≡ ok at)
      × ((time_or_now t w).1.db ≡ w.db)
      × ((time_or_now t w).1.mails ≡ w.mails)
unfolding time_or_now now
time_or_now_cases t w = elim (Bool-cases (t == 0)) [
  | inl zero_time ↦ rw zero_time ((interact w).1.clock, refl, db-interact w, mails-interact w)
  | inr given ↦ rw given (t, refl, refl, refl)
]

unchanged_of : (old new p : Bool) → p ≡ false → ((old ≡ new) ⊎ (p ≡ true)) → same old new ≡ true
unchanged_of old new p valid skip = ground (arith, skip, valid)

skip_if :
    (b : Bool) (k : Op (Unit {0})) (v : World)
    → b ≡ true
    → (if b then pure tt else k) v ≡ (ok tt, v)
skip_if b k v h = rw h refl

module _ (m : Mailer) where
  handle_status_change-AtMostOneMail :
      (ev : StatusChange) (w : World) → AtMostOneMail w (handle_status_change m ev w).1
  handle_status_change-AtMostOneMail ev w = elim (handle_status_change-Ended m ev w) [
    | inl sent ↦ inr (_, sent.mailed)
    | inr (inl quiet) ↦ inl quiet.same_mails
    | inr (inr lost) ↦ inr (_, lost.mailed)
  ]

  on_change_at-AtMostOneMail :
      (id : ℤ) (old new : Bool) (t : Time) (w : World)
      → AtMostOneMail w (on_change_at m id old new t w).1
  unfolding on_change_at ◌>>=◌
  on_change_at-AtMostOneMail id old new t w =
      let (at, answer, _, mails) = time_or_now_cases t w in
      let v : World = (time_or_now t w).1 in
      elim (Bool-cases (same old new)) [
        | inl unchanged ↦ rw (answer, unchanged) (inl mails)
        | inr news ↦
            rw (answer, news)
              (subst
                (λ l.
                  (((handle_status_change m (event at) v).1.mails ≡ l)
                    ⊎ ((mail : Mail) × ((handle_status_change m (event at) v).1.mails ≡ mail ∷ l))))
                mails (handle_status_change-AtMostOneMail (event at) v))
      ]
    where
      event : Time → StatusChange
      event at = record { check_id = id; old_status = old; new_status = new; at = at }

  -- A message of the topic leads to at most one mail.
  pub on_status_change-AtMostOneMail :
      (id : ℤ) (old new : Bool) (ts : Option Time) (w : World)
      → AtMostOneMail w (on_status_change m id old new ts w).1
  unfolding on_status_change
  on_status_change-AtMostOneMail id old new ts w = elim (Bool-cases (not_positive id)) [
    | inl refused ↦ rw refused (inl refl)
    | inr valid ↦ rw valid (on_change_at-AtMostOneMail id old new (time_of ts) w)
  ]

  abbrev Skipped : World → Result (Unit {0}) × World → Type 0
  Skipped w x = (x.0 ≡ ok tt) × (x.1.db ≡ w.db) × (x.1.mails ≡ w.mails)

  on_change_at-Skipped :
      (id : ℤ) (old new : Bool) (t : Time) (w : World)
      → same old new ≡ true
      → Skipped w (on_change_at m id old new t w)
  unfolding on_change_at ◌>>=◌
  on_change_at-Skipped id old new t w unchanged =
      let (at, answer, db, mails) = time_or_now_cases t w in
      let v : World = (time_or_now t w).1 in
      rw answer (
        subst (Skipped w)
          (sym (skip_if (same old new) (handle_status_change m (event at)) v unchanged))
          (refl, db, mails))
    where
      event : Time → StatusChange
      event at = record { check_id = id; old_status = old; new_status = new; at = at }

  -- A message without a change, or without a valid check, is done without an error, and nobody is
  -- mailed and nothing stored.
  on_status_change-Skipped :
      (id : ℤ) (old new : Bool) (ts : Option Time) (w : World)
      → ((old ≡ new) ⊎ (not_positive id ≡ true))
      → Skipped w (on_status_change m id old new ts w)
  unfolding on_status_change
  on_status_change-Skipped id old new ts w skip = elim (Bool-cases (not_positive id)) [
    | inl refused ↦ rw refused (refl, refl, refl)
    | inr valid ↦ rw valid (
        on_change_at-Skipped id old new (time_of ts) w
          (unchanged_of old new (not_positive id) valid skip))
  ]
