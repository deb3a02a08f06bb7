-- ===== src/World/Forward.antt =====
-- Operations that do not turn back the clock.
use pingerus.Base.{◌≤◌, Bool, true, false, String, arith, if◌then◌else◌}
use pingerus.World.{
  World, Op, background, with_tx, statement, call, take_mail, map_error, wrapping, attempt, now,
  lift, ◌>>=◌,
}
use pingerus.World.Errors.{Error, Result}
use pingerus.World.Laws.{after_bind, clock-interact}
use pingerus.World.Rows.{Time, Tables, Mail}

pub record IsForward {ℓ} {A : Type ℓ} (m : Op A) : Type 0 where
  pub later : (w : World) → w.clock ≤ (m w).1.clock

pub now-IsForward : IsForward now
unfolding now
now-IsForward = record { later = λ w. clock-interact w }

pub call-IsForward : IsForward call
unfolding call
call-IsForward = record { later = λ w. ground (arith, clock-interact w) }

pub take_mail-IsForward : (mail : Mail) → IsForward (take_mail mail)
unfolding take_mail
take_mail-IsForward mail = record { later = λ w. ground (arith, clock-interact w) }

pub statement-IsForward {ℓ} :
    {A : Type ℓ} (q : Time → Tables → Result A × Tables) → IsForward (statement background q)
unfolding statement
statement-IsForward q = record { later = λ w. ground (arith, clock-interact w) }

pub statement_in-IsForward {ℓ} :
    {A : Type ℓ} (q : Time → Tables → Result A × Tables) → IsForward (statement with_tx q)
unfolding statement
statement_in-IsForward q = record { later = λ w. ground (arith, clock-interact w) }

pub bind-IsForward {ℓ μ} :
    {A : Type ℓ} {C : Type μ} {m : Op A} {f : A → Op C}
    → IsForward m
    → ((a : A) → IsForward (f a))
    → IsForward (m >>= f)
bind-IsForward {m} {f} h k = record {
  later = λ w.
      after_bind (λ v. w.clock ≤ v.clock) m f w (λ _ _. h.later w)
        (λ a _. omega (arith, h.later w, (k a).later (m w).1));
}

module _ {ℓ} {A : Type ℓ} where
  pub map_error-IsForward : (g : Error → Error) {m : Op A} → IsForward m → IsForward (map_error g m)
  unfolding map_error
  map_error-IsForward g h = record { later = h.later }

  pub wrapping-IsForward : (label : String) {m : Op A} → IsForward m → IsForward (wrapping label m)
  unfolding wrapping
  wrapping-IsForward label h = record { later = h.later }

  pub attempt-IsForward : {m : Op A} → IsForward m → IsForward (attempt m)
  unfolding attempt
  attempt-IsForward h = record { later = h.later }

  pub lift-IsForward : (r : Result A) → IsForward (lift r)
  lift-IsForward r = record { later = λ w. omega arith }

  pub if-IsForward :
      (b : Bool) {m n : Op A} → IsForward m → IsForward n → IsForward (if b then m else n)
  if-IsForward true h k = h
  if-IsForward false h k = k
