-- ===== src/World/Laws.antt =====
-- What one interaction with the world outside leaves alone.
use pingerus.Base.{
  ap, Option-cases, inl, inr, String, ℕ, none, ◌⊎◌, ◌≤◌, ◌≡◌, refl, List, [], ◌∷◌, arith,
}
use pingerus.World.{
  background, statement, World, wrapping, on_err, sleep, advance, Event, Op, interact, now,
  continue, ◌>>=◌,
}
use pingerus.World.Rows.{Time, Tables}
use pingerus.World.Errors.{Error, wrap, Result, ok, err, sentinel, canceled}

interact_cases :
    (w : World) (s : List Event)
    → w.script ≡ s
    → ((interact w).1.db ≡ w.db)
      × ((interact w).1.tx ≡ w.tx)
      × ((interact w).1.published ≡ w.published)
      × ((interact w).1.mails ≡ w.mails)
      × (w.clock ≤ (interact w).1.clock)
unfolding interact
interact_cases w [] e = ground arith
interact_cases w (v ∷ rest) e = ground arith

module _ (w : World) where
  pub db-interact : (interact w).1.db ≡ w.db
  db-interact = (interact_cases w w.script refl).0

  pub tx-interact : (interact w).1.tx ≡ w.tx
  tx-interact = (interact_cases w w.script refl).1

  pub published-interact : (interact w).1.published ≡ w.published
  published-interact = (interact_cases w w.script refl).2

  pub mails-interact : (interact w).1.mails ≡ w.mails
  mails-interact = (interact_cases w w.script refl).3

  pub clock-interact : w.clock ≤ (interact w).1.clock
  clock-interact = (interact_cases w w.script refl).4

  -- Reading the clock writes nothing.
  pub db-now : (now w).1.db ≡ w.db
  unfolding now
  db-now = db-interact

module _ {ℓ κ μ} {A : Type ℓ} {B : Type κ} (P : World → Type μ) where
  after_continue :
      (r : Result A) (f : A → Op B) (w : World)
      → ((e : Error) → r ≡ err e → P w)
      → ((a : A) → r ≡ ok a → P (f a w).1)
      → P (continue r f w).1
  after_continue (ok a) f w failed done = done a refl
  after_continue (err e) f w failed done = failed e refl

  -- What holds after the first part, and after the rest from there, holds after both.
  pub after_bind :
      (m : Op A) (f : A → Op B) (w : World)
      → ((e : Error) → (m w).0 ≡ err e → P (m w).1)
      → ((a : A) → (m w).0 ≡ ok a → P (f a (m w).1).1)
      → P ((m >>= f) w).1
  unfolding ◌>>=◌
  after_bind m f w failed done = after_continue (m w).0 f (m w).1 failed done

-- No event is left: no time passes and no call fails.
pub interact_quiet : (w : World) → w.script ≡ [] → interact w ≡ (none, w)
unfolding interact
interact_quiet w q = rw (q, advance) refl

pub sleep_cases :
    (d : ℕ) (w : World) → ((sleep d w).0 ≡ ok tt) ⊎ ((sleep d w).0 ≡ err (sentinel canceled))
unfolding sleep
sleep_cases d w = ground arith

module _ {ℓ κ μ ν} {A : Type ℓ} {B : Type κ} (P : Result A × World → Type μ)
    (Q : Result B × World → Type ν) where
  continue_post :
      (f : A → Op B) (r : Result A) (w : World)
      → P (r, w)
      → ((e : Error) (v : World) → P (err e, v) → Q (err e, v))
      → ((a : A) (v : World) → P (ok a, v) → Q (f a v))
      → Q (continue r f w)
  continue_post f (ok a) w h failed done = done a w h
  continue_post f (err e) w h failed done = failed e w h

  -- From what holds after the first part to what holds after both.
  pub bind_post :
      (m : Op A) (f : A → Op B) (w : World)
      → P (m w)
      → ((e : Error) (v : World) → P (err e, v) → Q (err e, v))
      → ((a : A) (v : World) → P (ok a, v) → Q (f a v))
      → Q ((m >>= f) w)
  unfolding ◌>>=◌
  bind_post m f w h failed done = continue_post f (m w).0 (m w).1 h failed done

relabel_ok {ℓ} :
    {A : Type ℓ} (g : Error → Error) (r : Result A) (a : A) → on_err g r ≡ ok a → r ≡ ok a
relabel_ok g (ok b) a e = e
relabel_ok g (err x) a e = cc

module _ {ℓ κ μ} {A : Type ℓ} {B : Type κ} (P : World → Type μ) where
  -- The same where the first part's error is wrapped.
  pub after_wrapped :
      (label : String) (m : Op A) (f : A → Op B) (w : World)
      → P (m w).1
      → ((a : A) → (m w).0 ≡ ok a → P (f a (m w).1).1)
      → P ((wrapping label m >>= f) w).1
  unfolding wrapping
  after_wrapped label m f w failed done =
      after_bind P (wrapping label m) f w (λ _ _. failed)
        λ a e. done a (relabel_ok (wrap label) (m w).0 a e)

pub Result-cases :
    {A : Type 0} (r : Result A) → ((a : A) × (r ≡ ok a)) ⊎ ((x : Error) × (r ≡ err x))
Result-cases (ok a) = inl (a, refl)
Result-cases (err x) = inr (x, refl)

-- A statement outside of a transaction runs on the tables as they are, or fails and writes nothing.
pub db-statement {ℓ} :
    {A : Type ℓ} (q : Time → Tables → Result A × Tables) (w : World)
    → ((statement background q w).1.db ≡ w.db)
      ⊎ ((at : Time) × ((statement background q w).1.db ≡ (q at w.db).1))
unfolding statement
db-statement q w = elim (Option-cases (interact w).0) [
  | inl fine ↦
      inr ((interact w).1.clock, rw fine (ap (λ t. (q (interact w).1.clock t).1) (db-interact w)))
  | inr (x, fails) ↦ inl (rw fails (db-interact w))
]
