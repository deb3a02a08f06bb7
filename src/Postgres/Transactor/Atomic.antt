-- ===== src/Postgres/Transactor/Atomic.antt =====
-- WithTx is all or nothing: the statements of the function show together, or not at all.
use pingerus.Base.{◌≤◌, ◌≡◌, refl, ◌∙◌, ◌⊎◌, inl, inr, some, arith, String, ap, Option-cases}
use pingerus.World.{
  World, Tx, Op, Context, background, with_tx, statement, begin, commit, rollback, interact, now,
  wrapping, on_err, ◌>>=◌,
}
use pingerus.World.Errors.{Result, ok, err, wrap}
use pingerus.World.Laws.{clock-interact, db-interact, tx-interact, bind_post}
use pingerus.World.Forward.{
  IsForward, now-IsForward, statement_in-IsForward, wrapping-IsForward, bind-IsForward,
}
use pingerus.World.Rows.{Time, Tables}
use pingerus.Postgres.Transactor.{in_tx, finish, run_in}

-- After a statement or a function in a transaction: the committed tables are the base, and after a
-- success the view of the transaction has the property.
abbrev pub Ends : {A : Type 0} → (A → Tables → Type 0) → Tables → Time → Result A × World → Type 0
Ends R base started (ok a, v) =
    (v.db ≡ base) × (t : Tables) × (v.tx ≡ some (record { started = started; view = t })) × R a t
Ends R base started (err e, v) = v.db ≡ base

module _ {A : Type 0} (q : Time → Tables → Result A × Tables) (base t : Tables)
    (started : Time) where
  written :
      (v : World) (r : Result A) (t' : Tables)
      → v.db ≡ base
      → q started t ≡ (r, t')
      → Ends
          (λ a u. q started t ≡ (ok a, u))
          base
          started
          (r, record v { tx = some (record { started = started; view = t' }) })
  written v (ok a) t' same e = (same, t', refl, e)
  written v (err x) t' same e = same

  -- One statement in a transaction.
  pub statement-Ends :
      (v : World)
      → v.db ≡ base
      → v.tx ≡ some (record { started = started; view = t })
      → Ends (λ a u. q started t ≡ (ok a, u)) base started (statement with_tx q v)
  unfolding statement
  statement-Ends v same open_ = elim (Option-cases (interact v).0) [
    | inl fine ↦
        rw (fine, tx-interact v ∙ open_)
          (written (interact v).1 (q started t).0 (q started t).1 (db-interact v ∙ same) refl)
    | inr (e, fails) ↦ rw fails (db-interact v ∙ same)
  ]

module _ {A : Type 0} (R : A → Tables → Type 0) (base : Tables) (started : Time) where
  relabel-Ends :
      (label : String) (r : Result A) (v : World)
      → Ends R base started (r, v)
      → Ends R base started (on_err (wrap label) r, v)
  relabel-Ends label (ok a) v h = h
  relabel-Ends label (err e) v h = h

  pub wrapping-Ends :
      (label : String) (m : Op A) (v : World)
      → Ends R base started (m v)
      → Ends R base started (wrapping label m v)
  unfolding wrapping
  wrapping-Ends label m v h = relabel-Ends label (m v).0 (m v).1 h

  -- One part of a function in a transaction after the other, where the first does not turn back the
  -- clock.
  pub bind-Ends :
      {B : Type 0} (S : B → Tables → Type 0) (m : Op A) (f : A → Op B) (v : World)
      → IsForward m
      → Ends R base started (m v)
      → ((a : A) (t : Tables) (u : World)
          → u.db ≡ base
          → u.tx ≡ some (record { started = started; view = t })
          → v.clock ≤ u.clock
          → R a t
          → Ends S base started (f a u))
      → Ends S base started ((m >>= f) v)
  bind-Ends S m f v forward h next =
      bind_post (λ x. Ends R base started x × (v.clock ≤ x.1.clock)) (Ends S base started) m f v
        (h, forward.later v) (λ e u (same, _). same)
        λ a u ((same, t, tx, r), later). next a t u same tx later r

pub Ends-mono :
    {A : Type 0} (R S : A → Tables → Type 0) (base : Tables) (started : Time)
    → ((a : A) (t : Tables) → R a t → S a t)
    → (r : Result A) (v : World) → Ends R base started (r, v)
    → Ends S base started (r, v)
Ends-mono R S base started h (ok a) v (same, t, tx, x) = (same, t, tx, h a t x)
Ends-mono R S base started h (err e) v x = x

abbrev Made :
    {A : Type 0}
    → (Time → Time → Tables → Result A × Tables)
    → Tables
    → Time
    → Time
    → A
    → Tables
    → Type 0
Made q t started lo a u = (at : Time) × (lo ≤ at) × (q at started t ≡ (ok a, u))

-- A statement that is given the time at which it is made.
pub timed-Ends :
    {A : Type 0} (label : String) (q : Time → Time → Tables → Result A × Tables) (base t : Tables)
    (started : Time) (v : World)
    → v.db ≡ base
    → v.tx ≡ some (record { started = started; view = t })
    → Ends
        (λ a u. (at : Time) × (v.clock ≤ at) × (q at started t ≡ (ok a, u)))
        base
        started
        ((now >>= λ at. wrapping label (statement with_tx (q at))) v)
unfolding now ◌>>=◌
timed-Ends label q base t started v same tx =
    let u : World = (now v).1 in
    wrapping-Ends (Made q t started v.clock) base started label (statement with_tx (q u.clock)) u (
      Ends-mono (λ a x. q u.clock started t ≡ (ok a, x)) (Made q t started v.clock) base started
        (λ a x h. (u.clock, clock-interact v, h)) _ _
        (statement-Ends (q u.clock) base t started u (db-interact v ∙ same) (tx-interact v ∙ tx)))

-- Such a statement does not turn back the clock.
pub timed-IsForward :
    {A : Type 0} (label : String) (q : Time → Time → Tables → Result A × Tables)
    → IsForward (now >>= λ at. wrapping label (statement with_tx (q at)))
timed-IsForward label q =
    bind-IsForward now-IsForward λ at. wrapping-IsForward label (statement_in-IsForward (q at))

pub db-rollback : (v : World) → (rollback v).1.db ≡ v.db
unfolding rollback
db-rollback v = ground (arith, db-interact v)

pub commit_cases :
    (v : World) (t : Tx) → v.tx ≡ some t → ((commit v).1.db ≡ t.view) ⊎ ((commit v).1.db ≡ v.db)
unfolding commit
commit_cases v t e = ground (arith, db-interact v, tx-interact v)

module _ {A : Type 0} (R : Time → A → Tables → Type 0) (f : Context → Op A) (w : World) where
  -- The function keeps to its transaction.
  abbrev pub StaysInside : Type 0
  StaysInside =
      (v : World) (started : Time)
      → v.db ≡ w.db
      → v.tx ≡ some (record { started = started; view = w.db })
      → started ≤ v.clock
      → Ends (R started) w.db started (f with_tx v)

  -- Nothing was written; or the function succeeded in a transaction that was started since, and all that
  -- it wrote is there.
  abbrev pub AllOrNothing : Result A × World → Type 0
  AllOrNothing x =
      (x.1.db ≡ w.db)
      ⊎ ((a : A) × (started : Time) × (w.clock ≤ started) × (x.0 ≡ ok a) × R started a x.1.db)

  finish-AllOrNothing :
      (started : Time) (r : Result A) (v : World)
      → w.clock ≤ started
      → Ends (R started) w.db started (r, v)
      → AllOrNothing (finish r v)
  unfolding finish
  finish-AllOrNothing started (err e) v since same = inl (db-rollback v ∙ same)
  finish-AllOrNothing started (ok a) v since (same, t, tx, h) =
      elim (commit_cases v (record { started = started; view = t }) tx) [
        | inl done ↦ rw done (inr (a, started, since, refl, h))
        | inr lost ↦ rw lost (inl same)
      ]

  -- WithTx outside a transaction is all or nothing for a function that keeps to its transaction: an
  -- error leaves the database as it was, and what a success writes is written whole or not at all.
  pub in_tx-AllOrNothing : StaysInside → AllOrNothing (in_tx background f w)
  unfolding in_tx begin
  in_tx-AllOrNothing inside = elim (Option-cases (interact w).0) [
    | inl fine ↦ rw fine (run (interact w).1 (db-interact w) (clock-interact w))
    | inr (e, fails) ↦ rw fails (inl (db-interact w))
  ]
    where
      run :
          (v : World)
          → v.db ≡ w.db
          → w.clock ≤ v.clock
          → AllOrNothing (
              run_in f
                (ok with_tx)
                (record v { tx = some (record { started = v.clock; view = v.db }) }))
      run v same since = finish-AllOrNothing v.clock _ _ since (
          inside _ v.clock same (ap (λ t. some (record { started = v.clock; view = t })) same)
            (omega arith))
