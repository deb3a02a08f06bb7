-- ===== src/World/Effects.antt =====
-- An operation of a service: it reads and changes the world, and returns a value or a Go error. What
-- was written before an error stays written, so the world comes back beside the error too.
use pingerus.Base.{ℕ, ◌+◌, Option, none, some, List, [], ◌∷◌, String}
use pingerus.World.Errors.{
  Error, DriverError, driver, wrap, connection, sentinel, canceled, Result, ok, err,
}
use pingerus.World.Rows.{Time, Tables, Record, Mail}

-- What happens before a call leaves the process: time passes, and the call may fail.
pub record Event : Type 0 where
  pub elapsed : ℕ
  pub fault : Option DriverError

pub record Tx : Type 0 where
  pub started : Time
  pub view : Tables

pub record World : Type 0 where
  pub db : Tables
  pub tx : Option Tx
  pub published : List Record
  pub mails : List Mail
  pub clock : Time
  pub script : List Event

-- Where a statement goes: to the pool, or to the transaction in the context (execQueryer).
pub data Context : Type 0 where
  background with_tx : Context

abbrev pub Op {ℓ} : Type ℓ → Type ℓ
Op A = World → Result A × World

abbrev pub advance : List Event → World → Option DriverError × World
advance [] w = (none, w)
advance (e ∷ rest) w = (e.fault, record w { clock = w.clock + e.elapsed; script = rest })

-- One interaction with the world outside: the event that the script holds for it.
unfoldable pub interact : World → Option DriverError × World
interact w = advance w.script w

module _ {ℓ} {A : Type ℓ} where
  abbrev pub pure : A → Op A
  pure a w = (ok a, w)

  abbrev pub raise : Error → Op A
  raise e w = (err e, w)

  abbrev pub lift : Result A → Op A
  lift r w = (r, w)

  abbrev pub on_err : (Error → Error) → Result A → Result A
  on_err f (ok a) = ok a
  on_err f (err e) = err (f e)

  -- Another error in the place of the operation's.
  unfoldable pub map_error : (Error → Error) → Op A → Op A
  map_error f m w = let (r, w') = m w in (on_err f r, w')

  -- fmt.Errorf("label: %w", err) on the error of an operation.
  unfoldable pub wrapping : String → Op A → Op A
  unfolding map_error
  wrapping label m = map_error (wrap label) m

  -- The error is a value for the caller to inspect or to drop.
  unfoldable pub attempt : Op A → Op (Result A)
  attempt m w = let (r, w') = m w in (ok r, w')

module _ {ℓ κ} {A : Type ℓ} {B : Type κ} where
  abbrev pub continue : Result A → (A → Op B) → Op B
  continue (ok a) f w = f a w
  continue (err e) f w = (err e, w)

  infixl 10 ◌>>=◌
  unfoldable pub ◌>>=◌ : Op A → (A → Op B) → Op B
  ◌>>=◌ m f w = let (r, w') = m w in continue r f w'

infixl 10 ◌>>◌
abbrev pub ◌>>◌ {ℓ κ} : {A : Type ℓ} {B : Type κ} → Op A → Op B → Op B
m >> n = m >>= λ _. n

-- time.Now() and the like: reading the clock takes no part in faults.
unfoldable pub now : Op Time
now w = let (_, w') = interact w in (ok w'.clock, w')

-- Waiting: the time passes, or the context is cancelled first.
unfoldable pub sleep : ℕ → Op (Unit {0})
sleep d w =
    let (fault, w') = interact w in
    elim fault [
      | none ↦ (ok tt, record w' { clock = w'.clock + d })
      | some _ ↦ (err (sentinel canceled), w')
    ]

module _ {ℓ} {A : Type ℓ} where
  abbrev on_view : (Time → Tables → Result A × Tables) → World → Option Tx → Result A × World
  on_view q w none = (err (driver connection), w)
  on_view q w (some tx) =
      let (r, t) = q tx.started tx.view in (r, record w { tx = some (record tx { view = t }) })

  -- The statement `q`, run at the time now() on the tables that the context shows.
  abbrev run_on : Context → (Time → Tables → Result A × Tables) → World → Result A × World
  run_on background q w = let (r, t) = q w.clock w.db in (r, record w { db = t })
  run_on with_tx q w = on_view q w w.tx

  abbrev pub unless : Option DriverError → (World → Result A × World) → World → Result A × World
  unless none k w = k w
  unless (some e) k w = (err (driver e), w)

  -- Pool.Exec, Pool.QueryRow, tx.Exec and the like.
  unfoldable pub statement : Context → (Time → Tables → Result A × Tables) → Op A
  statement c q w = let (fault, w') = interact w in unless fault (run_on c q) w'

-- A call outside of the database that answers nothing: it may fail.
unfoldable pub call : Op (Unit {0})
call w = let (fault, w') = interact w in unless fault (λ v. (ok tt, v)) w'

-- The call that ends the transfer of a mail: the server takes it, or the call fails.
unfoldable pub take_mail : Mail → Op (Unit {0})
take_mail m w =
    let (fault, w') = interact w in unless fault (λ v. (ok tt, record v { mails = m ∷ v.mails })) w'

-- Pool.Begin
unfoldable pub begin : Op (Unit {0})
begin w =
    let (fault, w') = interact w in
    unless fault (λ v. (ok tt, record v { tx = some (record { started = v.clock; view = v.db }) }))
      w'

abbrev commit_view : World → Option Tx → Result (Unit {0}) × World
commit_view w none = (err (driver connection), w)
commit_view w (some tx) = (ok tt, record w { db = tx.view; tx = none })

abbrev close_tx : Option DriverError → World → Result (Unit {0}) × World
close_tx none w = commit_view w w.tx
close_tx (some e) w = (err (driver e), record w { tx = none })

-- tx.Commit: on a fault the transaction is lost.
unfoldable pub commit : Op (Unit {0})
commit w = let (fault, w') = interact w in close_tx fault w'

-- tx.Rollback
unfoldable pub rollback : Op (Unit {0})
rollback w =
    let (fault, w') = interact w in
    let gone : World = record w' { tx = none } in unless fault (λ v. (ok tt, v)) gone

-- A deferred tx.Rollback: it does nothing once the transaction is closed.
abbrev close {ℓ} : {A : Type ℓ} → Result A × World → Result A × World
close (r, w) = (r, elim w.tx [ none ↦ w | some _ ↦ (rollback w).1 ])

unfoldable pub deferring_rollback {ℓ} : {A : Type ℓ} → Op A → Op A
unfolding rollback
deferring_rollback m w = close (m w)

-- The world with no event to come: no time passes on its own, and no call fails.
abbrev pub calm : World → World
calm w = record w { script = [] }
