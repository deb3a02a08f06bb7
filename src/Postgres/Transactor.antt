-- ===== src/Postgres/Transactor.antt =====
-- internal/repository/postgres/transactor.go: a function of the context run in a transaction.
pub mod Atomic
use pingerus.Base.{some, none}
use pingerus.World.{
  World, Op, Context, background, with_tx, begin, commit, rollback, wrapping, map_error,
}
use pingerus.World.Errors.{Error, wrap, Result, ok, err}

abbrev new_context : Result (Unit {0}) → Result Context
new_context (ok _) = ok with_tx
new_context (err e) = err e

-- injectTx: the transaction of the context, or a new one.
unfoldable pub inject_tx : Context → Op Context
unfolding begin
inject_tx with_tx w = (ok with_tx, w)
inject_tx background w = let (r, w') = begin w in (new_context r, w')

-- The deferred function of WithTx: the errors of Rollback and Commit are only logged.
unfoldable pub finish {ℓ} : {A : Type ℓ} → Result A → World → Result A × World
unfolding commit rollback
finish (err e) w = (err (wrap "function execution error" e), (rollback w).1)
finish (ok a) w = (ok a, (commit w).1)

abbrev run_in {ℓ} : {A : Type ℓ} → (Context → Op A) → Result Context → World → Result A × World
run_in f (err e) w = (err (wrap "can not inject transaction" e), w)
run_in f (ok c) w = let (r, w') = f c w in finish r w'

unfoldable pub in_tx {ℓ} : {A : Type ℓ} → Context → (Context → Op A) → Op A
unfolding inject_tx finish
in_tx c f w = let (r, w') = inject_tx c w in run_in f r w'
