-- ===== src/Pipeline.antt =====
-- cmd/ping-worker as a whole: the handler of checks and the workers of the outbox share the database and
-- the broker. A handler's run, a worker's call, the passing of time and the writes of other programs
-- to the other tables follow each other in any order; one of them is not interrupted by another.
pub mod News
use pingerus.Base.{ℕ, List, [], ◌∷◌}
use pingerus.Base.Int.{ℤ, pos}
use pingerus.Text.{Text}
use pingerus.World.{World}
use pingerus.World.Errors.{Result}
use pingerus.World.Rows.{Tables}
use pingerus.Retry.{Policy}
use pingerus.PingWorker.{Outside, StatusChangedPayload, handle_check}
use pingerus.OutboxRunner.Workers.{Runner, Move, works, stops, passes, new_runner, move}

pub data Turn : Type 0 where
  pings : ℤ → Turn
  calls ends waits : ℕ → Turn
  others : (Tables → Tables) → Turn

-- wire and main: 20 workers with batches of 100 and 30 seconds for a message.
abbrev pub worker_count : ℕ
worker_count = 20

abbrev pub batch_size : ℤ
batch_size = pos 100

abbrev pub in_progress_ttl : ℕ
in_progress_ttl = 30000000000

module _ (out : Outside) (topic : Text) (p : Policy)
    (unmarshal : Text → Result StatusChangedPayload) where
  abbrev pub worker_move : Move → Runner → Runner
  worker_move = move topic p unmarshal batch_size in_progress_ttl

  unfoldable pub turn : Turn → Runner → Runner
  unfolding handle_check move
  turn (pings id) r = record r { world = (handle_check out id r.world).1 }
  turn (calls i) r = worker_move (works i) r
  turn (ends i) r = worker_move (stops i) r
  turn (waits d) r = worker_move (passes d) r
  turn (others f) r =
      let w = r.world in
      record r { world = record w { db = record (f w.db) { outbox = w.db.outbox } } }

  unfoldable pub turn_all : List Turn → Runner → Runner
  unfolding turn
  turn_all [] r = r
  turn_all (t ∷ ts) r = turn_all ts (turn t r)

  -- The process, as main starts it.
  abbrev pub run_from : List Turn → World → Runner
  run_from turns w = turn_all turns (new_runner worker_count w)
