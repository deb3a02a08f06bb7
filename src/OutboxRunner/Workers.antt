-- ===== src/OutboxRunner/Workers.antt =====
-- internal/outbox/runner.go: the workers of the runner, with its counters. A worker is where its loop
-- stands between two calls, and the calls of the workers follow each other in any order, also with time
-- that passes and with messages that other programs put into the outbox. The histogram is not modelled.
pub mod Counts
pub mod Onward
pub mod Fair
pub mod Soundness
pub mod Ticks
use pingerus.Base.{
  ℕ, zero, suc, ◌+◌, Bool, true, false, List, [], ◌∷◌, ◌++◌, length, Option, none, some,
}
use pingerus.Base.Int.{ℤ}
use pingerus.Text.{Text}
use pingerus.World.{World, background}
use pingerus.World.Errors.{Result, ok, err}
use pingerus.World.Rows.{Message}
use pingerus.Postgres.Outbox.{enqueue, pick_batch, mark_success}
use pingerus.Retry.{Policy}
use pingerus.PingWorker.{StatusChangedPayload}
use pingerus.OutboxRunner.{deliver}

-- mPicked, mOk, mErr and mBatchSize
pub record Counters : Type 0 where
  pub m_picked : ℕ
  pub m_ok : ℕ
  pub m_err : ℕ
  pub m_batch_size : ℕ

-- A worker waits for its ticker, or is in the loop over the messages, or has returned. In the loop it
-- has the messages that are left, and okKeys.
pub data Worker : Type 0 where
  waiting stopped : Worker
  dispatching : (messages : List Message) (ok_keys : List Text) → Worker

pub record Runner : Type 0 where
  pub workers : List Worker
  pub counters : Counters
  pub world : World

-- r.mErr.Inc()
abbrev pub count_error : Counters → Counters
count_error c = record c { m_err = c.m_err + 1 }

abbrev pub count_picked : List Message → Counters → Counters
count_picked ms c = record c { m_picked = c.m_picked + length ms; m_batch_size = length ms }

-- The counters of a runner that is new.
abbrev pub no_counts : Counters
no_counts = record { m_picked = 0; m_ok = 0; m_err = 0; m_batch_size = 0 }

abbrev pub Stage : Type 0
Stage = Worker × Counters × World

-- After PickBatch.
abbrev pub after_pick : Counters → Result (List Message) × World → Stage
after_pick c (ok ms, w) = (dispatching ms [], count_picked ms c, w)
after_pick c (err e, w) = (waiting, count_error c, w)

-- After the handler of a message, or after the lack of one.
abbrev pub after_dispatch :
    Message → List Message → List Text → Counters → Result Bool × World → Stage
after_dispatch m ms keys c (ok true, w) =
    (dispatching ms (keys ++ m.idempotency_key ∷ []), record c { m_ok = c.m_ok + 1 }, w)
after_dispatch m ms keys c (ok false, w) = (dispatching ms keys, count_error c, w)
after_dispatch m ms keys c (err e, w) = (dispatching ms keys, count_error c, w)

-- After MarkSuccess.
abbrev pub after_mark : Counters → Result (Unit {0}) × World → Stage
after_mark c (ok u, w) = (waiting, c, w)
after_mark c (err e, w) = (waiting, count_error c, w)

-- What the other programs and the clock do between the calls, and what the workers do.
pub data Move : Type 0 where
  works stops : ℕ → Move
  passes : ℕ → Move
  enqueues : Text → ℤ → Text → Move

-- The branch ctx.Done() of the select.
unfoldable pub stop_at : ℕ → List Worker → List Worker
stop_at i [] = []
stop_at zero (waiting ∷ xs) = stopped ∷ xs
stop_at zero (x ∷ xs) = x ∷ xs
stop_at (suc i) (x ∷ xs) = x ∷ stop_at i xs

-- Runner.Start
unfoldable pub start : ℕ → List Worker
start zero = []
start (suc n) = waiting ∷ start n

-- A runner that was started, with no counts yet.
abbrev pub new_runner : ℕ → World → Runner
new_runner n w = record { workers = start n; counters = no_counts; world = w }

module _ (topic : Text) (p : Policy) (unmarshal : Text → Result StatusChangedPayload) (batch : ℤ)
    (ttl : ℕ) where
  -- Runner.worker, up to its next call.
  unfoldable pub advance : Worker → Counters → World → Stage
  unfolding pick_batch mark_success deliver
  advance waiting c w = after_pick c (pick_batch batch ttl w)
  advance (dispatching [] keys) c w = after_mark c (mark_success keys w)
  advance (dispatching (m ∷ ms) keys) c w =
      after_dispatch m ms keys c (deliver topic p unmarshal m w)
  advance stopped c w = (stopped, c, w)

  -- The calls of one worker that nobody interrupts.
  unfoldable pub advance_all : ℕ → Worker → Counters → World → Stage
  unfolding advance
  advance_all zero x c w = (x, c, w)
  advance_all (suc n) x c w = let (x', c', w') = advance x c w in advance_all n x' c' w'

  unfoldable pub advance_at : ℕ → List Worker → Counters → World → List Worker × Counters × World
  unfolding advance
  advance_at i [] c w = ([], c, w)
  advance_at zero (x ∷ xs) c w = let (x', c', w') = advance x c w in (x' ∷ xs, c', w')
  advance_at (suc i) (x ∷ xs) c w = let (xs', c', w') = advance_at i xs c w in (x ∷ xs', c', w')

  unfoldable pub move : Move → Runner → Runner
  unfolding advance_at stop_at enqueue
  move (works i) r =
      let (xs, c, w) = advance_at i r.workers r.counters r.world in
      record { workers = xs; counters = c; world = w }
  move (stops i) r = record r { workers = stop_at i r.workers }
  move (passes d) r = record r { world = record r.world { clock = r.world.clock + d } }
  move (enqueues key kind payload) r = record r {
    world = (enqueue background key kind payload r.world).1;
  }

  unfoldable pub move_all : List Move → Runner → Runner
  unfolding move
  move_all [] r = r
  move_all (m ∷ ms) r = move_all ms (move m r)
