-- ===== src/OutboxRunner/Workers/Counts.antt =====
-- The counters of the workers.
use pingerus.Base.{
  ℕ, zero, suc, ◌+◌, ◌≤◌, ◌≡◌, refl, Bool, true, false, List, [], ◌∷◌, length, arith,
}
use pingerus.Base.Int.{ℤ}
use pingerus.Text.{Text}
use pingerus.World.{World}
use pingerus.World.Errors.{Result, ok, err}
use pingerus.World.Rows.{Message}
use pingerus.Postgres.Outbox.{pick_batch, mark_success}
use pingerus.Retry.{Policy}
use pingerus.PingWorker.{StatusChangedPayload}
use pingerus.OutboxRunner.{deliver}
use pingerus.OutboxRunner.Workers.{
  Worker, waiting, stopped, dispatching, Runner, Counters, after_pick, after_dispatch, after_mark,
  Move, works, stops, passes, enqueues, start, new_runner, stop_at, advance, advance_at, move,
  move_all,
}

-- The messages that a worker still has to handle.
abbrev pub left_over : Worker → ℕ
left_over waiting = 0
left_over stopped = 0
left_over (dispatching ms keys) = length ms

abbrev pub all_left : List Worker → ℕ
all_left [] = 0
all_left (x ∷ xs) = left_over x + all_left xs

-- Of the messages picked, each is left, or was counted as handled or as an error.
abbrev pub AreCounted : ℕ → Counters → Type 0
AreCounted n c = (c.m_ok + n ≤ c.m_picked) × (c.m_picked ≤ c.m_ok + c.m_err + n)

abbrev pub Tallies : Runner → Type 0
Tallies r = AreCounted (all_left r.workers) r.counters

after_pick-AreCounted :
    (n : ℕ) (c : Counters) (x : Result (List Message) × World)
    → AreCounted n c
    → let (y, d, w) = after_pick c x in AreCounted (left_over y + n) d
after_pick-AreCounted n c (ok ms, w) h = omega (arith, h)
after_pick-AreCounted n c (err e, w) h = omega (arith, h)

after_dispatch-AreCounted :
    (n : ℕ) (m : Message) (ms : List Message) (keys : List Text) (c : Counters)
    (x : Result Bool × World)
    → AreCounted (suc (length ms) + n) c
    → let (y, d, w) = after_dispatch m ms keys c x in AreCounted (left_over y + n) d
after_dispatch-AreCounted n m ms keys c (ok true, w) h = (omega (arith, h), omega (arith, h))
after_dispatch-AreCounted n m ms keys c (ok false, w) h = (omega (arith, h), omega (arith, h))
after_dispatch-AreCounted n m ms keys c (err e, w) h = (omega (arith, h), omega (arith, h))

after_mark-AreCounted :
    (n : ℕ) (c : Counters) (x : Result (Unit {0}) × World)
    → AreCounted n c
    → let (y, d, w) = after_mark c x in AreCounted (left_over y + n) d
after_mark-AreCounted n c (ok u, w) h = (omega (arith, h), omega (arith, h))
after_mark-AreCounted n c (err e, w) h = (omega (arith, h), omega (arith, h))

all_left-stop_at : (i : ℕ) (xs : List Worker) → all_left (stop_at i xs) ≡ all_left xs
unfolding stop_at
all_left-stop_at i [] = refl
all_left-stop_at zero (waiting ∷ xs) = refl
all_left-stop_at zero (dispatching ms keys ∷ xs) = refl
all_left-stop_at zero (stopped ∷ xs) = refl
all_left-stop_at (suc i) (x ∷ xs) = omega (arith, all_left-stop_at i xs)

all_left-start : (n : ℕ) → all_left (start n) ≡ 0
unfolding start
all_left-start zero = refl
all_left-start (suc n) = omega (arith, all_left-start n)

module _ (topic : Text) (p : Policy) (unmarshal : Text → Result StatusChangedPayload) (batch : ℤ)
    (ttl : ℕ) where
  advance-AreCounted :
      (n : ℕ) (x : Worker) (c : Counters) (w : World)
      → AreCounted (left_over x + n) c
      → let (y, d, v) = advance topic p unmarshal batch ttl x c w in AreCounted (left_over y + n) d
  unfolding advance
  advance-AreCounted n waiting c w h =
      after_pick-AreCounted n c (pick_batch batch ttl w) (omega (arith, h), omega (arith, h))
  advance-AreCounted n (dispatching [] keys) c w h =
      after_mark-AreCounted n c (mark_success keys w) (omega (arith, h), omega (arith, h))
  advance-AreCounted n (dispatching (m ∷ ms) keys) c w h =
      after_dispatch-AreCounted n m ms keys c (deliver topic p unmarshal m w) h
  advance-AreCounted n stopped c w h = (omega (arith, h), omega (arith, h))

  advance_at-AreCounted :
      (i n : ℕ) (xs : List Worker) (c : Counters) (w : World)
      → AreCounted (all_left xs + n) c
      → let (ys, d, v) = advance_at topic p unmarshal batch ttl i xs c w in
        AreCounted (all_left ys + n) d
  unfolding advance_at
  advance_at-AreCounted i n [] c w h = h
  advance_at-AreCounted zero n (x ∷ xs) c w h =
      let (y, d, v) = advance topic p unmarshal batch ttl x c w in
      let g = advance-AreCounted (all_left xs + n) x c w (omega (arith, h), omega (arith, h)) in
      (omega (arith, g), omega (arith, g))
  advance_at-AreCounted (suc i) n (x ∷ xs) c w h =
      let (ys, d, v) = advance_at topic p unmarshal batch ttl i xs c w in
      let g =
        advance_at-AreCounted i (left_over x + n) xs c w (omega (arith, h), omega (arith, h)) in
      (omega (arith, g), omega (arith, g))

  move-Tallies :
      (m : Move) (r : Runner) → Tallies r → Tallies (move topic p unmarshal batch ttl m r)
  unfolding move
  move-Tallies (works i) r h =
      let g =
        advance_at-AreCounted i 0 r.workers r.counters r.world
          (omega (arith, h), omega (arith, h)) in
      (omega (arith, g), omega (arith, g))
  move-Tallies (stops i) r h = rw (all_left-stop_at i r.workers) h
  move-Tallies (passes d) r h = h
  move-Tallies (enqueues key kind payload) r h = h

  move_all-keeps :
      (moves : List Move) (r : Runner)
      → Tallies r
      → Tallies (move_all topic p unmarshal batch ttl moves r)
  unfolding move_all
  move_all-keeps [] r h = h
  move_all-keeps (m ∷ ms) r h =
      move_all-keeps ms (move topic p unmarshal batch ttl m r) (move-Tallies m r h)

  -- However many workers are started, and in whichever order their calls follow each other and fail:
  -- the counter of the messages picked is at least the sum of that of the messages handled and of the
  -- messages that the workers still have, and at most that sum with the counter of errors.
  pub move_all-Tallies :
      (workers : ℕ) (moves : List Move) (w : World)
      → Tallies (move_all topic p unmarshal batch ttl moves (new_runner workers w))
  move_all-Tallies workers moves w =
      move_all-keeps moves (new_runner workers w)
        (omega (arith, all_left-start workers), omega (arith, all_left-start workers))
