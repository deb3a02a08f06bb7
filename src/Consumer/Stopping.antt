-- ===== src/Consumer/Stopping.antt =====
-- Consume returns once its context is done.
use pingerus.Base.{
  ℕ, zero, suc, ◌+◌, ◌*◌, ◌≤◌, ◌<◌, ◌≡◌, refl, ap, inl, inr, Bool, true, some, length, arith,
  Option,
}
use pingerus.World.{World}
use pingerus.World.Errors.{Error, sentinel, canceled}
use pingerus.Consumer.{
  Fetched, Reader, Handler, Loop, Round, stop, next, min_backoff, round, go_on, consume,
}
use pingerus.Consumer.Partitions.{Partition}
use pingerus.Consumer.Rounds.{Turn, Post, round-Post}
use pingerus.Consumer.Runs.{
  here, Progress, Rest-Progress, step-Progress, Reach-Progress, next_backoff-bounds,
}

module _ {S : Type 0} (r : Reader S) (p : Partition S r) (done : World → Bool) (h : Handler)
    (deadline : ℕ) (late : (w : World) → deadline ≤ w.clock → done w ≡ true)
    (ticks : (m : Fetched) (w : World) → w.clock ≤ (h m.key m.value w).1.clock) where
  open p use {pending}

  -- Consume returned with the error of its context, and what it did since it was started.
  abbrev pub IsStopped : Loop S → Option (Error × Loop S) → Type 0
  IsStopped start x = (t : Loop S) × (x ≡ some (sentinel canceled, t)) × Progress r p done h start t

  -- Enough rounds: one for each message, and one for each least wait up to the deadline.
  abbrev pub IsEnough : ℕ → ℕ → Loop S → Type 0
  IsEnough fuel waits l =
      (min_backoff ≤ l.backoff)
      × (deadline ≤ l.world.clock + waits * min_backoff)
      × (length (pending l.reader) + waits < fuel)

  Turn-IsEnough :
      (fuel waits : ℕ) (l u : Loop S)
      → IsEnough (suc fuel) (suc waits) l
      → Turn r p done h l u
      → (rest : ℕ) × IsEnough fuel rest u
  Turn-IsEnough fuel waits l u (low, near, room) (inl x) =
      let (up, _) = next_backoff-bounds l.backoff low in
      let same : length (pending u.reader) ≡ length (pending l.reader) =
        ap length x.pause.pending in
      (waits, (rw x.backoff up, omega (arith, x.slept), omega arith))
  Turn-IsEnough fuel waits l u (low, near, room) (inr (m, x)) =
      let fewer : length (pending l.reader) ≡ suc (length (pending u.reader)) =
        ap length x.pending in
      let on : l.world.clock ≤ u.world.clock =
        omega (arith, x.before.clock, ticks m x.at, x.after.clock) in
      (suc waits, (rw x.backoff (omega arith), omega arith, omega arith))

  round-stops : (l : Loop S) → done l.world ≡ true → round r done h l ≡ stop (sentinel canceled) l
  unfolding round
  round-stops l over = rw over refl

  module _ (start : Loop S) where
    abbrev Stops : ℕ → Type 0
    Stops fuel =
        (waits : ℕ) (l : Loop S)
        → IsEnough fuel waits l
        → Progress r p done h start l
        → IsStopped start (consume r done h fuel l)

    go_on-IsStopped :
        (fuel waits : ℕ) (l : Loop S) (x : Round S)
        → Stops fuel
        → IsEnough (suc fuel) (suc waits) l
        → Progress r p done h start l
        → Post r p done h l x
        → IsStopped start (go_on r done h (consume r done h fuel) x)
    go_on-IsStopped fuel waits l (stop e u) more enough g (over, rest) =
        (u, rw over refl, Rest-Progress r p done h start l u rest g)
    go_on-IsStopped fuel waits l (next u) more enough g turn =
        let (rest, enough') = Turn-IsEnough fuel waits l u enough turn in
        more rest u enough' (step-Progress r p done h start l u turn g)

    consume-Stops : (fuel : ℕ) → Stops fuel
    unfolding consume
    consume-Stops zero waits l (low, near, room) g = absurd (omega arith)
    consume-Stops (suc fuel) zero l (low, near, room) g =
        let over : done l.world ≡ true = late l.world (omega arith) in
        (l, ap (go_on r done h (consume r done h fuel)) (round-stops l over), g)
    consume-Stops (suc fuel) (suc waits) l enough g =
        go_on-IsStopped fuel waits l (round r done h l) (consume-Stops fuel) enough g
          (round-Post r p done h l)

  -- For a reader with the laws of Partition, a context that is done from a deadline on, a handler
  -- that does not turn back the clock, and a backoff of at least 200 ms at the start: Consume
  -- returns, with the error of the context, after at most as many rounds as there are messages left
  -- and waits of 200 ms until the deadline, and one more. By then a first part of the messages was
  -- handed to the handler, each once and in order, and the offset of the group is unchanged, or that
  -- after one of these messages on which the handler returned no error.
  pub consume-IsStopped :
      (fuel waits : ℕ) (l : Loop S) → IsEnough fuel waits l → IsStopped l (consume r done h fuel l)
  consume-IsStopped fuel waits l enough =
      consume-Stops l fuel waits l enough (Reach-Progress r p done h l here)
