-- ===== src/OutboxRunner/Workers/Soundness.antt =====
-- Calls of the workers, in any order.
use pingerus.Base.{
  ℕ, zero, suc, ◌≡◌, refl, sym, subst, inl, inr, Bool, true, false, List, [], ◌∷◌, In, All,
  All-append,
}
use pingerus.Base.Int.{ℤ}
use pingerus.Text.{Text}
use pingerus.World.{World, background}
use pingerus.World.Errors.{Result, ok}
use pingerus.World.Rows.{Message, success}
use pingerus.Postgres.Outbox.{enqueue}
use pingerus.Retry.{Policy}
use pingerus.PingWorker.{StatusChangedPayload}
use pingerus.OutboxRunner.{deliver}
use pingerus.OutboxRunner.Sending.{Extends, IsDone}
use pingerus.OutboxRunner.Delivery.{deliver-Delivery}
use pingerus.OutboxRunner.Workers.{
  Worker, waiting, stopped, dispatching, Runner, Counters, after_dispatch, Move, works, stops,
  passes, enqueues, start, stop_at, new_runner, advance, advance_at, move, move_all,
}
use pingerus.OutboxRunner.Workers.Onward.{
  Stands, Onward, Onward-same, Stands-later, enqueue-Onward, created-open, enqueue-published,
  enqueue-cases,
}
use pingerus.OutboxRunner.Workers.Fair.{
  Kept, IsSound, IsFair, Kept-later, IsFair-later, All-IsFair, Extends-Onward, Goes, pick-Goes,
  mark-Goes,
}

module _ (topic : Text) (p : Policy) (unmarshal : Text → Result StatusChangedPayload) where
  extended-IsSound :
      (w v : World) → Extends w v → IsSound topic p unmarshal w → IsSound topic p unmarshal v
  extended-IsSound w v e s m done place =
      Kept-later topic p unmarshal (Extends-Onward topic p unmarshal e) m.idempotency_key
        (s m done (subst (λ t. In m t.outbox) e.same_db place))

  dispatch-Goes :
      (m : Message) (ms : List Message) (keys : List Text) (c : Counters) (w : World)
      → IsSound topic p unmarshal w
      → IsFair topic p unmarshal w (dispatching (m ∷ ms) keys)
      → Goes topic p unmarshal w (after_dispatch m ms keys c (deliver topic p unmarshal m w))
  dispatch-Goes m ms keys c w s ((there, more), sent) =
      let d = deliver-Delivery topic p unmarshal m w in
      let v : World = (deliver topic p unmarshal m w).1 in
      let onward = Extends-Onward topic p unmarshal d.onward in
      let (more', sent') =
        IsFair-later topic p unmarshal onward (dispatching ms keys) (more, sent) in
      rw d.answers (answered v onward (extended-IsSound w v d.onward s) more' sent' d.answer d.done)
    where
      answered :
          (v : World)
          → Onward w v
          → IsSound topic p unmarshal v
          → All (Stands v.db.outbox) ms
          → All (Kept topic p unmarshal v) keys
          → (b : Bool) → (b ≡ true → IsDone topic p unmarshal m.payload v)
          → Goes topic p unmarshal w (after_dispatch m ms keys c (ok b, v))
      answered v onward sound more sent true done =
          let (n, place, key, payload) = Stands-later onward m there in
          (
            onward,
            sound,
            (
              more,
              All-append (Kept topic p unmarshal v) keys (m.idempotency_key ∷ []) sent
                  ((n, place, key, rw payload (done refl)), tt),
            ),
          )
      answered v onward sound more sent false done = (onward, sound, (more, sent))

  module _ (batch : ℤ) (ttl : ℕ) where
    advance-Goes :
        (x : Worker) (c : Counters) (w : World)
        → IsSound topic p unmarshal w
        → IsFair topic p unmarshal w x
        → Goes topic p unmarshal w (advance topic p unmarshal batch ttl x c w)
    unfolding advance
    advance-Goes waiting c w s h = pick-Goes topic p unmarshal batch ttl c w s
    advance-Goes (dispatching [] keys) c w s (h, sent) =
        mark-Goes topic p unmarshal batch ttl keys c w s sent
    advance-Goes (dispatching (m ∷ ms) keys) c w s h = dispatch-Goes m ms keys c w s h
    advance-Goes stopped c w s h = (Onward-same refl refl, s, h)

    -- The world is sound, and so is what each worker has.
    abbrev AreFair : Runner → Type 0
    AreFair r = IsSound topic p unmarshal r.world × All (IsFair topic p unmarshal r.world) r.workers

    -- After a call of the worker at that place.
    abbrev GoesAt : World → List Worker × Counters × World → Type 0
    GoesAt w x =
        Onward w x.2 × IsSound topic p unmarshal x.2 × All (IsFair topic p unmarshal x.2) x.0

    advance_at-Goes :
        (i : ℕ) (xs : List Worker) (c : Counters) (w : World)
        → IsSound topic p unmarshal w
        → All (IsFair topic p unmarshal w) xs
        → GoesAt w (advance_at topic p unmarshal batch ttl i xs c w)
    unfolding advance_at
    advance_at-Goes i [] c w s h = (Onward-same refl refl, s, tt)
    advance_at-Goes zero (x ∷ xs) c w s (h, more) =
        let (onward, sound, fair) = advance-Goes x c w s h in
        (onward, sound, (fair, All-IsFair topic p unmarshal onward xs more))
    advance_at-Goes (suc i) (x ∷ xs) c w s (h, more) =
        let (onward, sound, fair) = advance_at-Goes i xs c w s more in
        (onward, sound, (IsFair-later topic p unmarshal onward x h, fair))

    stop_at-IsFair :
        (w : World) (i : ℕ) (xs : List Worker)
        → All (IsFair topic p unmarshal w) xs
        → All (IsFair topic p unmarshal w) (stop_at i xs)
    unfolding stop_at
    stop_at-IsFair w i [] h = tt
    stop_at-IsFair w zero (waiting ∷ xs) (h, more) = (tt, more)
    stop_at-IsFair w zero (dispatching ms keys ∷ xs) h = h
    stop_at-IsFair w zero (stopped ∷ xs) h = h
    stop_at-IsFair w (suc i) (x ∷ xs) (h, more) = (h, stop_at-IsFair w i xs more)

    enqueue-Goes :
        (key : Text) (kind : ℤ) (payload : Text) (w : World)
        → IsSound topic p unmarshal w
        → Onward w (enqueue background key kind payload w).1
          × IsSound topic p unmarshal (enqueue background key kind payload w).1
    enqueue-Goes key kind payload w s = elim (enqueue-cases key kind payload w) [
      | inl same ↦
          let e : Extends w (enqueue background key kind payload w).1 = record {
            same_db = same;
            keeps = λ r h. subst (In r) (sym (enqueue-published key kind payload w)) h;
          } in
          (Extends-Onward topic p unmarshal e, extended-IsSound w _ e s)
      | inr (at, more) ↦
          let onward = enqueue-Onward key kind payload w at more in
          (
            onward,
            λ m done place. elim (subst (In m) more place) [
              | inl new ↦
                  absurd
                    (created-open key kind payload at (subst (λ n. n.status ≡ success) new done))
              | inr there ↦ Kept-later topic p unmarshal onward m.idempotency_key (s m done there)
            ],
          )
    ]

    move-AreFair :
        (m : Move) (r : Runner) → AreFair r → AreFair (move topic p unmarshal batch ttl m r)
    unfolding move
    move-AreFair (works i) r (s, h) =
        let (onward, sound, fair) = advance_at-Goes i r.workers r.counters r.world s h in
        (sound, fair)
    move-AreFair (stops i) r (s, h) = (s, stop_at-IsFair r.world i r.workers h)
    move-AreFair (passes d) r h = h
    move-AreFair (enqueues key kind payload) r (s, h) =
        let (onward, sound) = enqueue-Goes key kind payload r.world s in
        (sound, All-IsFair topic p unmarshal onward r.workers h)

    move_all-AreFair :
        (moves : List Move) (r : Runner)
        → AreFair r
        → AreFair (move_all topic p unmarshal batch ttl moves r)
    unfolding move_all
    move_all-AreFair [] r h = h
    move_all-AreFair (m ∷ ms) r h =
        move_all-AreFair ms (move topic p unmarshal batch ttl m r) (move-AreFair m r h)

    start-IsFair : (w : World) (n : ℕ) → All (IsFair topic p unmarshal w) (start n)
    unfolding start
    start-IsFair w zero = tt
    start-IsFair w (suc n) = (tt, start-IsFair w n)

    -- Where each row that is done has a message of its key beside it whose change was published:
    -- however many workers are started, and in whichever order their calls follow each other and fail,
    -- with time that passes and messages that are put into the outbox between them, this holds of each
    -- row that is done afterwards.
    pub move_all-IsSound :
        (workers : ℕ) (moves : List Move) (w : World)
        → IsSound topic p unmarshal w
        → IsSound topic p unmarshal
            (move_all topic p unmarshal batch ttl moves (new_runner workers w)).world
    move_all-IsSound workers moves w s =
        (move_all-AreFair moves (new_runner workers w) (s, start-IsFair w workers)).0
