-- ===== src/OutboxRunner/Workers/Fair.antt =====
-- What a worker has in its hands, and what stands as done in the outbox.
use pingerus.Base.{ℕ, ◌≡◌, refl, ◌∙◌, sym, subst, inl, inr, List, [], ◌∷◌, In, All}
use pingerus.Base.Int.{ℤ}
use pingerus.Text.{Text}
use pingerus.World.{World}
use pingerus.World.Errors.{Result, ok}
use pingerus.World.Laws.{Result-cases}
use pingerus.World.Rows.{Message, success}
use pingerus.Postgres.Outbox.{pick_batch, finish_rows, mark_success}
use pingerus.Postgres.Outbox.Places.{In-finished, All-exists}
use pingerus.Retry.{Policy}
use pingerus.PingWorker.{StatusChangedPayload}
use pingerus.OutboxRunner.Sending.{Extends}
use pingerus.OutboxRunner.Delivery.{IsDelivered}
use pingerus.OutboxRunner.Marking.{mark_success-db, picked-place, picked-success}
use pingerus.OutboxRunner.Workers.{
  Worker, waiting, stopped, dispatching, Counters, Stage, after_pick, after_mark,
}
use pingerus.OutboxRunner.Workers.Onward.{
  Stands, Onward, Onward-same, Stands-later, pick_batch-Onward, mark_success-Onward,
}

module _ (topic : Text) (p : Policy) (unmarshal : Text → Result StatusChangedPayload) where
  -- A message of that key stands in the outbox, and its change was published.
  abbrev pub Kept : World → Text → Type 0
  Kept w key = IsDelivered topic p unmarshal w.db.outbox w key

  -- A message of its key stands beside each row that is done, and that message's change was published.
  abbrev pub IsSound : World → Type 0
  IsSound w = (m : Message) → m.status ≡ success → In m w.db.outbox → Kept w m.idempotency_key

  -- What a worker has in its hands came from the outbox, and its keys are of what was published.
  abbrev pub IsFair : World → Worker → Type 0
  IsFair w (dispatching ms keys) = All (Stands w.db.outbox) ms × All (Kept w) keys
  IsFair w waiting = Unit
  IsFair w stopped = Unit

  pub Kept-later : {w v : World} → Onward w v → (key : Text) → Kept w key → Kept v key
  Kept-later o key (m, place, same, (c, read, (ts, sent))) =
      let (n, place', key', payload') = o.stands m place in
      (n, place', key' ∙ same, (c, rw payload' read, (ts, o.keeps _ sent)))

  All-Stands :
      {w v : World}
      → Onward w v
      → (ms : List Message) → All (Stands w.db.outbox) ms
      → All (Stands v.db.outbox) ms
  All-Stands o [] h = tt
  All-Stands o (m ∷ ms) (h, more) = (Stands-later o m h, All-Stands o ms more)

  All-Kept : {w v : World} → Onward w v → (keys : List Text) → All (Kept w) keys → All (Kept v) keys
  All-Kept o [] h = tt
  All-Kept o (k ∷ ks) (h, more) = (Kept-later o k h, All-Kept o ks more)

  pub IsFair-later : {w v : World} → Onward w v → (x : Worker) → IsFair w x → IsFair v x
  IsFair-later o (dispatching ms keys) (there, sent) = (All-Stands o ms there, All-Kept o keys sent)
  IsFair-later o waiting h = tt
  IsFair-later o stopped h = tt

  pub All-IsFair :
      {w v : World} → Onward w v → (xs : List Worker) → All (IsFair w) xs → All (IsFair v) xs
  All-IsFair o [] h = tt
  All-IsFair o (x ∷ xs) (h, more) = (IsFair-later o x h, All-IsFair o xs more)

  pub Extends-Onward : {w v : World} → Extends w v → Onward w v
  Extends-Onward e = record {
    stands = λ m h. (m, subst (λ t. In m t.outbox) (sym e.same_db) h, refl, refl);
    keeps = e.keeps;
  }

  -- What a call of one worker leaves.
  abbrev pub Goes : World → Stage → Type 0
  Goes w x = Onward w x.2 × IsSound x.2 × IsFair x.2 x.0

  Onward-refl : (w : World) → Onward w w
  Onward-refl w = Onward-same refl refl

  module _ (batch : ℤ) (ttl : ℕ) where
    picked-Stands :
        (w : World) (ms : List Message) (all : List Message)
        → (pick_batch batch ttl w).0 ≡ ok all
        → ((m : Message) → In m ms → In m all)
        → All (Stands w.db.outbox) ms
    picked-Stands w [] all e sub = tt
    picked-Stands w (m ∷ ms) all e sub = (
      picked-place batch ttl w all e m (sub m (inl refl)),
      picked-Stands w ms all e (λ n h. sub n (inr h)),
    )

    pick-IsSound : (w : World) → IsSound w → IsSound (pick_batch batch ttl w).1
    pick-IsSound w s m done place =
        Kept-later (pick_batch-Onward batch ttl w) m.idempotency_key
          (s m done (picked-success batch ttl w m done place))

    pub pick-Goes :
        (c : Counters) (w : World) → IsSound w → Goes w (after_pick c (pick_batch batch ttl w))
    pick-Goes c w s = elim (Result-cases (pick_batch batch ttl w).0) [
      | inl (ms, picks) ↦
          let onward = pick_batch-Onward batch ttl w in
          rw picks (
            onward,
            pick-IsSound w s,
            (All-Stands onward ms (picked-Stands w ms ms picks (λ m h. h)), tt),
          )
      | inr (x, fails) ↦ rw fails (pick_batch-Onward batch ttl w, pick-IsSound w s, tt)
    ]

    mark-IsSound :
        (keys : List Text) (w : World)
        → IsSound w
        → All (Kept w) keys
        → IsSound (mark_success keys w).1
    unfolding finish_rows
    mark-IsSound keys w s sent m done place = elim (mark_success-db keys w) [
      | inl same ↦ later (s m done (subst (λ t. In m t.outbox) same place))
      | inr (at, moved) ↦
          elim (In-finished keys at m w.db.outbox (subst (λ t. In m t.outbox) moved place)) [
            | inl there ↦ later (s m done there)
            | inr marked ↦ later (All-exists (Kept w) m.idempotency_key keys sent marked)
          ]
    ]
      where
        later : Kept w m.idempotency_key → Kept (mark_success keys w).1 m.idempotency_key
        later = Kept-later (mark_success-Onward keys w) m.idempotency_key

    pub mark-Goes :
        (keys : List Text) (c : Counters) (w : World)
        → IsSound w
        → All (Kept w) keys
        → Goes w (after_mark c (mark_success keys w))
    mark-Goes keys c w s sent = elim (Result-cases (mark_success keys w).0) [
      | inl (u, fine) ↦ rw fine (mark_success-Onward keys w, mark-IsSound keys w s sent, tt)
      | inr (x, fails) ↦ rw fails (mark_success-Onward keys w, mark-IsSound keys w s sent, tt)
    ]
