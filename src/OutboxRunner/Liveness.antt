-- ===== src/OutboxRunner/Liveness.antt =====
-- A message that is available leaves the outbox at a tick without faults.
use pingerus.Base.{
  ℕ, ◌≡◌, refl, sym, ap, subst, ◌==◌, false, inl, inr, Bool, true, none, List, [], ◌∷◌, In, map,
  modify, exists, arith,
}
use pingerus.Base.Int.{pos}
use pingerus.Text.{Text, text_eq}
use pingerus.Text.Laws.{text_eq_refl}
use pingerus.World.{
  World, statement, interact, begin, commit, attempt, wrapping, deferring_rollback, calm, ◌>>=◌,
}
use pingerus.World.Errors.{Result, ok}
use pingerus.World.Rows.{Time, Message, in_progress}
use pingerus.Postgres.Outbox.{
  candidates, pick_rows, pick_batch, start_row, finish_row, finish_rows, is_started, among,
  mark_success,
}
use pingerus.Postgres.Outbox.Places.{In-candidates}
use pingerus.Retry.{Policy}
use pingerus.PingWorker.{StatusChangedPayload}
use pingerus.OutboxRunner.{deliver_all, process, tick}
use pingerus.OutboxRunner.Delivery.{deliver_all-Deliveries}
use pingerus.OutboxRunner.Progress.{IsQuiet, IsSendable, deliver_all-sends, deliver_all-IsQuiet}
use pingerus.OutboxRunner.Sending.{IsDone}

In-modify :
    {A : Type 0} (p : A → Bool) (f : A → A) (x : A) (xs : List A)
    → p x ≡ true
    → In x xs
    → In (f x) (modify p f xs)
In-modify p f x [] holds h = absurd h
In-modify p f x (y ∷ ys) holds (inl e) = inl (rw (sym e, holds) refl)
In-modify p f x (y ∷ ys) holds (inr h) = inr (In-modify p f x ys holds h)

In-map : {A : Type 0} (f : A → A) (x : A) (xs : List A) → In x xs → In (f x) (map f xs)
In-map f x [] h = absurd h
In-map f x (y ∷ ys) (inl e) = inl (ap f e)
In-map f x (y ∷ ys) (inr h) = inr (In-map f x ys h)

In-among : (m : Message) (ms : List Message) → In m ms → among ms m ≡ true
In-among m [] h = absurd h
In-among m (n ∷ ns) (inl e) = rw (e, text_eq_refl n.idempotency_key) refl
In-among m (n ∷ ns) (inr h) = ground (arith, In-among m ns h)

-- The world after a pick without faults.
abbrev picked : ℕ → ℕ → World → World
picked b ttl w = record w { db = (pick_rows b ttl w.clock w.db).1; tx = none }

pick-calm :
    (b ttl : ℕ) (w : World)
    → (b == 0) ≡ false
    → pick_batch (pos b) ttl (calm w)
      ≡ (ok (map (start_row w.clock) (candidates b ttl w.clock w.db.outbox)), picked b ttl (calm w))
unfolding pick_batch interact pick_rows statement begin commit wrapping deferring_rollback ◌>>=◌
pick-calm b ttl w allowed = rw allowed refl

mark-calm :
    (keys : List Text) (m : Message) (w : World)
    → exists (text_eq m.idempotency_key) keys ≡ true
    → m.status ≡ in_progress
    → In m w.db.outbox
    → In (finish_row w.clock m) (mark_success keys (calm w)).1.db.outbox
      × ((mark_success keys (calm w)).1.published ≡ w.published)
unfolding mark_success finish_rows statement wrapping interact
mark-calm [] m w there started h = absurd cc
mark-calm (k ∷ ks) m w there started h = (
  In-modify (is_started (k ∷ ks)) (finish_row w.clock) m w.db.outbox (rw (there, started) refl) h,
  refl,
)

quiet-calm : (w : World) → IsQuiet w → calm w ≡ w
quiet-calm w q = ap (λ s. record w { script = s }) (sym q)

mark-quiet :
    (keys : List Text) (m : Message) (w : World)
    → IsQuiet w
    → exists (text_eq m.idempotency_key) keys ≡ true
    → m.status ≡ in_progress
    → In m w.db.outbox
    → In (finish_row w.clock m) (mark_success keys w).1.db.outbox
      × ((mark_success keys w).1.published ≡ w.published)
mark-quiet keys m w q there started h =
    subst
      (λ x.
        In (finish_row w.clock m) (mark_success keys x).1.db.outbox
        × ((mark_success keys x).1.published ≡ w.published))
      (quiet-calm w q) (mark-calm keys m w there started h)

module _ (topic : Text) (p : Policy) (unmarshal : Text → Result StatusChangedPayload) (b ttl : ℕ)
    (allowed : (b == 0) ≡ false) (m : Message) (s : IsSendable topic p unmarshal m) where
  -- The message is done, and its change is published.
  abbrev pub IsBroughtOn : Time → World → Type 0
  IsBroughtOn at w =
      ((end : Time) × In (finish_row end (start_row at m)) w.db.outbox)
      × IsDone topic p unmarshal m.payload w

  process-brings :
      (ms : List Message) (at : Time) (w : World)
      → IsQuiet w
      → In (start_row at m) ms
      → In (start_row at m) w.db.outbox
      → IsBroughtOn at (process topic p unmarshal (ok ms) w).1
  unfolding process attempt ◌>>=◌
  process-brings ms at w q picked place =
      let (keys, answers, there, (c, read, (ts, sent))) =
        deliver_all-sends topic p unmarshal (start_row at m) ms w q
          (record { kind = s.kind; change = s.change; payload = s.payload }) picked in
      let v : World = (deliver_all topic p unmarshal ms w).1 in
      let onward = (deliver_all-Deliveries topic p unmarshal ms w).onward in
      let still : In (start_row at m) v.db.outbox = rw onward.same_db place in
      let (done, same) =
        mark-quiet keys (start_row at m) v (deliver_all-IsQuiet topic p unmarshal ms w q) there refl
          still in
      rw answers ((v.clock, done), (c, read, (ts, rw same sent)))

  tick-calm :
      (w : World)
      → In m (candidates b ttl w.clock w.db.outbox)
      → IsBroughtOn w.clock (tick topic p unmarshal (pos b) ttl (calm w)).1
  unfolding tick attempt ◌>>=◌ pick_rows
  tick-calm w h =
      let cand : List Message = candidates b ttl w.clock w.db.outbox in
      rw (pick-calm b ttl w allowed) (
        process-brings (map (start_row w.clock) cand) w.clock (picked b ttl (calm w)) refl
          (In-map (start_row w.clock) m cand h)
          (In-modify (among cand) (start_row w.clock) m w.db.outbox (In-among m cand h)
            (In-candidates m b ttl w.clock w.db.outbox h)))

  -- In the absence of faults, a tick of a worker publishes the change in each message that it picks, if
  -- the message is of the kind that the worker handles and its payload can be read, and the message is
  -- marked as done.
  pub tick-IsBroughtOn :
      (w : World)
      → w.script ≡ []
      → In m (candidates b ttl w.clock w.db.outbox)
      → IsBroughtOn w.clock (tick topic p unmarshal (pos b) ttl w).1
  tick-IsBroughtOn w q h =
      subst (λ x. IsBroughtOn w.clock (tick topic p unmarshal (pos b) ttl x).1) (quiet-calm w q)
        (tick-calm w h)
