-- ===== src/OutboxRunner/Marking.antt =====
-- What a tick of the outbox worker leaves in the outbox.
use pingerus.Base.{
  ℕ, ◌≡◌, refl, ◌∙◌, sym, subst, ◌⊎◌, inl, inr, some, List, [], ◌∷◌, map, In, All, arith,
  Option-cases,
}
use pingerus.Base.Int.{ℤ, pos_part}
use pingerus.Text.{Text}
use pingerus.World.{
  World, begin, commit, interact, attempt, statement, wrapping, deferring_rollback, ◌>>=◌,
}
use pingerus.World.Errors.{Result, ok, err}
use pingerus.World.Laws.{db-interact, published-interact, tx-interact}
use pingerus.World.Rows.{Time, Message, success}
use pingerus.Postgres.Outbox.{
  candidates, start_row, among, pick_rows, pick_batch, finish_rows, mark_success,
}
use pingerus.Postgres.Outbox.Places.{
  In-candidates, In-started, success-started, In-finished, All-exists,
}
use pingerus.Retry.{Policy}
use pingerus.PingWorker.{StatusChangedPayload}
use pingerus.OutboxRunner.{deliver_all, process, tick}
use pingerus.OutboxRunner.Delivery.{IsDelivered, deliver_all-Deliveries}

abbrev pub begun : World → World
begun w =
    let v : World = (interact w).1 in
    record v { tx = some (record { started = v.clock; view = v.db }) }

-- The tables after a pick that did not fail, before the commit.
abbrev pub picked : ℤ → ℕ → World → World
picked batch ttl w =
    let v : World = (interact (begun w)).1 in
    record v {
      tx = some (record {
        started = (interact w).1.clock;
        view = (pick_rows (pos_part batch) ttl (interact w).1.clock (interact w).1.db).1;
      });
    }

pub pick_batch-db :
    (batch : ℤ) (ttl : ℕ) (w : World)
    → ((pick_batch batch ttl w).1.db ≡ w.db)
      ⊎ ((pick_batch batch ttl w).1.db
          ≡ (pick_rows (pos_part batch) ttl (interact w).1.clock w.db).1)
unfolding pick_batch begin commit statement wrapping deferring_rollback ◌>>=◌
pick_batch-db batch ttl w = ground (
  arith,
  db-interact w,
  db-interact (begun w),
  tx-interact (begun w),
  db-interact (interact (begun w)).1,
  db-interact (picked batch ttl w),
  tx-interact (picked batch ttl w),
)

pub mark_success-db :
    (keys : List Text) (u : World)
    → ((mark_success keys u).1.db ≡ u.db)
      ⊎ ((at : Time) × ((mark_success keys u).1.db ≡ (finish_rows keys at u.db).1))
unfolding mark_success statement wrapping
mark_success-db [] u = inl refl
mark_success-db (k ∷ ks) u = elim (Option-cases (interact u).0) [
  | inl fine ↦ inr ((interact u).1.clock, ground (arith, fine, db-interact u))
  | inr (x, fails) ↦ inl (ground (arith, fails, db-interact u))
]

pub mark_success-published :
    (keys : List Text) (u : World) → (mark_success keys u).1.published ≡ u.published
unfolding mark_success statement wrapping
mark_success-published [] u = refl
mark_success-published (k ∷ ks) u = ground (arith, published-interact u)

pub pick_batch-messages :
    (batch : ℤ) (ttl : ℕ) (w : World) (ms : List Message)
    → (pick_batch batch ttl w).0 ≡ ok ms
    → ms
      ≡ map
          (start_row (interact w).1.clock)
          (candidates (pos_part batch) ttl (interact w).1.clock w.db.outbox)
unfolding pick_batch pick_rows begin commit statement wrapping deferring_rollback ◌>>=◌
pick_batch-messages batch ttl w ms e = ground (
  arith,
  e,
  db-interact w,
  db-interact (begun w),
  tx-interact (begun w),
  tx-interact (picked batch ttl w),
)

pub picked-place :
    (batch : ℤ) (ttl : ℕ) (w : World) (ms : List Message)
    → (pick_batch batch ttl w).0 ≡ ok ms
    → (m : Message) → In m ms
    → (n : Message) × In n w.db.outbox
      × (n.idempotency_key ≡ m.idempotency_key)
      × (n.payload ≡ m.payload)
picked-place batch ttl w ms e m place =
    let at : Time = (interact w).1.clock in
    let cand : List Message = candidates (pos_part batch) ttl at w.db.outbox in
    let (n, found, key, payload) =
      In-started at m cand (subst (In m) (pick_batch-messages batch ttl w ms e) place) in
    (n, In-candidates n (pos_part batch) ttl at w.db.outbox found, key, payload)

pub picked-success :
    (batch : ℤ) (ttl : ℕ) (w : World) (m : Message)
    → m.status ≡ success
    → In m (pick_batch batch ttl w).1.db.outbox
    → In m w.db.outbox
unfolding pick_rows
picked-success batch ttl w m done place = elim (pick_batch-db batch ttl w) [
  | inl same ↦ subst (λ t. In m t.outbox) same place
  | inr moved ↦
      let at : Time = (interact w).1.clock in
      success-started (among (candidates (pos_part batch) ttl at w.db.outbox)) at m w.db.outbox done
        (subst (λ t. In m t.outbox) moved place)
]

module _ (topic : Text) (p : Policy) (unmarshal : Text → Result StatusChangedPayload) where
  -- The row was there, or a message of that key was there and its change was published.
  abbrev pub IsAccounted : World → World → Message → Type 0
  IsAccounted w v m =
      In m w.db.outbox ⊎ IsDelivered topic p unmarshal w.db.outbox v m.idempotency_key

  published-IsDelivered :
      (ms : List Message) (v w : World) (k : Text)
      → w.published ≡ v.published
      → IsDelivered topic p unmarshal ms v k
      → IsDelivered topic p unmarshal ms w k
  published-IsDelivered ms v w k same (m, place, key, (c, read, (ts, sent))) =
      (m, place, key, (c, read, (ts, subst (In _) (sym same) sent)))

  marked-accounted :
      (ms : List Message) (u v : World) (keys : List Text) (m : Message)
      → v.db ≡ u.db
      → All (IsDelivered topic p unmarshal ms v) keys
      → In m (mark_success keys v).1.db.outbox
      → In m u.db.outbox
        ⊎ IsDelivered topic p unmarshal ms (mark_success keys v).1 m.idempotency_key
  unfolding finish_rows
  marked-accounted ms u v keys m same sent place = elim (mark_success-db keys v) [
    | inl kept ↦ inl (subst (λ t. In m t.outbox) (kept ∙ same) place)
    | inr (at, moved) ↦
        elim (In-finished keys at m v.db.outbox (subst (λ t. In m t.outbox) moved place)) [
          | inl there ↦ inl (subst (λ t. In m t.outbox) same there)
          | inr marked ↦ inr (
              published-IsDelivered ms v (mark_success keys v).1 m.idempotency_key
                (mark_success-published keys v)
                (All-exists (IsDelivered topic p unmarshal ms v) m.idempotency_key keys sent
                  marked))
        ]
  ]

  process-accounted :
      (r : Result (List Message)) (u : World) (m : Message)
      → In m (process topic p unmarshal r u).1.db.outbox
      → In m u.db.outbox
        ⊎ ((ms : List Message) × (r ≡ ok ms)
            × IsDelivered topic p unmarshal ms (process topic p unmarshal r u).1 m.idempotency_key)
  unfolding process attempt ◌>>=◌
  process-accounted (err x) u m place = inl place
  process-accounted (ok ms) u m place =
      let sent = deliver_all-Deliveries topic p unmarshal ms u in
      let v : World = (deliver_all topic p unmarshal ms u).1 in
      rw sent.answers
        (elim (marked-accounted ms u v sent.keys m sent.onward.same_db sent.delivered
          (rw sent.answers at place)) [ inl there ↦ inl there | inr done ↦ inr (ms, refl, done) ])

  picked-IsDelivered :
      (batch : ℤ) (ttl : ℕ) (w v : World) (ms : List Message) (k : Text)
      → (pick_batch batch ttl w).0 ≡ ok ms
      → IsDelivered topic p unmarshal ms v k
      → IsDelivered topic p unmarshal w.db.outbox v k
  picked-IsDelivered batch ttl w v ms k e (m, place, key, done) =
      let (n, found, same, payload) = picked-place batch ttl w ms e m place in
      (n, found, same ∙ key, rw payload done)

  -- Whichever calls fail, a message that stands in the outbox as done after a tick stood there as done
  -- before, or a message of its key was in the outbox, its payload could be read, and the change in it
  -- was published.
  pub tick-IsAccounted :
      (batch : ℤ) (ttl : ℕ) (w : World) (m : Message)
      → m.status ≡ success
      → In m (tick topic p unmarshal batch ttl w).1.db.outbox
      → IsAccounted w (tick topic p unmarshal batch ttl w).1 m
  unfolding tick attempt ◌>>=◌
  tick-IsAccounted batch ttl w m done place =
      let picked_up = pick_batch batch ttl w in
      elim (process-accounted picked_up.0 picked_up.1 m place) [
        | inl there ↦ inl (picked-success batch ttl w m done there)
        | inr (ms, picks, delivered) ↦ inr (
            picked-IsDelivered batch ttl w (process topic p unmarshal picked_up.0 picked_up.1).1 ms
              m.idempotency_key picks delivered)
      ]
