-- ===== src/OutboxRunner/Delivery.antt =====
-- The messages whose keys a tick hands to MarkSuccess.
use pingerus.Base.{
  ℕ, ◌≡◌, refl, ◌∙◌, sym, subst, inl, inr, Bool, true, false, List, [], ◌∷◌, In, All, arith,
  Bool-cases,
}
use pingerus.Base.Int.{int_eq}
use pingerus.Text.{Text}
use pingerus.World.{World, Op, sleep, attempt, ◌>>=◌}
use pingerus.World.Errors.{Result, ok}
use pingerus.World.Laws.{db-interact, published-interact, Result-cases}
use pingerus.World.Rows.{Message}
use pingerus.Retry.{Policy, run}
use pingerus.Retry.Bounds.{run-LastCall}
use pingerus.Retry.Keeps.{run-Keeps}
use pingerus.PingWorker.{StatusChangedPayload, kind_status_changed}
use pingerus.OutboxRunner.{publish_payload, handler_of, handle, deliver, deliver_all, keep_key}
use pingerus.OutboxRunner.Sending.{Extends, IsDone, payload-Extends, payload-IsDone}

Extends-refl : (w : World) → Extends w w
Extends-refl w = record { same_db = refl; keeps = λ r h. h }

Extends-trans : {u v w : World} → Extends u v → Extends v w → Extends u w
Extends-trans a b = record {
  same_db = b.same_db ∙ a.same_db;
  keeps = λ r h. b.keeps r (a.keeps r h);
}

pub published-sleep : (d : ℕ) (w : World) → (sleep d w).1.published ≡ w.published
unfolding sleep
published-sleep d w = ground (arith, published-interact w)

db-sleep : (d : ℕ) (w : World) → (sleep d w).1.db ≡ w.db
unfolding sleep
db-sleep d w = ground (arith, db-interact w)

sleep-Extends : (d : ℕ) (w : World) → Extends w (sleep d w).1
sleep-Extends d w = record {
  same_db = db-sleep d w;
  keeps = λ r h. subst (In r) (sym (published-sleep d w)) h;
}

module _ (topic : Text) (p : Policy) (unmarshal : Text → Result StatusChangedPayload) where
  -- The handler of a change of status, with its retries.
  abbrev retried : Text → Op (Unit {0})
  retried payload = run p (publish_payload topic p unmarshal payload)

  retried-Extends : (payload : Text) (w : World) → Extends w (retried payload w).1
  retried-Extends payload w =
      run-Keeps p (publish_payload topic p unmarshal payload) (Extends w)
        (λ v h. Extends-trans h (payload-Extends topic p unmarshal payload v))
        (λ d v h. Extends-trans h (sleep-Extends d v)) w (Extends-refl w)

  retried-IsDone :
      (payload : Text) (w : World)
      → (retried payload w).0 ≡ ok tt
      → IsDone topic p unmarshal payload (retried payload w).1
  retried-IsDone payload w done =
      elim (run-LastCall p (publish_payload topic p unmarshal payload) w) [
        | inl (v, last) ↦
            subst (λ x. IsDone topic p unmarshal payload x.1) last
              (payload-IsDone topic p unmarshal payload v (rw last done))
        | inr cut ↦ absurd (ground (arith, done, cut))
      ]

  -- What `deliver` answers and leaves.
  pub record Delivery (m : Message) (w : World) (x : Result Bool × World) : Type 0 where
    pub answer : Bool
    pub answers : x.0 ≡ ok answer
    pub onward : Extends w x.1
    pub done : answer ≡ true → IsDone topic p unmarshal m.payload x.1

  pub deliver-Delivery : (m : Message) (w : World) → Delivery m w (deliver topic p unmarshal m w)
  unfolding deliver handler_of handle attempt ◌>>=◌
  deliver-Delivery m w = elim (Bool-cases (int_eq m.kind kind_status_changed)) [
    | inl known ↦ rw known (elim (Result-cases (retried m.payload w).0) [
      | inl (u, fine) ↦ rw fine (record {
        answer = true;
        answers = refl;
        onward = retried-Extends m.payload w;
        done = λ _. retried-IsDone m.payload w fine;
      })
      | inr (x, failed) ↦ rw failed (record {
        answer = false;
        answers = refl;
        onward = retried-Extends m.payload w;
        done = λ e. absurd cc;
      })
    ])
    | inr unknown ↦
        rw unknown (record {
          answer = false;
          answers = refl;
          onward = Extends-refl w;
          done = λ e. absurd cc;
        })
  ]

  -- Among the messages is one with the key whose change was published.
  abbrev pub IsDelivered : List Message → World → Text → Type 0
  IsDelivered ms w key =
      (m : Message) × In m ms × (m.idempotency_key ≡ key) × IsDone topic p unmarshal m.payload w

  later-IsDelivered :
      (m : Message) (ms : List Message) (w : World) (keys : List Text)
      → All (IsDelivered ms w) keys
      → All (IsDelivered (m ∷ ms) w) keys
  later-IsDelivered m ms w [] h = tt
  later-IsDelivered m ms w (k ∷ ks) ((n, place, key, done), more) =
      ((n, inr place, key, done), later-IsDelivered m ms w ks more)

  keep_key-IsDelivered :
      (m : Message) (ms : List Message) (w : World) (keys : List Text) (b : Bool)
      → (b ≡ true → IsDone topic p unmarshal m.payload w)
      → All (IsDelivered ms w) keys
      → All (IsDelivered (m ∷ ms) w) (keep_key b m.idempotency_key keys)
  keep_key-IsDelivered m ms w keys true done h =
      ((m, inl refl, refl, done refl), later-IsDelivered m ms w keys h)
  keep_key-IsDelivered m ms w keys false done h = later-IsDelivered m ms w keys h

  pub IsDone-later :
      {w v : World} (payload : Text)
      → Extends w v
      → IsDone topic p unmarshal payload w
      → IsDone topic p unmarshal payload v
  IsDone-later payload more (c, read, (ts, sent)) = (c, read, (ts, more.keeps _ sent))

  -- What `deliver_all` answers and leaves.
  pub record Deliveries (ms : List Message) (w : World) (x : Result (List Text) × World)
      : Type 0 where
    pub keys : List Text
    pub answers : x.0 ≡ ok keys
    pub onward : Extends w x.1
    pub delivered : All (IsDelivered ms x.1) keys

  pub deliver_all-Deliveries :
      (ms : List Message) (w : World) → Deliveries ms w (deliver_all topic p unmarshal ms w)
  unfolding deliver_all ◌>>=◌
  deliver_all-Deliveries [] w = record {
    keys = [];
    answers = refl;
    onward = Extends-refl w;
    delivered = tt;
  }
  deliver_all-Deliveries (m ∷ ms) w =
      let first = deliver-Delivery m w in
      let v : World = (deliver topic p unmarshal m w).1 in
      let rest = deliver_all-Deliveries ms v in
      rw (first.answers, rest.answers)
        (record {
          keys = keep_key first.answer m.idempotency_key rest.keys;
          answers = refl;
          onward = Extends-trans first.onward rest.onward;
          delivered =
              keep_key-IsDelivered m ms (deliver_all topic p unmarshal ms v).1 rest.keys
                first.answer (λ e. IsDone-later m.payload rest.onward (first.done e))
                rest.delivered;
        })
