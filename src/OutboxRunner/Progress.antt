-- ===== src/OutboxRunner/Progress.antt =====
-- A tick without faults brings a message on.
use pingerus.Base.{
  ℕ, zero, suc, ◌<◌, ◌≡◌, refl, sym, subst, ◌∙◌, inl, inr, Bool, true, List, [], ◌∷◌, In, exists,
  arith, Bool-cases,
}
use pingerus.Base.Int.{ℤ, pos, negsuc, int_eq, limit_or}
use pingerus.Text.{Text, text_eq}
use pingerus.Text.Laws.{text_eq_refl}
use pingerus.World.{World, Op, attempt, sleep, now, ◌>>=◌}
use pingerus.World.Errors.{Result, ok}
use pingerus.World.Laws.{interact_quiet, Result-cases}
use pingerus.World.Rows.{Message}
use pingerus.Kafka.{publish_proto, publish_status_changed}
use pingerus.Retry.{Policy, rounds, after_attempt, loop, run}
use pingerus.Retry.Bounds.{loop_step}
use pingerus.Retry.Keeps.{run-Keeps}
use pingerus.PingWorker.{StatusChangedPayload, kind_status_changed}
use pingerus.OutboxRunner.{keep_key, handle, publish_payload, handler_of, deliver, deliver_all}
use pingerus.OutboxRunner.Sending.{IsDone}
use pingerus.OutboxRunner.Delivery.{IsDone-later, deliver-Delivery, deliver_all-Deliveries}

-- No fault is to come.
abbrev pub IsQuiet : World → Type 0
IsQuiet w = w.script ≡ []

publish-IsQuiet :
    (topic : Text) (id : ℤ) (old new : Bool) (w : World)
    → IsQuiet w
    → ((publish_status_changed topic id old new w).0 ≡ ok tt)
      × IsQuiet (publish_status_changed topic id old new w).1
unfolding publish_status_changed publish_proto now ◌>>=◌
publish-IsQuiet topic id old new w q = rw (interact_quiet w q) (rw (interact_quiet w q) (refl, q))

sleep-IsQuiet : (d : ℕ) (w : World) → IsQuiet w → IsQuiet (sleep d w).1
unfolding sleep
sleep-IsQuiet d w q = rw (interact_quiet w q, sleep) (rw (interact_quiet w q) q)

suc_of : (n : ℕ) → 0 < n → (k : ℕ) × (n ≡ suc k)
suc_of zero h = absurd (omega arith)
suc_of (suc k) h = (k, refl)

rounds-least : (p : Policy) → 0 < rounds p
rounds-least p = limit-least p.attempts
  where
    limit-least : (a : ℤ) → 0 < limit_or 1 a
    limit-least (pos n) = ground arith
    limit-least (negsuc n) = omega arith

-- Do of a function that answers no error.
run-fine :
    (p : Policy) (fn : Op (Unit {0})) (w : World)
    → (fn w).0 ≡ ok tt
    → run p fn w ≡ (ok tt, (fn w).1)
unfolding run after_attempt
run-fine p fn w fine =
    let (k, e) = suc_of (rounds p) (rounds-least p) in
    subst (λ n. loop p fn n 0 w ≡ (ok tt, (fn w).1)) (sym e) (loop_step p fn k 0 w ∙ rw fine refl)

module _ (topic : Text) (p : Policy) (unmarshal : Text → Result StatusChangedPayload) where
  payload-IsQuiet :
      (payload : Text) (w : World)
      → IsQuiet w
      → IsQuiet (publish_payload topic p unmarshal payload w).1
  unfolding publish_payload ◌>>=◌
  payload-IsQuiet payload w q = elim (Result-cases (unmarshal payload)) [
    | inl (c, read) ↦ rw read (publish-IsQuiet topic c.check_id c.old c.new w q).1
    | inr (x, unread) ↦ rw unread q
  ]

  deliver-IsQuiet :
      (m : Message) (w : World) → IsQuiet w → IsQuiet (deliver topic p unmarshal m w).1
  unfolding deliver handler_of handle attempt ◌>>=◌
  deliver-IsQuiet m w q = elim (Bool-cases (int_eq m.kind kind_status_changed)) [
    | inl known ↦ rw known (
        run-Keeps p (publish_payload topic p unmarshal m.payload) IsQuiet
          (payload-IsQuiet m.payload) sleep-IsQuiet w q)
    | inr other ↦ rw other q
  ]

  -- The message can be published.
  pub record IsSendable (m : Message) : Type 0 where
    pub kind : int_eq m.kind kind_status_changed ≡ true
    pub change : StatusChangedPayload
    pub payload : unmarshal m.payload ≡ ok change

  payload-sends :
      (m : Message) (w : World)
      → IsQuiet w
      → IsSendable m
      → (publish_payload topic p unmarshal m.payload w).0 ≡ ok tt
  unfolding publish_payload ◌>>=◌
  payload-sends m w q s =
      rw s.payload (publish-IsQuiet topic s.change.check_id s.change.old s.change.new w q).0

  deliver-sends :
      (m : Message) (w : World)
      → IsQuiet w
      → IsSendable m
      → (deliver topic p unmarshal m w).0 ≡ ok true
  unfolding deliver handler_of handle attempt ◌>>=◌
  deliver-sends m w q s =
      rw
        (s.kind, run-fine p (publish_payload topic p unmarshal m.payload) w (payload-sends m w q s))
        refl

  -- The key of a message that can be published is to be marked, and its change was published.
  pub deliver_all-sends :
      (m : Message) (ms : List Message) (w : World)
      → IsQuiet w
      → IsSendable m
      → In m ms
      → (keys : List Text) × ((deliver_all topic p unmarshal ms w).0 ≡ ok keys)
        × (exists (text_eq m.idempotency_key) keys ≡ true)
        × IsDone topic p unmarshal m.payload (deliver_all topic p unmarshal ms w).1
  unfolding deliver_all ◌>>=◌
  deliver_all-sends m [] w q s h = absurd h
  deliver_all-sends m (n ∷ ns) w q s (inl e) =
      let first = deliver-Delivery topic p unmarshal n w in
      let rest = deliver_all-Deliveries topic p unmarshal ns (deliver topic p unmarshal n w).1 in
      let sent = deliver-sends n w q (subst IsSendable e s) in
      let true_answer : first.answer ≡ true = given (sym first.answers ∙ sent) in
      rw (sent, rest.answers)
        (
          _,
          refl,
          rw (e, text_eq_refl n.idempotency_key) refl,
          rw e (IsDone-later topic p unmarshal n.payload rest.onward (first.done true_answer)),
        )
    where
      given : {a b : Bool} → ok a ≡ ok b → a ≡ b
      given e = cc
  deliver_all-sends m (n ∷ ns) w q s (inr h) =
      let first = deliver-Delivery topic p unmarshal n w in
      let (keys, answers, there, done) =
        deliver_all-sends m ns (deliver topic p unmarshal n w).1 (deliver-IsQuiet n w q) s h in
      rw (first.answers, answers) (_, refl, kept first.answer n keys there, done)
    where
      kept :
          (b : Bool) (n : Message) (keys : List Text)
          → exists (text_eq m.idempotency_key) keys ≡ true
          → exists (text_eq m.idempotency_key) (keep_key b n.idempotency_key keys) ≡ true
      kept b n keys there = ground (arith, there)

  pub deliver_all-IsQuiet :
      (ms : List Message) (w : World) → IsQuiet w → IsQuiet (deliver_all topic p unmarshal ms w).1
  unfolding deliver_all ◌>>=◌
  deliver_all-IsQuiet [] w q = q
  deliver_all-IsQuiet (m ∷ ms) w q =
      let first = deliver-Delivery topic p unmarshal m w in
      let rest = deliver_all-Deliveries topic p unmarshal ms (deliver topic p unmarshal m w).1 in
      rw (first.answers, rest.answers)
        (deliver_all-IsQuiet ms (deliver topic p unmarshal m w).1 (deliver-IsQuiet m w q))
