-- ===== src/OutboxRunner/Workers/Ticks.antt =====
-- A worker that is not interrupted, and the tick as a whole.
use pingerus.Base.{
  ℕ, suc, ◌+◌, ◌≤◌, ◌<◌, ◌≡◌, refl, ap, sym, ◌∙◌, subst, inl, inr, Bool, true, false, List, [], ◌∷◌,
  ◌++◌, length, map, length-take-le, append-cons, arith,
}
use pingerus.Base.Int.{ℤ, pos_part}
use mathlib.Core.List.{append-nil}
use pingerus.Text.{Text}
use pingerus.World.{World, interact, attempt, ◌>>=◌}
use pingerus.World.Errors.{Result, ok, err}
use pingerus.World.Laws.{Result-cases}
use pingerus.World.Rows.{Message}
use pingerus.Postgres.Outbox.{candidates, start_row, pick_batch, mark_success}
use pingerus.Retry.{Policy}
use pingerus.PingWorker.{StatusChangedPayload}
use pingerus.OutboxRunner.{deliver, deliver_all, process, tick, keep_key}
use pingerus.OutboxRunner.Delivery.{deliver-Delivery, deliver_all-Deliveries}
use pingerus.OutboxRunner.Marking.{pick_batch-messages}
use pingerus.OutboxRunner.Workers.{
  waiting, dispatching, Counters, Stage, after_pick, after_dispatch, after_mark, count_error,
  count_picked, advance, advance_all,
}

length-map : {A B : Type 0} (f : A → B) (xs : List A) → length (map f xs) ≡ length xs
length-map f [] = refl
length-map f (x ∷ xs) = ap suc (length-map f xs)

same_keys : {a b : List Text} → ok a ≡ ok b → a ≡ b
same_keys e = cc

module _ (topic : Text) (p : Policy) (unmarshal : Text → Result StatusChangedPayload) (batch : ℤ)
    (ttl : ℕ) where
  -- The worker waits again, in that world.
  abbrev IsBack : Stage → World → Type 0
  IsBack x v = (d : Counters) × (x ≡ (waiting, d, v))

  mark-IsBack :
      (keys : List Text) (c : Counters) (w : World)
      → IsBack (after_mark c (mark_success keys w)) (mark_success keys w).1
  mark-IsBack keys c w = elim (Result-cases (mark_success keys w).0) [
    | inl (u, fine) ↦ rw fine (c, refl)
    | inr (x, fails) ↦ rw fails (count_error c, refl)
  ]

  abbrev resume : ℕ → Stage → Stage
  resume n (x, c, w) = advance_all topic p unmarshal batch ttl n x c w

  resume_step :
      (n : ℕ) (m : Message) (ms : List Message) (keys : List Text) (c : Counters) (w : World)
      → advance_all topic p unmarshal batch ttl (suc n) (dispatching (m ∷ ms) keys) c w
        ≡ resume n (after_dispatch m ms keys c (deliver topic p unmarshal m w))
  unfolding advance_all advance
  resume_step n m ms keys c w = refl

  -- The loop over the rest of the messages ends with these keys, whatever came before.
  abbrev Ends : ℕ → List Message → List Text → World → World → Type 0
  Ends n ms more v u =
      (keys : List Text) (c : Counters)
      → IsBack (resume n (dispatching ms keys, c, v)) (mark_success (keys ++ more) u).1

  dispatched-IsBack :
      (n : ℕ) (m : Message) (ms : List Message) (more : List Text) (v u : World) (b : Bool)
      → Ends n ms more v u
      → (keys : List Text) (c : Counters)
      → IsBack
          (resume n (after_dispatch m ms keys c (ok b, v)))
          (mark_success (keys ++ keep_key b m.idempotency_key more) u).1
  dispatched-IsBack n m ms more v u true rest keys c =
      subst (λ l. IsBack (resume n (after_dispatch m ms keys c (ok true, v))) (mark_success l u).1)
        (append-cons keys m.idempotency_key more)
        (rest (keys ++ m.idempotency_key ∷ []) (record c { m_ok = c.m_ok + 1 }))
  dispatched-IsBack n m ms more v u false rest keys c = rest keys (count_error c)

  dispatch-IsBack :
      (ms : List Message) (w : World) (more : List Text)
      → (deliver_all topic p unmarshal ms w).0 ≡ ok more
      → Ends (suc (length ms)) ms more w (deliver_all topic p unmarshal ms w).1
  unfolding deliver_all ◌>>=◌
  dispatch-IsBack [] w more e keys c =
      subst
        (λ l.
          IsBack (advance_all topic p unmarshal batch ttl 1 (dispatching [] keys) c w)
            (mark_success l w).1)
        (sym (append-nil keys) ∙ ap (λ l. keys ++ l) (same_keys e))
        (unfold advance_all in unfold advance in mark-IsBack keys c w)
  dispatch-IsBack (m ∷ ms) w more e keys c =
      let first = deliver-Delivery topic p unmarshal m w in
      let v : World = (deliver topic p unmarshal m w).1 in
      let rest = deliver_all-Deliveries topic p unmarshal ms v in
      let joined = same_keys (rw (first.answers, rest.answers) at e) in
      let opened =
        resume_step (suc (length ms)) m ms keys c w
        ∙ ap (λ r. resume (suc (length ms)) (after_dispatch m ms keys c (r, v))) first.answers in
      let ends =
        subst
          (λ l.
            IsBack (resume (suc (length ms)) (after_dispatch m ms keys c (ok first.answer, v)))
              (mark_success (keys ++ l) (deliver_all topic p unmarshal ms v).1).1)
          joined
          (dispatched-IsBack (suc (length ms)) m ms rest.keys v
            (deliver_all topic p unmarshal ms v).1 first.answer
            (dispatch-IsBack ms v rest.keys rest.answers) keys c) in
      rw (first.answers, rest.answers) (ends.0, opened ∙ ends.1)

  picked_few :
      (w : World) (ms : List Message)
      → (pick_batch batch ttl w).0 ≡ ok ms
      → length ms ≤ pos_part batch
  unfolding candidates
  picked_few w ms e =
      rw (pick_batch-messages batch ttl w ms e)
        (rw (length-map (start_row (interact w).1.clock) _) (length-take-le (pos_part batch) _))

  -- The calls of a tick after the pick.
  abbrev calls_of : Result (List Message) → ℕ
  calls_of (ok ms) = suc (length ms)
  calls_of (err e) = 0

  process-IsBack :
      (r : Result (List Message)) (c : Counters) (v : World)
      → IsBack (resume (calls_of r) (after_pick c (r, v))) (process topic p unmarshal r v).1
  unfolding process attempt ◌>>=◌
  process-IsBack (ok ms) c v =
      let sent = deliver_all-Deliveries topic p unmarshal ms v in
      rw sent.answers (dispatch-IsBack ms v sent.keys sent.answers [] (count_picked ms c))
  process-IsBack (err e) c v = unfold advance_all in (count_error c, refl)

  calls_few :
      (w : World) (r : Result (List Message))
      → (pick_batch batch ttl w).0 ≡ r
      → calls_of r ≤ 1 + pos_part batch
  calls_few w (ok ms) e = omega (arith, picked_few w ms e)
  calls_few w (err x) e = omega arith

  -- A worker that is waiting and that nobody interrupts waits again after at most two calls more than
  -- the size of the batch, and the world is then the one after the tick as a whole.
  advance_all-tick :
      (c : Counters) (w : World)
      → (n : ℕ) × (0 < n)
        × (n ≤ 2 + pos_part batch)
        × IsBack
            (advance_all topic p unmarshal batch ttl n waiting c w)
            (tick topic p unmarshal batch ttl w).1
  unfolding tick process attempt ◌>>=◌
  advance_all-tick c w =
      let r = (pick_batch batch ttl w).0 in
      (
        suc (calls_of r),
        omega arith,
        omega (arith, calls_few w r refl),
        unfold advance_all in unfold advance in process-IsBack r c (pick_batch batch ttl w).1,
      )
