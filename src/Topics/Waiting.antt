-- ===== src/Topics/Waiting.antt =====
-- EnsureTopic returns.
use pingerus.Base.{
  ℕ, zero, suc, ◌+◌, ◌*◌, ◌≤◌, ltb, ◌≡◌, refl, ap, inl, inr, Option, some, List, [], ◌∷◌, arith,
  Bool-cases,
}
use pingerus.Base.Int.{limit_or}
use pingerus.Text.{Text}
use pingerus.World.{World, now}
use pingerus.World.Errors.{Result, ok, err}
use pingerus.World.Laws.{clock-interact}
use pingerus.World.Rows.{Time}
use pingerus.Topics.{
  Partition, Network, TopicSpec, millisecond, after_look, confirm, create_topic, answer_nil,
  confirm_for, ensure_topic,
}

module _ {C : Type 0} (n : Network C)
    (ticks : (conn : C) (name : Text) (w : World)
      → w.clock ≤ (n.read_partitions conn name w).1.clock) where
  -- It returned.
  abbrev pub Returns {ℓ} : {A : Type ℓ} → Option A → Type ℓ
  Returns {A = A} x = (a : A) × (x ≡ some a)

  after_look-Returns :
      (again : World → Option World) (x : Result (List Partition) × World)
      → ((w : World) → x.1.clock + 200 * millisecond ≤ w.clock → Returns (again w))
      → Returns (after_look n again x)
  after_look-Returns again (ok (p ∷ ps), w) h = (w, refl)
  after_look-Returns again (ok [], w) h = h _ (omega arith)
  after_look-Returns again (err e, w) h = h _ (omega arith)

  clock-now : (w : World) → w.clock ≤ (now w).1.clock
  unfolding now
  clock-now w = clock-interact w

  confirm-Returns :
      (fuel : ℕ) (conn : C) (name : Text) (deadline : Time) (w : World)
      → deadline ≤ w.clock + fuel * (200 * millisecond)
      → Returns (confirm n (suc fuel) conn name deadline w)
  unfolding confirm
  confirm-Returns zero conn name deadline w enough =
      elim (Bool-cases (ltb (now w).1.clock deadline)) [
        | inl early ↦ absurd (ground (arith, clock-now w, enough, early))
        | inr late ↦ rw late ((now w).1, refl)
      ]
  confirm-Returns (suc fuel) conn name deadline w enough =
      elim (Bool-cases (ltb (now w).1.clock deadline)) [
        | inl early ↦ rw early (
            after_look-Returns (confirm n (suc fuel) conn name deadline)
              (n.read_partitions conn name (now w).1)
              λ u later.
                confirm-Returns fuel conn name deadline u
                  (omega (arith, clock-now w, ticks conn name (now w).1)))
        | inr late ↦ rw late ((now w).1, refl)
      ]

  -- What EnsureTopic answers, by what came before its last loop.
  abbrev pub Answers : Result C → Result (Unit {0}) → Type 0
  Answers (ok conn) r = r ≡ ok tt
  Answers (err e) r = r ≡ err e

  confirm_for-Returns :
      (fuel : ℕ) (spec : TopicSpec) (x : Result C × World)
      → limit_or (5000 * millisecond) spec.max_wait ≤ fuel * (200 * millisecond)
      → (r : Result (Unit {0}) × World) × (confirm_for n (suc fuel) spec x ≡ some r)
        × Answers x.0 r.0
  confirm_for-Returns fuel spec (err e, w) enough = ((err e, w), refl, refl)
  confirm_for-Returns fuel spec (ok conn, w) enough =
      let v = (now w).1 in
      let (u, e) =
        confirm-Returns fuel conn spec.name (v.clock + limit_or (5000 * millisecond) spec.max_wait)
          v (omega arith) in
      ((ok tt, u), ap (answer_nil n) e, refl)

  -- With a clock that does not turn back, EnsureTopic returns after one look at the partitions for each
  -- 200 ms of the longest wait, and one more. It answers no error if it could ask the controller for the
  -- topic, also where that call fails or no partition ever shows, and else the error.
  pub ensure_topic-Returns :
      (fuel : ℕ) (broker : Text) (spec : TopicSpec) (w : World)
      → limit_or (5000 * millisecond) spec.max_wait ≤ fuel * (200 * millisecond)
      → (r : Result (Unit {0}) × World) × (ensure_topic n (suc fuel) broker spec w ≡ some r)
        × Answers (create_topic n broker spec w).0 r.0
  unfolding ensure_topic
  ensure_topic-Returns fuel broker spec w enough =
      confirm_for-Returns fuel spec (create_topic n broker spec w) enough
