-- ===== src/Retry/Keeps.antt =====
-- What every call of the function and every wait keep, Do keeps.
use pingerus.Base.{ℕ, zero, suc, ◌+◌, not, ◌||◌, ◌==◌, inl, inr, Bool-cases}
use pingerus.World.{World, Op, sleep}
use pingerus.World.Errors.{Result, ok, err}
use pingerus.World.Laws.{after_bind}
use pingerus.Retry.{Policy, is_retryable, rounds, after_attempt, loop, run}
use pingerus.Retry.Bounds.{loop_step}

module _ (p : Policy) (fn : Op (Unit {0})) (P : World → Type 0)
    (kept : (v : World) → P v → P (fn v).1)
    (slept : (d : ℕ) (v : World) → P v → P (sleep d v).1) where
  answered-Keeps :
      (left : ℕ) (again : Op (Unit {0})) (r : Result (Unit {0})) (v : World)
      → P v
      → P (again v).1
      → P (after_attempt p fn left again r v).1
  unfolding after_attempt
  answered-Keeps left again (ok u) v h more = h
  answered-Keeps left again (err x) v h more =
      elim (Bool-cases (not (is_retryable p.retryable x) || left == 0)) [
        | inl stop ↦ rw stop h
        | inr on ↦ rw on more
      ]

  loop-Keeps : (left i : ℕ) (w : World) → P w → P (loop p fn left i w).1
  unfolding loop
  loop-Keeps zero i w h = h
  loop-Keeps (suc left) i w h = rw (loop_step p fn left i w) (
      answered-Keeps left _ (fn w).0 (fn w).1 (kept w h) (
        after_bind P (sleep (p.next i)) (λ _. loop p fn left (i + 1)) (fn w).1
          (λ _ _. slept (p.next i) (fn w).1 (kept w h))
          λ _ _. loop-Keeps left (i + 1) _ (slept (p.next i) (fn w).1 (kept w h))))

  pub run-Keeps : (w : World) → P w → P (run p fn w).1
  unfolding run
  run-Keeps w h = loop-Keeps (rounds p) 0 w h
