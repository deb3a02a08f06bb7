-- ===== src/Retry/Bounds.antt =====
-- Do: how often it calls the function, and what its answer means.
use pingerus.Base.{
  ℕ, zero, suc, ◌+◌, ◌-◌, ◌≤◌, ◌<◌, ◌≡◌, refl, ap, subst, ◌∙◌, true, false, ◌==◌, ◌⊎◌, inl, inr,
  arith, Bool-cases,
}
use pingerus.World.{World, Op, sleep, ◌>>=◌}
use pingerus.World.Errors.{Error, Result, ok, err, sentinel, canceled}
use pingerus.World.Laws.{sleep_cases}
use pingerus.Retry.{Policy, is_retryable, rounds, after_attempt, loop, run}

module _ (p : Policy) (fn : Op (Unit {0})) where
  -- One step of the loop: the call of the function, and what follows its answer.
  pub loop_step :
      (left i : ℕ) (w : World)
      → loop p fn (suc left) i w
        ≡ after_attempt p fn left
            (sleep (p.next i) >>= λ _. loop p fn left (i + 1))
            (fn w).0
            (fn w).1
  unfolding loop
  loop_step left i w = refl

  -- After n calls that failed with an error to be tried again, each with its wait to the end.
  pub data Tried (w : World) : ℕ → World → Type 0 where
    started : Tried w 0 w
    waited :
        {n : ℕ} {v u : World} (e : Error) {x : World}
        → Tried w n v
        → fn v ≡ (err e, u)
        → is_retryable p.retryable e ≡ true
        → sleep (p.next n) u ≡ (ok tt, x)
        → Tried w (suc n) x

  -- The last call, and why it was the last one: it succeeded, and the answer is its own; its error is
  -- not to be tried again or no attempt is left, and the answer is its own; or there were attempts left
  -- and the wait after it was cut, and the answer is the cancellation.
  pub data Verdict (w : World) (x : Result (Unit {0}) × World) : Type 0 where
    succeeded : {n : ℕ} {v : World} → Tried w n v → fn v ≡ x → x.0 ≡ ok tt → Verdict w x
    exhausted :
        {n : ℕ} {v : World} (e : Error)
        → Tried w n v
        → fn v ≡ x
        → x.0 ≡ err e
        → (is_retryable p.retryable e ≡ false) ⊎ (suc n ≡ rounds p)
        → Verdict w x
    cut_short :
        {n : ℕ} {v u : World} (e : Error)
        → Tried w n v
        → fn v ≡ (err e, u)
        → is_retryable p.retryable e ≡ true
        → suc n < rounds p
        → sleep (p.next n) u ≡ x
        → x.0 ≡ err (sentinel canceled)
        → Verdict w x

  module _ (w : World) where
    -- The wait after a failed call, with more attempts to make.
    after_wait-Verdict :
        (n : ℕ) (v u : World) (e : Error) (k : Op (Unit {0}))
        → Tried w n v
        → fn v ≡ (err e, u)
        → is_retryable p.retryable e ≡ true
        → suc n < rounds p
        → ((x : World) → Tried w (suc n) x → Verdict w (k x))
        → Verdict w ((sleep (p.next n) >>= λ _. k) u)
    unfolding ◌>>=◌
    after_wait-Verdict n v u e k t fails again more h = elim (sleep_cases (p.next n) u) [
      | inl fine ↦ rw fine (
          h (sleep (p.next n) u).1
            (waited e t fails again (ap (λ r. (r, (sleep (p.next n) u).1)) fine)))
      | inr stop ↦
          rw stop (cut_short e t fails again more (ap (λ r. (r, (sleep (p.next n) u).1)) stop) refl)
    ]

    answered-Verdict :
        (left n : ℕ) (v : World) (again : Op (Unit {0})) (r : Result (Unit {0})) (u : World)
        → Tried w n v
        → suc n + left ≡ rounds p
        → fn v ≡ (r, u)
        → ((e : Error)
            → fn v ≡ (err e, u)
            → is_retryable p.retryable e ≡ true
            → suc n < rounds p
            → Verdict w (again u))
        → Verdict w (after_attempt p fn left again r u)
    unfolding after_attempt
    answered-Verdict left n v again (ok a) u t total e h = succeeded t e refl
    answered-Verdict left n v again (err x) u t total e h =
        elim (Bool-cases (is_retryable p.retryable x)) [
          | inl on ↦ elim (Bool-cases (left == 0)) [
            | inl last ↦ rw (on, last) (exhausted x t e refl (inr (ground arith)))
            | inr more ↦ rw (on, more) (h x e on (ground arith))
          ]
          | inr off ↦ rw off (exhausted x t e refl (inl off))
        ]

    loop-Verdict :
        (left n : ℕ) (v : World)
        → Tried w n v
        → suc n + left ≡ rounds p
        → Verdict w (loop p fn (suc left) n v)
    loop-Verdict zero n v t total = rw (loop_step zero n v) (
        answered-Verdict zero n v _ (fn v).0 (fn v).1 t total refl
          λ e fails on more. absurd (none_left more))
      where
        none_left : suc n < rounds p → ⊥
        none_left more = omega (arith, total, more)
    loop-Verdict (suc left) n v t total = rw (loop_step (suc left) n v) (
        answered-Verdict (suc left) n v _ (fn v).0 (fn v).1 t total refl λ e fails on more.
          after_wait-Verdict n v (fn v).1 e (loop p fn (suc left) (n + 1)) t fails on more λ x t'.
            subst (λ i. Verdict w (loop p fn (suc left) i x)) (omega arith)
              (loop-Verdict left (suc n) x t' (omega (arith, total))))

  rounds_pos : (left : ℕ) × (rounds p ≡ suc left)
  rounds_pos = (rounds p - 1, ground arith)

  -- Do calls its function until a call succeeds, fails with an error that is not to be tried again, or
  -- is the last of the attempts, with a whole wait of the policy after each call before, and answers as
  -- that call did, in the world that it left; or a wait is cut while attempts are left, and then Do
  -- answers with the cancellation, in the world that the wait left.
  pub run-Verdict : (w : World) → Verdict w (run p fn w)
  unfolding run
  run-Verdict w = let (left, e) = rounds_pos in rw e (loop-Verdict w left 0 w started (omega arith))

  -- The answer is that of a call, or the cancellation of a wait.
  abbrev pub LastCall : Result (Unit {0}) × World → Type 0
  LastCall x = ((v : World) × (fn v ≡ x)) ⊎ (x.0 ≡ err (sentinel canceled))

  Verdict-LastCall : (w : World) (x : Result (Unit {0}) × World) → Verdict w x → LastCall x
  Verdict-LastCall w x (succeeded {v} t e fine) = inl (v, e)
  Verdict-LastCall w x (exhausted {v} x₁ t e fails why) = inl (v, e)
  Verdict-LastCall w x (cut_short x₁ t fails again more waits stop) = inr stop

  pub run-LastCall : (w : World) → LastCall (run p fn w)
  run-LastCall w = Verdict-LastCall w (run p fn w) (run-Verdict w)

  module _ (m : World → ℕ) (counted : (v : World) → m (fn v).1 ≡ suc (m v))
      (silent : (d : ℕ) (v : World) → m (sleep d v).1 ≡ m v) where
    abbrev Between : ℕ → ℕ → ℕ → Type 0
    Between lo more k = (lo ≤ k) × (k ≤ lo + more)

    after_sleep-Between :
        (d lo more : ℕ) (k : Op (Unit {0})) (w : World)
        → m w ≡ lo
        → ((v : World) → m v ≡ lo → Between lo more (m (k v).1))
        → Between lo more (m ((sleep d >>= λ _. k) w).1)
    unfolding ◌>>=◌
    after_sleep-Between d lo more k w e h = elim (sleep_cases d w) [
      | inl fine ↦ rw fine (h (sleep d w).1 (silent d w ∙ e))
      | inr cut ↦ rw cut (let same = silent d w in omega arith)
    ]

    answered-Between :
        (left lo : ℕ) (again : Op (Unit {0})) (r : Result (Unit {0})) (w' : World)
        → m w' ≡ lo
        → (((left == 0) ≡ false) → Between lo left (m (again w').1))
        → Between lo left (m (after_attempt p fn left again r w').1)
    unfolding after_attempt
    answered-Between left lo again (ok u) w' e h = omega arith
    answered-Between left lo again (err x) w' e h = ground arith

    loop-Between :
        (left i : ℕ) (w : World) → Between (suc (m w)) left (m (loop p fn (suc left) i w).1)
    loop-Between zero i w =
        rw (loop_step zero i w)
          (answered-Between zero (suc (m w)) _ (fn w).0 (fn w).1 (counted w) (λ h. cc))
    loop-Between (suc left) i w = rw (loop_step (suc left) i w) (
        answered-Between (suc left) (suc (m w)) _ (fn w).0 (fn w).1 (counted w) λ _.
          after_sleep-Between (p.next i) (suc (m w)) (suc left) (loop p fn (suc left) (i + 1))
            (fn w).1 (counted w)
            λ v e. let rest = loop-Between left (i + 1) v in (omega arith, omega arith))

    -- For a function of which each call raises a measure by one, and waits that leave it alone: Do
    -- raises the measure by 1 at least, and by `rounds p` at most, the attempts of the policy.
    pub run_calls :
        (w : World) → (suc (m w) ≤ m (run p fn w).1) × (m (run p fn w).1 ≤ m w + rounds p)
    unfolding run
    run_calls w =
        let (left, e) = rounds_pos in
        let between = loop-Between left 0 w in rw e (between.0, omega arith)
