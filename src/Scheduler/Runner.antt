-- ===== src/Scheduler/Runner.antt =====
-- internal/services/scheduler/runner.go: the ticks of the runner and its counters. The timer is a list of
-- the times between two ticks; the histogram of durations is not modelled.
use pingerus.Base.{
  ℕ, ◌+◌, ◌≤◌, ◌≡◌, subst, ltb, inl, inr, Bool-cases, Option, none, some, List, [], ◌∷◌, length,
  arith, if◌then◌else◌,
}
use pingerus.Base.Int.{ℤ}
use pingerus.Text.{Text}
use pingerus.World.{World}
use pingerus.World.Errors.{Error, Result, ok, err}
use pingerus.Scheduler.{Report}
use pingerus.Scheduler
use pingerus.Scheduler.Counts.{Reported, Agrees, tick-Reported}

-- mFetched, mSent and mErr
pub record Counters : Type 0 where
  pub fetched : ℕ
  pub sent : ℕ
  pub errs : ℕ

abbrev pub count_failure : Option Error → Counters → Counters
count_failure none c = c
count_failure (some e) c = record c { errs = c.errs + 1 }

abbrev pub count_batch : Report → Counters → Counters
count_batch t c =
    if ltb 0 t.fetched
    then record { fetched = c.fetched + t.fetched; sent = c.sent + t.sent; errs = c.errs + t.errs }
    else c

abbrev pub counted : Counters → Result Report × World → Counters × World
counted c (ok t, w) = (count_batch t (count_failure t.failure c), w)
counted c (err e, w) = (c, w)

module _ (topic : Text) (batch_limit : ℤ) where
  -- Runner.tick
  unfoldable pub tick : Counters → World → Counters × World
  unfolding Scheduler.tick
  tick c w = counted c (Scheduler.tick topic batch_limit w)

  -- Runner.Run: a tick at once, and one after each wait.
  unfoldable pub run : List ℕ → Counters → World → Counters × World
  unfolding tick
  run [] c w = tick c w
  run (d ∷ waits) c w = let (c', w') = tick c w in run waits c' (record w' { clock = w'.clock + d })

  -- The counters agree with what was done between two worlds.
  abbrev pub Agree : Counters → World → Counters × World → Type 0
  Agree c w x =
      (x.0.sent + length w.published ≡ c.sent + length x.1.published)
      × (x.0.fetched + (c.sent + c.errs) ≤ c.fetched + (x.0.sent + x.0.errs))

  batch-Agree :
      (c : Counters) (w v : World) (t : Report) (f : Option Error)
      → length v.published ≡ t.sent + length w.published
      → Agrees topic t f
      → Agree c w (count_batch t (count_failure f c), v)
  batch-Agree c w v t none more agrees = elim (Bool-cases (ltb 0 t.fetched)) [
    | inl some_due ↦ rw some_due (omega (arith, more), omega (arith, agrees))
    | inr none_due ↦ rw none_due (ground (arith, none_due, more, agrees), omega arith)
  ]
  batch-Agree c w v t (some e) more (nothing, unsent, failed) =
      rw nothing (omega (arith, more, unsent), omega arith)

  counted-Agree :
      (c : Counters) (w : World) (x : Result Report × World)
      → Reported topic w x
      → Agree c w (counted c x)
  counted-Agree c w (ok t, v) (u, same, more, agrees) =
      subst (λ t. Agree c w (counted c (ok t, v))) (as_report same)
        (batch-Agree c w v u u.failure more agrees)
    where
      as_report : {a b : Report} → ok a ≡ ok b → b ≡ a
      as_report e = cc
  counted-Agree c w (err e, v) (u, same, more, agrees) = absurd cc

  tick-Agree : (c : Counters) (w : World) → Agree c w (tick c w)
  unfolding tick
  tick-Agree c w =
      counted-Agree c w (Scheduler.tick topic batch_limit w) (tick-Reported topic batch_limit w)

  -- However many ticks the runner makes, and whichever calls fail in them: the counter of messages grew
  -- by the number of messages that were published, and the counters of messages and errors grew together
  -- by at least as much as that of the checks fetched.
  pub run-Agree : (waits : List ℕ) (c : Counters) (w : World) → Agree c w (run waits c w)
  unfolding run
  run-Agree [] c w = tick-Agree c w
  run-Agree (d ∷ waits) c w =
      let (c', w') = tick c w in
      let first = tick-Agree c w in
      let later = run-Agree waits c' (record w' { clock = w'.clock + d }) in
      (omega (arith, first, later), omega (arith, first, later))
