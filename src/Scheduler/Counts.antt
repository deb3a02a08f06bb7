-- ===== src/Scheduler/Counts.antt =====
-- The counts that Tick answers, and the messages that it publishes.
use pingerus.Base.{
  ℕ, suc, ◌+◌, ◌≡◌, refl, Option, none, some, List, [], ◌∷◌, length, length-append, arith,
}
use pingerus.Base.Int.{ℤ, limit_or, pos, to_int32}
use pingerus.Text.{Text}
use pingerus.Text.Decimal.{format_int}
use pingerus.World.{World, begin, commit, wrapping, on_err, attempt, interact, with_tx, ◌>>=◌}
use pingerus.World.Errors.{Error, wrap, Result, ok, err}
use pingerus.World.Rows.{Check, CheckRow, Record, check_request}
use pingerus.World.Laws.{published-interact}
use pingerus.World.Silent.{
  IsSilent, pure-IsSilent, statement-IsSilent, wrapping-IsSilent, begin-IsSilent, commit-IsSilent,
  deferring_rollback-IsSilent, bind-IsSilent,
}
use pingerus.Postgres.Checks.Due
use pingerus.Kafka.{publish_proto, publish_check_requested}
use pingerus.Scheduler.{Report, fetch_due, count_sent, count_errs, publish_each, schedule, tick}

take_rows-IsSilent : (rows : List CheckRow) → IsSilent (Due.take_rows rows)
take_rows-IsSilent [] = pure-IsSilent []
take_rows-IsSilent (r ∷ rs) =
    bind-IsSilent _ _ (wrapping-IsSilent "bump next_run" _ (statement-IsSilent with_tx _)) λ _.
      bind-IsSilent _ _ (wrapping-IsSilent "commit" commit commit-IsSilent) λ _. pure-IsSilent _

due-IsSilent : (limit : ℤ) → IsSilent (Due.fetch_due limit)
unfolding Due.fetch_due
due-IsSilent limit = bind-IsSilent _ _ (wrapping-IsSilent "begin" begin begin-IsSilent) λ _.
    deferring_rollback-IsSilent _ (
      bind-IsSilent _ _ (wrapping-IsSilent "fetch due" _ (statement-IsSilent with_tx _))
        take_rows-IsSilent)

fetch_due-IsSilent : (limit : ℤ) → IsSilent (fetch_due limit)
unfolding fetch_due
fetch_due-IsSilent limit = bind-IsSilent _ _ (due-IsSilent limit) λ _. pure-IsSilent _

module _ (topic : Text) where
  abbrev msg : ℤ → Record
  msg id = record { topic = topic; key = format_int id; value = check_request (to_int32 id) }

  publish-length :
      (id : ℤ) (n e : ℕ) (w : World)
      → (count_sent (publish_check_requested topic id w).0 n + length w.published
          ≡ n + length (publish_check_requested topic id w).1.published)
        × (count_sent (publish_check_requested topic id w).0 n
              + count_errs (publish_check_requested topic id w).0 e
            ≡ suc (n + e))
  unfolding publish_check_requested publish_proto
  publish-length id n e w =
      let grown = length-append (interact w).1.published (msg id ∷ []) in
      ground (arith, grown, published-interact w)

  abbrev Counted : ℕ → ℕ → ℕ → World → Result (ℕ × ℕ) × World → Type 0
  Counted n sent errs w (r, w') =
      (counts : ℕ × ℕ) × (r ≡ ok counts)
      × (counts.0 + counts.1 ≡ n + (sent + errs))
      × (counts.0 + length w.published ≡ sent + length w'.published)

  publish_each-Counted :
      (cs : List Check) (sent errs : ℕ) (w : World)
      → Counted (length cs) sent errs w (publish_each topic sent errs cs w)
  unfolding publish_each attempt ◌>>=◌
  publish_each-Counted [] sent errs w = ((sent, errs), refl, omega arith, refl)
  publish_each-Counted (c ∷ cs) sent errs w =
      let (r, v) = publish_check_requested topic c.id w in
      let (grown, split) = publish-length c.id sent errs w in
      let (counts, answer, total, more) =
        publish_each-Counted cs (count_sent r sent) (count_errs r errs) v in
      (counts, answer, omega arith, omega arith)

  -- What Tick has reported: as many messages as it counts, one for each check fetched that it does not
  -- count as an error.
  abbrev pub Agrees : Report → Option Error → Type 0
  Agrees t none = t.fetched ≡ t.sent + t.errs
  Agrees t (some e) = (t.fetched ≡ 0) × (t.sent ≡ 0) × (t.errs ≡ 1)

  abbrev pub Reported : World → Result Report × World → Type 0
  Reported w (r, w') =
      (t : Report) × (r ≡ ok t)
      × (length w'.published ≡ t.sent + length w.published)
      × Agrees t t.failure

  schedule-Reported : (due : Result (List Check)) (w : World) → Reported w (schedule topic due w)
  unfolding schedule ◌>>=◌
  schedule-Reported (err e) w = (_, refl, omega arith, (refl, refl, refl))
  schedule-Reported (ok due) w =
      let (counts, answer, total, more) = publish_each-Counted due 0 0 w in
      rw answer (_, refl, omega arith, omega arith)

  -- Whatever call fails, Tick answers with counts that agree with what it did: the messages it sent are
  -- those that were published, and each check that it fetched was either sent or counted as an error;
  -- where the fetch itself failed nothing was published and one error is counted.
  pub tick-Reported : (limit : ℤ) (w : World) → Reported w (tick topic limit w)
  unfolding tick attempt ◌>>=◌ wrapping IsSilent
  tick-Reported limit w =
      let silent = fetch_due-IsSilent (pos (limit_or 100 limit)) w in
      let fetched = fetch_due (pos (limit_or 100 limit)) w in
      let (t, answer, more, agrees) =
        schedule-Reported (on_err (wrap "fetch due") fetched.0) fetched.1 in
      (
        t,
        answer,
        (let quiet : length fetched.1.published ≡ length w.published = rw silent refl in
            omega arith),
        agrees,
      )
