-- ===== src/Pipeline/News/Flow.antt =====
-- News from the handler of checks to the broker.
use pingerus.Base.{
  ◌≡◌, ◌≢◌, refl, sym, subst, ◌⊎◌, inl, inr, Bool, true, false, Option, none, some, List, [], ◌∷◌,
  In, All, if◌then◌else◌,
}
use pingerus.Base.Int.{ℤ}
use pingerus.Text.{Text}
use pingerus.World.{World}
use pingerus.World.Silent.{IsSilent}
use pingerus.World.Errors.{Result, ok}
use pingerus.World.Rows.{Check, Message, Record, Time}
use pingerus.Postgres.Checks.{scan_full}
use pingerus.Retry.{Policy}
use pingerus.PingWorker.{Outside, StatusChangedPayload, slim, has_changed, old_status, handle_check}
use pingerus.PingWorker.Atomic.{payload_of, message_of}
use pingerus.PingWorker.Outcome.{handle_check-Outcome}
use pingerus.PingWorker.Silence.{handle_check-IsSilent}
use pingerus.OutboxRunner.Workers.{Runner, new_runner}
use pingerus.Pipeline.{
  Turn, pings, calls, ends, waits, others, worker_count, batch_size, in_progress_ttl, turn,
  turn_all, run_from,
}
use pingerus.Pipeline.News.{IsNews, TellsNews, Adds, Adds-same, Adds-trans}
use pingerus.Pipeline.News.Workers.{
  AreNews, HasNews, advance_at-Goes, stop_at-HasNews, start-HasNews,
}

-- A status that has changed is not the one that the payload calls the old one.
changed-differs :
    (last : Option Bool) (status : Bool) → has_changed last status ≡ true → old_status last ≢ status
unfolding has_changed
changed-differs none true h e = absurd cc
changed-differs none false h e = absurd cc
changed-differs (some true) true h e = absurd cc
changed-differs (some true) false h e = absurd cc
changed-differs (some false) true h e = absurd cc
changed-differs (some false) false h e = absurd cc

module _ (out : Outside) (topic : Text) (p : Policy)
    (unmarshal : Text → Result StatusChangedPayload)
    (reads_back : (c : StatusChangedPayload) → unmarshal (out.marshal c) ≡ ok c) where
  message-IsNews :
      (chk : Check) (status : Bool) (at started : Time)
      → has_changed chk.last_status status ≡ true
      → IsNews unmarshal (message_of out chk status at started).payload
  message-IsNews chk status at started changed =
      (payload_of chk status at, reads_back _, changed-differs chk.last_status status changed)

  added-AreNews :
      (b : Bool) (m : Message) (rows : List Message)
      → IsNews unmarshal m.payload
      → AreNews unmarshal rows
      → AreNews unmarshal (if b then rows else m ∷ rows)
  added-AreNews true m rows new news n h = news n h
  added-AreNews false m rows new news n (inl e) =
      subst (λ x. IsNews unmarshal x.payload) (sym e) new
  added-AreNews false m rows new news n (inr h) = news n h

  pings-AreNews :
      (id : ℤ) (w : World)
      → AreNews unmarshal w.db.outbox
      → AreNews unmarshal (handle_check out id w).1.db.outbox
  unfolding slim scan_full
  pings-AreNews id w news = elim (handle_check-Outcome out id w) [
    | inl same ↦ subst (AreNews unmarshal) (sym same.outbox) news
    | inr change ↦ subst (AreNews unmarshal) (sym change.recorded.outbox) (
        added-AreNews _ _ change.before.outbox
          (message-IsNews (slim (scan_full change.row)) change.status change.recorded.at
            change.started change.changed)
          (subst (AreNews unmarshal) (sym change.prepared.outbox) news))
  ]

  -- The outbox and the workers have news only.
  abbrev Flows : Runner → Type 0
  Flows r = AreNews unmarshal r.world.db.outbox × All (HasNews unmarshal) r.workers

  abbrev GoesOn : Runner → Runner → Type 0
  GoesOn r s = Adds topic r.world s.world × Flows s

  turn-GoesOn : (t : Turn) (r : Runner) → Flows r → GoesOn r (turn out topic p unmarshal t r)
  unfolding turn IsSilent
  turn-GoesOn (pings id) r (news, has) = (
    Adds-same topic r.world (handle_check out id r.world).1 (handle_check-IsSilent out id r.world),
    (pings-AreNews id r.world news, has),
  )
  turn-GoesOn (calls i) r (news, has) =
      let (adds, (outbox, has')) =
        advance_at-Goes topic p unmarshal batch_size in_progress_ttl i r.workers r.counters r.world
          news has in
      (adds, (outbox, has'))
  turn-GoesOn (ends i) r (news, has) =
      (Adds-same topic r.world r.world refl, (news, stop_at-HasNews unmarshal i r.workers has))
  turn-GoesOn (waits d) r (news, has) = (λ x h. inl h, (news, has))
  turn-GoesOn (others f) r (news, has) = (λ x h. inl h, (news, has))

  turn_all-Adds :
      (ts : List Turn) (r : Runner)
      → Flows r
      → Adds topic r.world (turn_all out topic p unmarshal ts r).world
  unfolding turn_all
  turn_all-Adds [] r flows = Adds-same topic r.world r.world refl
  turn_all-Adds (t ∷ ts) r flows =
      let s : Runner = turn out topic p unmarshal t r in
      let (adds, flows') = turn-GoesOn t r flows in
      Adds-trans topic r.world s.world (turn_all out topic p unmarshal ts s).world adds
        (turn_all-Adds ts s flows')

  -- Where json.Unmarshal reads back what json.Marshal wrote, and the messages in the outbox at the start
  -- are all of changes from one status to the other: in whichever order the handler of checks runs for
  -- any checks, the workers make their calls, time passes and other programs write to the other
  -- tables, and whichever calls fail, each record that is published since then tells of a change from
  -- one status to the other.
  pub run_from-TellsNews :
      (turns : List Turn) (w : World)
      → AreNews unmarshal w.db.outbox
      → (r : Record) → In r (run_from out topic p unmarshal turns w).world.published
      → In r w.published ⊎ TellsNews topic r
  run_from-TellsNews turns w news =
      turn_all-Adds turns (new_runner worker_count w) (news, start-HasNews unmarshal worker_count)
