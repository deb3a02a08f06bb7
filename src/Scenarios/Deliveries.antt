-- ===== src/Scenarios/Deliveries.antt =====
-- A change of status in the outbox of the small deployment, and its delivery.
use pingerus.Base.{◌+◌, ◌*◌, sym, subst, arith, ◌≡◌, refl, true, false, inl, [], ◌∷◌, In, sort_by}
use pingerus.Base.Int.{ℤ, pos, int_eq}
use pingerus.Text.{Text, codes, text_eq}
use pingerus.World.{World, interact}
use pingerus.World.Errors.{Result, ok}
use pingerus.World.Rows.{Time, Message, created, success}
use pingerus.Retry.{Policy, default_kafka_policy, run}
use pingerus.Postgres.Outbox.{candidates}
use pingerus.PingWorker.{StatusChangedPayload, kind_status_changed}
use pingerus.PingWorker.{unix_nano}
use pingerus.PingWorker.Keys.{status_key-inj}
use pingerus.Text.Decimal.{IsInt64}
use pingerus.Postgres.Checks.{second}
use pingerus.OutboxRunner.{tick, handler_of}
use pingerus.OutboxRunner.Progress.{IsSendable}
use pingerus.OutboxRunner.Liveness.{IsBroughtOn, tick-IsBroughtOn}
use pingerus.OutboxRunner.Marking.{IsAccounted, tick-IsAccounted}
use pingerus.Scenarios.{world}

abbrev pub change_of_1 : StatusChangedPayload
change_of_1 = record { check_id = pos 1; old = false; new = true; at = 0 }

abbrev pub read_payload : Text → Result StatusChangedPayload
read_payload payload = ok change_of_1

abbrev pub waiting : Message
waiting = record {
  idempotency_key = codes "status:1:0";
  kind = pos 1;
  payload = [];
  status = created;
  created_at = 0;
  updated_at = 0;
}

abbrev pub loaded_outbox : World
loaded_outbox = record world { db = record world.db { outbox = waiting ∷ [] } }

abbrev pub no_wait : Policy
no_wait = default_kafka_policy (λ d. d)

abbrev pub finished : Message
finished = record waiting { status = success; updated_at = world.clock }

delivered_1 :
    In finished (tick (codes "changes") no_wait read_payload (pos 10) 60 loaded_outbox).1.db.outbox
unfolding tick handler_of run interact int_eq text_eq sort_by default_kafka_policy
delivered_1 = inl refl

tick-IsAccounted_example :
    IsAccounted
      (codes "changes")
      no_wait
      read_payload
      loaded_outbox
      (tick (codes "changes") no_wait read_payload (pos 10) 60 loaded_outbox).1
      finished
tick-IsAccounted_example =
    tick-IsAccounted (codes "changes") no_wait read_payload (pos 10) 60 loaded_outbox finished refl
      delivered_1

sendable : IsSendable (codes "changes") no_wait read_payload waiting
sendable = record { kind = kind_1; change = change_of_1; payload = refl }
  where
    kind_1 : int_eq waiting.kind kind_status_changed ≡ true
    kind_1 = unfold int_eq in refl

candidate : In waiting (candidates 10 60 loaded_outbox.clock loaded_outbox.db.outbox)
unfolding candidates sort_by
candidate = inl refl

tick-IsBroughtOn_example :
    IsBroughtOn
      (codes "changes")
      no_wait
      read_payload
      10
      60
      refl
      waiting
      sendable
      loaded_outbox.clock
      (tick (codes "changes") no_wait read_payload (pos 10) 60 loaded_outbox).1
tick-IsBroughtOn_example =
    tick-IsBroughtOn (codes "changes") no_wait read_payload 10 60 refl waiting sendable
      loaded_outbox refl candidate

abbrev moment : Time
moment = 62135596800 * second + 5

moment_fits : IsInt64 (unix_nano moment)
moment_fits = fits refl
  where
    fits : {i : ℤ} → i ≡ pos 5 → IsInt64 i
    fits {i} e = subst IsInt64 (sym e) (omega arith)

status_key-inj_example : (pos 7 ≡ pos 7) × (unix_nano moment ≡ unix_nano moment)
status_key-inj_example =
    status_key-inj (pos 7) (pos 7) moment moment (omega arith) (omega arith) moment_fits moment_fits
      refl
