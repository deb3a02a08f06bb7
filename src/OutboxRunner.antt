-- ===== src/OutboxRunner.antt =====
-- internal/outbox: the handlers of handler.go, and what a worker of runner.go does at each tick of its
-- timer. Each message is handled under a context of its own; the workers' metrics, spans and log are not
-- modelled. The decoder of the payload, json.Unmarshal, is a parameter.
pub mod Sending
pub mod Delivery
pub mod Marking
pub mod Progress
pub mod Liveness
pub mod Workers
use pingerus.Base.{ℕ, Bool, true, false, List, [], ◌∷◌, if◌then◌else◌}
use pingerus.Base.Int.{ℤ, int_eq}
use pingerus.Text.{Text}
use pingerus.World.{Op, on_err, lift, attempt, pure, ◌>>=◌, ◌>>◌}
use pingerus.World.Errors.{message, wrap, Result, ok, err}
use pingerus.World.Rows.{Message}
use pingerus.Postgres.Outbox.{pick_batch, mark_success}
use pingerus.Kafka.{publish_status_changed}
use pingerus.Retry.{Policy, run}
use pingerus.PingWorker.{StatusChangedPayload, kind_status_changed}

-- A message is handled when its handler returns no error.
abbrev pub is_handled : Result (Unit {0}) → Bool
is_handled (ok _) = true
is_handled (err _) = false

abbrev pub keep_key : Bool → Text → List Text → List Text
keep_key b key keys = if b then key ∷ keys else keys

unfoldable pub handle : Result (Text → Op (Unit {0})) → Text → Op Bool
unfolding attempt ◌>>=◌
handle (err e) payload = pure false
handle (ok handler) payload = do r ← attempt (handler payload); pure (is_handled r)

module _ (topic : Text) (p : Policy) (unmarshal : Text → Result StatusChangedPayload) where
  -- The function `base` of MakeGlobalOutboxHandler.
  unfoldable pub publish_payload : Text → Op (Unit {0})
  unfolding publish_status_changed ◌>>=◌
  publish_payload payload = do
    c ← lift (on_err (wrap "unmarshal status-changed payload") (unmarshal payload))
    publish_status_changed topic c.check_id c.old c.new

  -- MakeGlobalOutboxHandler, with the retries of `instrument`.
  unfoldable pub handler_of : ℤ → Result (Text → Op (Unit {0}))
  unfolding publish_payload run
  handler_of kind =
      if int_eq kind kind_status_changed
      then ok (λ payload. run p (publish_payload payload))
      else err (message "unsupported outbox kind")

  -- The body of the loop over the messages: whether the message's key is to be marked.
  unfoldable pub deliver : Message → Op Bool
  unfolding handler_of handle
  deliver m = handle (handler_of m.kind) m.payload

  unfoldable pub deliver_all : List Message → Op (List Text)
  unfolding deliver ◌>>=◌
  deliver_all [] = pure []
  deliver_all (m ∷ ms) = do
    done ← deliver m
    keys ← deliver_all ms
    pure (keep_key done m.idempotency_key keys)

  -- What follows PickBatch: an error is only logged.
  unfoldable pub process : Result (List Message) → Op (Unit {0})
  unfolding deliver_all mark_success attempt ◌>>=◌
  process (err e) = pure tt
  process (ok messages) = do keys ← deliver_all messages; attempt (mark_success keys); pure tt

  -- One tick of a worker.
  unfoldable pub tick : ℤ → ℕ → Op (Unit {0})
  unfolding process pick_batch attempt ◌>>=◌
  tick batch_size in_progress_ttl = do
    messages ← attempt (pick_batch batch_size in_progress_ttl)
    process messages
