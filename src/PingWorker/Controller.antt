-- ===== src/PingWorker/Controller.antt =====
-- internal/services/ping-worker/controller.go: the ping worker as a consumer of its topic. The decoding of
-- protobuf is a parameter, and so is the reader.
use pingerus.Base.{ℕ, Bool, Option}
use pingerus.Base.Int.{ℤ}
use pingerus.World.{World}
use pingerus.World.Errors.{Error, Result}
use pingerus.World.Rows.{ProtoMessage}
use pingerus.Consumer.{Reader, Handler, Loop, proto_handler, consume}
use pingerus.PingWorker.{Outside, handle_check}

module _ (unmarshal : ProtoMessage → Result ℤ) (o : Outside) where
  -- The handler that Controller.Run gives to the consumer; `unmarshal` answers the field check_id.
  unfoldable pub check_request_handler : Handler
  unfolding proto_handler handle_check
  check_request_handler = proto_handler unmarshal (λ key check_id. handle_check o check_id)

  -- Controller.Run, for at most `fuel` messages and failed fetches.
  unfoldable pub run :
      {S : Type 0} → Reader S → (World → Bool) → ℕ → Loop S → Option (Error × Loop S)
  unfolding check_request_handler consume
  run r done fuel l = consume r done check_request_handler fuel l
