-- ===== src/Notifier/Controller.antt =====
-- internal/services/email-notifier/controller.go: the notifier as a consumer of its topic. The decoding of
-- protobuf is a parameter, and so is the reader.
pub mod Mailing
use pingerus.Base.{ℕ, Bool, Option, none, some, if◌then◌else◌}
use pingerus.Base.Int.{ℤ}
use pingerus.Text.{Text}
use pingerus.World.{World, Op}
use pingerus.World.Errors.{Error, errors_is, canceled, Result, ok, err}
use pingerus.World.Rows.{Time, ProtoMessage}
use pingerus.Notifier.{on_status_change}
use pingerus.Notifier.Smtp.{Mailer}
use pingerus.Consumer.{Reader, Handler, Loop, proto_handler, consume}

-- pb.StatusChange, with an absent timestamp as `none`.
pub record PbStatusChange : Type 0 where
  pub check_id : ℤ
  pub old_status : Bool
  pub new_status : Bool
  pub ts : Option Time

module _ (unmarshal : ProtoMessage → Result PbStatusChange) (m : Mailer) where
  -- The handler that Controller.Run gives to the consumer.
  unfoldable pub status_change_handler : Handler
  unfolding proto_handler on_status_change
  status_change_handler =
      proto_handler unmarshal
        (λ key c. on_status_change m c.check_id c.old_status c.new_status c.ts)

  -- What Run makes of the error of Consume.
  abbrev pub without_canceled :
      {S : Type 0} → Option (Error × Loop S) → Option (Result (Unit {0}) × Loop S)
  without_canceled none = none
  without_canceled (some (e, l)) = some (if errors_is e canceled then ok tt else err e, l)

  -- Controller.Run, for at most `fuel` messages and failed fetches.
  unfoldable pub run :
      {S : Type 0} → Reader S → (World → Bool) → ℕ → Loop S → Option (Result (Unit {0}) × Loop S)
  unfolding status_change_handler consume errors_is
  run r done fuel l = without_canceled (consume r done status_change_handler fuel l)
