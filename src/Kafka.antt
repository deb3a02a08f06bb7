-- ===== src/Kafka.antt =====
-- internal/repository/kafka: check_events.go and producer.go, the publishing side.
pub mod MapCarrierFromKafka
pub mod MapCarrierHeaders
pub mod Headers
use pingerus.Base.{Bool, some, [], ◌∷◌, ◌++◌}
use pingerus.Base.Int.{ℤ, to_int32}
use pingerus.Text.{Text}
use pingerus.Text.Decimal.{format_int}
use pingerus.World.{Op, interact, unless, now, ◌>>=◌}
use pingerus.World.Errors.{ok}
use pingerus.World.Rows.{ProtoMessage, check_request, status_change}

-- KeyFromInt64
unfoldable pub key_from_int64 : ℤ → Text
key_from_int64 id = format_int id

-- Producer.PublishProto: the writer takes the message, or fails and takes nothing.
unfoldable pub publish_proto : Text → Text → ProtoMessage → Op (Unit {0})
publish_proto topic key m w =
    let (fault, w') = interact w in
    unless fault
      (λ v. (
        ok tt,
        record v { published = v.published ++ record { topic = topic; key = key; value = m } ∷ [] },
      ))
      w'

unfoldable pub publish_check_requested : Text → ℤ → Op (Unit {0})
unfolding publish_proto key_from_int64
publish_check_requested topic check_id =
    publish_proto topic (key_from_int64 check_id) (check_request (to_int32 check_id))

unfoldable pub publish_status_changed : Text → ℤ → Bool → Bool → Op (Unit {0})
unfolding publish_proto key_from_int64 now ◌>>=◌
publish_status_changed topic check_id old new = do
  ts ← now
  publish_proto topic (key_from_int64 check_id)
      (status_change (to_int32 check_id) old new (some ts))
