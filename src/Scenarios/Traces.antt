-- ===== src/Scenarios/Traces.antt =====
-- The headers of a message with the context of a trace.
use pingerus.Base.{◌≡◌, refl, Bool, true, false, ◌||◌, List, [], ◌∷◌}
use pingerus.Text.{Text, codes, text_eq}
use pingerus.Kafka.MapCarrierFromKafka
use pingerus.Kafka.MapCarrierHeaders.{to_kafka}
use pingerus.Kafka.Headers.{Calls, set_all, last_value, get-set_all-to_kafka}

-- The parent is set twice, and the range visits the state first.
abbrev calls : Calls
calls =
    (codes "traceparent", codes "00-1")
    ∷ (codes "tracestate", codes "s=1")
    ∷ (codes "traceparent", codes "00-2")
    ∷ []

abbrev order : List Text
order = codes "tracestate" ∷ codes "traceparent" ∷ []

swapped : (a b : Bool) → (a || (b || false)) ≡ (b || (a || false))
swapped true true = refl
swapped true false = refl
swapped false true = refl
swapped false false = refl

parent_read :
    MapCarrierFromKafka.get (to_kafka order (set_all calls [])) (codes "traceparent") ≡ codes "00-2"
unfolding MapCarrierFromKafka.get to_kafka set_all text_eq
parent_read = refl

get-set_all-to_kafka_example :
    (MapCarrierFromKafka.get
        (MapCarrierFromKafka.set (codes "tracestate") [] (to_kafka order (set_all calls [])))
        (codes "traceparent")
      ≡ last_value calls (codes "traceparent") [])
    × (MapCarrierFromKafka.keys
          (MapCarrierFromKafka.set (codes "tracestate") [] (to_kafka order (set_all calls [])))
        ≡ order)
unfolding set_all text_eq
get-set_all-to_kafka_example =
    get-set_all-to_kafka calls order
      (λ k. swapped (text_eq k (codes "tracestate")) (text_eq k (codes "traceparent")))
      (codes "traceparent") (codes "tracestate") []
