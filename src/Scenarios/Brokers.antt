-- ===== src/Scenarios/Brokers.antt =====
-- A broker that answers at once, and one without a leader.
use pingerus.Base.{◌*◌, ◌≡◌, some, List, [], ◌∷◌, All, arith}
use pingerus.Base.Int.{ℤ, pos, negsuc}
use pingerus.Text.{Text, codes}
use pingerus.World.{World}
use pingerus.World.Errors.{Error, Result, ok}
use pingerus.Postgres.Checks.{second}
use pingerus.Topics.{Network, bootstrap_spec, create_topic, ensure_topic}
use pingerus.Topics.Waiting.{Answers, ensure_topic-Returns}
use pingerus.KafkaInit.{init_topics}
use pingerus.KafkaInit.Ready.{Ends, IsUp, init_topics-Ends}
use pingerus.Scenarios.{world}

-- A connection is the address that it leads to.
abbrev broker : ℤ → Network Text
broker leader = record {
  dial = λ a w. (ok a, w);
  controller = λ c w. (ok (codes "kafka", pos 9092), w);
  create_topics = λ c t w. (ok tt, w);
  read_partitions = λ c name w. (ok (record { leader = leader } ∷ []), w);
}

ensure_topic-Returns_example :
    (r : Result (Unit {0}) × World) × (ensure_topic
        (broker (pos 1))
        26
        (codes "kafka:9092")
        (bootstrap_spec (codes "checks"))
        world
      ≡ some r)
    × Answers
        (broker (pos 1))
        (λ conn name w. omega arith)
        (create_topic
          (broker (pos 1))
          (codes "kafka:9092")
          (bootstrap_spec (codes "checks"))
          world).0
        r.0
ensure_topic-Returns_example =
    ensure_topic-Returns (broker (pos 1)) (λ conn name w. omega arith) 25 (codes "kafka:9092")
      (bootstrap_spec (codes "checks")) world (unfold bootstrap_spec in omega arith)

abbrev text_of : Error → Text
text_of e = []

abbrev topics : List Text
topics = codes "checks" ∷ codes "changes" ∷ []

init_topics-Ends_example :
    Ends
      (broker (negsuc 0))
      text_of
      (150 * second)
      (λ a w. omega arith)
      (λ conn name w. omega arith)
      (codes "kafka:9092")
      (All
        (IsUp
          (broker (negsuc 0))
          text_of
          (150 * second)
          (λ a w. omega arith)
          (λ conn name w. omega arith)
          (codes "kafka:9092"))
        topics)
      (init_topics
        (broker (negsuc 0))
        text_of
        (150 * second)
        151
        (codes "kafka:9092")
        1
        1
        topics
        world)
init_topics-Ends_example =
    init_topics-Ends (broker (negsuc 0)) text_of (150 * second) (λ a w. omega arith)
      (λ conn name w. omega arith) (codes "kafka:9092") 1 1 topics world
