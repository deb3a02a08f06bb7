-- ===== src/Topics.antt =====
-- internal/repository/kafka/admin.go with bootstrap.go: topics are made before they are read. The
-- connections of the package kafka-go are an interface; log lines are not modelled.
pub mod Waiting
use pingerus.Base.{
  ℕ, zero, suc, ◌+◌, ◌*◌, ltb, Bool, Option, none, some, List, [], ◌∷◌, ◌++◌, if◌then◌else◌,
}
use pingerus.Base.Int.{ℤ, pos, limit_or}
use pingerus.Text.{Text, codes}
use pingerus.Text.Decimal.{format_int}
use pingerus.World.{World, Op, now, attempt, pure, ◌>>=◌, ◌>>◌}
use pingerus.World.Errors.{Result, ok, err}
use pingerus.World.Rows.{Time}

-- What the code reads of a kafka.Partition: the number of its leader, -1 where there is none.
pub record Partition : Type 0 where
  pub leader : ℤ

-- kafka.TopicConfig
pub record TopicConfig : Type 0 where
  pub topic : Text
  pub num_partitions : ℕ
  pub replication_factor : ℕ

-- kafka.DialContext, and the methods of kafka.Conn that are called. Closing one answers nothing.
pub record Network (C : Type 0) : Type 0 where
  pub dial : Text → Op C
  pub controller : C → Op (Text × ℤ)
  pub create_topics : C → TopicConfig → Op (Unit {0})
  pub read_partitions : C → Text → Op (List Partition)

pub record TopicSpec : Type 0 where
  pub name : Text
  pub num_partitions : ℤ
  pub replication_factor : ℤ
  pub max_wait : ℤ

abbrev pub millisecond : ℕ
millisecond = 1000000

-- The time after a wait.
abbrev pub sleep_for : ℕ → World → World
sleep_for d w = record w { clock = w.clock + d }

module _ {C : Type 0} (n : Network C) where
  -- What follows a look at the partitions: `again` goes on after 200 ms.
  abbrev pub after_look : (World → Option World) → Result (List Partition) × World → Option World
  after_look again (ok (p ∷ ps), w) = some w
  after_look again (ok [], w) = again (sleep_for (200 * millisecond) w)
  after_look again (err e, w) = again (sleep_for (200 * millisecond) w)

  -- The loop at the end of EnsureTopic, for at most `fuel` rounds.
  unfoldable pub confirm : ℕ → C → Text → Time → World → Option World
  unfolding now
  confirm zero conn name deadline w = none
  confirm (suc fuel) conn name deadline w =
      let v = (now w).1 in
      if ltb v.clock deadline
      then after_look (confirm fuel conn name deadline) (n.read_partitions conn name v)
      else some v

  -- EnsureTopic up to that loop, with the address of the first broker: the connection for the loop.
  unfoldable pub create_topic : Text → TopicSpec → Op C
  unfolding attempt ◌>>=◌
  create_topic broker spec = do
    conn ← n.dial broker
    at ← n.controller conn
    cc ← n.dial (at.0 ++ (codes ":" ++ format_int at.1))
    attempt (
        n.create_topics cc (record {
          topic = spec.name;
          num_partitions = limit_or 1 spec.num_partitions;
          replication_factor = limit_or 1 spec.replication_factor;
        }))
    pure conn

  abbrev pub answer_nil : Option World → Option (Result (Unit {0}) × World)
  answer_nil none = none
  answer_nil (some w) = some (ok tt, w)

  abbrev pub confirm_for : ℕ → TopicSpec → Result C × World → Option (Result (Unit {0}) × World)
  confirm_for fuel spec (err e, w) = some (err e, w)
  confirm_for fuel spec (ok conn, w) =
      let v = (now w).1 in
      answer_nil
        (confirm fuel conn spec.name (v.clock + limit_or (5000 * millisecond) spec.max_wait) v)

  -- EnsureTopic, with `none` where it has not returned after `fuel` rounds of the loop.
  unfoldable pub ensure_topic : ℕ → Text → TopicSpec → World → Option (Result (Unit {0}) × World)
  unfolding create_topic confirm
  ensure_topic fuel broker spec w = confirm_for fuel spec (create_topic broker spec w)

-- BootstrapConsumer: what it asks of EnsureTopic, whose error it drops.
unfoldable pub bootstrap_spec : Text → TopicSpec
bootstrap_spec topic = record {
  name = topic;
  num_partitions = pos 1;
  replication_factor = pos 1;
  max_wait = pos (5000 * millisecond);
}
