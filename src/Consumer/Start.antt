-- ===== src/Consumer/Start.antt =====
-- internal/repository/kafka: NewConsumer and BootstrapConsumer. What kafka-go gets is a record of its
-- own; the logger is left out.
use pingerus.Base.{ℕ, ◌*◌, Bool, true, List, if◌then◌else◌}
use pingerus.Text.{Text}

pub record ConsumerConfig : Type 0 where
  pub brokers : List Text
  pub group_id : Text
  pub topic : Text
  pub from_beginning : Bool

-- kafka.FirstOffset and kafka.LastOffset
pub data StartOffset : Type 0 where
  first_offset last_offset : StartOffset

-- The fields of kafka.ReaderConfig that are set.
pub record ReaderConfig : Type 0 where
  pub brokers : List Text
  pub group_id : Text
  pub topic : Text
  pub start_offset : StartOffset
  pub watch_partition_changes : Bool
  pub min_bytes : ℕ
  pub max_bytes : ℕ
  pub session_timeout : ℕ
  pub rebalance_timeout : ℕ
  pub heartbeat_interval : ℕ

abbrev second : ℕ
second = 1000000000

-- NewConsumer
unfoldable pub new_consumer : ConsumerConfig → ReaderConfig
new_consumer cfg = record {
  brokers = cfg.brokers;
  group_id = cfg.group_id;
  topic = cfg.topic;
  start_offset = if cfg.from_beginning then first_offset else last_offset;
  watch_partition_changes = true;
  min_bytes = 1000;
  max_bytes = 10000000;
  session_timeout = 10 * second;
  rebalance_timeout = 15 * second;
  heartbeat_interval = 3 * second;
}
