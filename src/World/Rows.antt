-- ===== src/World/Rows.antt =====
-- The rows of the tables (internal/db/migrations) under the domain types of internal/domain, and the
-- database as the collection of its tables with the sequences that number their rows.
use pingerus.Base.{ℕ, Bool, Option, List}
use pingerus.Base.Int.{ℤ}
use pingerus.Text.{Text}

-- A time is the number of nanoseconds since the zero time.Time; so is a duration that is not negative.
abbrev pub Time : Type 0
Time = ℕ

pub record User : Type 0 where
  pub id : ℤ
  pub email : Text
  pub password : Text
  pub created_at : Time
  pub updated_at : Time

-- check.Check; `interval` is a time.Duration in nanoseconds.
pub record Check : Type 0 where
  pub id : ℤ
  pub user_id : ℤ
  pub name : Text
  pub url : Text
  pub interval : ℤ
  pub active : Bool
  pub last_status : Option Bool
  pub next_run : Time
  pub created_at : Time
  pub updated_at : Time

-- A row of the table checks, which has no name and keeps whole seconds.
pub record CheckRow : Type 0 where
  pub id : ℤ
  pub user_id : ℤ
  pub host : Text
  pub interval_sec : ℕ
  pub last_status : Option Bool
  pub next_run : Time
  pub active : Bool
  pub created_at : Time
  pub updated_at : Time

pub record Run : Type 0 where
  pub id : ℤ
  pub check_id : ℤ
  pub timestamp : Time
  pub status : Bool
  pub code : ℤ
  pub latency : ℤ

pub record RefreshToken : Type 0 where
  pub id : ℤ
  pub user_id : ℤ
  pub token_hash : Text
  pub issued_at : Time
  pub expires_at : Time
  pub revoked : Bool

pub record Notification : Type 0 where
  pub id : ℤ
  pub check_id : ℤ
  pub user_id : ℤ
  pub type : Text
  pub sent_at : Time
  pub payload : Text

pub data Status : Type 0 where
  created in_progress success : Status

pub record Message : Type 0 where
  pub idempotency_key : Text
  pub kind : ℤ
  pub payload : Text
  pub status : Status
  pub created_at : Time
  pub updated_at : Time

-- The database; the numbers `…_seq` are the next values of the SERIAL columns.
pub record Tables : Type 0 where
  pub users : List User
  pub checks : List CheckRow
  pub runs : List Run
  pub tokens : List RefreshToken
  pub notifications : List Notification
  pub outbox : List Message
  pub user_seq : ℕ
  pub check_seq : ℕ
  pub run_seq : ℕ
  pub token_seq : ℕ
  pub notification_seq : ℕ

-- The protobuf messages of proto/v1/events.proto; Marshal and Unmarshal carry them as they are.
pub data ProtoMessage : Type 0 where
  check_request : (check_id : ℤ) → ProtoMessage
  status_change : (check_id : ℤ) (old_status new_status : Bool) (ts : Option Time) → ProtoMessage

-- A message in a Kafka topic.
pub record Record : Type 0 where
  pub topic : Text
  pub key : Text
  pub value : ProtoMessage

-- A mail that the SMTP server took.
pub record Mail : Type 0 where
  pub recipient : Text
  pub content : Text
