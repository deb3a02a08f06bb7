-- ===== src/KafkaInit.antt =====
-- cmd/kafka-init: the program that makes the topics before the services start. The connections of the
-- package kafka-go are the interface of Topics.antt; log lines are not modelled.
pub mod Ready
use pingerus.Base.{
  ℕ, zero, suc, ◌+◌, ◌-◌, ◌*◌, ◌^◌, ltb, ◌==◌, ◌||◌, not, Bool, true, false, Option, none, some,
  List, [], ◌∷◌, ◌++◌, map, if◌then◌else◌,
}
use pingerus.Base.Int.{ℤ, pos, negsuc, int_eq}
use pingerus.Text.{Text, codes, is_empty, split, trim_space, has_prefix}
use pingerus.Text.Decimal.{format_int, parse_digits}
use pingerus.World.{World, Op, now, attempt, pure, raise, ◌>>=◌, ◌>>◌}
use pingerus.World.Errors.{Error, message, Result, ok, err}
use pingerus.World.Rows.{Time}
use pingerus.Topics.{Partition, TopicConfig, Network, millisecond, sleep_for}

-- strings.Contains
unfoldable pub contains : Text → Text → Bool
unfolding has_prefix
contains [] sub = is_empty sub
contains (c ∷ s) sub = has_prefix (c ∷ s) sub || contains s sub

-- env, on what os.Getenv answers
unfoldable pub env : Text → Text → Text
env v otherwise = if is_empty v then otherwise else v

-- The digits after a sign, as an int: the error of strconv.Atoi is dropped, so a number that is too
-- large counts as the largest one.
abbrev pub clamped : Option ℕ → ℕ
clamped none = 0
clamped (some k) = if ltb k (2 ^ 63) then k else 2 ^ 63 - 1

-- The value of strconv.Atoi, where it is positive, and else 0.
abbrev pub atoi_or_zero : Text → ℕ
atoi_or_zero [] = 0
atoi_or_zero (c ∷ s) =
    if c == b'+'
    then clamped (parse_digits s)
    else if c == b'-'
    then 0
    else clamped (parse_digits (c ∷ s))

-- envInt
unfoldable pub env_int : Text → ℕ → ℕ
unfolding parse_digits
env_int v otherwise = let k = atoi_or_zero v in if k == 0 then otherwise else k

abbrev keep_named : Text → List Text → List Text
keep_named t ts = if is_empty t then ts else t ∷ ts

-- The topics of the variable that main goes through.
unfoldable pub topics_of : List Text → List Text
unfolding trim_space
topics_of [] = []
topics_of (t ∷ ts) = keep_named (trim_space t) (topics_of ts)

-- allHaveLeader
unfoldable pub all_have_leader : List Partition → Bool
all_have_leader [] = true
all_have_leader (p ∷ ps) = if int_eq p.leader (negsuc 0) then false else all_have_leader ps

-- net.JoinHostPort
unfoldable pub join_host_port : Text → ℤ → Text
unfolding contains
join_host_port host port =
    if contains host (codes ":")
    then codes "[" ++ (host ++ (codes "]:" ++ format_int port))
    else host ++ (codes ":" ++ format_int port)

abbrev pub has_partitions : List Partition → Bool
has_partitions [] = false
has_partitions (p ∷ ps) = all_have_leader (p ∷ ps)

abbrev pub is_ready : Result (List Partition) → Bool
is_ready (err e) = false
is_ready (ok ps) = has_partitions ps

unfoldable pub next_wait : ℕ → ℕ
next_wait b = if ltb b (5000 * millisecond) then b * 2 else b

-- `text_of` is err.Error(), and `ctx_end` the end of the context.
module _ {C : Type 0} (n : Network C) (text_of : Error → Text) (ctx_end : Time) where
  abbrev pub unless_exists : Result (Unit {0}) → Op (Unit {0})
  unless_exists (ok u) = pure tt
  unless_exists (err e) = if contains (text_of e) (codes "already exists") then pure tt else raise e

  -- ensureTopic
  unfoldable pub ensure_topic : Text → Text → ℕ → ℕ → Op (Unit {0})
  unfolding join_host_port attempt ◌>>=◌
  ensure_topic broker topic parts rf = do
    conn ← n.dial broker
    at ← n.controller conn
    cconn ← n.dial (join_host_port at.0 at.1)
    made ← attempt (
        n.create_topics cconn
          (record { topic = topic; num_partitions = parts; replication_factor = rf }))
    unless_exists made

  -- A connection, and the topic's partitions.
  unfoldable pub look : Text → Text → Op (List Partition)
  unfolding ◌>>=◌
  look broker topic = do conn ← n.dial broker; n.read_partitions conn topic

  -- The select: the context ends, or the wait does.
  abbrev pub wait_or_done : ℕ → World → Result (Unit {0}) × World
  wait_or_done d w =
      if ltb ctx_end (w.clock + d)
      then (
        err (message "context deadline exceeded"),
        record w { clock = if ltb w.clock ctx_end then ctx_end else w.clock },
      )
      else (ok tt, sleep_for d w)

  abbrev pub after_wait :
      (World → Option (Result (Unit {0}) × World))
      → Result (Unit {0}) × World
      → Option (Result (Unit {0}) × World)
  after_wait again (err e, w) = some (err e, w)
  after_wait again (ok u, w) = again w

  abbrev pub after_look :
      (World → Option (Result (Unit {0}) × World))
      → ℕ
      → Result (List Partition) × World
      → Option (Result (Unit {0}) × World)
  after_look again backoff (r, w) =
      if is_ready r then some (ok tt, w) else after_wait again (wait_or_done backoff w)

  -- The loop of waitTopicReady, for at most `fuel` rounds.
  unfoldable pub wait_until :
      ℕ → Text → Text → Time → ℕ → World → Option (Result (Unit {0}) × World)
  unfolding now look all_have_leader next_wait
  wait_until zero broker topic deadline backoff w = none
  wait_until (suc fuel) broker topic deadline backoff w =
      let v = (now w).1 in
      if ltb v.clock deadline
      then after_look (wait_until fuel broker topic deadline (next_wait backoff)) backoff
          (look broker topic v)
      else some (err (message "topic not ready in time"), v)

  -- waitTopicReady
  unfoldable pub wait_topic_ready : ℕ → Text → Text → World → Option (Result (Unit {0}) × World)
  unfolding now wait_until
  wait_topic_ready fuel broker topic w =
      let v = (now w).1 in
      wait_until fuel broker topic (v.clock + 30000 * millisecond) (200 * millisecond) v

  abbrev pub after_ensure :
      (World → Option (Result (Unit {0}) × World))
      → Result (Unit {0}) × World
      → Option (Result (Unit {0}) × World)
  after_ensure k (err e, w) = some (err e, w)
  after_ensure k (ok u, w) = k w

  abbrev pub after_topic :
      (World → Option (Result (Unit {0}) × World))
      → Option (Result (Unit {0}) × World)
      → Option (Result (Unit {0}) × World)
  after_topic k none = none
  after_topic k (some x) = after_ensure k x

  -- The loop of main, which ends the program with the first error.
  unfoldable pub init_topics :
      ℕ → Text → ℕ → ℕ → List Text → World → Option (Result (Unit {0}) × World)
  unfolding ensure_topic wait_topic_ready
  init_topics fuel broker parts rf [] w = some (ok tt, w)
  init_topics fuel broker parts rf (t ∷ ts) w =
      after_ensure
        (λ v. after_topic (init_topics fuel broker parts rf ts) (wait_topic_ready fuel broker t v))
        (ensure_topic broker t parts rf w)
