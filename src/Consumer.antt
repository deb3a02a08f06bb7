-- ===== src/Consumer.antt =====
-- internal/repository/kafka: the loop of consumer.go with ProtoHandler of protohandler.go. The reader of
-- the package kafka-go is an interface, and so is the decoding of protobuf; the spans are not modelled.
pub mod Start
pub mod Partitions
pub mod Rounds
pub mod Runs
pub mod Stopping
pub mod Losses
use pingerus.Base.{
  ℕ, zero, suc, ◌+◌, ◌*◌, Bool, true, false, Option, none, some, List, [], ◌∷◌, ltb, if◌then◌else◌,
}
use pingerus.Text.{Text}
use pingerus.World.{World, Op, lift, ◌>>=◌}
use pingerus.World.Errors.{Error, sentinel, canceled, Result, ok, err}
use pingerus.World.Rows.{ProtoMessage}

-- What the loop reads of a kafka.Message.
pub record Fetched : Type 0 where
  pub offset : ℕ
  pub key : Text
  pub value : ProtoMessage

-- kafka.Reader with a state: FetchMessage and CommitMessages.
pub record Reader (S : Type 0) : Type 0 where
  pub fetch : S → World → Result Fetched × S × World
  pub commit : Fetched → S → World → Result (Unit {0}) × S × World

abbrev pub Handler : Type 0
Handler = Text → ProtoMessage → Op (Unit {0})

-- ProtoHandler
unfoldable pub proto_handler :
    {M : Type 0} → (ProtoMessage → Result M) → (Text → M → Op (Unit {0})) → Handler
unfolding ◌>>=◌
proto_handler unmarshal handle key value = do m ← lift (unmarshal value); handle key m

abbrev pub min_backoff : ℕ
min_backoff = 200 * 1000000

abbrev pub max_backoff : ℕ
max_backoff = 5000 * 1000000

-- The backoff after another fetch that failed.
unfoldable pub next_backoff : ℕ → ℕ
next_backoff b =
    let d = if ltb b max_backoff then b * 2 else b in if ltb max_backoff d then max_backoff else d

-- The variables of the loop.
pub record Loop (S : Type 0) : Type 0 where
  pub reader : S
  pub world : World
  pub backoff : ℕ

-- A round of the loop returns from Consume, or goes on.
pub data Round (S : Type 0) : Type 0 where
  stop : Error → Loop S → Round S
  next : Loop S → Round S

module _ {S : Type 0} (r : Reader S) (done : World → Bool) (h : Handler) where
  -- ctx.Err() where the context is done, or another round.
  abbrev pub stop_if : Bool → Loop S → Loop S → Round S
  stop_if true l k = stop (sentinel canceled) l
  stop_if false l k = next k

  abbrev pub after_commit : ℕ → Result (Unit {0}) × S × World → Round S
  after_commit b (ok u, s, w) = next (record { reader = s; world = w; backoff = b })
  after_commit b (err e, s, w) =
      let l : Loop S = record { reader = s; world = w; backoff = b } in stop_if (done w) l l

  abbrev pub after_handler : Fetched → S → Result (Unit {0}) × World → Round S
  after_handler m s (err e, w) = next (record { reader = s; world = w; backoff = min_backoff })
  after_handler m s (ok u, w) = after_commit min_backoff (r.commit m s w)

  -- time.Sleep does not heed the context.
  abbrev pub after_fetch : ℕ → Result Fetched × S × World → Round S
  after_fetch b (ok m, s, w) = after_handler m s (h m.key m.value w)
  after_fetch b (err e, s, w) =
      stop_if (done w) (record { reader = s; world = w; backoff = b })
        (record { reader = s; world = record w { clock = w.clock + b }; backoff = next_backoff b })

  abbrev round_if : Bool → Loop S → Round S
  round_if true l = stop (sentinel canceled) l
  round_if false l = after_fetch l.backoff (r.fetch l.reader l.world)

  -- One round of the loop of Consume.
  unfoldable pub round : Loop S → Round S
  unfolding next_backoff
  round l = round_if (done l.world) l

  abbrev go_on : (Loop S → Option (Error × Loop S)) → Round S → Option (Error × Loop S)
  go_on k (stop e l) = some (e, l)
  go_on k (next l) = k l

  -- At most `fuel` rounds of Consume: the error that it returns, or `none` where it has not returned.
  unfoldable pub consume : ℕ → Loop S → Option (Error × Loop S)
  unfolding round
  consume zero l = none
  consume (suc fuel) l = go_on (consume fuel) (round l)

-- The loop as Consume starts it.
abbrev pub start_loop : {S : Type 0} → S → World → Loop S
start_loop s w = record { reader = s; world = w; backoff = min_backoff }
