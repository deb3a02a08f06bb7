-- ===== src/Scenarios/Pipeline.antt =====
-- A ping of the small deployment, up to the record in Kafka.
use pingerus.Base.{
  ℕ, zero, suc, ◌+◌, ◌≡◌, refl, ◌⊎◌, inl, Bool, true, false, some, List, [], ◌∷◌, In, sort_by,
}
use pingerus.Base.Int.{ℤ, pos, negsuc, int_eq}
use pingerus.Text.{Text, codes, text_eq, is_space}
use pingerus.World.{interact}
use pingerus.World.Errors.{message, Result, ok, err}
use pingerus.World.Rows.{Record, Time}
use pingerus.Retry.{default_kafka_policy, run}
use pingerus.PingWorker.{
  Outside, StatusChangedPayload, slim, handle_check, check_site, ping, settle, has_changed,
  normalize_url,
}
use pingerus.Postgres.Checks
use pingerus.Postgres.Runs
use pingerus.Text.Decimal.{format_int}
use pingerus.OutboxRunner.{handler_of}
use pingerus.OutboxRunner.Workers.{start}
use pingerus.OutboxRunner.Sending.{record_of}
use pingerus.Pipeline.{Turn, pings, calls, waits, turn_all, run_from}
use pingerus.Pipeline.News.{TellsNews}
use pingerus.Pipeline.News.Flow.{run_from-TellsNews}
use pingerus.Scenarios.{world}
use pingerus.Scenarios.Deliveries.{no_wait}

abbrev flag_code : Bool → ℕ
flag_code true = 1
flag_code false = 0

abbrev flag_of : ℕ → Bool
flag_of zero = false
flag_of (suc _) = true

-- A payload as the list of its numbers, which stands for JSON.
abbrev write_payload : StatusChangedPayload → Text
write_payload c = elim c.check_id [
  | pos n ↦ 0 ∷ n ∷ flag_code c.old ∷ flag_code c.new ∷ c.at ∷ []
  | negsuc n ↦ 1 ∷ n ∷ flag_code c.old ∷ flag_code c.new ∷ c.at ∷ []
]

abbrev payload_at : ℤ → ℕ → ℕ → Time → StatusChangedPayload
payload_at id old new at = record { check_id = id; old = flag_of old; new = flag_of new; at = at }

abbrev read_payload : Text → Result StatusChangedPayload
read_payload (zero ∷ n ∷ old ∷ new ∷ at ∷ []) = ok (payload_at (pos n) old new at)
read_payload (suc zero ∷ n ∷ old ∷ new ∷ at ∷ []) = ok (payload_at (negsuc n) old new at)
read_payload _ = err (message "unexpected end of JSON input")

reads_back : (c : StatusChangedPayload) → read_payload (write_payload c) ≡ ok c
reads_back c = go c.check_id c.old c.new
  where
    go :
        (id : ℤ) (old new : Bool)
        → read_payload (write_payload (record { check_id = id; old = old; new = new; at = c.at }))
          ≡ ok (record { check_id = id; old = old; new = new; at = c.at })
    go (pos n) true true = refl
    go (pos n) true false = refl
    go (pos n) false true = refl
    go (pos n) false false = refl
    go (negsuc n) true true = refl
    go (negsuc n) true false = refl
    go (negsuc n) false true = refl
    go (negsuc n) false false = refl

-- The site of the first check answers 200.
abbrev outside : Outside
outside = record { accepts_url = λ _. true; response = λ _ _. some 200; marshal = write_payload }

-- The check is handled, and a worker picks the message, publishes the change and marks it.
abbrev turns : List Turn
turns = pings (pos 1) ∷ calls 3 ∷ waits 1 ∷ calls 3 ∷ calls 3 ∷ []

abbrev sent : Record
sent =
    record_of (codes "status-change")
      (record { check_id = pos 1; old = false; new = true; at = world.clock }) (world.clock + 1)

sent_later :
    In sent
      (run_from outside (codes "status-change") no_wait read_payload turns world).world.published
unfolding turn_all handle_check check_site ping settle has_changed slim normalize_url is_space
    Checks.get_by_id Checks.update Runs.insert start handler_of run interact int_eq text_eq sort_by
    default_kafka_policy format_int
sent_later = inl refl

run_from-TellsNews_example : In sent [] ⊎ TellsNews (codes "status-change") sent
run_from-TellsNews_example =
    run_from-TellsNews outside (codes "status-change") no_wait read_payload reads_back turns world
      (λ m h. absurd h) sent sent_later
