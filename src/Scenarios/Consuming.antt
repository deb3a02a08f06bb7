-- ===== src/Scenarios/Consuming.antt =====
-- A partition with two messages, and the consumers at work on it.
use pingerus.Base.{
  ℕ, suc, ◌+◌, ◌*◌, ◌≤◌, ◌≡◌, refl, inl, inr, leb, All, select, Bool, true, false, none, List, [],
  ◌∷◌, arith, if◌then◌else◌,
}
use pingerus.Base.Int.{pos}
use pingerus.Text.{codes, text_eq}
use pingerus.World.{World}
use pingerus.World.Errors.{Error, message, Result, ok, err}
use pingerus.World.Rows.{ProtoMessage, status_change}
use pingerus.Postgres.Checks.{second}
use pingerus.Consumer.{
  Fetched, Reader, Handler, Loop, next, min_backoff, max_backoff, start_loop, round, consume,
}
use pingerus.Consumer.Partitions.{Later, Partition}
use pingerus.Consumer.Losses.{IsPassed, Reach-IsPassed}
use pingerus.Consumer.Runs.{Reach, here, again, Progress, Reach-Progress, Reach-backoff}
use pingerus.Consumer.Stopping.{IsStopped, consume-IsStopped}
use pingerus.Scenarios.{world}

-- The messages that are left, and the offset committed.
abbrev pub Place : Type 0
Place = List Fetched × ℕ

abbrev pub fetch_first : Place → World → Result Fetched × Place × World
fetch_first ([], n) w = (err (message "EOF"), ([], n), w)
fetch_first (m ∷ ms, n) w = (ok m, (ms, n), w)

abbrev pub in_order : Reader Place
in_order = record { fetch = fetch_first; commit = λ m s w. (ok tt, (s.0, suc m.offset), w) }

pub Later-same : (w : World) → Later w w
Later-same w = record { db = refl; mails = refl; published = refl; clock = omega arith }

pub fetch_first-found :
    (s : Place) (w : World) (m : Fetched)
    → (fetch_first s w).0 ≡ ok m
    → s.0 ≡ m ∷ (fetch_first s w).1.0
fetch_first-found ([], n) w m e = absurd cc
fetch_first-found (x ∷ ms, n) w m e = cc

pub fetch_first-missed :
    (s : Place) (w : World) (x : Error) → (fetch_first s w).0 ≡ err x → (fetch_first s w).1.0 ≡ s.0
fetch_first-missed ([], n) w x e = refl
fetch_first-missed (m ∷ ms, n) w x e = absurd cc

pub fetch_first-keeps : (s : Place) (w : World) → (fetch_first s w).1.1 ≡ s.1
fetch_first-keeps ([], n) w = refl
fetch_first-keeps (m ∷ ms, n) w = refl

pub fetch_first-Later : (s : Place) (w : World) → Later w (fetch_first s w).2
fetch_first-Later ([], n) w = Later-same w
fetch_first-Later (m ∷ ms, n) w = Later-same w

abbrev pub partition : Partition Place in_order
partition = record {
  pending = λ s. s.0;
  committed = λ s. s.1;
  fetched = fetch_first-found;
  missed = fetch_first-missed;
  fetch_keeps = fetch_first-keeps;
  fetch_later = fetch_first-Later;
  commit_pending = λ m s w. refl;
  commit_done = λ m s w e. refl;
  commit_either = λ m s w. inr refl;
  commit_later = λ m s w. Later-same w;
}

abbrev pub change_1 : ProtoMessage
change_1 = status_change (pos 1) false true none

abbrev pub begin : Place
begin = (
  record { offset = 4; key = codes "1"; value = change_1 }
      ∷ record { offset = 5; key = codes "2"; value = status_change (pos 2) true true none }
      ∷ [],
  4,
)

-- The context ends at this time.
abbrev pub deadline : ℕ
deadline = 90 * second + second

abbrev pub is_done : World → Bool
is_done w = leb deadline w.clock

pub late : (w : World) → deadline ≤ w.clock → is_done w ≡ true
late w h = ground arith

-- A handler that fails on the first message.
abbrev picky : Handler
picky key value w = if text_eq key (codes "1") then (err (message "no"), w) else (ok tt, w)

abbrev started : Loop Place
started = start_loop begin world

abbrev second_round : Loop Place
second_round = record started {
  reader = (
    (record { offset = 5; key = codes "2"; value = status_change (pos 2) true true none } ∷ []),
    4,
  );
}

first : round in_order is_done picky started ≡ next second_round
unfolding round text_eq
first = refl

one_round : Reach in_order is_done picky started second_round
one_round = again here first

Reach-Progress_example : Progress in_order partition is_done picky started second_round
Reach-Progress_example = Reach-Progress in_order partition is_done picky started one_round

Reach-backoff_example : (min_backoff ≤ second_round.backoff) × (second_round.backoff ≤ max_backoff)
Reach-backoff_example =
    Reach-backoff in_order partition is_done picky started one_round (omega arith) (omega arith)

picky-ticks : (m : Fetched) (w : World) → w.clock ≤ (picky m.key m.value w).1.clock
picky-ticks m w = ground arith

consume-IsStopped_example :
    IsStopped in_order partition is_done picky deadline late picky-ticks started
      (consume in_order is_done picky 9 started)
consume-IsStopped_example =
    consume-IsStopped in_order partition is_done picky deadline late picky-ticks 9 5 started
      (omega arith, omega arith, omega arith)

abbrev message_1 : Fetched
message_1 = record { offset = 4; key = codes "1"; value = change_1 }

abbrev third_round : Loop Place
third_round = record started { reader = ([], 6) }

-- The second message is handled and committed.
second_handled : round in_order is_done picky second_round ≡ next third_round
unfolding round text_eq
second_handled = refl

-- A new reader of the group.
abbrev restart : Place → Place
restart s = (select (λ x. leb s.1 x.offset) begin.0, s.1)

restarted : (n : ℕ) (ms : List Fetched) → All (λ x. n ≤ x.offset) (select (λ x. leb n x.offset) ms)
restarted n [] = tt
restarted n (m ∷ ms) = let rest = restarted n ms in ground arith

-- The first message, on which the handler failed.
Reach-IsPassed_example :
    IsPassed in_order partition is_done picky restart started third_round message_1
Reach-IsPassed_example =
    Reach-IsPassed in_order partition is_done picky restart (λ s. restarted s.1 begin.0) started
      third_round ((omega arith, tt), (tt, tt)) (again one_round second_handled) message_1
      (inl refl) (omega arith) (omega arith)
