-- ===== src/KafkaInit/Ready.antt =====
-- The end of kafka-init.
use pingerus.Base.{
  ℕ, zero, suc, ◌+◌, ◌*◌, ◌≤◌, ◌<◌, ltb, ◌≡◌, ◌≢◌, refl, inl, inr, ◌⊎◌, true, Option, some, List,
  [], ◌∷◌, All, length, arith, Bool-cases,
}
use pingerus.Base.Int.{negsuc, int_eq, int_eq_iff}
use pingerus.Text.{Text}
use pingerus.World.{World, now}
use pingerus.World.Errors.{Error, Result, ok, err}
use pingerus.World.Laws.{clock-interact, after_bind}
use pingerus.World.Rows.{Time}
use pingerus.Topics.{Partition, Network, millisecond}
use pingerus.KafkaInit.{
  all_have_leader, is_ready, next_wait, ensure_topic, look, wait_or_done, after_wait, after_look,
  wait_until, wait_topic_ready, after_ensure, after_topic, init_topics,
}

-- There are partitions, and each has a leader.
abbrev pub IsLed : List Partition → Type 0
IsLed ps = (0 < length ps) × All (λ p. p.leader ≢ negsuc 0) ps

all_have_leader-All :
    (ps : List Partition) → all_have_leader ps ≡ true → All (λ p. p.leader ≢ negsuc 0) ps
unfolding all_have_leader
all_have_leader-All [] h = tt
all_have_leader-All (p ∷ ps) h = elim (Bool-cases (int_eq p.leader (negsuc 0))) [
  | inl none_leads ↦ absurd (ground (arith, none_leads, h))
  | inr led ↦ (
    λ e. absurd (ground (arith, led, (int_eq_iff p.leader (negsuc 0)).1 e)),
    all_have_leader-All ps (ground (arith, led, h)),
  )
]

is_ready-IsLed :
    (r : Result (List Partition))
    → is_ready r ≡ true
    → (ps : List Partition) × (r ≡ ok ps) × IsLed ps
is_ready-IsLed (err e) h = absurd cc
is_ready-IsLed (ok []) h = absurd cc
is_ready-IsLed (ok (p ∷ ps)) h = (p ∷ ps, refl, (omega arith, all_have_leader-All (p ∷ ps) h))

module _ {C : Type 0} (n : Network C) (text_of : Error → Text) (ctx_end : Time)
    (dials : (a : Text) (w : World) → w.clock ≤ (n.dial a w).1.clock)
    (reads : (conn : C) (name : Text) (w : World)
      → w.clock ≤ (n.read_partitions conn name w).1.clock)
    (broker : Text) where
  -- At some time the broker named the topic's partitions, with their leaders.
  abbrev pub IsUp : Text → Type 0
  IsUp topic =
      (u : World) × (ps : List Partition) × ((look n text_of ctx_end broker topic u).0 ≡ ok ps)
      × IsLed ps

  -- The answer, with what is known where it is no error.
  abbrev pub Ends : Type 0 → Option (Result (Unit {0}) × World) → Type 0
  Ends Known x =
      (r : Result (Unit {0}) × World) × (x ≡ some r)
      × (((r.0 ≡ ok tt) × Known) ⊎ ((e : Error) × (r.0 ≡ err e)))

  clock-look :
      (topic : Text) (w : World) → w.clock ≤ (look n text_of ctx_end broker topic w).1.clock
  unfolding look
  clock-look topic w =
      after_bind (λ v. w.clock ≤ v.clock) (n.dial broker) _ w (λ _ _. dials broker w)
        (λ conn _. omega (arith, dials broker w, reads conn topic (n.dial broker w).1))

  after_wait-Ends :
      (Known : Type 0) (again : World → Option (Result (Unit {0}) × World)) (d : ℕ) (w : World)
      → ((v : World) → w.clock + d ≤ v.clock → Ends Known (again v))
      → Ends Known (after_wait n text_of ctx_end again (wait_or_done n text_of ctx_end d w))
  after_wait-Ends Known again d w h = elim (Bool-cases (ltb ctx_end (w.clock + d))) [
    | inl over ↦ rw over (_, refl, inr (_, refl))
    | inr waits ↦ rw waits (h _ (omega arith))
  ]

  look-IsUp :
      (topic : Text) (u : World)
      → is_ready (look n text_of ctx_end broker topic u).0 ≡ true
      → IsUp topic
  look-IsUp topic u h =
      let (ps, e, led) = is_ready-IsLed (look n text_of ctx_end broker topic u).0 h in
      (u, ps, e, led)

  after_look-Ends :
      (topic : Text) (again : World → Option (Result (Unit {0}) × World)) (d : ℕ) (w : World)
      → ((v : World) → w.clock + d ≤ v.clock → Ends (IsUp topic) (again v))
      → Ends
          (IsUp topic)
          (after_look n text_of ctx_end again d (look n text_of ctx_end broker topic w))
  after_look-Ends topic again d w h =
      let x = look n text_of ctx_end broker topic w in
      elim (Bool-cases (is_ready x.0)) [
        | inl ready ↦ rw ready (_, refl, inl (refl, look-IsUp topic w ready))
        | inr not_yet ↦ rw not_yet (
            after_wait-Ends (IsUp topic) again d x.1
              λ v later. h v (omega (arith, clock-look topic w)))
      ]

  clock-now : (w : World) → w.clock ≤ (now w).1.clock
  unfolding now
  clock-now w = clock-interact w

  next_wait-least : (b : ℕ) → 200 * millisecond ≤ b → 200 * millisecond ≤ next_wait b
  unfolding next_wait
  next_wait-least b h = ground arith

  wait_until-Ends :
      (fuel : ℕ) (topic : Text) (deadline : Time) (backoff : ℕ) (w : World)
      → deadline ≤ w.clock + fuel * (200 * millisecond)
      → 200 * millisecond ≤ backoff
      → Ends (IsUp topic) (wait_until n text_of ctx_end (suc fuel) broker topic deadline backoff w)
  unfolding wait_until
  wait_until-Ends zero topic deadline backoff w enough least =
      elim (Bool-cases (ltb (now w).1.clock deadline)) [
        | inl early ↦ absurd (ground (arith, clock-now w, enough, early))
        | inr late ↦ rw late (_, refl, inr (_, refl))
      ]
  wait_until-Ends (suc fuel) topic deadline backoff w enough least =
      elim (Bool-cases (ltb (now w).1.clock deadline)) [
        | inl early ↦ rw early (
            after_look-Ends topic
              (wait_until n text_of ctx_end (suc fuel) broker topic deadline (next_wait backoff))
              backoff (now w).1
              λ v later.
                wait_until-Ends fuel topic deadline (next_wait backoff) v
                  (omega (arith, clock-now w)) (next_wait-least backoff least))
        | inr late ↦ rw late (_, refl, inr (_, refl))
      ]

  wait_topic_ready-Ends :
      (topic : Text) (w : World)
      → Ends (IsUp topic) (wait_topic_ready n text_of ctx_end 151 broker topic w)
  unfolding wait_topic_ready
  wait_topic_ready-Ends topic w =
      wait_until-Ends 150 topic ((now w).1.clock + 30000 * millisecond) (200 * millisecond)
        (now w).1 (omega arith) (omega arith)

  module _ (t : Text) (ts : List Text) (k : World → Option (Result (Unit {0}) × World))
      (rest : (v : World) → Ends (All IsUp ts) (k v)) where
    and_rest : (v : World) → IsUp t → Ends (All IsUp (t ∷ ts)) (k v)
    and_rest v up =
        let (r, e, known) = rest v in
        elim known [
          | inl (fine, all) ↦ (r, e, inl (fine, (up, all)))
          | inr failed ↦ (r, e, inr failed)
        ]

    after_topic-Ends :
        (x : Option (Result (Unit {0}) × World))
        → Ends (IsUp t) x
        → Ends (All IsUp (t ∷ ts)) (after_topic n text_of ctx_end k x)
    after_topic-Ends x ((ok u, v), e, inl (fine, up)) = rw e (and_rest v up)
    after_topic-Ends x ((ok u, v), e, inr (z, failed)) = absurd cc
    after_topic-Ends x ((err z, v), e, inl (fine, up)) = absurd cc
    after_topic-Ends x ((err z, v), e, inr failed) = rw e ((err z, v), refl, inr failed)

    after_ensure-Ends :
        (x : Result (Unit {0}) × World)
        → Ends (All IsUp (t ∷ ts)) (
            after_ensure n text_of ctx_end
              (λ v.
                after_topic n text_of ctx_end k (wait_topic_ready n text_of ctx_end 151 broker t v))
              x)
    after_ensure-Ends (err e, v) = ((err e, v), refl, inr (e, refl))
    after_ensure-Ends (ok u, v) =
        after_topic-Ends (wait_topic_ready n text_of ctx_end 151 broker t v)
          (wait_topic_ready-Ends t v)

  -- If the clock does not turn back over a call of the broker, kafka-init returns after at most 151 looks
  -- at each topic. It answers an error, or each topic was seen at some time to have partitions, all of
  -- them with a leader.
  pub init_topics-Ends :
      (parts rf : ℕ) (topics : List Text) (w : World)
      → Ends (All IsUp topics) (init_topics n text_of ctx_end 151 broker parts rf topics w)
  unfolding init_topics
  init_topics-Ends parts rf [] w = ((ok tt, w), refl, inl (refl, tt))
  init_topics-Ends parts rf (t ∷ ts) w =
      after_ensure-Ends t ts (init_topics n text_of ctx_end 151 broker parts rf ts)
        (init_topics-Ends parts rf ts) (ensure_topic n text_of ctx_end broker t parts rf w)
