-- ===== src/OutboxRunner/Sending.antt =====
-- What the handler of a message sends.
use pingerus.Base.{
  In-append, In-last, ◌≡◌, refl, ◌∙◌, ◌⊎◌, inl, inr, [], ◌∷◌, ◌++◌, In, some, arith, Option-cases,
}
use pingerus.Base.Int.{to_int32}
use pingerus.Text.{Text}
use pingerus.Text.Decimal.{format_int}
use pingerus.World.{World, now, interact, ◌>>=◌}
use pingerus.World.Errors.{Error, Result, ok, err}
use pingerus.World.Laws.{db-interact, published-interact, Result-cases}
use pingerus.World.Rows.{Time, Record, status_change}
use pingerus.Kafka.{publish_proto, publish_status_changed}
use pingerus.Retry.{Policy}
use pingerus.PingWorker.{StatusChangedPayload}
use pingerus.OutboxRunner.{publish_payload}

-- The database is as it was, and what was published still is.
pub record Extends (w v : World) : Type 0 where
  pub same_db : v.db ≡ w.db
  pub keeps : (r : Record) → In r w.published → In r v.published

module _ (topic : Text) where
  abbrev pub record_of : StatusChangedPayload → Time → Record
  record_of c ts = record {
    topic = topic;
    key = format_int c.check_id;
    value = status_change (to_int32 c.check_id) c.old c.new (some ts);
  }

  -- The change was published, with some time.
  abbrev pub IsSent : StatusChangedPayload → World → Type 0
  IsSent c w = (ts : Time) × In (record_of c ts) w.published

  same_db-publish :
      (c : StatusChangedPayload) (w : World)
      → (publish_status_changed topic c.check_id c.old c.new w).1.db ≡ w.db
  unfolding publish_status_changed publish_proto now ◌>>=◌
  same_db-publish c w = ground (arith, db-interact w, db-interact (interact w).1)

  pub publish_cases :
      (c : StatusChangedPayload) (w : World)
      → (((publish_status_changed topic c.check_id c.old c.new w).1.published ≡ w.published)
          × ((x : Error) × ((publish_status_changed topic c.check_id c.old c.new w).0 ≡ err x)))
        ⊎ ((publish_status_changed topic c.check_id c.old c.new w).1.published
            ≡ w.published ++ record_of c (interact w).1.clock ∷ [])
  unfolding publish_status_changed publish_proto now ◌>>=◌
  publish_cases c w =
      let before = published-interact w in
      let after = published-interact (interact w).1 in
      elim (Option-cases (interact (interact w).1).0) [
        | inl fine ↦ inr (rw fine (rw (after, before) refl))
        | inr (x, fails) ↦ inl (rw fails (after ∙ before, (_, refl)))
      ]

  publish-Extends :
      (c : StatusChangedPayload) (w : World)
      → Extends w (publish_status_changed topic c.check_id c.old c.new w).1
  publish-Extends c w = record {
    same_db = same_db-publish c w;
    keeps = λ r h. elim (publish_cases c w) [
      | inl (same, _) ↦ rw same h
      | inr more ↦ rw more (In-append r w.published _ h)
    ];
  }

  publish-IsSent :
      (c : StatusChangedPayload) (w : World)
      → (publish_status_changed topic c.check_id c.old c.new w).0 ≡ ok tt
      → IsSent c (publish_status_changed topic c.check_id c.old c.new w).1
  publish-IsSent c w done = elim (publish_cases c w) [
    | inl (_, (x, failed)) ↦ absurd (ground (arith, done, failed))
    | inr more ↦
        ((interact w).1.clock, rw more (In-last (record_of c (interact w).1.clock) w.published))
  ]

  module _ (p : Policy) (unmarshal : Text → Result StatusChangedPayload) where
    -- The payload was read, and its change published.
    abbrev pub IsDone : Text → World → Type 0
    IsDone payload w = (c : StatusChangedPayload) × (unmarshal payload ≡ ok c) × IsSent c w

    pub payload-Extends :
        (payload : Text) (w : World) → Extends w (publish_payload topic p unmarshal payload w).1
    unfolding publish_payload ◌>>=◌
    payload-Extends payload w = elim (Result-cases (unmarshal payload)) [
      | inl (c, read) ↦ rw read (publish-Extends c w)
      | inr (x, unread) ↦ rw unread (record { same_db = refl; keeps = λ r h. h })
    ]

    pub payload-IsDone :
        (payload : Text) (w : World)
        → (publish_payload topic p unmarshal payload w).0 ≡ ok tt
        → IsDone payload (publish_payload topic p unmarshal payload w).1
    unfolding publish_payload ◌>>=◌
    payload-IsDone payload w done = elim (Result-cases (unmarshal payload)) [
      | inl (c, read) ↦ (c, read, rw read (publish-IsSent c w (rw read at done)))
      | inr (x, unread) ↦ absurd (ground (arith, unread, done))
    ]
