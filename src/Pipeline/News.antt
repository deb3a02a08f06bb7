-- ===== src/Pipeline/News.antt =====
-- The changes of status that the workers publish, in calls of the broker and of the outbox.
pub mod Workers
pub mod Flow
use pingerus.Base.{
  ℕ, ◌≡◌, ◌≢◌, refl, sym, subst, ◌∙◌, ap, ◌⊎◌, inl, inr, Bool, true, false, Option, none, some,
  List, [], ◌∷◌, ◌++◌, map, modify, exists, In, arith, Bool-cases, if◌then◌else◌,
}
use pingerus.Base.Int.{ℤ, int_eq, pos_part}
use pingerus.Text.{Text}
use pingerus.World.{World, interact, sleep, attempt, ◌>>=◌}
use pingerus.World.Errors.{Error, Result, ok, err}
use pingerus.World.Laws.{published-interact, Result-cases}
use pingerus.World.Rows.{Time, Message, Record}
use pingerus.Kafka.{publish_status_changed}
use pingerus.Retry.{Policy, run}
use pingerus.Retry.Keeps.{run-Keeps}
use pingerus.PingWorker.{StatusChangedPayload, kind_status_changed}
use pingerus.OutboxRunner.{publish_payload, handler_of, handle, deliver}
use pingerus.OutboxRunner.Delivery.{published-sleep}
use pingerus.OutboxRunner.Sending.{record_of, publish_cases}

-- The payload is read as a change from a status to the other one.
abbrev pub IsNews : (Text → Result StatusChangedPayload) → Text → Type 0
IsNews unmarshal payload = (c : StatusChangedPayload) × (unmarshal payload ≡ ok c) × (c.old ≢ c.new)

-- The record tells of a change from a status to the other one.
abbrev pub TellsNews : Text → Record → Type 0
TellsNews topic r =
    (c : StatusChangedPayload) × (ts : Time) × (r ≡ record_of topic c ts) × (c.old ≢ c.new)

-- What was published since then tells of news.
abbrev pub Adds : Text → World → World → Type 0
Adds topic w v = (r : Record) → In r v.published → In r w.published ⊎ TellsNews topic r

In-append_cases :
    (r : Record) (rs : List Record) (x : Record) → In r (rs ++ x ∷ []) → In r rs ⊎ (r ≡ x)
In-append_cases r [] x (inl e) = inr e
In-append_cases r [] x (inr h) = absurd h
In-append_cases r (y ∷ ys) x (inl e) = inl (inl e)
In-append_cases r (y ∷ ys) x (inr h) = elim (In-append_cases r ys x h) [
  | inl there ↦ inl (inr there)
  | inr last ↦ inr last
]

pub Adds-same : (topic : Text) (w v : World) → v.published ≡ w.published → Adds topic w v
Adds-same topic w v same r h = inl (subst (In r) same h)

pub Adds-trans : (topic : Text) (u w v : World) → Adds topic u w → Adds topic w v → Adds topic u v
Adds-trans topic u w v a b r h = elim (b r h) [ inl there ↦ a r there | inr news ↦ inr news ]

publish-Adds :
    (topic : Text) (c : StatusChangedPayload) (w : World)
    → c.old ≢ c.new
    → Adds topic w (publish_status_changed topic c.check_id c.old c.new w).1
publish-Adds topic c w news r h = elim (publish_cases topic c w) [
  | inl (same, _) ↦ inl (subst (In r) same h)
  | inr more ↦ elim (In-append_cases r w.published _ (subst (In r) more h)) [
    | inl there ↦ inl there
    | inr last ↦ inr (c, (interact w).1.clock, last, news)
  ]
]

sleep-Adds : (topic : Text) (d : ℕ) (w : World) → Adds topic w (sleep d w).1
sleep-Adds topic d w = Adds-same topic w (sleep d w).1 (published-sleep d w)

module _ (topic : Text) (p : Policy) (unmarshal : Text → Result StatusChangedPayload) where
  payload-Adds :
      (payload : Text) (w : World)
      → IsNews unmarshal payload
      → Adds topic w (publish_payload topic p unmarshal payload w).1
  unfolding publish_payload ◌>>=◌
  payload-Adds payload w (c, read, news) = rw read (publish-Adds topic c w news)

  pub deliver-Adds :
      (m : Message) (w : World)
      → IsNews unmarshal m.payload
      → Adds topic w (deliver topic p unmarshal m w).1
  unfolding deliver handler_of handle attempt ◌>>=◌
  deliver-Adds m w news = elim (Bool-cases (int_eq m.kind kind_status_changed)) [
    | inl known ↦ rw known (
        run-Keeps p (publish_payload topic p unmarshal m.payload) (Adds topic w)
          (λ v h.
            Adds-trans topic w v (publish_payload topic p unmarshal m.payload v).1 h
              (payload-Adds m.payload v news))
          (λ d v h. Adds-trans topic w v (sleep d v).1 h (sleep-Adds topic d v)) w
          (Adds-same topic w w refl))
    | inr other ↦ rw other (Adds-same topic w w refl)
  ]
