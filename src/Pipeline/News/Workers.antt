-- ===== src/Pipeline/News/Workers.antt =====
-- News in the outbox and in the hands of the workers.
use pingerus.Base.{
  ℕ, zero, suc, ◌≡◌, refl, sym, subst, ◌∙◌, ap, inl, inr, Bool, true, false, List, [], ◌∷◌, modify,
  In, All, Bool-cases,
}
use pingerus.Base.Int.{ℤ}
use pingerus.Text.{Text}
use pingerus.World.{World}
use pingerus.World.Errors.{Result, ok, err}
use pingerus.World.Laws.{Result-cases}
use pingerus.World.Rows.{Message}
use pingerus.Postgres.Outbox.{
  start_row, finish_row, is_started, pick_rows, pick_batch, finish_rows, mark_success,
}
use pingerus.Retry.{Policy}
use pingerus.PingWorker.{StatusChangedPayload}
use pingerus.OutboxRunner.{deliver}
use pingerus.OutboxRunner.Delivery.{deliver-Delivery}
use pingerus.OutboxRunner.Marking.{
  pick_batch-db, mark_success-db, mark_success-published, picked-place,
}
use pingerus.OutboxRunner.Workers.{
  Worker, waiting, stopped, dispatching, Counters, Stage, after_pick, after_dispatch, after_mark,
  stop_at, start, advance, advance_at,
}
use pingerus.OutboxRunner.Workers.Onward.{pick_batch-published}
use pingerus.Pipeline.News.{IsNews, Adds, Adds-same, deliver-Adds}

-- A row that was changed has the payload of one from before.
In-modified :
    (p : Message → Bool) (f : Message → Message)
    → ((m : Message) → (f m).payload ≡ m.payload)
    → (m : Message) (rows : List Message) → In m (modify p f rows)
    → (n : Message) × In n rows × (n.payload ≡ m.payload)
In-modified p f keeps m [] h = absurd h
In-modified p f keeps m (n ∷ ns) (inl e) = elim (Bool-cases (p n)) [
  | inl chosen ↦ (n, inl refl, sym (ap (λ x. x.payload) (rw chosen at e) ∙ keeps n))
  | inr other ↦ (n, inl refl, sym (ap (λ x. x.payload) (rw other at e)))
]
In-modified p f keeps m (n ∷ ns) (inr h) =
    let (o, place, same) = In-modified p f keeps m ns h in (o, inr place, same)

module _ (unmarshal : Text → Result StatusChangedPayload) where
  -- Each message is of news.
  abbrev pub AreNews : List Message → Type 0
  AreNews ms = (m : Message) → In m ms → IsNews unmarshal m.payload

  -- And so is each that a worker has.
  abbrev pub HasNews : Worker → Type 0
  HasNews (dispatching ms keys) = AreNews ms
  HasNews waiting = Unit
  HasNews stopped = Unit

  modified-AreNews :
      (q : Message → Bool) (f : Message → Message)
      → ((m : Message) → (f m).payload ≡ m.payload)
      → (rows : List Message) → AreNews rows
      → AreNews (modify q f rows)
  modified-AreNews q f keeps rows news m h =
      let (n, place, same) = In-modified q f keeps m rows h in
      subst (IsNews unmarshal) same (news n place)

  pub stop_at-HasNews : (i : ℕ) (xs : List Worker) → All HasNews xs → All HasNews (stop_at i xs)
  unfolding stop_at
  stop_at-HasNews i [] h = tt
  stop_at-HasNews zero (waiting ∷ xs) (h, more) = (tt, more)
  stop_at-HasNews zero (dispatching ms keys ∷ xs) h = h
  stop_at-HasNews zero (stopped ∷ xs) h = h
  stop_at-HasNews (suc i) (x ∷ xs) (h, more) = (h, stop_at-HasNews i xs more)

  pub start-HasNews : (n : ℕ) → All HasNews (start n)
  unfolding start
  start-HasNews zero = tt
  start-HasNews (suc n) = (tt, start-HasNews n)

module _ (topic : Text) (p : Policy) (unmarshal : Text → Result StatusChangedPayload) where
  abbrev Goes : World → Stage → Type 0
  Goes w x = Adds topic w x.2 × (AreNews unmarshal x.2.db.outbox × HasNews unmarshal x.0)

  module _ (batch : ℤ) (ttl : ℕ) where
    pick-AreNews :
        (w : World)
        → AreNews unmarshal w.db.outbox
        → AreNews unmarshal (pick_batch batch ttl w).1.db.outbox
    unfolding pick_rows
    pick-AreNews w news = elim (pick_batch-db batch ttl w) [
      | inl same ↦ subst (λ t. AreNews unmarshal t.outbox) (sym same) news
      | inr moved ↦
          subst (λ t. AreNews unmarshal t.outbox) (sym moved)
            (modified-AreNews unmarshal _ (start_row _) (λ m. refl) w.db.outbox news)
    ]

    mark-AreNews :
        (keys : List Text) (w : World)
        → AreNews unmarshal w.db.outbox
        → AreNews unmarshal (mark_success keys w).1.db.outbox
    unfolding finish_rows
    mark-AreNews keys w news = elim (mark_success-db keys w) [
      | inl same ↦ subst (λ t. AreNews unmarshal t.outbox) (sym same) news
      | inr (at, moved) ↦
          subst (λ t. AreNews unmarshal t.outbox) (sym moved)
            (modified-AreNews unmarshal (is_started keys) (finish_row at) (λ m. refl) w.db.outbox
              news)
    ]

    pick-Goes :
        (c : Counters) (w : World)
        → AreNews unmarshal w.db.outbox
        → Goes w (after_pick c (pick_batch batch ttl w))
    pick-Goes c w news =
        let adds =
          Adds-same topic w (pick_batch batch ttl w).1 (pick_batch-published batch ttl w) in
        elim (Result-cases (pick_batch batch ttl w).0) [
          | inl (ms, picks) ↦ rw picks (
            adds,
            (
              pick-AreNews w news,
              λ m h.
                  let (n, place, key, payload) = picked-place batch ttl w ms picks m h in
                  subst (IsNews unmarshal) payload (news n place),
            ),
          )
          | inr (x, fails) ↦ rw fails (adds, (pick-AreNews w news, tt))
        ]

    mark-Goes :
        (keys : List Text) (c : Counters) (w : World)
        → AreNews unmarshal w.db.outbox
        → Goes w (after_mark c (mark_success keys w))
    mark-Goes keys c w news =
        let adds = Adds-same topic w (mark_success keys w).1 (mark_success-published keys w) in
        elim (Result-cases (mark_success keys w).0) [
          | inl (u, fine) ↦ rw fine (adds, (mark-AreNews keys w news, tt))
          | inr (x, fails) ↦ rw fails (adds, (mark-AreNews keys w news, tt))
        ]

    dispatched-HasNews :
        (m : Message) (ms : List Message) (keys : List Text) (c : Counters) (r : Result Bool)
        (v : World)
        → AreNews unmarshal ms
        → HasNews unmarshal (after_dispatch m ms keys c (r, v)).0
    dispatched-HasNews m ms keys c (ok true) v news = news
    dispatched-HasNews m ms keys c (ok false) v news = news
    dispatched-HasNews m ms keys c (err e) v news = news

    dispatched-world :
        (m : Message) (ms : List Message) (keys : List Text) (c : Counters) (r : Result Bool)
        (v : World)
        → (after_dispatch m ms keys c (r, v)).2 ≡ v
    dispatched-world m ms keys c (ok true) v = refl
    dispatched-world m ms keys c (ok false) v = refl
    dispatched-world m ms keys c (err e) v = refl

    dispatch-Goes :
        (m : Message) (ms : List Message) (keys : List Text) (c : Counters) (w : World)
        → AreNews unmarshal w.db.outbox
        → AreNews unmarshal (m ∷ ms)
        → Goes w (after_dispatch m ms keys c (deliver topic p unmarshal m w))
    dispatch-Goes m ms keys c w news held =
        let (r, v) = deliver topic p unmarshal m w in
        let same = (deliver-Delivery topic p unmarshal m w).onward.same_db in
        (
          subst (Adds topic w) (sym (dispatched-world m ms keys c r v))
              (deliver-Adds topic p unmarshal m w (held m (inl refl))),
          (
            subst (λ u. AreNews unmarshal u.db.outbox) (sym (dispatched-world m ms keys c r v))
                (subst (λ t. AreNews unmarshal t.outbox) (sym same) news),
            dispatched-HasNews m ms keys c r v (λ n h. held n (inr h)),
          ),
        )

    advance-Goes :
        (x : Worker) (c : Counters) (w : World)
        → AreNews unmarshal w.db.outbox
        → HasNews unmarshal x
        → Goes w (advance topic p unmarshal batch ttl x c w)
    unfolding advance
    advance-Goes waiting c w news held = pick-Goes c w news
    advance-Goes (dispatching [] keys) c w news held = mark-Goes keys c w news
    advance-Goes (dispatching (m ∷ ms) keys) c w news held = dispatch-Goes m ms keys c w news held
    advance-Goes stopped c w news held = (Adds-same topic w w refl, (news, tt))

    pub advance_at-Goes :
        (i : ℕ) (xs : List Worker) (c : Counters) (w : World)
        → AreNews unmarshal w.db.outbox
        → All (HasNews unmarshal) xs
        → let (ys, d, v) = advance_at topic p unmarshal batch ttl i xs c w in
          Adds topic w v × (AreNews unmarshal v.db.outbox × All (HasNews unmarshal) ys)
    unfolding advance_at
    advance_at-Goes i [] c w news held = (Adds-same topic w w refl, (news, tt))
    advance_at-Goes zero (x ∷ xs) c w news (held, more) =
        let (adds, (outbox, has)) = advance-Goes x c w news held in (adds, (outbox, (has, more)))
    advance_at-Goes (suc i) (x ∷ xs) c w news (held, more) =
        let (adds, (outbox, has)) = advance_at-Goes i xs c w news more in
        (adds, (outbox, (held, has)))
