-- ===== src/OutboxRunner/Workers/Onward.antt =====
-- What the calls of a worker leave of the outbox and of what was published.
use pingerus.Base.{
  ◌≢◌, ◌⊎◌, Option-cases, exists, ℕ, ◌≡◌, refl, ◌∙◌, sym, subst, inl, inr, Bool, List, [], ◌∷◌,
  modify, exists, In, arith, Option-cases, Bool-cases,
}
use pingerus.Base.Int.{ℤ, pos_part}
use pingerus.Text.{Text}
use pingerus.World.{
  background, World, background, begin, commit, interact, statement, wrapping, deferring_rollback,
  ◌>>=◌,
}
use pingerus.World.Laws.{db-interact, published-interact, tx-interact}
use pingerus.World.Rows.{success, Tables, created, Time, Message, Record}
use pingerus.Postgres.Outbox.{
  has_key, enqueue, insert_row, has_key, candidates, start_row, finish_row, is_started, among,
  insert_row, enqueue, pick_rows, pick_batch, finish_rows, mark_success,
}
use pingerus.OutboxRunner.Marking.{
  begun, picked, pick_batch-db, mark_success-db, mark_success-published,
}

-- A message with the same key and the same payload stands among the rows.
abbrev pub Stands : List Message → Message → Type 0
Stands rows m =
    (n : Message) × In n rows × (n.idempotency_key ≡ m.idempotency_key) × (n.payload ≡ m.payload)

Stands-modify :
    (p : Message → Bool) (f : Message → Message)
    → ((m : Message) → (f m).idempotency_key ≡ m.idempotency_key)
    → ((m : Message) → (f m).payload ≡ m.payload)
    → (rows : List Message) (m : Message) → In m rows
    → Stands (modify p f rows) m
Stands-modify p f key payload [] m h = absurd h
Stands-modify p f key payload (n ∷ ns) m (inl e) = elim (Bool-cases (p n)) [
  | inl chosen ↦ (f n, inl (rw chosen refl), rw e (key n), rw e (payload n))
  | inr other ↦ (n, inl (rw other refl), rw e refl, rw e refl)
]
Stands-modify p f key payload (n ∷ ns) m (inr h) =
    let (o, place, same_key, same_payload) = Stands-modify p f key payload ns m h in
    (o, inr place, same_key, same_payload)

-- Every message still stands, and what was published still is.
pub record Onward (w v : World) : Type 0 where
  pub stands : (m : Message) → In m w.db.outbox → Stands v.db.outbox m
  pub keeps : (r : Record) → In r w.published → In r v.published

pub Onward-same : {w v : World} → v.db ≡ w.db → v.published ≡ w.published → Onward w v
Onward-same same published = record {
  stands = λ m h. (m, subst (λ t. In m t.outbox) (sym same) h, refl, refl);
  keeps = λ r h. subst (In r) (sym published) h;
}

pub Stands-later :
    {w v : World} → Onward w v → (m : Message) → Stands w.db.outbox m → Stands v.db.outbox m
Stands-later o m (n, place, key, payload) =
    let (n', place', key', payload') = o.stands n place in
    (n', place', key' ∙ key, payload' ∙ payload)

pub pick_batch-published :
    (batch : ℤ) (ttl : ℕ) (w : World) → (pick_batch batch ttl w).1.published ≡ w.published
unfolding pick_batch begin commit statement wrapping deferring_rollback ◌>>=◌
pick_batch-published batch ttl w = ground (
  arith,
  published-interact w,
  published-interact (begun w),
  tx-interact (begun w),
  published-interact (interact (begun w)).1,
  published-interact (picked batch ttl w),
  tx-interact (picked batch ttl w),
)

pub pick_batch-Onward : (batch : ℤ) (ttl : ℕ) (w : World) → Onward w (pick_batch batch ttl w).1
unfolding pick_rows
pick_batch-Onward batch ttl w = elim (pick_batch-db batch ttl w) [
  | inl same ↦ Onward-same same (pick_batch-published batch ttl w)
  | inr moved ↦ record {
    stands = λ m h.
        subst (λ t. Stands t.outbox m) (sym moved)
          (Stands-modify (among (candidates (pos_part batch) ttl (interact w).1.clock w.db.outbox))
            (start_row (interact w).1.clock) (λ n. refl) (λ n. refl) w.db.outbox m h);
    keeps = λ r h. subst (In r) (sym (pick_batch-published batch ttl w)) h;
  }
]

pub mark_success-Onward : (keys : List Text) (w : World) → Onward w (mark_success keys w).1
unfolding finish_rows
mark_success-Onward keys w = elim (mark_success-db keys w) [
  | inl same ↦ Onward-same same (mark_success-published keys w)
  | inr (at, moved) ↦ record {
    stands = λ m h.
        subst (λ t. Stands t.outbox m) (sym moved)
          (Stands-modify (is_started keys) (finish_row at) (λ n. refl) (λ n. refl) w.db.outbox m h);
    keeps = λ r h. subst (In r) (sym (mark_success-published keys w)) h;
  }
]

-- The row that Enqueue writes.
abbrev pub new_row : Text → ℤ → Text → Time → Message
new_row key kind payload at = record {
  idempotency_key = key;
  kind = kind;
  payload = payload;
  status = created;
  created_at = at;
  updated_at = at;
}

insert_row-cases :
    (key : Text) (kind : ℤ) (payload : Text) (at : Time) (t : Tables)
    → ((insert_row key kind payload at t).1 ≡ t)
      ⊎ ((insert_row key kind payload at t).1.outbox ≡ new_row key kind payload at ∷ t.outbox)
unfolding insert_row
insert_row-cases key kind payload at t = elim (Bool-cases (exists (has_key key) t.outbox)) [
  | inl known ↦ inl (rw known refl)
  | inr other ↦ inr (rw other refl)
]

pub enqueue-published :
    (key : Text) (kind : ℤ) (payload : Text) (w : World)
    → (enqueue background key kind payload w).1.published ≡ w.published
unfolding enqueue statement
enqueue-published key kind payload w = ground (arith, published-interact w)

pub enqueue-cases :
    (key : Text) (kind : ℤ) (payload : Text) (w : World)
    → ((enqueue background key kind payload w).1.db ≡ w.db)
      ⊎ ((at : Time) × ((enqueue background key kind payload w).1.db.outbox
            ≡ new_row key kind payload at ∷ w.db.outbox))
unfolding enqueue statement
enqueue-cases key kind payload w = elim (Option-cases (interact w).0) [
  | inl fine ↦
      let at : Time = (interact w).1.clock in
      elim (insert_row-cases key kind payload at w.db) [
        | inl same ↦ inl (rw (fine, db-interact w) same)
        | inr more ↦ inr (at, rw (fine, db-interact w) more)
      ]
  | inr (x, fails) ↦ inl (rw fails (db-interact w))
]

pub enqueue-Onward :
    (key : Text) (kind : ℤ) (payload : Text) (w : World) (at : Time)
    → (enqueue background key kind payload w).1.db.outbox
      ≡ new_row key kind payload at ∷ w.db.outbox
    → Onward w (enqueue background key kind payload w).1
enqueue-Onward key kind payload w at more = record {
  stands = λ m h. (m, subst (In m) (sym more) (inr h), refl, refl);
  keeps = λ r h. subst (In r) (sym (enqueue-published key kind payload w)) h;
}

-- A row that is new is not done.
pub created-open :
    (key : Text) (kind : ℤ) (payload : Text) (at : Time)
    → (new_row key kind payload at).status ≢ success
created-open key kind payload at e = absurd cc
