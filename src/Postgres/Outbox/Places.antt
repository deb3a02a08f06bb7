-- ===== src/Postgres/Outbox/Places.antt =====
-- Where the rows of the outbox come from after a pick and after a mark.
use pingerus.Base.{
  ℕ, ◌≡◌, refl, sym, subst, ◌⊎◌, inl, inr, Bool, true, List, [], ◌∷◌, map, In, All, modify, exists,
  In-take, In-select, In-sort_by, arith, Bool-cases,
}
use pingerus.Text.{Text, text_eq}
use pingerus.Text.Laws.{text_eq_iff}
use pingerus.World.Rows.{Time, Message, success}
use pingerus.Postgres.Outbox.{candidates, start_row, finish_row, is_started}

pub In-candidates :
    (m : Message) (n ttl : ℕ) (at : Time) (rows : List Message)
    → In m (candidates n ttl at rows)
    → In m rows
unfolding candidates
In-candidates m n ttl at rows h = In-select m _ rows (In-sort_by m _ _ (In-take m n _ h))

-- A message that came back as started, before it was.
pub In-started :
    (at : Time) (m : Message) (cand : List Message)
    → In m (map (start_row at) cand)
    → (n : Message) × In n cand × (n.idempotency_key ≡ m.idempotency_key) × (n.payload ≡ m.payload)
In-started at m [] h = absurd h
In-started at m (n ∷ ns) (inl e) = (n, inl refl, rw e refl, rw e refl)
In-started at m (n ∷ ns) (inr h) =
    let (o, place, key, payload) = In-started at m ns h in (o, inr place, key, payload)

-- A row that is done after a pick was there before.
pub success-started :
    (p : Message → Bool) (at : Time) (m : Message) (rows : List Message)
    → m.status ≡ success
    → In m (modify p (start_row at) rows)
    → In m rows
success-started p at m [] done h = absurd h
success-started p at m (n ∷ ns) done (inl e) = ground (arith, e, done)
success-started p at m (n ∷ ns) done (inr h) = inr (success-started p at m ns done h)

-- A row after a mark was there before, or its key is among the keys.
pub In-finished :
    (keys : List Text) (at : Time) (m : Message) (rows : List Message)
    → In m (modify (is_started keys) (finish_row at) rows)
    → In m rows ⊎ (exists (text_eq m.idempotency_key) keys ≡ true)
In-finished keys at m [] h = absurd h
In-finished keys at m (n ∷ ns) (inl e) = ground (arith, e)
In-finished keys at m (n ∷ ns) (inr h) = elim (In-finished keys at m ns h) [
  | inl place ↦ inl (inr place)
  | inr marked ↦ inr marked
]

pub All-exists :
    (P : Text → Type 0) (k : Text) (keys : List Text)
    → All P keys
    → exists (text_eq k) keys ≡ true
    → P k
All-exists P k [] h e = absurd (ground (arith, e))
All-exists P k (x ∷ xs) h e = elim (Bool-cases (text_eq k x)) [
  | inl same ↦ subst P (sym ((text_eq_iff k x).0 same)) h.0
  | inr other ↦ All-exists P k xs h.1 (ground (arith, other, e))
]
