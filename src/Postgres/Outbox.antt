-- ===== src/Postgres/Outbox.antt =====
-- internal/repository/postgres/outbox.go: the table of messages that are still to be published. The
-- trace headers of a message and the rendering of the JSON column are not modelled.
pub mod Places
use pingerus.Base.{
  ℕ, ◌+◌, Bool, true, false, ◌&&◌, List, [], ◌∷◌, map, ltb, leb, exists, select, take, sort_by,
  modify, if◌then◌else◌,
}
use pingerus.Base.Int.{ℤ, not_positive, pos_part}
use pingerus.Text.{Text, text_eq}
use pingerus.World.{
  Op, Context, background, with_tx, statement, begin, commit, deferring_rollback, wrapping, raise,
  pure, ◌>>=◌, ◌>>◌,
}
use pingerus.World.Errors.{message, Result, ok}
use pingerus.World.Rows.{Time, created, in_progress, success, Message, Tables}

abbrev pub has_key : Text → Message → Bool
has_key key m = text_eq m.idempotency_key key

-- qEnqueue: ON CONFLICT (idempotency_key) DO NOTHING.
unfoldable pub insert_row : Text → ℤ → Text → Time → Tables → Result (Unit {0}) × Tables
insert_row key kind payload at t =
    if exists (has_key key) t.outbox
    then (ok tt, t)
    else (ok tt, record t { outbox = row ∷ t.outbox })
  where
    row : Message
    row = record {
      idempotency_key = key;
      kind = kind;
      payload = payload;
      status = created;
      created_at = at;
      updated_at = at;
    }

unfoldable pub enqueue : Context → Text → ℤ → Text → Op (Unit {0})
unfolding statement insert_row
enqueue c key kind payload = statement c (insert_row key kind payload)

-- The WHERE clause of qPickLocked: never picked, or picked and not finished in time.
unfoldable pub is_available : ℕ → Time → Message → Bool
is_available ttl at m = elim m.status [
  | created ↦ true
  | in_progress ↦ ltb (m.updated_at + ttl) at
  | success ↦ false
]

abbrev older : Message → Message → Bool
older a b = leb a.created_at b.created_at

-- The candidates of qPickLocked.
unfoldable pub candidates : ℕ → ℕ → Time → List Message → List Message
unfolding is_available
candidates batch ttl at rows = take batch (sort_by older (select (is_available ttl at) rows))

abbrev pub start_row : Time → Message → Message
start_row at m = record m { status = in_progress; updated_at = at }

abbrev pub among : List Message → Message → Bool
among ms m = exists (has_key m.idempotency_key) ms

-- qPickLocked: the candidates are marked, and come back as marked.
unfoldable pub pick_rows : ℕ → ℕ → Time → Tables → Result (List Message) × Tables
unfolding candidates
pick_rows batch ttl at t =
    let cand = candidates batch ttl at t.outbox in
    (
      ok (map (start_row at) cand),
      record t { outbox = modify (among cand) (start_row at) t.outbox },
    )

-- OutboxRepo.PickBatch
unfoldable pub pick_batch : ℤ → ℕ → Op (List Message)
unfolding pick_rows statement begin commit wrapping ◌>>=◌ deferring_rollback
pick_batch batch ttl = if not_positive batch then raise (message "batch must be > 0") else do
  wrapping "begin tx" begin
  deferring_rollback (do
    out ← wrapping "outbox pick" (statement with_tx (pick_rows (pos_part batch) ttl))
    wrapping "commit" commit
    pure out)

abbrev pub is_started : List Text → Message → Bool
is_started keys m =
    exists (text_eq m.idempotency_key) keys && elim m.status [ in_progress ↦ true | _ ↦ false ]

abbrev pub finish_row : Time → Message → Message
finish_row at m = record m { status = success; updated_at = at }

-- qMarkSuccess
unfoldable pub finish_rows : List Text → Time → Tables → Result (Unit {0}) × Tables
finish_rows keys at t =
    (ok tt, record t { outbox = modify (is_started keys) (finish_row at) t.outbox })

-- OutboxRepo.MarkSuccess
unfoldable pub mark_success : List Text → Op (Unit {0})
unfolding finish_rows statement wrapping
mark_success [] = pure tt
mark_success (key ∷ keys) =
    wrapping "outbox mark success" (statement background (finish_rows (key ∷ keys)))
