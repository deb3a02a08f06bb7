-- ===== src/PingWorker/Messages.antt =====
-- HandleCheck, where the outbox has no message of a time to come.
use pingerus.Base.{
  ◌≤◌, ◌≡◌, refl, ap, ◌∙◌, Bool, true, false, some, ◌⊎◌, inl, inr, ◌∷◌, arith, exists, find?,
  modify, if◌then◌else◌,
}
use pingerus.Base.Int.{ℤ}
use pingerus.World.{World}
use pingerus.World.Rows.{Time, Check, CheckRow, Message, Tables}
use pingerus.Postgres.Checks.{has_id, set_status, scan_full}
use pingerus.Postgres.Outbox.{has_key}
use pingerus.PingWorker.{Outside, slim, has_changed, status_key, handle_check}
use pingerus.PingWorker.Atomic.{message_of}
use pingerus.PingWorker.Outcome.{SameButRuns, ChangeRecorded, handle_check-Outcome}

-- No message has the key of a change from this time on.
abbrev pub IsFresh : Time → Tables → Type 0
IsFresh lo t = (id : ℤ) (at : Time) → lo ≤ at → exists (has_key (status_key id at)) t.outbox ≡ false

-- A change of status of the check, and one message about it, of a time since.
pub record ChangeSent (out : Outside) (id : ℤ) (lo : Time) (t u : Tables) : Type 0 where
  pub row : CheckRow
  pub status : Bool
  pub started : Time
  pub at : Time
  pub stored : find? (has_id id) t.checks ≡ some row
  pub changed : has_changed row.last_status status ≡ true
  pub since : (lo ≤ started) × (started ≤ at)
  pub checks : u.checks ≡ modify (has_id row.id) (set_status (some status) started) t.checks
  pub outbox : u.outbox ≡ message_of out (slim (scan_full row)) status at started ∷ t.outbox

not_found : {A : Type 0} (b : Bool) (x y : A) → b ≡ false → (if b then x else y) ≡ y
not_found b x y e = rw e refl

module _ (out : Outside) (id : ℤ) (lo : Time) (t u : Tables) (fresh : IsFresh lo t) where
  recorded-ChangeSent : ChangeRecorded out id lo t u → ChangeSent out id lo t u
  unfolding slim scan_full
  recorded-ChangeSent c =
      let chk : Check = slim (scan_full c.row) in
      let key = status_key chk.id c.recorded.at in
      let new : Message = message_of out chk c.status c.recorded.at c.started in
      let later = c.recorded.not_before in
      let since = c.since in
      record {
        row = c.row;
        status = c.status;
        started = c.started;
        at = c.recorded.at;
        stored = c.stored;
        changed = c.changed;
        since = (since, later);
        checks =
            c.recorded.checks
            ∙ ap (modify (has_id chk.id) (set_status (some c.status) c.started)) c.prepared.checks;
        outbox =
            c.recorded.outbox
            ∙ ap (λ l. if exists (has_key key) l then l else new ∷ l) c.prepared.outbox
            ∙ not_found (exists (has_key key) t.outbox) t.outbox (new ∷ t.outbox)
                (fresh chk.id c.recorded.at (omega arith));
      }

-- Where the outbox has no message with the key of a change from the call on: whatever the network
-- answers and whichever calls fail, HandleCheck leaves the checks and the outbox as they were, or the
-- new status, which differs from the last one or is the first success, is written to the check and
-- exactly one message is added to the outbox, about this change and of a time since the call.
pub handle_check-ChangeSent :
    (out : Outside) (id : ℤ) (w : World)
    → IsFresh w.clock w.db
    → SameButRuns w.db (handle_check out id w).1.db
      ⊎ ChangeSent out id w.clock w.db (handle_check out id w).1.db
handle_check-ChangeSent out id w fresh = elim (handle_check-Outcome out id w) [
  | inl same ↦ inl same
  | inr change ↦ inr (recorded-ChangeSent out id w.clock w.db _ fresh change)
]
