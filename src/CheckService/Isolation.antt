-- ===== src/CheckService/Isolation.antt =====
-- Requests of one user and the checks of another.
use pingerus.Base.{
  ◌≡◌, ◌∙◌, ◌≢◌, refl, false, not, Bool-cases, inl, inr, some, arith, find?, if◌then◌else◌,
}
use pingerus.Base.Int.{ℤ, int_eq, int_eq_iff, ltb_ℤ}
use pingerus.Text.{Text}
use pingerus.World.{World, Op, background, interact, now, pure, raise, ◌>>=◌, ◌>>◌}
use pingerus.World.Errors.{ok, sentinel, invalid_interval}
use pingerus.World.Laws.{db-interact, db-now, after_bind}
use pingerus.World.Rows.{Check, CheckRow}
use pingerus.Postgres.Checks
use pingerus.Postgres.Checks.{has_id, set_status, scan_full}
use pingerus.Postgres.Checks.Ids.{
  IdsBelow, rows_of, modify-IdsBelow, select-IdsBelow, rows_of-modify, rows_of-delete,
}
use pingerus.Postgres.Checks.Calls.{db-get_by_id, get_by_id-Loaded, checks-update, checks-delete}
use pingerus.CheckService

-- The numbers of the checks are in order, below the sequence.
abbrev pub IsNumbered : World → Type 0
IsNumbered w = IdsBelow w.db.check_seq w.db.checks

-- The user's checks are as they were.
abbrev pub Untouched : ℤ → World → World → Type 0
Untouched user w w' = rows_of user w'.db.checks ≡ rows_of user w.db.checks

module _ (user owner : ℤ) (ne : user ≢ owner) (w : World) (numbered : IsNumbered w) where
  pub create-isolated :
      (url : Text) (interval : ℤ)
      → IsNumbered (CheckService.create owner url interval w).1
        × Untouched user w (CheckService.create owner url interval w).1
  unfolding CheckService.create Checks.create
  create-isolated url interval =
      ground (arith, db-interact w, db-interact (interact w).1, int_eq_iff owner user)

  pub get-isolated :
      (id : ℤ)
      → IsNumbered (CheckService.get owner id w).1
        × Untouched user w (CheckService.get owner id w).1
  unfolding CheckService.get
  get-isolated id = ground (arith, db-get_by_id id w)

  loaded-owner :
      (id : ℤ) (c : Check)
      → (Checks.get_by_id id w).0 ≡ ok c
      → not (int_eq c.user_id owner) ≡ false
      → (r : CheckRow) × (find? (has_id id) w.db.checks ≡ some r) × (r.user_id ≡ owner)
  loaded-owner id c e o =
      let l = get_by_id-Loaded id w c e in
      (l.row, l.stored, unfold scan_full in ground (arith, l.scanned, int_eq_iff c.user_id owner))

  -- What the two statements are about, of a world after `w`.
  abbrev pub Kept : World → Type 0
  Kept w' = IsNumbered w' × Untouched user w w'

  delete_row-isolated :
      (id : ℤ) (v : World) (r : CheckRow)
      → v.db ≡ w.db
      → find? (has_id id) w.db.checks ≡ some r
      → r.user_id ≡ owner
      → Kept (Checks.delete id v).1
  delete_row-isolated id v r same e o = ground (
    arith,
    checks-delete id v,
    select-IdsBelow (λ x. not (has_id id x)) w.db.check_seq w.db.checks numbered,
    rows_of-delete user owner id ne w.db.check_seq w.db.checks r numbered e o,
  )

  pub delete-isolated : (id : ℤ) → Kept (CheckService.delete owner id w).1
  unfolding CheckService.delete
  delete-isolated id =
      after_bind Kept (Checks.get_by_id id) _ w (λ e failed. ground (arith, db-get_by_id id w))
        (λ c loaded. elim (Bool-cases (not (int_eq c.user_id owner))) [
          | inl other ↦ rw other (ground (arith, db-get_by_id id w))
          | inr same ↦
              let (r, stored, owned) = loaded-owner id c loaded same in
              rw same (delete_row-isolated id _ r (db-get_by_id id w) stored owned)
        ])

  update_row-isolated :
      (c : Check) (v : World) (r : CheckRow)
      → v.db ≡ w.db
      → find? (has_id c.id) w.db.checks ≡ some r
      → r.user_id ≡ owner
      → Kept (Checks.update background c v).1
  update_row-isolated c v r same e o =
      let f : CheckRow → CheckRow = set_status c.last_status (interact v).1.clock in
      ground (
        arith,
        checks-update c v,
        modify-IdsBelow (has_id c.id) f w.db.check_seq w.db.checks (λ x. refl) numbered,
        rows_of-modify user owner c.id ne f w.db.check_seq w.db.checks r (λ x. refl) numbered e o,
      )

  -- The write of an update that the checks before it let through.
  abbrev write : Check → Op Check
  write upd = do
    at ← now
    let changed = record upd { user_id = owner; updated_at = at }
    Checks.update background changed
    pure changed

  write-isolated :
      (upd : Check) (v : World) (r : CheckRow)
      → v.db ≡ w.db
      → find? (has_id upd.id) w.db.checks ≡ some r
      → r.user_id ≡ owner
      → Kept (write upd v).1
  write-isolated upd v r same stored owned =
      after_bind Kept now _ v (λ e failed. rw (db-now v, same) (numbered, refl))
        λ at _.
          let changed : Check = record upd { user_id = owner; updated_at = at } in
          let kept = update_row-isolated changed (now v).1 r (db-now v ∙ same) stored owned in
          after_bind Kept (Checks.update background changed) _ (now v).1 (λ e _. kept) (λ _ _. kept)

  unless_short-isolated :
      (upd : Check) (v : World) (r : CheckRow)
      → v.db ≡ w.db
      → find? (has_id upd.id) w.db.checks ≡ some r
      → r.user_id ≡ owner
      → Kept
          ((if ltb_ℤ upd.interval CheckService.min_interval
              then raise (sentinel invalid_interval)
              else write upd)
            v).1
  unless_short-isolated upd v r same stored owned =
      elim (Bool-cases (ltb_ℤ upd.interval CheckService.min_interval)) [
        | inl short ↦ rw short (rw same (numbered, refl))
        | inr long ↦ rw long (write-isolated upd v r same stored owned)
      ]

  pub update-isolated : (c : Check) → Kept (CheckService.update owner c w).1
  unfolding CheckService.update
  update-isolated upd =
      after_bind Kept (Checks.get_by_id upd.id) _ w
        (λ e failed. ground (arith, db-get_by_id upd.id w))
        (λ c loaded. elim (Bool-cases (not (int_eq c.user_id owner))) [
          | inl other ↦ rw other (ground (arith, db-get_by_id upd.id w))
          | inr same ↦
              let (r, stored, owned) = loaded-owner upd.id c loaded same in
              rw same (
                unless_short-isolated upd (Checks.get_by_id upd.id w).1 r (db-get_by_id upd.id w)
                  stored owned)
        ])
