-- ===== src/CheckService/Creation.antt =====
-- A check that was created through the API is the check that the API shows.
use pingerus.Base.{
  ℕ, ◌*◌, ◌/◌, ◌<◌, ◌^◌, ◌≡◌, refl, sym, true, none, some, [], ◌∷◌, arith, exists, suc,
}
use pingerus.Base.Int.{ℤ, pos, int_eq, int_eq_refl, to_int32-pos}
use pingerus.World.{World, now}
use pingerus.World.Errors.{ok}
use pingerus.World.Laws.{interact_quiet}
use pingerus.World.Rows.{CheckRow}
use pingerus.Postgres.Checks
use pingerus.Postgres.Checks.{second, has_id, scan_full, interval_sec_of}
use pingerus.CheckService
use pingerus.CheckService.Api.{
  PbCheck, CreateCheckRequest, Validators, duration_of, whole_seconds, to_pb, create_check,
  get_check,
}

-- Whole seconds survive the way through a duration.
duration_whole : (s : ℕ) → s < 2 ^ 31 → whole_seconds (pos (s * second)) ≡ pos s
unfolding whole_seconds
duration_whole s h = let e : s * second / second ≡ s = omega arith in rw e (to_int32-pos s h)

abbrev new_row : ℤ → CreateCheckRequest → ℕ → World → CheckRow
new_row uid req s w = record {
  id = pos w.db.check_seq;
  user_id = uid;
  host = req.url;
  interval_sec = s;
  last_status = none;
  next_run = w.clock;
  active = true;
  created_at = w.clock;
  updated_at = w.clock;
}

abbrev with_row : ℤ → CreateCheckRequest → ℕ → World → World
with_row uid req s w = record w {
  db = record w.db { checks = new_row uid req s w ∷ w.db.checks; check_seq = suc w.db.check_seq };
}

seconds_back : (s : ℕ) (i : ℤ) → i ≡ pos s → interval_sec_of (duration_of i) ≡ s
unfolding interval_sec_of duration_of
seconds_back s i e = rw e (omega arith)

module _ (uid : ℤ) (req : CreateCheckRequest) (s : ℕ) (w : World) (quiet : w.script ≡ [])
    (seconds : req.interval_sec ≡ pos s) (fits : s < 2 ^ 31)
    (known : exists (λ u. int_eq u.id uid) w.db.users ≡ true) where
  created :
      CheckService.create uid req.url (duration_of req.interval_sec) w
      ≡ (ok (scan_full (new_row uid req s w)), with_row uid req s w)
  unfolding CheckService.create Checks.create now
  created = ground (arith, interact_quiet w quiet, seconds_back s req.interval_sec seconds)

  found_again :
      CheckService.get uid (pos w.db.check_seq) (with_row uid req s w)
      ≡ (ok (scan_full (new_row uid req s w)), with_row uid req s w)
  unfolding CheckService.get Checks.get_by_id
  found_again = ground (
    arith,
    interact_quiet (with_row uid req s w) quiet,
    int_eq_refl (pos w.db.check_seq),
    int_eq_refl uid,
  )

  -- Without failing calls, for a known user and a request that passes validation with an interval of
  -- 0 to 2 ^ 31 - 1 seconds: the request answers with the URL and interval that it asked for and the
  -- user as the owner, and a request for the new identifier answers with the same check.
  pub create_check-get_check :
      (v : Validators)
      → v.create req ≡ true
      → v.by_id (pos w.db.check_seq) ≡ true
      → (p : PbCheck) × (w' : World) × (create_check v (some uid) req w ≡ (ok p, w'))
        × (get_check v (some uid) p.id w' ≡ (ok p, w'))
        × (p.url ≡ req.url)
        × (p.interval_sec ≡ req.interval_sec)
        × (p.user_id ≡ uid)
  unfolding create_check get_check
  create_check-get_check v valid valid_id = (
    to_pb (scan_full (new_row uid req s w)),
    with_row uid req s w,
    ground (arith, created),
    unfold to_pb scan_full in ground (arith, found_again),
    unfold to_pb scan_full in refl,
    unfold to_pb scan_full in rw (duration_whole s fits) (sym seconds),
    unfold to_pb scan_full in refl,
  )
