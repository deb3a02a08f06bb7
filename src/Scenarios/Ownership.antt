-- ===== src/Scenarios/Ownership.antt =====
-- The requests of users about their checks in the small deployment.
use pingerus.Base.{◌*◌, exists, ◌≡◌, refl, true, some, [], arith}
use pingerus.Base.Int.{pos, int_eq}
use pingerus.Text.{codes}
use pingerus.World.{World, interact, now}
use pingerus.World.Errors.{ok}
use pingerus.World.Rows.{CheckRow, Check}
use pingerus.Postgres.Checks
use pingerus.Postgres.Checks.{second, has_id, set_status, scan_full}
use pingerus.CheckService
use pingerus.CheckService.Api.{PbCheck, CreateCheckRequest, create_check, get_check}
use pingerus.CheckService.Answers.{
  permitted, row_of, scanned, answer_update, answer_delete, get-permitted, update-permitted,
  delete-permitted,
}
use pingerus.CheckService.Creation.{create_check-get_check}
use pingerus.CheckService.Updates.{SettingsLost, update_loses_settings}
use pingerus.Scenarios.{world, accept_all}

abbrev change : Check
change = record {
  id = pos 1;
  user_id = pos 1;
  name = [];
  active = true;
  next_run = 0;
  created_at = 0;
  updated_at = 0;
  url = codes "other";
  interval = pos (60 * second);
  last_status = some true;
}

update-permitted_example :
    CheckService.update (pos 1) change world
    ≡ answer_update (pos 1) world refl change (permitted (pos 1) (row_of (pos 1) world))
update-permitted_example = update-permitted (pos 1) world refl change

get-permitted_example :
    CheckService.get (pos 2) (pos 1) world
    ≡ (scanned (permitted (pos 2) (row_of (pos 1) world)), world)
get-permitted_example = get-permitted (pos 2) world refl (pos 1)

delete-permitted_example :
    CheckService.delete (pos 1) (pos 1) world
    ≡ answer_delete (pos 1) world refl (pos 1) (permitted (pos 1) (row_of (pos 1) world))
delete-permitted_example = delete-permitted (pos 1) world refl (pos 1)

abbrev request : CreateCheckRequest
request = record { user_id = pos 1; url = codes "example.com"; interval_sec = pos 60 }

known_1 : exists (λ u. int_eq u.id (pos 1)) world.db.users ≡ true
unfolding int_eq
known_1 = refl

create_check-get_check_example :
    (p : PbCheck) × (w' : World) × (create_check accept_all (some (pos 1)) request world
      ≡ (ok p, w'))
    × (get_check accept_all (some (pos 1)) p.id w' ≡ (ok p, w'))
    × (p.url ≡ request.url)
    × (p.interval_sec ≡ request.interval_sec)
    × (p.user_id ≡ pos 1)
create_check-get_check_example =
    create_check-get_check (pos 1) request 60 world refl refl (omega arith) known_1 accept_all refl
      refl

changed_1 :
    (CheckService.update (pos 1) change world).0 ≡ ok (record change { updated_at = world.clock })
unfolding CheckService.update Checks.get_by_id Checks.update now interact int_eq
changed_1 = refl

update_loses_settings_example :
    (before : CheckRow) × (after : CheckRow) × (row_of (pos 1) world ≡ some before)
    × (row_of (pos 1) (CheckService.update (pos 1) change world).1 ≡ some after)
    × (before.user_id ≡ pos 1)
    × SettingsLost change (record change { updated_at = world.clock }) before after
update_loses_settings_example =
    update_loses_settings (pos 1) change (record change { updated_at = world.clock }) world
      changed_1
