-- ===== src/CheckService/Api.antt =====
-- internal/services/api-gateway/check/controller.go: the gRPC handlers. The validators that
-- protoc-gen-validate writes are a parameter.
use pingerus.Base.{
  ◌+◌, ◌-◌, ◌*◌, ◌/◌, ◌==◌, Bool, true, false, Option, none, some, List, [], map, if◌then◌else◌,
}
use pingerus.Base.Int.{ℤ, pos, negsuc, to_int32}
use pingerus.Text.{Text}
use pingerus.World.{Op, raise, pure, map_error, ◌>>=◌}
use pingerus.World.Errors.{
  Error, errors_is, status, invalid_interval, forbidden, invalid_argument, permission_denied,
  unauthenticated,
}
use pingerus.World.Rows.{Time, Check}
use pingerus.Postgres.Checks.{second}
use pingerus.CheckService

-- pb.Check; a timestamp that is absent is `none`.
pub record PbCheck : Type 0 where
  pub id : ℤ
  pub user_id : ℤ
  pub url : Text
  pub interval_sec : ℤ
  pub last_status : Option Bool
  pub next_run : Option Time
  pub updated_at : Option Time

pub record CreateCheckRequest : Type 0 where
  pub user_id : ℤ
  pub url : Text
  pub interval_sec : ℤ

-- The generated ValidateAll of each request; `true` is a valid one.
pub record Validators : Type 0 where
  pub create : CreateCheckRequest → Bool
  pub by_id : ℤ → Bool
  pub update : Option PbCheck → Bool
  pub list : ℤ → Bool

-- int32(c.Interval / time.Second): Go's division of integers drops the fraction.
unfoldable pub whole_seconds : ℤ → ℤ
whole_seconds (pos d) = to_int32 (pos (d / second))
whole_seconds (negsuc d) =
    let q = (d + 1) / second in to_int32 (if q == 0 then pos 0 else negsuc (q - 1))

-- time.Duration(s) * time.Second for an int32 s.
unfoldable pub duration_of : ℤ → ℤ
duration_of (pos s) = pos (s * second)
duration_of (negsuc s) = negsuc ((s + 1) * second - 1)

-- time.Unix(0, 0), in nanoseconds since the zero time.
abbrev pub unix_epoch : Time
unix_epoch = 62135596800 * second

-- AsTime of an absent timestamp is the Unix epoch.
abbrev pub as_time : Option Time → Time
as_time none = unix_epoch
as_time (some t) = t

unfoldable pub to_pb : Check → PbCheck
unfolding whole_seconds
to_pb c = record {
  id = c.id;
  user_id = c.user_id;
  url = c.url;
  interval_sec = whole_seconds c.interval;
  last_status = c.last_status;
  next_run = some c.next_run;
  updated_at = some c.updated_at;
}

-- GetLastStatus of an absent field is false.
abbrev get_last_status : Option Bool → Bool
get_last_status none = false
get_last_status (some b) = b

unfoldable pub from_pb : PbCheck → Check
unfolding duration_of
from_pb c = record {
  id = c.id;
  user_id = c.user_id;
  name = [];
  url = c.url;
  interval = duration_of c.interval_sec;
  active = true;
  last_status = some (get_last_status c.last_status);
  next_run = as_time c.next_run;
  created_at = 0;
  updated_at = as_time c.updated_at;
}

-- Server.userID: the user that the interceptor put into the context.
abbrev pub user_id_of : Option ℤ → Op ℤ
user_id_of none = raise (status unauthenticated)
user_id_of (some uid) = pure uid

-- Server.mapErr
unfoldable pub map_err : Error → Error
unfolding errors_is
map_err e =
    if errors_is e invalid_interval
    then status invalid_argument
    else if errors_is e forbidden
    then status permission_denied
    else e

module _ (v : Validators) where
  unfoldable pub create_check : Option ℤ → CreateCheckRequest → Op PbCheck
  unfolding map_error ◌>>=◌
  create_check user req =
      if v.create req
      then (do
        uid ← user_id_of user
        c ← map_error map_err (CheckService.create uid req.url (duration_of req.interval_sec))
        pure (to_pb c))
      else raise (status invalid_argument)

  unfoldable pub get_check : Option ℤ → ℤ → Op PbCheck
  unfolding map_error ◌>>=◌
  get_check user id =
      if v.by_id id
      then (do
        uid ← user_id_of user
        c ← map_error map_err (CheckService.get uid id)
        pure (to_pb c))
      else raise (status invalid_argument)

  abbrev update_with : ℤ → Option PbCheck → Op PbCheck
  update_with uid none = raise (status invalid_argument)
  update_with uid (some inp) = do
    let d = record (from_pb inp) { user_id = uid }
    updated ← map_error map_err (CheckService.update uid d)
    pure (to_pb updated)

  unfoldable pub update_check : Option ℤ → Option PbCheck → Op PbCheck
  unfolding map_error ◌>>=◌
  update_check user inp =
      if v.update inp
      then (do uid ← user_id_of user; update_with uid inp)
      else raise (status invalid_argument)

  unfoldable pub delete_check : Option ℤ → ℤ → Op (Unit {0})
  unfolding map_error ◌>>=◌
  delete_check user id =
      if v.by_id id
      then (do uid ← user_id_of user; map_error map_err (CheckService.delete uid id))
      else raise (status invalid_argument)

  unfoldable pub list_checks : Option ℤ → ℤ → Op (List PbCheck)
  unfolding map_error ◌>>=◌
  list_checks user requested =
      if v.list requested
      then (do
        uid ← user_id_of user
        list ← map_error map_err (CheckService.list_by_user uid)
        pure (map to_pb list))
      else raise (status invalid_argument)
