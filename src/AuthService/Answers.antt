-- ===== src/AuthService/Answers.antt =====
-- The gRPC handlers of the accounts and the tables of the checks.
use pingerus.Base.{Bool, Option, none, some, refl, ◌+◌, ◌/◌}
use pingerus.Base.Int.{ℤ, pos}
use pingerus.Text.{Text}
use pingerus.World.Errors.{Result, ok, err}
use pingerus.World.Fixed.{
  Fixes, now-Fixes, statement-Fixes, bind-Fixes, map_error-Fixes, attempt-Fixes, pure-Fixes,
  if-Fixes,
}
use pingerus.Postgres.Checks.{second}
use pingerus.Postgres.Users
use pingerus.AuthService.{Crypto, Config, TokenPair}
use pingerus.AuthService.Api
use pingerus.AuthService.Api.{Metadata, Cookie, Reply, bearer}
use pingerus.AuthService.Footprint.{
  checks_of, sign_up-Fixes, sign_in-Fixes, refresh-Fixes, logout-Fixes, parse_access-Fixes,
}
use pingerus.AuthService.Jwt.{Encoding}

get_user-Fixes : (id : ℤ) → Fixes checks_of (Users.get_by_id id)
unfolding Users.get_by_id
get_user-Fixes id =
    map_error-Fixes Users.scan_error (statement-Fixes (Users.select_by_id id) (λ at t. refl))

module _ (e : Encoding) (c : Crypto) (cfg : Config) (name : Text) where
  set_cookie-Fixes : (raw : Text) → Fixes checks_of (Api.set_refresh_cookie e c cfg name raw)
  unfolding Api.set_refresh_cookie
  set_cookie-Fixes raw = bind-Fixes now-Fixes λ at.
      pure-Fixes
        {a = record {
          content = raw;
          max_age = pos (cfg.refresh_ttl / second);
          expires = at + cfg.refresh_ttl;
        }}

  with_cookie-Fixes :
      {A : Type 0} (failed : Option Cookie) (r : Result (A × TokenPair))
      → Fixes checks_of (Api.with_cookie e c cfg name failed r)
  unfolding Api.with_cookie
  with_cookie-Fixes failed (err x) = pure-Fixes
  with_cookie-Fixes failed (ok (a, tokens)) =
      bind-Fixes (set_cookie-Fixes tokens.refresh) λ cookie. pure-Fixes {a = (ok a, some cookie)}

  pub sign_up-answers :
      (valid : Bool) (email password : Text)
      → Fixes checks_of (Api.sign_up e c cfg name valid email password)
  unfolding Api.sign_up
  sign_up-answers valid email password =
      if-Fixes valid
        (bind-Fixes (attempt-Fixes (sign_up-Fixes e c cfg email password))
          λ r. with_cookie-Fixes none (Api.auth_response e c cfg name r))
        pure-Fixes

  pub sign_in-answers :
      (valid : Bool) (email password : Text)
      → Fixes checks_of (Api.sign_in e c cfg name valid email password)
  unfolding Api.sign_in
  sign_in-answers valid email password =
      if-Fixes valid
        (bind-Fixes (attempt-Fixes (sign_in-Fixes e c cfg email password))
          λ r. with_cookie-Fixes none (Api.auth_response e c cfg name r))
        pure-Fixes

  pub refresh-answers : (md : Metadata) → Fixes checks_of (Api.refresh e c cfg name md)
  unfolding Api.refresh
  refresh-answers md =
      bind-Fixes (attempt-Fixes (refresh-Fixes e c cfg (Api.get_refresh name md)))
        λ r. with_cookie-Fixes (some (Api.cleared e c cfg name)) (Api.access_token e c cfg name r)

  pub logout-answers : (md : Metadata) → Fixes checks_of (Api.logout e c cfg name md)
  unfolding Api.logout
  logout-answers md =
      bind-Fixes (attempt-Fixes (logout-Fixes e c cfg (Api.get_refresh name md)))
        λ _. pure-Fixes {a = (ok tt, some (Api.cleared e c cfg name))}

  me_with-Fixes : (id : Result ℤ) → Fixes checks_of (Api.me_with e c cfg name id)
  me_with-Fixes (err x) = pure-Fixes
  me_with-Fixes (ok id) =
      bind-Fixes (attempt-Fixes (get_user-Fixes id))
        λ u. pure-Fixes {a = (Api.user_of e c cfg name u, none)}

  pub me-answers : (md : Metadata) → Fixes checks_of (Api.me e c cfg name md)
  unfolding Api.me
  me-answers md =
      bind-Fixes (attempt-Fixes (parse_access-Fixes e c cfg (bearer c.lower md))) me_with-Fixes
