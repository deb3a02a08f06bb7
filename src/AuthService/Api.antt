-- ===== src/AuthService/Api.antt =====
-- internal/services/api-gateway/auth/controller.go: the gRPC handlers, the refresh cookie and the bearer
-- token. The validators that protoc-gen-validate writes are a parameter.
use pingerus.Base.{
  ℕ, ◌+◌, ◌*◌, ◌/◌, suc, zero, Bool, Option, none, some, List, [], ◌∷◌, if◌then◌else◌,
}
use pingerus.Base.Int.{ℤ, pos, negsuc}
use pingerus.Text.{
  Text, codes, is_empty, split, split_two, text_eq, trim_space, to_lower, has_prefix,
}
use pingerus.World.{Op, attempt, pure, now, ◌>>=◌, ◌>>◌}
use pingerus.World.Errors.{
  Error, errors_is, status, invalid_credentials, email_exists, weak_password, invalid_argument,
  unauthenticated, already_exists, status_not_found, Result, ok, err,
}
use pingerus.World.Rows.{Time, User}
use pingerus.Postgres.Checks.{second}
use pingerus.Postgres.Users
use pingerus.AuthService
use pingerus.AuthService.{Crypto, Config, TokenPair}
use pingerus.AuthService.Jwt.{Encoding}

-- The values of the request's metadata under the keys that the handlers read.
pub record Metadata : Type 0 where
  pub gateway_cookies : List Text
  pub cookies : List Text
  pub refresh_tokens : List Text
  pub authorization : List Text

-- The Set-Cookie header: its value, Max-Age and Expires.
pub record Cookie : Type 0 where
  pub content : Text
  pub max_age : ℤ
  pub expires : Time

pub record PbUser : Type 0 where
  pub id : ℤ
  pub email : Text
  pub created_at : Time
  pub updated_at : Time

pub record AuthResponse : Type 0 where
  pub access_token : Text
  pub user : PbUser

-- What a handler sends: its answer, and a cookie if it sets one.
abbrev pub Reply : Type 0 → Type 0
Reply A = Result A × Option Cookie

unfoldable pub to_pb_user : User → PbUser
to_pb_user u = record {
  id = u.id;
  email = u.email;
  created_at = u.created_at;
  updated_at = u.updated_at;
}

-- Server.mapErr
unfoldable pub map_err : Error → Error
unfolding errors_is
map_err e =
    if errors_is e invalid_credentials
    then status unauthenticated
    else if errors_is e email_exists
    then status already_exists
    else if errors_is e weak_password
    then status invalid_argument
    else e

-- One part of a cookie header: the value, if the part has the name.
abbrev pub cookie_value : Text → Option (Text × Text) → Option Text
cookie_value name none = none
cookie_value name (some (key, content)) = if text_eq key name then some content else none

abbrev pub or_else : Option Text → Text → Text
or_else none t = t
or_else (some s) t = s

abbrev pub first_value : Text → List Text → Text
first_value name [] = []
first_value name (p ∷ ps) =
    or_else (cookie_value name (split_two b'=' (trim_space p))) (first_value name ps)

-- parseCookie
unfoldable pub parse_cookie : Text → Text → Text
unfolding split split_two trim_space text_eq
parse_cookie header name = first_value name (split b';' header)

-- The first cookie header with a value for the name.
unfoldable pub search_cookies : Text → List Text → Text → Text
unfolding parse_cookie
search_cookies name [] otherwise = otherwise
search_cookies name (v ∷ vs) otherwise =
    let rest = search_cookies name vs otherwise in
    let raw = parse_cookie v name in if is_empty raw then rest else raw

abbrev first_of : List Text → Text
first_of [] = []
first_of (v ∷ vs) = v

-- getRefreshFromCtx
unfoldable pub get_refresh : Text → Metadata → Text
unfolding search_cookies
get_refresh name md =
    search_cookies name md.gateway_cookies
      (search_cookies name md.cookies (first_of md.refresh_tokens))

abbrev skip : ℕ → Text → Text
skip zero s = s
skip (suc n) [] = []
skip (suc n) (c ∷ s) = skip n s

abbrev bearer_of : (ℕ → ℕ) → List Text → Text
bearer_of lower [] = []
bearer_of lower (v ∷ vs) =
    if has_prefix (to_lower lower v) (codes "bearer ") then trim_space (skip 7 v) else v

-- bearer
unfoldable pub bearer : (ℕ → ℕ) → Metadata → Text
unfolding has_prefix to_lower trim_space
bearer lower md = bearer_of lower md.authorization

module _ (e : Encoding) (c : Crypto) (cfg : Config) (cookie_name : Text) where
  -- setRefreshCookie
  unfoldable pub set_refresh_cookie : Text → Op Cookie
  unfolding now ◌>>=◌
  set_refresh_cookie raw = do
    at ← now
    pure (record {
      content = raw;
      max_age = pos (cfg.refresh_ttl / second);
      expires = at + cfg.refresh_ttl;
    })

  -- clearRefreshCookie; it expires at the Unix epoch.
  abbrev pub cleared : Cookie
  cleared = record { content = []; max_age = negsuc 0; expires = 62135596800 * second }

  -- The handler's answer with the cookie that it sets after a success, or the error.
  unfoldable pub with_cookie : {A : Type 0} → Option Cookie → Result (A × TokenPair) → Op (Reply A)
  unfolding set_refresh_cookie ◌>>=◌
  with_cookie failed (err x) = pure (err (map_err x), failed)
  with_cookie failed (ok (a, tokens)) = do
    cookie ← set_refresh_cookie tokens.refresh
    pure (ok a, some cookie)

  abbrev pub auth_response : Result (User × TokenPair) → Result (AuthResponse × TokenPair)
  auth_response (err x) = err x
  auth_response (ok (u, tokens)) =
      ok (record { access_token = tokens.access; user = to_pb_user u }, tokens)

  -- Server.SignUp; `valid` is what ValidateAll says of the request.
  unfoldable pub sign_up : Bool → Text → Text → Op (Reply AuthResponse)
  unfolding with_cookie to_pb_user attempt ◌>>=◌
  sign_up valid email password =
      if valid
      then (do
        r ← attempt (AuthService.sign_up e c cfg email password)
        with_cookie none (auth_response r))
      else pure (err (status invalid_argument), none)

  unfoldable pub sign_in : Bool → Text → Text → Op (Reply AuthResponse)
  unfolding with_cookie to_pb_user attempt ◌>>=◌
  sign_in valid email password =
      if valid
      then (do
        r ← attempt (AuthService.sign_in e c cfg email password)
        with_cookie none (auth_response r))
      else pure (err (status invalid_argument), none)

  abbrev pub access_token : Result (TokenPair × ℤ) → Result (Text × TokenPair)
  access_token (err x) = err x
  access_token (ok (tokens, user_id)) = ok (tokens.access, tokens)

  unfoldable pub refresh : Metadata → Op (Reply Text)
  unfolding get_refresh with_cookie attempt ◌>>=◌
  refresh md = do
    r ← attempt (AuthService.refresh e c cfg (get_refresh cookie_name md))
    with_cookie (some cleared) (access_token r)

  unfoldable pub logout : Metadata → Op (Reply (Unit {0}))
  unfolding get_refresh attempt ◌>>=◌
  logout md = do
    attempt (AuthService.logout e c cfg (get_refresh cookie_name md))
    pure (ok tt, some cleared)

  abbrev pub user_of : Result User → Result PbUser
  user_of (err x) = err (status status_not_found)
  user_of (ok u) = ok (to_pb_user u)

  abbrev pub me_with : Result ℤ → Op (Reply PbUser)
  me_with (err x) = pure (err (status unauthenticated), none)
  me_with (ok id) = do u ← attempt (Users.get_by_id id); pure (user_of u, none)

  -- Server.Me
  unfoldable pub me : Metadata → Op (Reply PbUser)
  unfolding bearer to_pb_user attempt ◌>>=◌
  me md = do id ← attempt (AuthService.parse_access e c cfg (bearer c.lower md)); me_with id
