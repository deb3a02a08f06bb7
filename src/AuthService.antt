-- ===== src/AuthService.antt =====
-- internal/services/api-gateway/auth/usecase.go: accounts, and the tokens that the API gives out.
pub mod Jwt
pub mod Access
pub mod Rotation
pub mod SignIn
pub mod Api
pub mod Interceptor
pub mod Cookies
pub mod Footprint
pub mod Answers
use pingerus.Base.{ℕ, ◌+◌, Bool, true, false, not, ◌||◌, Option, none, some, ltb, if◌then◌else◌}
use pingerus.Base.Int.{ℤ, pos, limit_or}
use pingerus.Text.{Text, is_empty, trim_space, to_lower}
use pingerus.Text.Decimal.{format_int, parse_int}
use pingerus.World.{
  World, Op, Context, lift, now, raise, pure, map_error, wrapping, attempt, ◌>>=◌, ◌>>◌,
}
use pingerus.World.Errors.{Error, Result, ok, err, sentinel, invalid_credentials, email_exists}
use pingerus.World.Rows.{Time, User, RefreshToken}
use pingerus.Postgres.Users
use pingerus.Postgres.Tokens
use pingerus.AuthService.Jwt.{AccessClaims, Encoding, unix, signed_string, parse_and_validate}

-- What the usecase takes from the packages bcrypt, sha256 and crypto/rand. What is drawn at random may
-- be anything, so it is a function of the world at the draw.
pub record Crypto : Type 0 where
  pub hash_password : Text → World → Result Text
  pub same_password : Text → Text → Bool
  pub raw_token : World → Result Text
  pub hash_token : Text → Text
  pub lower : ℕ → ℕ

pub record Config : Type 0 where
  pub secret : Text
  pub access_ttl : ℕ
  pub refresh_ttl : ℕ

-- An access token and a refresh token.
pub record TokenPair : Type 0 where
  pub access : Text
  pub refresh : Text

-- isUniqueViolation
unfoldable pub is_unique_violation : Error → Bool
is_unique_violation e = false

abbrev pub sign_up_error : Error → Error
sign_up_error e = if is_unique_violation e then sentinel email_exists else e

abbrev pub id_or_invalid : Option ℤ → Op ℤ
id_or_invalid none = raise (sentinel invalid_credentials)
id_or_invalid (some id) = pure id

module _ (e : Encoding) (c : Crypto) (cfg : Config) where
  unfoldable pub normalize_email : Text → Text
  unfolding trim_space to_lower
  normalize_email s = to_lower c.lower (trim_space s)

  abbrev pub claims_of : ℤ → Time → AccessClaims
  claims_of user_id at = record {
    sub = format_int user_id;
    iat = unix at;
    exp = unix (at + cfg.access_ttl);
  }

  abbrev pub token_of : ℤ → Text → Time → RefreshToken
  token_of user_id raw at = record {
    id = pos 0;
    user_id = user_id;
    token_hash = c.hash_token raw;
    issued_at = at;
    expires_at = at + cfg.refresh_ttl;
    revoked = false;
  }

  -- Usecase.issueTokens
  unfoldable pub issue_tokens : ℤ → Op TokenPair
  unfolding now wrapping signed_string ◌>>=◌
  issue_tokens user_id = do
    at ← now
    access ← wrapping "sign access" (lift (signed_string e (claims_of user_id at) cfg.secret))
    raw ← wrapping "gen refresh" (λ w. (c.raw_token w, w))
    wrapping "save refresh" (Tokens.create (token_of user_id raw at))
    pure (record { access = access; refresh = raw })

  unfoldable pub sign_up : Text → Text → Op (User × TokenPair)
  unfolding normalize_email now wrapping map_error is_unique_violation issue_tokens ◌>>=◌
  sign_up email password = do
    hash ← wrapping "failed to hash password" (λ w. (c.hash_password password w, w))
    created ← now
    updated ← now
    u ← map_error sign_up_error (
        Users.create (record {
          id = pos 0;
          email = normalize_email email;
          password = hash;
          created_at = created;
          updated_at = updated;
        }))
    tokens ← issue_tokens u.id
    pure (u, tokens)

  abbrev pub invalid : Error → Error
  invalid e = sentinel invalid_credentials

  unfoldable pub sign_in : Text → Text → Op (User × TokenPair)
  unfolding normalize_email map_error issue_tokens ◌>>=◌
  sign_in email password = do
    u ← map_error invalid (Users.get_by_email (normalize_email email))
    if not (c.same_password u.password password)
        then raise (sentinel invalid_credentials)
        else do tokens ← issue_tokens u.id; pure (u, tokens)

  -- Usecase.Refresh, once the record of the token is found.
  unfoldable pub rotate : RefreshToken → Op (TokenPair × ℤ)
  unfolding now issue_tokens ◌>>=◌
  rotate rec = do
    at ← now
    if ltb rec.expires_at at || rec.revoked then raise (sentinel invalid_credentials) else do
      Tokens.revoke rec.token_hash
      tokens ← issue_tokens rec.user_id
      pure (tokens, rec.user_id)

  -- Usecase.Refresh
  unfoldable pub refresh : Text → Op (TokenPair × ℤ)
  unfolding map_error rotate ◌>>=◌
  refresh raw =
      if is_empty raw
      then raise (sentinel invalid_credentials)
      else do rec ← map_error invalid (Tokens.find_valid (c.hash_token raw)); rotate rec

  unfoldable pub logout : Text → Op (Unit {0})
  logout raw = if is_empty raw then pure tt else Tokens.revoke (c.hash_token raw)

  unfoldable pub parse_access : Text → Op ℤ
  unfolding map_error parse_and_validate ◌>>=◌
  parse_access token = do
    cl ← map_error invalid (parse_and_validate e token cfg.secret)
    id_or_invalid (parse_int cl.sub)
