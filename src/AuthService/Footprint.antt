-- ===== src/AuthService/Footprint.antt =====
-- The accounts' operations and the tables of the checks.
use pingerus.Base.{ℕ, ◌≡◌, refl, not, Option, none, some, List, [], ◌∷◌, ◌++◌, arith, ltb, ◌||◌}
use pingerus.Base.Int.{ℤ, pos, ltb_ℤ}
use pingerus.Text.{split, Text, text_eq, is_empty}
use pingerus.Text.Decimal.{parse_int}
use pingerus.World.{World}
use pingerus.World.Errors.{sentinel, message, token_invalid, invalid_credentials, Result}
use pingerus.World.Fixed.{
  Fixes, now-Fixes, statement-Fixes, bind-Fixes, map_error-Fixes, wrapping-Fixes, lift-Fixes,
  pure-Fixes, raise-Fixes, if-Fixes,
}
use pingerus.World.Rows.{Time, Tables, User, RefreshToken, CheckRow}
use pingerus.Postgres.Users
use pingerus.Postgres.Tokens
use pingerus.AuthService
use pingerus.AuthService.{Crypto, Config, TokenPair, claims_of, token_of, id_or_invalid}
use pingerus.AuthService.Jwt.{
  Encoding, AccessClaims, unix, dot, signed_string, check_times, validate, parse_and_validate,
}

-- The rows of the table checks, and the sequence of their numbers.
abbrev pub checks_of : Tables → List CheckRow × ℕ
checks_of t = (t.checks, t.check_seq)

users_create-Fixes : (u : User) → Fixes checks_of (Users.create u)
unfolding Users.create
users_create-Fixes u = map_error-Fixes _ (statement-Fixes _ inserts)
  where
    inserts :
        (at : Time) (t : Tables)
        → checks_of (Users.insert_row u.email u.password at t).1 ≡ checks_of t
    inserts at t = unfold Users.insert_row in ground arith

get_by_email-Fixes : (email : Text) → Fixes checks_of (Users.get_by_email email)
unfolding Users.get_by_email
get_by_email-Fixes email = map_error-Fixes _ (statement-Fixes _ (λ at t. refl))

draw-Fixes {κ} :
    {B : Type κ} {part : Tables → B} {A : Type 0} (f : World → Result A)
    → Fixes part (λ w. (f w, w))
draw-Fixes f = record { same = λ w. refl }

-- A part of the tables that does not read the tokens.
module _ {κ} {B : Type κ} (part : Tables → B)
    (inserts : (r : RefreshToken) (at : Time) (t : Tables)
      → part (Tokens.insert_row r at t).1 ≡ part t)
    (e : Encoding) (c : Crypto) (cfg : Config) where
  tokens_create-Fixes : (r : RefreshToken) → Fixes part (Tokens.create r)
  unfolding Tokens.create
  tokens_create-Fixes r = statement-Fixes _ (inserts r)

  pub issue_tokens-Fixes : (id : ℤ) → Fixes part (AuthService.issue_tokens e c cfg id)
  unfolding AuthService.issue_tokens
  issue_tokens-Fixes id = bind-Fixes now-Fixes λ at.
      bind-Fixes
        (wrapping-Fixes "sign access"
          (lift-Fixes {r = signed_string e (claims_of e c cfg id at) cfg.secret}))
        λ access. bind-Fixes (wrapping-Fixes "gen refresh" (draw-Fixes c.raw_token)) λ raw.
          bind-Fixes
            (wrapping-Fixes "save refresh" (tokens_create-Fixes (token_of e c cfg id raw at)))
            λ _. pure-Fixes {a = record { access = access; refresh = raw }}

insert_token-checks :
    (r : RefreshToken) (at : Time) (t : Tables)
    → checks_of (Tokens.insert_row r at t).1 ≡ checks_of t
unfolding Tokens.insert_row
insert_token-checks r at t = ground arith

find_valid-Fixes : (hash : Text) → Fixes checks_of (Tokens.find_valid hash)
unfolding Tokens.find_valid
find_valid-Fixes hash = map_error-Fixes _ (statement-Fixes _ (λ at t. refl))

revoke-Fixes : (hash : Text) → Fixes checks_of (Tokens.revoke hash)
unfolding Tokens.revoke
revoke-Fixes hash = wrapping-Fixes _ (statement-Fixes _ (λ at t. refl))

module _ (e : Encoding) (c : Crypto) (cfg : Config) where
  pub sign_up-Fixes :
      (email password : Text) → Fixes checks_of (AuthService.sign_up e c cfg email password)
  unfolding AuthService.sign_up
  sign_up-Fixes email password =
      bind-Fixes (wrapping-Fixes "failed to hash password" (draw-Fixes (c.hash_password password)))
        λ hash. bind-Fixes now-Fixes λ created. bind-Fixes now-Fixes λ updated.
          bind-Fixes
            (map_error-Fixes AuthService.sign_up_error (
              users_create-Fixes (record {
                id = pos 0;
                email = AuthService.normalize_email e c cfg email;
                password = hash;
                created_at = created;
                updated_at = updated;
              })))
            λ u.
              bind-Fixes (issue_tokens-Fixes checks_of insert_token-checks e c cfg u.id)
                λ tokens. pure-Fixes {a = (u, tokens)}

  pub sign_in-Fixes :
      (email password : Text) → Fixes checks_of (AuthService.sign_in e c cfg email password)
  unfolding AuthService.sign_in
  sign_in-Fixes email password =
      bind-Fixes
        (map_error-Fixes (AuthService.invalid e c cfg)
          (get_by_email-Fixes (AuthService.normalize_email e c cfg email)))
        λ u.
          if-Fixes (not (c.same_password u.password password))
            (raise-Fixes (sentinel invalid_credentials))
            (bind-Fixes (issue_tokens-Fixes checks_of insert_token-checks e c cfg u.id)
              λ tokens. pure-Fixes {a = (u, tokens)})

  rotate-Fixes : (rec : RefreshToken) → Fixes checks_of (AuthService.rotate e c cfg rec)
  unfolding AuthService.rotate
  rotate-Fixes rec = bind-Fixes now-Fixes λ at.
      if-Fixes (ltb rec.expires_at at || rec.revoked) (raise-Fixes (sentinel invalid_credentials)) (
        bind-Fixes (revoke-Fixes rec.token_hash) λ _.
          bind-Fixes (issue_tokens-Fixes checks_of insert_token-checks e c cfg rec.user_id)
            λ tokens. pure-Fixes {a = (tokens, rec.user_id)})

  pub refresh-Fixes : (raw : Text) → Fixes checks_of (AuthService.refresh e c cfg raw)
  unfolding AuthService.refresh
  refresh-Fixes raw = if-Fixes (is_empty raw) (raise-Fixes (sentinel invalid_credentials)) (
      bind-Fixes
        (map_error-Fixes (AuthService.invalid e c cfg) (find_valid-Fixes (c.hash_token raw)))
        rotate-Fixes)

  pub logout-Fixes : (raw : Text) → Fixes checks_of (AuthService.logout e c cfg raw)
  unfolding AuthService.logout
  logout-Fixes raw = if-Fixes (is_empty raw) pure-Fixes (revoke-Fixes (c.hash_token raw))

  check_times-Fixes : (claims : AccessClaims) → Fixes checks_of (check_times e claims)
  unfolding check_times
  check_times-Fixes claims = bind-Fixes now-Fixes λ at.
      if-Fixes (ltb_ℤ (unix at) claims.iat) (raise-Fixes (message "token used before issued")) (
        if-Fixes (ltb_ℤ claims.exp (unix at)) (raise-Fixes (message "token expired"))
          (pure-Fixes {a = claims}))

  validate-Fixes : (secret : Text) (parts : List Text) → Fixes checks_of (validate e secret parts)
  unfolding validate
  validate-Fixes secret [] = raise-Fixes (sentinel token_invalid)
  validate-Fixes secret (x ∷ []) = raise-Fixes (sentinel token_invalid)
  validate-Fixes secret (x ∷ y ∷ []) = raise-Fixes (sentinel token_invalid)
  validate-Fixes secret (x ∷ y ∷ z ∷ u ∷ parts) = raise-Fixes (sentinel token_invalid)
  validate-Fixes secret (x ∷ y ∷ z ∷ []) =
      bind-Fixes (wrapping-Fixes "decode signature" (lift-Fixes {r = e.decode z})) λ sig.
        if-Fixes (not (text_eq sig (e.hmac secret (x ++ dot ∷ y))))
          (raise-Fixes (sentinel token_invalid))
          (bind-Fixes (wrapping-Fixes "decode payload" (lift-Fixes {r = e.decode y})) λ payload.
            bind-Fixes (wrapping-Fixes "unmarshal claims" (lift-Fixes {r = e.unmarshal payload}))
              check_times-Fixes)

  id_or_invalid-Fixes : (id : Option ℤ) → Fixes checks_of (id_or_invalid id)
  id_or_invalid-Fixes none = raise-Fixes (sentinel invalid_credentials)
  id_or_invalid-Fixes (some id) = pure-Fixes

  pub parse_access-Fixes : (token : Text) → Fixes checks_of (AuthService.parse_access e c cfg token)
  unfolding AuthService.parse_access parse_and_validate
  parse_access-Fixes token =
      bind-Fixes
        (map_error-Fixes (AuthService.invalid e c cfg)
          (validate-Fixes cfg.secret (split dot token)))
        λ cl. id_or_invalid-Fixes (parse_int cl.sub)
