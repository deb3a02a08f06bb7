-- ===== src/AuthService/Jwt.antt =====
-- internal/services/api-gateway/auth/util.go: access tokens. Base64, HMAC and the JSON of the claims are
-- parameters; a byte is a code point of a text.
use pingerus.Base.{ℕ, ◌/◌, ◌==◌, not, List, [], ◌∷◌, ◌++◌, if◌then◌else◌}
use pingerus.Base.Int.{ℤ, sub_ℕ, ltb_ℤ}
use pingerus.Text.{Text, codes, split, text_eq}
use pingerus.World.{Op, lift, now, raise, pure, wrapping, ◌>>=◌}
use pingerus.World.Errors.{message, sentinel, token_invalid, Result, ok, err, wrap}
use pingerus.World.Rows.{Time}
use pingerus.Postgres.Checks.{second}

pub record AccessClaims : Type 0 where
  pub sub : Text
  pub iat : ℤ
  pub exp : ℤ

pub record Encoding : Type 0 where
  pub encode_padded : Text → Text
  pub decode : Text → Result Text
  pub hmac : Text → Text → Text
  pub marshal : AccessClaims → Result Text
  pub unmarshal : Text → Result AccessClaims

-- t.Unix()
unfoldable pub unix : Time → ℤ
unix t = sub_ℕ (t / second) 62135596800

-- trimRight: the bytes `c` at the end are dropped.
unfoldable pub trim_right_byte : ℕ → Text → Text
trim_right_byte c [] = []
trim_right_byte c (x ∷ s) = let rest = trim_right_byte c s in keep rest
  where
    keep : Text → Text
    keep [] = if x == c then [] else x ∷ []
    keep (y ∷ t) = x ∷ y ∷ t

abbrev pub dot : ℕ
dot = 46

module _ (e : Encoding) where
  unfoldable pub base64_url : Text → Text
  unfolding trim_right_byte
  base64_url bytes = trim_right_byte 61 (e.encode_padded bytes)

  abbrev pub header : Text
  header = base64_url (codes "{\"alg\":\"HS256\",\"typ\":\"JWT\"}")

  abbrev pub sign : Text → Text → Text
  sign sig_input secret = sig_input ++ dot ∷ base64_url (e.hmac secret sig_input)

  abbrev sign_payload : Text → Result Text → Result Text
  sign_payload secret (err x) = err (wrap "marshal payload" x)
  sign_payload secret (ok payload) = ok (sign (header ++ dot ∷ base64_url payload) secret)

  -- SignedString
  unfoldable pub signed_string : AccessClaims → Text → Result Text
  unfolding base64_url
  signed_string c secret = sign_payload secret (e.marshal c)

  -- The rest of ParseAndValidate, with the claims of the payload.
  unfoldable pub check_times : AccessClaims → Op AccessClaims
  unfolding now ◌>>=◌
  check_times claims = do
    at ← now
    if ltb_ℤ (unix at) claims.iat
        then raise (message "token used before issued")
        else if ltb_ℤ claims.exp (unix at)
        then raise (message "token expired")
        else pure claims

  -- The three parts of a token.
  unfoldable pub validate : Text → List Text → Op AccessClaims
  unfolding check_times wrapping ◌>>=◌
  validate secret (header64 ∷ payload64 ∷ sig64 ∷ []) = do
    sig ← wrapping "decode signature" (lift (e.decode sig64))
    if not (text_eq sig (e.hmac secret (header64 ++ dot ∷ payload64)))
        then raise (sentinel token_invalid)
        else do
          payload ← wrapping "decode payload" (lift (e.decode payload64))
          claims ← wrapping "unmarshal claims" (lift (e.unmarshal payload))
          check_times claims
  validate secret _ = raise (sentinel token_invalid)

  -- ParseAndValidate
  unfoldable pub parse_and_validate : Text → Text → Op AccessClaims
  unfolding validate split
  parse_and_validate token secret = validate secret (split dot token)
