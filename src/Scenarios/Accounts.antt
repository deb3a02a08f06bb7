-- ===== src/Scenarios/Accounts.antt =====
-- The tokens of an account in the small deployment.
use pingerus.Base.{
  ℕ, ◌+◌, ◌-◌, ◌*◌, ◌/◌, ◌%◌, ◌==◌, ◌≡◌, ◌≢◌, refl, false, [], ◌∷◌, ◌++◌, arith, if◌then◌else◌,
}
use pingerus.Base.Int.{ℤ, pos, negsuc, int_eq}
use pingerus.Text.{Text, Lacks, text_eq, codes}
use pingerus.World.{World, now, interact, ◌>>=◌}
use pingerus.World.Errors.{Result, ok, err, message, sentinel, invalid_credentials}
use pingerus.World.Rows.{RefreshToken}
use pingerus.Postgres.Checks.{second}
use pingerus.Postgres.Tokens
use pingerus.AuthService.{Crypto, Config, TokenPair, claims_of, issue_tokens, parse_access, refresh}
use pingerus.AuthService.Jwt.{
  AccessClaims, Encoding, dot, base64_url, header, sign, trim_right_byte,
}
use pingerus.AuthService.Access.{ReadsBack, issue_tokens-parse_access}
use pingerus.AuthService.Rotation.{refresh-refused}
use pingerus.Scenarios.{world}

abbrev pub crypto : Crypto
crypto = record {
  hash_password = λ p w. ok p;
  same_password = text_eq;
  raw_token = λ w. ok (w.clock ∷ []);
  hash_token = λ t. t;
  lower = λ c. c;
}

abbrev pub config : Config
config = record { secret = codes "s"; access_ttl = 900 * second; refresh_ttl = 3600 * second }

-- An encoding that moves each byte out of the way of the dot and the padding.
abbrev pub shift : Text → Text
shift [] = []
shift (x ∷ s) = (x + 100) ∷ shift s

abbrev pub unshift : Text → Text
unshift [] = []
unshift (x ∷ s) = (x - 100) ∷ unshift s

abbrev pub int_code : ℤ → ℕ
int_code (pos n) = n * 2
int_code (negsuc n) = n * 2 + 1

abbrev pub code_int : ℕ → ℤ
code_int n = if n % 2 == 0 then pos (n / 2) else negsuc (n / 2)

abbrev pub read_claims : Text → Result AccessClaims
read_claims (i ∷ x ∷ s) = ok (record { sub = s; iat = code_int i; exp = code_int x })
read_claims _ = err (message "claims")

abbrev pub shifted : Encoding
shifted = record {
  encode_padded = shift;
  decode = λ s. ok (unshift s);
  hmac = λ secret s. secret;
  marshal = λ cl. ok (int_code cl.iat ∷ int_code cl.exp ∷ cl.sub);
  unmarshal = read_claims;
}

trim-shift : (s : Text) → base64_url shifted s ≡ shift s
unfolding base64_url trim_right_byte
trim-shift [] = refl
trim-shift (x ∷ []) = ground arith
trim-shift (x ∷ y ∷ s) = rw (trim-shift (y ∷ s)) refl

unshift-shift : (s : Text) → unshift (shift s) ≡ s
unshift-shift [] = refl
unshift-shift (x ∷ s) = ground (arith, unshift-shift s)

shift-Lacks : (s : Text) → Lacks dot (shift s)
shift-Lacks [] = tt
shift-Lacks (x ∷ s) = (ground arith, shift-Lacks s)

code_int-int_code : (i : ℤ) → code_int (int_code i) ≡ i
code_int-int_code (pos n) = ground arith
code_int-int_code (negsuc n) = ground arith

shifted-ReadsBack : ReadsBack shifted
shifted-ReadsBack = record {
  base64 = λ s. rw (trim-shift s, unshift-shift s) refl;
  plain = λ s. rw (trim-shift s) (shift-Lacks s);
  json = λ cl s e. ground (arith, code_int-int_code cl.iat, code_int-int_code cl.exp);
}

abbrev pub claims : AccessClaims
claims = claims_of shifted crypto config (pos 1) world.clock

abbrev pub given : TokenPair
given = record {
  access =
      sign shifted
        (header shifted
          ++ dot ∷ base64_url shifted (int_code claims.iat ∷ int_code claims.exp ∷ claims.sub))
        config.secret;
  refresh = world.clock ∷ [];
}

issued : (issue_tokens shifted crypto config (pos 1) world).0 ≡ ok given
unfolding issue_tokens Tokens.create Tokens.insert_row interact int_eq ◌>>=◌
issued = refl

clock-world : (now world).1.clock ≡ world.clock
unfolding now interact
clock-world = refl

issue_tokens-parse_access_example :
    parse_access shifted crypto config given.access world ≡ (ok (pos 1), (now world).1)
issue_tokens-parse_access_example =
    issue_tokens-parse_access shifted crypto config shifted-ReadsBack (pos 1) given world world
      (omega arith) issued (omega (arith, clock-world)) (omega (arith, clock-world))

-- An encoding that drops what it gets.
abbrev pub blank : Encoding
blank = record {
  encode_padded = λ s. [];
  decode = λ s. ok s;
  hmac = λ secret s. [];
  marshal = λ cl. ok [];
  unmarshal = read_claims;
}

abbrev signed_in : World
signed_in = record world { db = record world.db { tokens = old ∷ [] } }
  where
    old : RefreshToken
    old = record {
      id = pos 1;
      user_id = pos 1;
      token_hash = codes "old";
      issued_at = 0;
      expires_at = 3600 * second;
      revoked = false;
    }

abbrev renewed : TokenPair
renewed = record { access = dot ∷ dot ∷ []; refresh = world.clock ∷ [] }

renewed_1 : (refresh blank crypto config (codes "old") signed_in).0 ≡ ok (renewed, pos 1)
unfolding refresh Tokens.find_valid Tokens.revoke Tokens.create interact int_eq text_eq
    Tokens.is_valid ◌>>=◌
renewed_1 = refl

another : crypto.hash_token renewed.refresh ≢ crypto.hash_token (codes "old")
another e = cc

refresh-refused_example :
    (refresh blank crypto config
      (codes "old")
      (refresh blank crypto config (codes "old") signed_in).1).0
    ≡ err (sentinel invalid_credentials)
refresh-refused_example =
    refresh-refused blank crypto config (codes "old") signed_in
      (refresh blank crypto config (codes "old") signed_in).1 renewed (pos 1) renewed_1 another refl
