-- ===== src/AuthService/Access.antt =====
-- Access tokens: what issueTokens signs and what ParseAccess reads.
use pingerus.Base.{◌+◌, ◌/◌, ◌≤◌, ◌≡◌, refl, inl, inr, false, [], ◌∷◌, ◌++◌, arith}
use pingerus.Base.Int.{ℤ, ltb_ℤ}
use pingerus.Text.{Text, Lacks, split}
use pingerus.Text.Laws.{text_eq_refl, split-append, split-Lacks}
use pingerus.Text.Decimal.{IsInt64, parse_int-format_int}
use pingerus.World.{World, now, map_error, wrapping, ◌>>=◌}
use pingerus.World.Errors.{Result, ok, err}
use pingerus.World.Laws.{clock-interact, Result-cases}
use pingerus.World.Rows.{Time}
use pingerus.Postgres.Checks.{second}
use pingerus.AuthService.{Crypto, Config, TokenPair, issue_tokens, claims_of, parse_access}
use pingerus.AuthService.Jwt.{
  AccessClaims, Encoding, unix, dot, base64_url, header, sign, signed_string, check_times, validate,
  parse_and_validate,
}

unix_mono : (a b : Time) → a ≤ b → ltb_ℤ (unix b) (unix a) ≡ false
unfolding unix
unix_mono a b h = let q : a / second ≤ b / second = omega arith in ground arith

split_token :
    (h p s : Text)
    → Lacks dot h
    → Lacks dot p
    → Lacks dot s
    → split dot ((h ++ dot ∷ p) ++ dot ∷ s) ≡ h ∷ p ∷ s ∷ []
unfolding split
split_token [] p s lh lp ls = ground (arith, split-append dot p s lp, split-Lacks dot s ls)
split_token (x ∷ h) p s lh lp ls = ground (arith, split_token h p s lh.1 lp ls)

-- The base64 and JSON of the library: they can be read back, and base64 has no dot.
pub record ReadsBack (e : Encoding) : Type 0 where
  pub base64 : (s : Text) → e.decode (base64_url e s) ≡ ok s
  pub plain : (s : Text) → Lacks dot (base64_url e s)
  pub json : (cl : AccessClaims) (s : Text) → e.marshal cl ≡ ok s → e.unmarshal s ≡ ok cl

module _ (e : Encoding) (c : Crypto) (cfg : Config) (back : ReadsBack e) where
  abbrev token_for : Text → Text
  token_for payload = sign e (header e ++ dot ∷ base64_url e payload) cfg.secret

  -- Everything but the times is right in a token that was signed.
  validate-signed :
      (cl : AccessClaims) (payload : Text) (w : World)
      → e.marshal cl ≡ ok payload
      → parse_and_validate e (token_for payload) cfg.secret w ≡ check_times e cl w
  unfolding parse_and_validate validate wrapping ◌>>=◌
  validate-signed cl payload w m =
      rw
        (
          split_token (header e) (base64_url e payload)
              (base64_url e (e.hmac cfg.secret (header e ++ dot ∷ base64_url e payload)))
              (back.plain _) (back.plain _) (back.plain _),
          back.base64 (e.hmac cfg.secret (header e ++ dot ∷ base64_url e payload)),
          text_eq_refl (e.hmac cfg.secret (header e ++ dot ∷ base64_url e payload)),
          back.base64 payload,
          back.json cl payload m,
        )
        refl

  signed_cases :
      (cl : AccessClaims) (token : Text) (r : Result Text)
      → e.marshal cl ≡ r
      → signed_string e cl cfg.secret ≡ ok token
      → (payload : Text) × (e.marshal cl ≡ ok payload) × (token ≡ token_for payload)
  unfolding signed_string
  signed_cases cl token (ok payload) m h = (payload, m, ground arith)
  signed_cases cl token (err x) m h = absurd (ground arith)

  issued_access :
      (id : ℤ) (tokens : TokenPair) (v : World)
      → (issue_tokens e c cfg id v).0 ≡ ok tokens
      → signed_string e (claims_of e c cfg id (now v).1.clock) cfg.secret ≡ ok tokens.access
  unfolding issue_tokens now wrapping ◌>>=◌
  issued_access id tokens v h =
      elim (Result-cases (signed_string e (claims_of e c cfg id (now v).1.clock) cfg.secret)) [
        | inl (access, signed) ↦ ground arith
        | inr (x, failed) ↦ absurd (ground arith)
      ]

  in_time :
      (cl : AccessClaims) (w : World)
      → ltb_ℤ (unix (now w).1.clock) cl.iat ≡ false
      → ltb_ℤ cl.exp (unix (now w).1.clock) ≡ false
      → check_times e cl w ≡ (ok cl, (now w).1)
  unfolding check_times now ◌>>=◌
  in_time cl w early late = ground arith

  clock-now : (w : World) → w.clock ≤ (now w).1.clock
  unfolding now
  clock-now w = clock-interact w

  read_back :
      (id : ℤ) (issued : Time) (payload : Text) (w : World)
      → IsInt64 id
      → e.marshal (claims_of e c cfg id issued) ≡ ok payload
      → issued ≤ w.clock
      → (now w).1.clock ≤ issued + cfg.access_ttl
      → parse_access e c cfg (token_for payload) w ≡ (ok id, (now w).1)
  unfolding parse_access map_error ◌>>=◌
  read_back id issued payload w small m after before =
      let late = clock-now w in
      let cl : AccessClaims = claims_of e c cfg id issued in
      rw
        (
          validate-signed cl payload w m,
          in_time cl w (unix_mono issued (now w).1.clock (omega arith))
              (unix_mono (now w).1.clock (issued + cfg.access_ttl) before),
          parse_int-format_int id small,
        )
        refl

  -- The access token that issueTokens gives out for a user is read back by ParseAccess as that user's
  -- identifier, at any time from the issue to the end of its lifetime; base64 and JSON read back what
  -- they wrote.
  pub issue_tokens-parse_access :
      (id : ℤ) (tokens : TokenPair) (v w : World)
      → IsInt64 id
      → (issue_tokens e c cfg id v).0 ≡ ok tokens
      → (now v).1.clock ≤ w.clock
      → (now w).1.clock ≤ (now v).1.clock + cfg.access_ttl
      → parse_access e c cfg tokens.access w ≡ (ok id, (now w).1)
  issue_tokens-parse_access id tokens v w small given after before =
      let cl : AccessClaims = claims_of e c cfg id (now v).1.clock in
      let (payload, m, same) =
        signed_cases cl tokens.access (e.marshal cl) refl (issued_access id tokens v given) in
      rw same (read_back id (now v).1.clock payload w small m after before)
