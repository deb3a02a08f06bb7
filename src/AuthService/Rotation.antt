-- ===== src/AuthService/Rotation.antt =====
-- Refresh tokens: each is good for one refresh.
use pingerus.Base.{
  ◌≡◌, ◌≢◌, refl, sym, subst, ltb, ◌||◌, ◌∙◌, inl, inr, true, false, none, List, [], ◌∷◌, arith,
  All, find?, find?-passes, modify, Bool-cases,
}
use pingerus.Base.Int.{ℤ, pos}
use pingerus.Text.{Text, text_eq, is_empty}
use pingerus.Text.Laws.{text_eq_iff}
use pingerus.World.{World, Op, pure, now, ◌>>◌, interact, map_error, wrapping, ◌>>=◌}
use pingerus.World.Errors.{ok, err, sentinel, invalid_credentials}
use pingerus.World.Laws.{db-interact, Result-cases}
use pingerus.World.Rows.{Time, RefreshToken}
use pingerus.Postgres.Tokens
use pingerus.Postgres.Tokens.{is_valid, revoke_row}
use pingerus.AuthService.{Crypto, Config, TokenPair, token_of, issue_tokens, rotate, refresh}
use pingerus.AuthService.Jwt.{Encoding}

-- The rows with the hash are all revoked.
abbrev pub IsSpent : Text → List RefreshToken → Type 0
IsSpent hash = All (λ r. text_eq r.token_hash hash ≡ true → r.revoked ≡ true)

spent-find? :
    (hash : Text) (at : Time) (rows : List RefreshToken)
    → IsSpent hash rows
    → find? (is_valid hash at) rows ≡ none
unfolding is_valid
spent-find? hash at [] spent = refl
spent-find? hash at (r ∷ rs) spent = ground (arith, spent.0, spent-find? hash at rs spent.1)

revoked-IsSpent :
    (hash : Text) (rows : List RefreshToken)
    → IsSpent hash (modify (λ r. text_eq r.token_hash hash) revoke_row rows)
revoked-IsSpent hash [] = tt
revoked-IsSpent hash (r ∷ rs) = elim (Bool-cases (text_eq r.token_hash hash)) [
  | inl same ↦ rw same (λ _. refl, revoked-IsSpent hash rs)
  | inr other ↦ rw other (λ h. absurd cc, revoked-IsSpent hash rs)
]

module _ (e : Encoding) (c : Crypto) (cfg : Config) where
  issue_tokens-adds :
      (id : ℤ) (v : World) (tokens : TokenPair)
      → (issue_tokens e c cfg id v).0 ≡ ok tokens
      → (row : RefreshToken) × (row.token_hash ≡ c.hash_token tokens.refresh)
        × ((issue_tokens e c cfg id v).1.db.tokens ≡ row ∷ v.db.tokens)
  unfolding issue_tokens now wrapping ◌>>=◌ Tokens.create Tokens.insert_row
  issue_tokens-adds id v tokens h = (
    record (token_of e c cfg id tokens.refresh (now v).1.clock) { id = pos v.db.token_seq },
    refl,
    ground (arith, db-interact v, db-interact (interact v).1),
  )

  tokens-revoke :
      (hash : Text) (u : World)
      → (Tokens.revoke hash u).0 ≡ ok tt
      → (Tokens.revoke hash u).1.db.tokens
        ≡ modify (λ r. text_eq r.token_hash hash) revoke_row u.db.tokens
  unfolding Tokens.revoke wrapping Tokens.update_revoked
  tokens-revoke hash u h = ground (arith, db-interact u)

  -- The part of `rotate` that writes.
  abbrev renew : RefreshToken → Op (TokenPair × ℤ)
  renew rec = do
    Tokens.revoke rec.token_hash
    tokens ← issue_tokens e c cfg rec.user_id
    pure (tokens, rec.user_id)

  renewed :
      (rec : RefreshToken) (u : World) (tokens : TokenPair) (id : ℤ)
      → (renew rec u).0 ≡ ok (tokens, id)
      → ((Tokens.revoke rec.token_hash u).0 ≡ ok tt)
        × ((issue_tokens e c cfg rec.user_id (Tokens.revoke rec.token_hash u).1).0 ≡ ok tokens)
        × ((renew rec u).1
            ≡ (issue_tokens e c cfg rec.user_id (Tokens.revoke rec.token_hash u).1).1)
  unfolding ◌>>=◌
  renewed rec u tokens id h = ground arith

  renew-spends :
      (rec : RefreshToken) (u : World) (tokens : TokenPair) (id : ℤ)
      → (renew rec u).0 ≡ ok (tokens, id)
      → c.hash_token tokens.refresh ≢ rec.token_hash
      → IsSpent rec.token_hash (renew rec u).1.db.tokens
  renew-spends rec u tokens id h fresh =
      let (revoked, given, same) = renewed rec u tokens id h in
      let (row, hash, added) =
        issue_tokens-adds rec.user_id (Tokens.revoke rec.token_hash u).1 tokens given in
      rw (same, added, tokens-revoke rec.token_hash u revoked)
        (
          λ equal. absurd (fresh (sym hash ∙ (text_eq_iff row.token_hash rec.token_hash).0 equal)),
          revoked-IsSpent rec.token_hash u.db.tokens,
        )

  rotate-spends :
      (rec : RefreshToken) (v : World) (tokens : TokenPair) (id : ℤ)
      → (rotate e c cfg rec v).0 ≡ ok (tokens, id)
      → c.hash_token tokens.refresh ≢ rec.token_hash
      → IsSpent rec.token_hash (rotate e c cfg rec v).1.db.tokens
  unfolding rotate now ◌>>=◌
  rotate-spends rec v tokens id h fresh =
      elim (Bool-cases (ltb rec.expires_at (interact v).1.clock || rec.revoked)) [
        | inl refused ↦ absurd (ground (arith, refused, h))
        | inr fine ↦ rw fine (renew-spends rec (interact v).1 tokens id (rw fine at h) fresh)
      ]

  found-hash :
      (hash : Text) (w : World) (rec : RefreshToken)
      → (Tokens.find_valid hash w).0 ≡ ok rec
      → rec.token_hash ≡ hash
  unfolding Tokens.find_valid Tokens.select_valid is_valid
  found-hash hash w rec h = ground (
    arith,
    db-interact w,
    find?-passes (is_valid hash (interact w).1.clock) w.db.tokens {x = rec},
    text_eq_iff rec.token_hash hash,
  )

  spent-refused :
      (raw : Text) (w : World)
      → IsSpent (c.hash_token raw) w.db.tokens
      → (refresh e c cfg raw w).0 ≡ err (sentinel invalid_credentials)
  unfolding refresh map_error ◌>>=◌ Tokens.find_valid Tokens.select_valid
  spent-refused raw w spent =
      ground (
        arith,
        db-interact w,
        spent-find? (c.hash_token raw) (interact w).1.clock w.db.tokens spent,
      )

  refresh-found :
      (raw : Text) (w : World) (rec : RefreshToken)
      → is_empty raw ≡ false
      → (Tokens.find_valid (c.hash_token raw) w).0 ≡ ok rec
      → refresh e c cfg raw w ≡ rotate e c cfg rec (Tokens.find_valid (c.hash_token raw) w).1
  unfolding refresh map_error ◌>>=◌
  refresh-found raw w rec given found = rw (given, found) refl

  refresh-IsSpent :
      (raw : Text) (w : World) (tokens : TokenPair) (id : ℤ)
      → (refresh e c cfg raw w).0 ≡ ok (tokens, id)
      → c.hash_token tokens.refresh ≢ c.hash_token raw
      → IsSpent (c.hash_token raw) (refresh e c cfg raw w).1.db.tokens
  unfolding refresh map_error ◌>>=◌
  refresh-IsSpent raw w tokens id h fresh = elim (Bool-cases (is_empty raw)) [
    | inl missing ↦ absurd (ground (arith, missing, h))
    | inr given ↦ elim (Result-cases (Tokens.find_valid (c.hash_token raw) w).0) [
      | inl (rec, found) ↦
          let same = refresh-found raw w rec given found in
          let hash = found-hash (c.hash_token raw) w rec found in
          let v : World = (Tokens.find_valid (c.hash_token raw) w).1 in
          rw same (
            subst (λ x. IsSpent x (rotate e c cfg rec v).1.db.tokens) hash
              (rotate-spends rec v tokens id (rw same at h) (λ equal. fresh (equal ∙ hash))))
      | inr (x, failed) ↦ absurd (ground (arith, given, failed, h))
    ]
  ]

  -- A refresh token that was refreshed successfully is refused afterwards, whatever call fails then, as
  -- long as the table of tokens is as that refresh left it and the new token has another hash.
  pub refresh-refused :
      (raw : Text) (w later : World) (tokens : TokenPair) (id : ℤ)
      → (refresh e c cfg raw w).0 ≡ ok (tokens, id)
      → c.hash_token tokens.refresh ≢ c.hash_token raw
      → later.db.tokens ≡ (refresh e c cfg raw w).1.db.tokens
      → (refresh e c cfg raw later).0 ≡ err (sentinel invalid_credentials)
  refresh-refused raw w later tokens id h fresh same =
      spent-refused raw later (rw same (refresh-IsSpent raw w tokens id h fresh))
