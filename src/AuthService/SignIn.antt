-- ===== src/AuthService/SignIn.antt =====
-- An account that was made, and the sign-in to it.
use pingerus.Base.{◌≡◌, refl, sym, ap, ◌∙◌, inl, inr, true, List, [], ◌∷◌, arith}
use pingerus.Base.Int.{ℤ, pos}
use pingerus.Text.{Text}
use pingerus.Text.Laws.{text_eq_refl}
use pingerus.World.{World, Op, statement, now, interact, wrapping, map_error, pure, ◌>>=◌}
use pingerus.World.Errors.{ok}
use pingerus.World.Laws.{db-interact, interact_quiet, Result-cases}
use pingerus.World.Rows.{User, Tables, RefreshToken, Time}
use pingerus.Postgres.Users
use pingerus.Postgres.Tokens
use pingerus.AuthService.{
  Crypto, Config, TokenPair, sign_up_error, normalize_email, issue_tokens, sign_up, sign_in,
}
use pingerus.AuthService.Footprint.{issue_tokens-Fixes}
use pingerus.AuthService.Jwt.{Encoding}

module _ (e : Encoding) (c : Crypto) (cfg : Config) where
  -- What a sign-up that went well leaves: the user is the last row, and the password was hashed for it.
  record Registered (email password : Text) (u : User) (w v : World) : Type 0 where
    address : u.email ≡ normalize_email e c cfg email
    last : v.db.users ≡ u ∷ w.db.users
    at : World
    hashed : c.hash_password password at ≡ ok u.password

  create-last :
      (new : User) (v : World) (u : User)
      → (Users.create new v).0 ≡ ok u
      → ((Users.create new v).1.db.users ≡ u ∷ v.db.users)
        × (u.email ≡ new.email)
        × (u.password ≡ new.password)
  unfolding Users.create Users.insert_row
  create-last new v u h = ground (arith, db-interact v)

  -- The part of a sign-up after the password is hashed and the clock read.
  abbrev finish : User → Op (User × TokenPair)
  finish new = do
    u ← map_error (sign_up_error) (Users.create new)
    tokens ← issue_tokens e c cfg u.id
    pure (u, tokens)

  abbrev Finished : User → World → User → World → Type 0
  Finished new v u t =
      (t.db.users ≡ u ∷ v.db.users) × (u.email ≡ new.email) × (u.password ≡ new.password)

  issue_tokens-users : (id : ℤ) (v : World) → (issue_tokens e c cfg id v).1.db.users ≡ v.db.users
  issue_tokens-users id v = (issue_tokens-Fixes (λ t. t.users) inserts e c cfg id).same v
    where
      inserts :
          (r : RefreshToken) (at : Time) (t : Tables) → (Tokens.insert_row r at t).1.users ≡ t.users
      inserts r at t = unfold Tokens.insert_row in ground arith

  finish-Finished :
      (new : User) (v : World) (u : User) (tokens : TokenPair)
      → (finish new v).0 ≡ ok (u, tokens)
      → Finished new v u (finish new v).1
  unfolding ◌>>=◌ map_error
  finish-Finished new v u tokens h = elim (Result-cases (Users.create new v).0) [
    | inr (x, failed) ↦ absurd (ground (arith, failed, h))
    | inl (u', made) ↦
        let t : World = (Users.create new v).1 in
        elim (Result-cases (issue_tokens e c cfg u'.id t).0) [
          | inr (x, failed) ↦ absurd (ground (arith, made, failed, h))
          | inl (given, issued) ↦
              let same : u' ≡ u = ground (arith, made, issued, h) in
              let (last, address, word) = create-last new v u' made in
              rw (made, issued)
                (
                  issue_tokens-users u'.id t ∙ last ∙ ap (λ x. x ∷ v.db.users) same,
                  ap (λ x. x.email) (sym same) ∙ address,
                  ap (λ x. x.password) (sym same) ∙ word,
                )
        ]
  ]

  sign_up-Registered :
      (email password : Text) (w : World) (u : User) (tokens : TokenPair)
      → (sign_up e c cfg email password w).0 ≡ ok (u, tokens)
      → Registered email password u w (sign_up e c cfg email password w).1
  unfolding sign_up now wrapping ◌>>=◌
  sign_up-Registered email password w u tokens h =
      elim (Result-cases (c.hash_password password w)) [
        | inr (x, failed) ↦ absurd (ground (arith, failed, h))
        | inl (hash, hashed) ↦
            let created : World = (interact w).1 in
            let v : World = (interact created).1 in
            let new : User = record {
              id = pos 0;
              email = normalize_email e c cfg email;
              password = hash;
              created_at = created.clock;
              updated_at = v.clock;
            } in
            let (last, address, word) = finish-Finished new v u tokens (rw hashed at h) in
            rw hashed (record {
              address = address;
              last = last ∙ ap (λ t. u ∷ t.users) (db-interact created ∙ db-interact w);
              at = w;
              hashed = hashed ∙ ap ok (sym word);
            })
      ]

  get_by_email-last :
      (email : Text) (v : World) (u : User) (rest : List User)
      → v.script ≡ []
      → v.db.users ≡ u ∷ rest
      → u.email ≡ email
      → Users.get_by_email email v ≡ (ok u, v)
  unfolding Users.get_by_email Users.select_by_email statement map_error
  get_by_email-last email v u rest quiet last address =
      rw (interact_quiet v quiet, last, address, text_eq_refl email) refl

  -- If bcrypt accepts a password for each hash that it made of it: after a sign-up that went well, and in
  -- the absence of faults, a sign-in with the password, and with an address that is the same up to case
  -- and outer space, hands out tokens for the user of the sign-up.
  pub sign_up-sign_in :
      (accepts : (p h : Text) (at : World)
        → c.hash_password p at ≡ ok h
        → c.same_password h p ≡ true)
      (email again password : Text) (w v : World) (u : User) (tokens : TokenPair)
      → (sign_up e c cfg email password w).0 ≡ ok (u, tokens)
      → v.db.users ≡ (sign_up e c cfg email password w).1.db.users
      → v.script ≡ []
      → normalize_email e c cfg again ≡ normalize_email e c cfg email
      → sign_in e c cfg again password v ≡ (do given ← issue_tokens e c cfg u.id; pure (u, given)) v
  unfolding sign_in ◌>>=◌ map_error
  sign_up-sign_in accepts email again password w v u tokens h users quiet same =
      let r = sign_up-Registered email password w u tokens h in
      let read =
        get_by_email-last (normalize_email e c cfg again) v u w.db.users quiet (users ∙ r.last)
          (r.address ∙ sym same) in
      rw (read, accepts password u.password r.at r.hashed) refl
