-- ===== src/AuthService/Interceptor.antt =====
-- internal/services/api-gateway/auth/interceptor.go.
use pingerus.Base.{
  ℕ, ◌≡◌, refl, ◌⊎◌, inl, inr, Bool, false, Option, none, some, List, [], ◌∷◌, exists,
  if◌then◌else◌, Bool-cases,
}
use pingerus.Base.Int.{ℤ}
use pingerus.Text.{Text, codes, is_empty, text_eq}
use pingerus.World.{World, Op, attempt, raise, ◌>>=◌}
use pingerus.World.Errors.{status, unauthenticated, Result, ok, err}
use pingerus.World.Laws.{Result-cases}
use pingerus.AuthService.Api.{Metadata, bearer}

-- The keys of publicFullMethods.
abbrev pub public_full_methods : List Text
public_full_methods =
    codes "/pingerus.v1.AuthService/SignUp"
    ∷ codes "/pingerus.v1.AuthService/SignIn"
    ∷ codes "/pingerus.v1.AuthService/Refresh"
    ∷ codes "/pingerus.v1.AuthService/Logout"
    ∷ []

unfoldable pub is_public : Text → Bool
is_public full_method = exists (λ m. text_eq m full_method) public_full_methods

module _ {A : Type 0} (lower : ℕ → ℕ) (parse : Text → Op ℤ) where
  abbrev pub next_for : (Option ℤ → Op A) → Result ℤ → Op A
  next_for next (err e) = raise (status unauthenticated)
  next_for next (ok uid) = next (some uid)

  abbrev pub with_token : (Option ℤ → Op A) → Text → Op A
  with_token next token =
      if is_empty token
      then raise (status unauthenticated)
      else do uid ← attempt (parse token); next_for next uid

  -- UnaryAuthInterceptor; `next` takes the user that the interceptor puts into the context.
  unfoldable pub unary_auth_interceptor : Text → Metadata → (Option ℤ → Op A) → Op A
  unfolding is_public attempt bearer ◌>>=◌
  unary_auth_interceptor full_method md next =
      if is_public full_method then next none else with_token next (bearer lower md)

  -- The call was refused, and only the token was looked at.
  abbrev pub Refused : Metadata → World → Result A × World → Type 0
  Refused md w x =
      (x.0 ≡ err (status unauthenticated)) × ((x.1 ≡ w) ⊎ (x.1 ≡ (parse (bearer lower md) w).1))

  -- The call was passed on for the user whose token came with it.
  abbrev pub Passed : Metadata → (Option ℤ → Op A) → World → Result A × World → Type 0
  Passed md next w x =
      (uid : ℤ) × ((parse (bearer lower md) w).0 ≡ ok uid)
      × (x ≡ next (some uid) (parse (bearer lower md) w).1)

  with_token-cases :
      (md : Metadata) (next : Option ℤ → Op A) (w : World)
      → Refused md w (with_token next (bearer lower md) w)
        ⊎ Passed md next w (with_token next (bearer lower md) w)
  unfolding attempt ◌>>=◌
  with_token-cases md next w = elim (Bool-cases (is_empty (bearer lower md))) [
    | inl missing ↦ rw missing (inl (refl, inl refl))
    | inr given ↦ elim (Result-cases (parse (bearer lower md) w).0) [
      | inl (uid, e) ↦ rw (given, e) (inr (uid, refl, refl))
      | inr (x, e) ↦ rw (given, e) (inl (refl, inr refl))
    ]
  ]

  -- A method that is not public is answered Unauthenticated, and its handler does not run, or it runs for
  -- the user that the call's token names.
  pub unary_auth_interceptor-cases :
      (full_method : Text) (md : Metadata) (next : Option ℤ → Op A) (w : World)
      → is_public full_method ≡ false
      → Refused md w (unary_auth_interceptor full_method md next w)
        ⊎ Passed md next w (unary_auth_interceptor full_method md next w)
  unfolding unary_auth_interceptor
  unary_auth_interceptor-cases full_method md next w private =
      rw private (with_token-cases md next w)
