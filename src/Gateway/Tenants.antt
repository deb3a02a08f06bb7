-- ===== src/Gateway/Tenants.antt =====
-- Calls of the API and the checks of somebody else.
use pingerus.Base.{◌≡◌, ◌≢◌, refl, sym, subst, ap, ◌∙◌, inl, inr, false, some, List, [], ◌∷◌, All}
use pingerus.Base.Int.{ℤ}
use pingerus.Text.{Text, text_eq}
use pingerus.World.{World, Op}
use pingerus.World.Errors.{ok}
use pingerus.World.Fixed.{Fixes}
use pingerus.AuthService
use pingerus.AuthService.{Crypto, Config}
use pingerus.AuthService.Answers.{
  sign_up-answers, sign_in-answers, refresh-answers, logout-answers, me-answers,
}
use pingerus.AuthService.Api.{Metadata, bearer}
use pingerus.AuthService.Footprint.{checks_of, parse_access-Fixes}
use pingerus.AuthService.Interceptor.{
  is_public, unary_auth_interceptor, unary_auth_interceptor-cases,
}
use pingerus.AuthService.Jwt.{Encoding}
use pingerus.CheckService.Api.{Validators}
use pingerus.Postgres.Checks.Ids.{IdsBelow, rows_of}
use pingerus.CheckService.Isolation.{IsNumbered, Untouched}
use pingerus.CheckService.Requests
use pingerus.CheckService.Requests.{handle, handle-isolated}
use pingerus.Gateway.{
  Request, sign_up, sign_in, refresh, logout, me, of_checks, check_method, full_method, handler,
  serve, serve_all,
}

checks-Private : (r : Requests.Request) → is_public (check_method r) ≡ false
unfolding is_public text_eq
checks-Private (Requests.create req) = refl
checks-Private (Requests.get id) = refl
checks-Private (Requests.update inp) = refl
checks-Private (Requests.delete id) = refl
checks-Private (Requests.list id) = refl

me-Private : is_public (full_method me) ≡ false
unfolding is_public text_eq
me-Private = refl

module _ (e : Encoding) (c : Crypto) (cfg : Config) (name : Text) (v : Validators) (user : ℤ) where
  -- The token of the call is not one of the user.
  abbrev pub IsForeign : Metadata × Request → Type 0
  IsForeign (md, r) =
      (id : ℤ) (w : World)
      → (AuthService.parse_access e c cfg (bearer c.lower md) w).0 ≡ ok id
      → user ≢ id

  -- The user's checks are as they were, and numbers stay in order.
  abbrev IsKept : World → World → Type 0
  IsKept w u = IsNumbered u × Untouched user w u

  Fixes-IsKept :
      {A : Type 0} {m : Op A} → Fixes checks_of m → (w : World) → IsNumbered w → IsKept w (m w).1
  Fixes-IsKept h w n =
      (subst (λ x. IdsBelow x.1 x.0) (sym (h.same w)) n, ap (λ x. rows_of user x.0) (h.same w))

  IsKept-trans : (w u t : World) → IsKept w u → IsKept u t → IsKept w t
  IsKept-trans w u t (n, same) (n', same') = (n', same' ∙ same)

  -- A call for another user, once its token is read.
  abbrev IsKeeping : Metadata → Request → Type 0
  IsKeeping md r =
      (id : ℤ) (u : World)
      → user ≢ id
      → IsNumbered u
      → IsKept u (handler e c cfg name v md r (some id) u).1

  private-IsKept :
      (md : Metadata) (r : Request) (w : World)
      → is_public (full_method r) ≡ false
      → IsKeeping md r
      → IsForeign (md, r)
      → IsNumbered w
      → IsKept w (serve e c cfg name v md r w)
  unfolding serve
  private-IsKept md r w private keeping foreign n =
      let token : Text = bearer c.lower md in
      let after : World = (AuthService.parse_access e c cfg token w).1 in
      let read : IsKept w after = Fixes-IsKept (parse_access-Fixes e c cfg token) w n in
      elim (unary_auth_interceptor-cases c.lower (AuthService.parse_access e c cfg) (full_method r)
        md (handler e c cfg name v md r) w private) [
          | inl (_, inl unread) ↦ subst (IsKept w) (sym unread) (n, refl)
          | inl (_, inr parsed) ↦ subst (IsKept w) (sym parsed) read
          | inr (id, names, ran) ↦ subst (IsKept w) (ap (λ x. x.1) (sym ran)) (
              IsKept-trans w after (handler e c cfg name v md r (some id) after).1 read
                (keeping id after (foreign id w names) read.0))
        ]

  check-IsKept :
      (md : Metadata) (r : Requests.Request) (id : ℤ) (u : World)
      → IsKept u (handle v id r u)
      → IsKept u (handler e c cfg name v md (of_checks r) (some id) u).1
  unfolding handle handler
  check-IsKept md r id u h = h

  serve-IsKept :
      (md : Metadata) (r : Request) (w : World)
      → IsForeign (md, r)
      → IsNumbered w
      → IsKept w (serve e c cfg name v md r w)
  unfolding serve handler unary_auth_interceptor is_public text_eq
  serve-IsKept md (sign_up valid email password) w foreign n =
      Fixes-IsKept (sign_up-answers e c cfg name valid email password) w n
  serve-IsKept md (sign_in valid email password) w foreign n =
      Fixes-IsKept (sign_in-answers e c cfg name valid email password) w n
  serve-IsKept md refresh w foreign n = Fixes-IsKept (refresh-answers e c cfg name md) w n
  serve-IsKept md logout w foreign n = Fixes-IsKept (logout-answers e c cfg name md) w n
  serve-IsKept md me w foreign n =
      private-IsKept md me w me-Private (λ id u ne m. Fixes-IsKept (me-answers e c cfg name md) u m)
        foreign n
  serve-IsKept md (of_checks r) w foreign n =
      private-IsKept md (of_checks r) w (checks-Private r)
        (λ id u ne m. check-IsKept md r id u (handle-isolated v user id ne r u m)) foreign n

  -- Where the numbers of the checks are in order, below the sequence: whatever calls come to the
  -- gateway, of any of its methods and with any answers of the database: if
  -- none of their tokens is one of the user, then the user's rows of the table checks stay as they were,
  -- in their order.
  pub serve_all-Untouched :
      (calls : List (Metadata × Request)) (w : World)
      → All IsForeign calls
      → IsNumbered w
      → Untouched user w (serve_all e c cfg name v calls w)
  unfolding serve_all
  serve_all-Untouched [] w foreign n = refl
  serve_all-Untouched ((md, r) ∷ rs) w (foreign, more) n =
      let (n', same) = serve-IsKept md r w foreign n in
      serve_all-Untouched rs (serve e c cfg name v md r w) more n' ∙ same
