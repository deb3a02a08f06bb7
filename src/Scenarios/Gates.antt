-- ===== src/Scenarios/Gates.antt =====
-- The gateway of the small deployment.
use pingerus.Base.{
  ◌≡◌, ◌≢◌, refl, true, false, Option, none, some, List, [], ◌∷◌, ◌++◌, ◌⊎◌, exists, if◌then◌else◌,
  arith,
}
use pingerus.Base.Int.{ℤ, pos, int_eq}
use pingerus.Text.{Text, codes, text_eq, split, is_space, lower_rune}
use pingerus.Text.Laws.{text_eq_refl}
use pingerus.World.{World, Op, interact, pure, ◌>>=◌}
use pingerus.World.Errors.{ok}
use pingerus.World.Rows.{User}
use pingerus.Postgres.Users
use pingerus.Postgres.Tokens
use pingerus.AuthService.{TokenPair, normalize_email, issue_tokens, sign_up, sign_in, parse_access}
use pingerus.AuthService.Api.{Metadata, bearer, get_refresh}
use pingerus.AuthService.Jwt.{parse_and_validate}
use pingerus.AuthService.Interceptor.{
  is_public, unary_auth_interceptor, unary_auth_interceptor-cases, Refused, Passed,
}
use pingerus.AuthService.Cookies.{
  IsName, IsPlain, IsOther, cookie_header, get_refresh-cookie_header,
}
use pingerus.AuthService.SignIn.{sign_up-sign_in}
use pingerus.CheckService.Isolation.{Untouched}
use pingerus.CheckService.Requests
use pingerus.Gateway.{Request, logout, me, of_checks, serve_all, full_method}
use pingerus.Gateway.Tenants.{serve_all-Untouched}
use pingerus.Gateway.Cors.{cors, cors-allowed, lookup, headers_of, allow_origin, allow_credentials}
use pingerus.Scenarios.{world, accept_all}
use pingerus.Scenarios.Accounts.{shifted, blank, crypto, config, given}

abbrev no_metadata : Metadata
no_metadata = record { gateway_cookies = []; cookies = []; refresh_tokens = []; authorization = [] }

abbrev with_token : Metadata
with_token = record no_metadata { authorization = (codes "Bearer " ++ given.access) ∷ [] }

delete_private : is_public (full_method (of_checks (Requests.delete (pos 1)))) ≡ false
unfolding is_public text_eq
delete_private = refl

abbrev echo : Option ℤ → Op (Option ℤ)
echo user = pure user

unary_auth_interceptor-cases_example :
    Refused crypto.lower (parse_access shifted crypto config) with_token world (
      unary_auth_interceptor crypto.lower
        (parse_access shifted crypto config)
        (full_method (of_checks (Requests.delete (pos 1))))
        with_token
        echo
        world)
    ⊎ Passed crypto.lower (parse_access shifted crypto config) with_token echo world (
        unary_auth_interceptor crypto.lower
          (parse_access shifted crypto config)
          (full_method (of_checks (Requests.delete (pos 1))))
          with_token
          echo
          world)
unary_auth_interceptor-cases_example =
    unary_auth_interceptor-cases crypto.lower (parse_access shifted crypto config)
      (full_method (of_checks (Requests.delete (pos 1)))) with_token echo world delete_private

-- A call that brings no token.
unnamed :
    (id : ℤ) (w : World)
    → (parse_access shifted crypto config (bearer crypto.lower no_metadata) w).0 ≡ ok id
    → pos 1 ≢ id
unfolding parse_access bearer parse_and_validate split ◌>>=◌
unnamed id w h = absurd cc

abbrev calls : List (Metadata × Request)
calls =
    (no_metadata, of_checks (Requests.delete (pos 1)))
    ∷ (no_metadata, logout)
    ∷ (no_metadata, me)
    ∷ []

serve_all-Untouched_example :
    Untouched (pos 1) world (serve_all shifted crypto config (codes "rt") accept_all calls world)
serve_all-Untouched_example =
    serve_all-Untouched shifted crypto config (codes "rt") accept_all (pos 1) calls world
      (unnamed, (unnamed, (unnamed, tt))) (refl, omega arith, (refl, omega arith, tt))

abbrev home : Text
home = codes "http://frontend:80"

cors-allowed_example :
    (lookup allow_origin (headers_of (cors (home ∷ []) (codes "GET") home))
      ≡ (if exists (λ o. text_eq o home) (home ∷ []) then some home else none))
    × (lookup allow_credentials (headers_of (cors (home ∷ []) (codes "GET") home))
        ≡ (if exists (λ o. text_eq o home) (home ∷ []) then some (codes "true") else none))
cors-allowed_example = cors-allowed (home ∷ []) (codes "GET") home

-- A new account.
abbrev address : Text
address = codes "new@b.c"

abbrev registered : World
registered = (sign_up blank crypto config address (codes "pw") world).1

abbrev newcomer : User
newcomer = record {
  id = pos 3;
  email = address;
  password = codes "pw";
  created_at = world.clock;
  updated_at = world.clock;
}

abbrev handed_out : TokenPair
handed_out = record { access = 46 ∷ 46 ∷ []; refresh = world.clock ∷ [] }

signed_up : (sign_up blank crypto config address (codes "pw") world).0 ≡ ok (newcomer, handed_out)
unfolding sign_up issue_tokens Users.create Tokens.create Tokens.insert_row interact int_eq text_eq
    is_space lower_rune ◌>>=◌
signed_up = refl

bcrypt_accepts :
    (p h : Text) (at : World) → crypto.hash_password p at ≡ ok h → crypto.same_password h p ≡ true
bcrypt_accepts p h at e = rw (same_text e) (text_eq_refl p)
  where
    same_text : {a b : Text} → ok a ≡ ok b → b ≡ a
    same_text e = cc

shouted :
    normalize_email blank crypto config (codes " NEW@b.c ")
    ≡ normalize_email blank crypto config address
unfolding normalize_email lower_rune is_space
shouted = refl

quiet_registered : registered.script ≡ []
unfolding sign_up issue_tokens Users.create Tokens.create Tokens.insert_row interact int_eq text_eq
    is_space lower_rune ◌>>=◌
quiet_registered = refl

sign_up-sign_in_example :
    sign_in blank crypto config (codes " NEW@b.c ") (codes "pw") registered
    ≡ (do given ← issue_tokens blank crypto config (pos 3); pure (newcomer, given)) registered
sign_up-sign_in_example =
    sign_up-sign_in blank crypto config bcrypt_accepts address (codes " NEW@b.c ") (codes "pw")
      world registered newcomer handed_out signed_up refl quiet_registered shouted

key_of_cookie : IsName (codes "rt")
unfolding is_space
key_of_cookie = (((refl, (refl, tt)), (refl, (refl, tt))), (refl, (refl, tt)))

content_of_cookie : IsPlain (codes "tk")
unfolding is_space
content_of_cookie = ((refl, (refl, tt)), (refl, (refl, tt)))

theme_cookie : IsOther (codes "rt") (codes "t", codes "d")
unfolding is_space text_eq
theme_cookie = ((((refl, tt), (refl, tt)), (refl, tt)), ((refl, tt), (refl, tt)), refl)

abbrev with_cookies : Metadata
with_cookies = record no_metadata {
  gateway_cookies = cookie_header ((codes "t", codes "d") ∷ []) (codes "rt") (codes "tk") ∷ [];
}

get_refresh-cookie_header_example : get_refresh (codes "rt") with_cookies ≡ codes "tk"
get_refresh-cookie_header_example =
    get_refresh-cookie_header ((codes "t", codes "d") ∷ []) (codes "rt") (codes "tk") with_cookies
      (theme_cookie, tt) key_of_cookie content_of_cookie refl refl
