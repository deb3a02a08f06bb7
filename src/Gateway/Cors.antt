-- ===== src/Gateway/Cors.antt =====
-- cmd/api-gateway/cors.go. The names of headers are written in their canonical form here, so that they
-- are compared as they stand.
use pingerus.Base.{
  ◌≡◌, refl, inl, inr, Bool, true, false, Option, none, some, List, [], ◌∷◌, exists, if◌then◌else◌,
  Bool-cases,
}
use pingerus.Text.{Text, codes, text_eq}

abbrev pub Headers : Type 0
Headers = List (Text × Text)

-- Header().Set: the values under the key are replaced.
unfoldable pub set : Text → Text → Headers → Headers
unfolding text_eq
set key new [] = (key, new) ∷ []
set key new ((k, v) ∷ hs) =
    let rest = set key new hs in if text_eq k key then (k, new) ∷ hs else (k, v) ∷ rest

unfoldable pub lookup : Text → Headers → Option Text
unfolding text_eq
lookup key [] = none
lookup key ((k, v) ∷ hs) = let rest = lookup key hs in if text_eq k key then some v else rest

-- The middleware answers 204 by itself, or the next handler runs on the headers.
pub data Outcome : Type 0 where
  no_content passed : Headers → Outcome

abbrev pub allow_origin : Text
allow_origin = codes "Access-Control-Allow-Origin"

abbrev pub allow_credentials : Text
allow_credentials = codes "Access-Control-Allow-Credentials"

-- The headers for an origin that is allowed.
unfoldable pub allow : Text → Headers → Headers
unfolding set
allow origin hs = set (codes "Access-Control-Allow-Headers") (codes "Content-Type, Authorization") (
    set (codes "Access-Control-Allow-Methods") (codes "GET,POST,PUT,DELETE,OPTIONS") (
      set allow_credentials (codes "true")
        (set (codes "Vary") (codes "Origin") (set allow_origin origin hs))))

-- cors; `origin` is the value of the request's header Origin, empty if there is none.
unfoldable pub cors : List Text → Text → Text → Outcome
unfolding allow
cors allowed method origin =
    let hs : Headers = if exists (λ o. text_eq o origin) allowed then allow origin [] else [] in
    if text_eq method (codes "OPTIONS") then no_content hs else passed hs

abbrev pub headers_of : Outcome → Headers
headers_of (no_content hs) = hs
headers_of (passed hs) = hs

lookup-allow :
    (origin : Text)
    → (lookup allow_origin (allow origin []) ≡ some origin)
      × (lookup allow_credentials (allow origin []) ≡ some (codes "true"))
unfolding allow set lookup text_eq
lookup-allow origin = (refl, refl)

headers_of-if : (b : Bool) (hs : Headers) → headers_of (if b then no_content hs else passed hs) ≡ hs
headers_of-if true hs = refl
headers_of-if false hs = refl

headers_of-cors :
    (allowed : List Text) (method origin : Text)
    → headers_of (cors allowed method origin)
      ≡ (if exists (λ o. text_eq o origin) allowed then allow origin [] else [])
unfolding cors
headers_of-cors allowed method origin = headers_of-if (text_eq method (codes "OPTIONS")) _

-- Whatever the method is, the middleware names an origin to the browser, and lets it send credentials,
-- just where that is the request's origin and stands among the allowed ones.
pub cors-allowed :
    (allowed : List Text) (method origin : Text)
    → (lookup allow_origin (headers_of (cors allowed method origin))
        ≡ (if exists (λ o. text_eq o origin) allowed then some origin else none))
      × (lookup allow_credentials (headers_of (cors allowed method origin))
          ≡ (if exists (λ o. text_eq o origin) allowed then some (codes "true") else none))
cors-allowed allowed method origin = elim (Bool-cases (exists (λ o. text_eq o origin) allowed)) [
  | inl known ↦ rw (headers_of-cors allowed method origin, known) (lookup-allow origin)
  | inr other ↦ rw (headers_of-cors allowed method origin, other) (unfold lookup in (refl, refl))
]
