-- ===== src/AuthService/Cookies.antt =====
-- The refresh cookie on its way back.
use pingerus.Base.{◌≡◌, refl, ap, ◌∙◌, false, some, List, [], ◌∷◌, ◌++◌, All}
use pingerus.Text.{
  Text, Lacks, is_space, is_empty, trim_left, trim_right, trim_space, split, split_two, cons_first,
  text_eq,
}
use pingerus.Text.Laws.{text_eq_refl, split-append, split-Lacks}
use pingerus.AuthService.Api.{
  Metadata, first_value, cookie_value, or_else, parse_cookie, search_cookies, get_refresh,
}

-- No white space, and no semicolon.
abbrev pub IsPlain : Text → Type 0
IsPlain s = All (λ c. is_space c ≡ false) s × Lacks 59 s

-- The name of a cookie, which has no equals sign either.
abbrev pub IsName : Text → Type 0
IsName s = IsPlain s × Lacks 61 s

abbrev pub pair : Text → Text → Text
pair k v = k ++ 61 ∷ v

-- The header of a browser: the cookies before, and then this one.
pub cookie_header : List (Text × Text) → Text → Text → Text
cookie_header [] name raw = pair name raw
cookie_header ((k, v) ∷ ps) name raw = pair k v ++ 59 ∷ 32 ∷ cookie_header ps name raw

-- The cookie is another one.
abbrev pub IsOther : Text → Text × Text → Type 0
IsOther name (k, v) = IsName k × IsPlain v × (text_eq k name ≡ false)

trim_left-black : (s : Text) → All (λ c. is_space c ≡ false) s → trim_left s ≡ s
unfolding trim_left
trim_left-black [] h = refl
trim_left-black (c ∷ s) h = rw h.0 refl

trim_right-black : (s : Text) → All (λ c. is_space c ≡ false) s → trim_right s ≡ s
unfolding trim_right
trim_right-black [] h = refl
trim_right-black (c ∷ s) h = rw (h.0, trim_right-black s h.1) refl

trim_space-black : (s : Text) → All (λ c. is_space c ≡ false) s → trim_space s ≡ s
unfolding trim_space
trim_space-black s h = rw (trim_left-black s h) (trim_right-black s h)

black-pair :
    (k v : Text)
    → All (λ c. is_space c ≡ false) k
    → All (λ c. is_space c ≡ false) v
    → All (λ c. is_space c ≡ false) (pair k v)
black-pair [] v h h' = (unfold is_space in refl, h')
black-pair (c ∷ k) v h h' = (h.0, black-pair k v h.1 h')

Lacks-pair : (k v : Text) → Lacks 59 k → Lacks 59 v → Lacks 59 (pair k v)
Lacks-pair [] v h h' = (refl, h')
Lacks-pair (c ∷ k) v h h' = (h.0, Lacks-pair k v h.1 h')

split_two-pair : (k v : Text) → Lacks 61 k → split_two 61 (pair k v) ≡ some (k, v)
unfolding split_two
split_two-pair [] v h = refl
split_two-pair (c ∷ k) v h = rw (h.0, split_two-pair k v h.1) refl

read-pair : (k v : Text) → IsName k → IsPlain v → split_two 61 (trim_space (pair k v)) ≡ some (k, v)
read-pair k v h h' =
    rw (trim_space-black (pair k v) (black-pair k v h.0.0 h'.0)) (split_two-pair k v h.1)

trim_space-space : (s : Text) → trim_space (32 ∷ s) ≡ trim_space s
unfolding trim_space trim_left is_space
trim_space-space s = refl

first_value-space :
    (name s : Text) → first_value name (split 59 (32 ∷ s)) ≡ first_value name (split 59 s)
unfolding split split_two trim_space trim_left trim_right is_space
first_value-space name s = after (split 59 s)
  where
    after : (ps : List Text) → first_value name (cons_first 32 ps) ≡ first_value name ps
    after [] = refl
    after (q ∷ ps) =
        ap (λ t. or_else (cookie_value name (split_two 61 t)) (first_value name ps))
          (trim_space-space q)

first_value-header :
    (ps : List (Text × Text)) (name raw : Text)
    → All (IsOther name) ps
    → IsName name
    → IsPlain raw
    → first_value name (split 59 (cookie_header ps name raw)) ≡ raw
unfolding cookie_header
first_value-header [] name raw others h h' =
    rw
      (
        split-Lacks 59 (pair name raw) (Lacks-pair name raw h.0.1 h'.1),
        read-pair name raw h h',
        text_eq_refl name,
      )
      refl
first_value-header ((k, v) ∷ ps) name raw ((key, content, other), more) h h' =
    rw
      (
        split-append 59 (pair k v) (32 ∷ cookie_header ps name raw)
            (Lacks-pair k v key.0.1 content.1),
        read-pair k v key content,
        other,
      )
      (first_value-space name (cookie_header ps name raw)
        ∙ first_value-header ps name raw more h h')

-- The value of the refresh cookie is read back from the header in which a browser sends it after other
-- cookies, if the cookies have no white space and no semicolons, and their names no equals signs, and the
-- value is not empty.
pub get_refresh-cookie_header :
    (ps : List (Text × Text)) (name raw : Text) (md : Metadata)
    → All (IsOther name) ps
    → IsName name
    → IsPlain raw
    → is_empty raw ≡ false
    → md.gateway_cookies ≡ cookie_header ps name raw ∷ []
    → get_refresh name md ≡ raw
unfolding get_refresh search_cookies parse_cookie
get_refresh-cookie_header ps name raw md others h h' full sent =
    rw (sent, first_value-header ps name raw others h h', full) refl
