-- ===== src/Text/Decimal.antt =====
-- strconv.FormatInt and strconv.ParseInt in base 10 for 64-bit integers, and their round trip.
use native.Mathlib.Nat.{pow-suc}
use pingerus.Base.{
  ℕ, zero, suc, ◌+◌, ◌-◌, ◌*◌, ◌/◌, ◌%◌, ◌^◌, ◌<◌, ◌≡◌, refl, Bool, true, false, ◌&&◌, Option, none,
  some, [], ◌∷◌, ◌++◌, arith, ltb, leb, ap, ◌==◌, if◌then◌else◌, inl, inr, Bool-cases,
}
use pingerus.Base.Int.{ℤ, pos, negsuc}
use pingerus.Text.{Text, Lacks}

-- The decimal digits of a number below 10 ^ f, most significant first.
digits : ℕ → ℕ → Text
digits zero n = []
digits (suc f) n =
    let rest = digits f (n / 10) in if ltb n 10 then (n + 48) ∷ [] else rest ++ (n % 10 + 48) ∷ []

-- strconv.FormatInt(i, 10): twenty digits hold every 64-bit number.
unfoldable pub format_int : ℤ → Text
unfolding digits
format_int (pos n) = digits 20 n
format_int (negsuc n) = b'-' ∷ digits 20 (n + 1)

abbrev is_digit : ℕ → Bool
is_digit c = leb 48 c && leb c 57

parse_from : ℕ → Text → Option ℕ
parse_from acc [] = some acc
parse_from acc (c ∷ s) = if is_digit c then parse_from (acc * 10 + (c - 48)) s else none

unfoldable pub parse_digits : Text → Option ℕ
unfolding parse_from
parse_digits [] = none
parse_digits (c ∷ s) = parse_from 0 (c ∷ s)

abbrev as_positive : Option ℕ → Option ℤ
as_positive none = none
as_positive (some n) = if ltb n (2 ^ 63) then some (pos n) else none

abbrev as_negative : Option ℕ → Option ℤ
as_negative none = none
as_negative (some n) =
    if n == 0 then some (pos 0) else if leb n (2 ^ 63) then some (negsuc (n - 1)) else none

-- strconv.ParseInt(s, 10, 64)
unfoldable pub parse_int : Text → Option ℤ
unfolding parse_digits
parse_int [] = none
parse_int (c ∷ s) =
    if c == b'+'
    then as_positive (parse_digits s)
    else if c == b'-'
    then as_negative (parse_digits s)
    else as_positive (parse_digits (c ∷ s))

abbrev then_digit : ℕ → Option ℕ → Option ℕ
then_digit d none = none
then_digit d (some n) = some (n * 10 + d)

parse_from-digit :
    (acc d : ℕ) (s : Text)
    → d < 10
    → parse_from acc (s ++ (d + 48) ∷ []) ≡ then_digit d (parse_from acc s)
unfolding parse_from
parse_from-digit acc d [] h = ground arith
parse_from-digit acc d (c ∷ s) h = ground (arith, parse_from-digit (acc * 10 + (c - 48)) d s)

div-lt-pow : (f n : ℕ) → n < 10 ^ suc f → n / 10 < 10 ^ f
div-lt-pow f n h = let e : 10 ^ suc f ≡ 10 ^ f * 10 = pow-suc 10 f in omega arith

parse_from-digits : (f n : ℕ) → n < 10 ^ suc f → parse_from 0 (digits (suc f) n) ≡ some n
parse_from-digits zero n h = unfold digits parse_from in ground arith
parse_from-digits (suc f) n h = elim (Bool-cases (ltb n 10)) [
  | inl small ↦ unfold digits parse_from in rw small (ground arith)
  | inr big ↦
      rw
        (
          one_more big,
          parse_from-digit 0 (n % 10) (digits (suc f) (n / 10)) (omega arith),
          parse_from-digits f (n / 10) (div-lt-pow (suc f) n h),
        )
        (ap some (omega arith))
]
  where
    one_more :
        ltb n 10 ≡ false → digits (suc (suc f)) n ≡ digits (suc f) (n / 10) ++ (n % 10 + 48) ∷ []
    one_more big = unfold digits in rw big

-- The text begins with a digit.
abbrev StartsDigit : Text → Type 0
StartsDigit [] = ⊥
StartsDigit (c ∷ s) = is_digit c ≡ true

StartsDigit-append : (s t : Text) → StartsDigit s → StartsDigit (s ++ t)
StartsDigit-append (c ∷ s) t h = h
StartsDigit-append [] t h = absurd h

digits-StartsDigit : (f n : ℕ) → StartsDigit (digits (suc f) n)
unfolding digits
digits-StartsDigit zero n = ground arith
digits-StartsDigit (suc f) n = elim (Bool-cases (ltb n 10)) [
  | inl small ↦ rw small (ground arith)
  | inr big ↦ rw big (StartsDigit-append _ _ (digits-StartsDigit f (n / 10)))
]

parse_int-StartsDigit : (s : Text) → StartsDigit s → parse_int s ≡ as_positive (parse_from 0 s)
unfolding parse_int
parse_int-StartsDigit [] h = absurd h
parse_int-StartsDigit (c ∷ s) h = ground arith

parse_digits-StartsDigit : (s : Text) → StartsDigit s → parse_digits s ≡ parse_from 0 s
unfolding parse_digits
parse_digits-StartsDigit [] h = absurd h
parse_digits-StartsDigit (c ∷ s) h = refl

-- The integers of 64 bits.
abbrev pub IsInt64 : ℤ → Type 0
IsInt64 (pos n) = n < 2 ^ 63
IsInt64 (negsuc n) = n < 2 ^ 63

-- Every 64-bit integer is read back from its decimal text.
pub parse_int-format_int : (i : ℤ) → IsInt64 i → parse_int (format_int i) ≡ some i
unfolding format_int
parse_int-format_int (pos n) h =
    rw
      (
        parse_int-StartsDigit (digits 20 n) (digits-StartsDigit 19 n),
        parse_from-digits 19 n (omega arith),
      )
      (ground arith)
parse_int-format_int (negsuc n) h =
    unfold parse_int in
    rw
      (
        parse_digits-StartsDigit (digits 20 (n + 1)) (digits-StartsDigit 19 (n + 1)),
        parse_from-digits 19 (n + 1) (omega arith),
      )
      (ground arith)

Lacks-snoc : (c : ℕ) (s : Text) (d : ℕ) → Lacks c s → (d == c) ≡ false → Lacks c (s ++ d ∷ [])
Lacks-snoc c [] d h e = (e, tt)
Lacks-snoc c (x ∷ s) d h e = (h.0, Lacks-snoc c s d h.1 e)

digits-Lacks : (c f n : ℕ) → 57 < c → Lacks c (digits f n)
unfolding digits
digits-Lacks c zero n h = tt
digits-Lacks c (suc f) n h = elim (Bool-cases (ltb n 10)) [
  | inl small ↦ rw small (ground (arith, small), tt)
  | inr big ↦
      rw big (
        Lacks-snoc c (digits f (n / 10)) (n % 10 + 48) (digits-Lacks c f (n / 10) h) (ground arith))
]

-- The decimal text of a number has no character above the digits.
pub format_int-Lacks : (c : ℕ) (i : ℤ) → 57 < c → Lacks c (format_int i)
unfolding format_int
format_int-Lacks c (pos n) h = digits-Lacks c 20 n h
format_int-Lacks c (negsuc n) h = (ground arith, digits-Lacks c 20 (n + 1) h)
