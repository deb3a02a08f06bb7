-- ===== src/Text/Laws.antt =====
-- Laws of the string functions: equality, trimming, splitting and prefixes.
use pingerus.Base.{ℕ, ◌≡◌, ◌↔◌, refl, true, false, [], ◌∷◌, ◌++◌, arith}
use pingerus.Text.{
  Text, Lacks, text_eq, is_space, trim_left, trim_right, trim_space, split, has_prefix,
}

text_eq_sound : (s t : Text) → text_eq s t ≡ true → s ≡ t
unfolding text_eq
text_eq_sound [] [] h = refl
text_eq_sound [] (b ∷ t) h = cc
text_eq_sound (a ∷ s) [] h = cc
text_eq_sound (a ∷ s) (b ∷ t) h = ground (arith, text_eq_sound s t)

pub text_eq_refl : (s : Text) → text_eq s s ≡ true
unfolding text_eq
text_eq_refl [] = refl
text_eq_refl (a ∷ s) = ground (arith, text_eq_refl s)

pub text_eq_iff : (s t : Text) → (text_eq s t ≡ true) ↔ (s ≡ t)
text_eq_iff s t = (text_eq_sound s t, λ e. rw e (text_eq_refl t))

-- A text with no leading white space.
abbrev pub StartsBlack : Text → Type 0
StartsBlack [] = Unit
StartsBlack (c ∷ s) = is_space c ≡ false

trim_left-StartsBlack : (s : Text) → StartsBlack (trim_left s)
unfolding trim_left
trim_left-StartsBlack [] = tt
trim_left-StartsBlack (c ∷ s) = ground (arith, trim_left-StartsBlack s)

trim_left-id : (s : Text) → StartsBlack s → trim_left s ≡ s
unfolding trim_left
trim_left-id [] h = refl
trim_left-id (c ∷ s) h = ground arith

trim_right-StartsBlack : (s : Text) → StartsBlack s → StartsBlack (trim_right s)
unfolding trim_right
trim_right-StartsBlack [] h = tt
trim_right-StartsBlack (c ∷ s) h = ground arith

trim_right_idem : (s : Text) → trim_right (trim_right s) ≡ trim_right s
unfolding trim_right
trim_right_idem [] = refl
trim_right_idem (c ∷ s) = ground (arith, trim_right_idem s)

-- Trimming a trimmed text changes nothing.
pub trim_space_idem : (s : Text) → trim_space (trim_space s) ≡ trim_space s
unfolding trim_space
trim_space_idem s =
    rw
      (trim_left-id (trim_right (trim_left s))
        (trim_right-StartsBlack (trim_left s) (trim_left-StartsBlack s)))
      (trim_right_idem (trim_left s))

-- Splitting after a first part that lacks the separator.
pub split-append : (sep : ℕ) (s t : Text) → Lacks sep s → split sep (s ++ sep ∷ t) ≡ s ∷ split sep t
unfolding split
split-append sep [] t h = ground arith
split-append sep (c ∷ s) t h = ground (arith, split-append sep s t h.1)

pub split-Lacks : (sep : ℕ) (s : Text) → Lacks sep s → split sep s ≡ s ∷ []
unfolding split
split-Lacks sep [] h = refl
split-Lacks sep (c ∷ s) h = ground (arith, split-Lacks sep s h.1)

pub has_prefix-append : (p s : Text) → has_prefix (p ++ s) p ≡ true
unfolding has_prefix
has_prefix-append [] [] = refl
has_prefix-append [] (c ∷ s) = refl
has_prefix-append (p ∷ ps) s = ground (arith, has_prefix-append ps s)
