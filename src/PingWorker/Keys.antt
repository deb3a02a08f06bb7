-- ===== src/PingWorker/Keys.antt =====
-- The keys under which changes of status enter the outbox.
use pingerus.Base.{◌≡◌, refl, sym, ap, ◌∙◌, Option, none, some, List, [], ◌∷◌, ◌++◌, arith}
use pingerus.Base.Int.{ℤ}
use pingerus.Text.{Text, Lacks, codes, split}
use pingerus.Text.Decimal.{IsInt64, format_int, parse_int, parse_int-format_int, format_int-Lacks}
use pingerus.Text.Laws.{split-append, split-Lacks}
use pingerus.World.Rows.{Time}
use pingerus.PingWorker.{unix_nano, status_key}

split-status_key :
    (id : ℤ) (at : Time)
    → split 58 (status_key id at) ≡ codes "status" ∷ format_int id ∷ format_int (unix_nano at) ∷ []
unfolding status_key
split-status_key id at =
    split-append 58 (codes "status") (format_int id ++ 58 ∷ format_int (unix_nano at)) word
    ∙ ap (λ t. codes "status" ∷ t)
        (split-append 58 (format_int id) (format_int (unix_nano at))
            (format_int-Lacks 58 id (omega arith))
          ∙ ap (λ t. format_int id ∷ t)
              (split-Lacks 58 (format_int (unix_nano at))
                (format_int-Lacks 58 (unix_nano at) (omega arith))))
  where
    word : Lacks 58 (codes "status")
    word = (refl, (refl, (refl, (refl, (refl, (refl, tt))))))

-- The number that stands second or third among the parts.
abbrev second_number : List Text → Option ℤ
second_number (a ∷ b ∷ ps) = parse_int b
second_number _ = none

abbrev third_number : List Text → Option ℤ
third_number (a ∷ b ∷ c ∷ ps) = parse_int c
third_number _ = none

some_inj : {A : Type 0} {a b : A} → some a ≡ some b → a ≡ b
some_inj e = cc

-- Two changes of status have the same key in the outbox only if they are of the same check and of the
-- same nanosecond, where both are in the range of 64 bits.
pub status_key-inj :
    (id id' : ℤ) (at at' : Time)
    → IsInt64 id
    → IsInt64 id'
    → IsInt64 (unix_nano at)
    → IsInt64 (unix_nano at')
    → status_key id at ≡ status_key id' at'
    → (id ≡ id') × (unix_nano at ≡ unix_nano at')
status_key-inj id id' at at' h h' t t' e =
    let parts = sym (split-status_key id at) ∙ ap (λ k. split 58 k) e ∙ split-status_key id' at' in
    (
      some_inj
          (sym (parse_int-format_int id h) ∙ ap second_number parts ∙ parse_int-format_int id' h'),
      some_inj (
          sym (parse_int-format_int (unix_nano at) t)
          ∙ ap third_number parts
          ∙ parse_int-format_int (unix_nano at') t'),
    )
