-- ===== src/Text/Timestamp.antt =====
-- time.Time.Format with the layout RFC3339, of a time in UTC.
use pingerus.Base.{ℕ, zero, suc, ◌+◌, ◌-◌, ◌*◌, ◌/◌, ◌%◌, [], ◌∷◌, ◌++◌, ltb, leb, if◌then◌else◌}
use pingerus.Base.Int.{pos}
use pingerus.Text.{Text}
use pingerus.Text.Decimal.{format_int}

-- At least `width` digits, with zeros in front.
unfoldable pub pad : ℕ → ℕ → Text
unfolding format_int
pad width n = zeros (width - count (format_int (pos n))) ++ format_int (pos n)
  where
    count : Text → ℕ
    count [] = 0
    count (c ∷ s) = count s + 1

    zeros : ℕ → Text
    zeros zero = []
    zeros (suc k) = b'0' ∷ zeros k

pub record Date : Type 0 where
  pub year : ℕ
  pub month : ℕ
  pub day : ℕ

-- The date of a number of days since 1 January of the year 1, in the Gregorian calendar: days are counted
-- from 1 March of the year 0, in eras of 400 years.
unfoldable pub date_of : ℕ → Date
date_of days =
    let z = days + 306 in
    let era = z / 146097 in
    let doe = z % 146097 in
    let yoe = (doe + doe / 36524 - doe / 1460 - doe / 146096) / 365 in
    let doy = doe - (365 * yoe + yoe / 4 - yoe / 100) in
    let mp = (5 * doy + 2) / 153 in
    let month = if ltb mp 10 then mp + 3 else mp - 9 in
    record {
      year = yoe + era * 400 + (if leb month 2 then 1 else 0);
      month = month;
      day = doy - (153 * mp + 2) / 5 + 1;
    }

-- t.UTC().Format(time.RFC3339), of a number of seconds since the zero time.
unfoldable pub format_rfc3339 : ℕ → Text
unfolding pad date_of
format_rfc3339 seconds =
    let d = date_of (seconds / 86400) in
    let s = seconds % 86400 in
    pad 4 d.year
    ++ (b'-' ∷ pad 2 d.month
        ++ (b'-' ∷ pad 2 d.day
            ++ (b'T' ∷ pad 2 (s / 3600)
                ++ (b':' ∷ pad 2 (s / 60 % 60) ++ (b':' ∷ pad 2 (s % 60) ++ b'Z' ∷ [])))))
