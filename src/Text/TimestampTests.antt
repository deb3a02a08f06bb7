-- ===== src/Text/TimestampTests.antt =====
-- Dates that are known.
use pingerus.Base.{◌+◌, ◌≡◌, refl}
use pingerus.Text.{codes}
use pingerus.Text.Timestamp.{format_rfc3339}

zero_time : format_rfc3339 0 ≡ codes "0001-01-01T00:00:00Z"
unfolding format_rfc3339
zero_time = refl

unix_time : format_rfc3339 62135596800 ≡ codes "1970-01-01T00:00:00Z"
unfolding format_rfc3339
unix_time = refl

leap_day : format_rfc3339 (62135596800 + 1709208000) ≡ codes "2024-02-29T12:00:00Z"
unfolding format_rfc3339
leap_day = refl

last_day : format_rfc3339 (62135596800 + 978307199) ≡ codes "2000-12-31T23:59:59Z"
unfolding format_rfc3339
last_day = refl
