-- ===== src/Build/Time.antt =====
-- `formatTime` of internal/build/coordinator/store.go: a UTC time as time.RFC3339Nano.
use tinycloud_platform.Base.{
  ℕ, ◌+◌, ◌-◌, ◌*◌, ◌/◌, ◌%◌, [], ◌∷◌, ◌++◌, ltb, ◌==◌, if◌then◌else◌, Str,
}
use tinycloud_platform.Text.{padded, trim_right_byte}

-- A time.Time from 1970 on: the seconds since then, and the nanoseconds within the second.
pub record Time : Type 0 where
  pub seconds : ℕ
  pub nanos : ℕ

-- "2006-01-02", from the days since 1970-01-01
unfoldable pub date : ℕ → Str
unfolding padded
date days =
    let z = days + 719468 in
    let era = z / 146097 in
    let doe = z % 146097 in
    let yoe = (doe + doe / 36524 - doe / 1460 - doe / 146096) / 365 in
    let doy = doe + yoe / 100 - (365 * yoe + yoe / 4) in
    let mp = (5 * doy + 2) / 153 in
    let day = doy + 1 - (153 * mp + 2) / 5 in
    let month = if ltb mp 10 then mp + 3 else mp - 9 in
    let year = yoe + era * 400 + (if ltb month 3 then 1 else 0) in
    padded 4 year ++ b'-' ∷ padded 2 month ++ b'-' ∷ padded 2 day

-- "15:04:05", from the second of the day
unfoldable pub clock : ℕ → Str
unfolding padded
clock s = padded 2 (s / 3600) ++ b':' ∷ padded 2 (s / 60 % 60) ++ b':' ∷ padded 2 (s % 60)

-- ".999999999": the fraction of the second without its trailing zeros, and nothing if it is 0
unfoldable pub fraction : ℕ → Str
unfolding padded trim_right_byte
fraction n = if n == 0 then [] else b'.' ∷ trim_right_byte b'0' (padded 9 n)

unfoldable pub date_time : ℕ → Str
unfolding date clock
date_time s = date (s / 86400) ++ b'T' ∷ clock (s % 86400)

unfoldable pub format_time : Time → Str
unfolding date_time fraction
format_time t = date_time t.seconds ++ fraction t.nanos ++ b'Z' ∷ []
