-- ===== src/Infra/Cache.antt =====
-- internal/infra/cache.go: the cache of the infrastructure snapshot, whose refreshes run behind the
-- requests. Times are nanoseconds since the cache was made. A difference of times stops at 0, which no
-- test tells from a negative one, since `NewCache` makes the three durations positive. `S` is the
-- snapshot without its flag `Stale`.
pub mod Steps
pub mod Keeps
use tinycloud_platform.Base.{
  ℕ, zero, suc, ◌+◌, ◌-◌, Bool, true, false, ◌&&◌, ◌||◌, not, Option, none, some, ltb, leb, ◌==◌,
  if◌then◌else◌, Str, ℤ, pos,
}

pub record CacheOptions : Type 0 where
  pub ttl : ℤ
  pub stale_after : ℤ
  pub timeout : ℤ

-- The fields under the mutex, and the durations. `refreshes` counts the channels `done` that were closed.
pub record Cache (S : Type 0) : Type 0 where
  pub ttl : ℕ
  pub stale_after : ℕ
  pub timeout : ℕ
  pub has_collector : Bool
  pub snap : Option S
  pub fetched_at : ℕ
  pub attempted : Option ℕ
  pub refreshing : Bool
  pub last_err : Option Str
  pub refreshes : ℕ

-- if d <= 0 { d = default }
unfoldable pub or_default : ℤ → ℕ → ℕ
or_default (pos n) d = if n == 0 then d else n
or_default (ℤ.negsuc n) d = d

unfoldable pub new_cache : {S : Type 0} → CacheOptions → Cache S
unfolding or_default
new_cache opts = record {
  ttl = or_default opts.ttl 60000000000;
  stale_after = or_default opts.stale_after 300000000000;
  timeout = or_default opts.timeout 20000000000;
  has_collector = false;
  snap = none;
  fetched_at = 0;
  attempted = none;
  refreshing = false;
  last_err = none;
  refreshes = 0;
}

-- c.attempted.IsZero() || now - c.attempted >= c.ttl
unfoldable pub is_due : ℕ → ℕ → Option ℕ → Bool
is_due ttl now none = true
is_due ttl now (some t) = leb ttl (now - t)

-- `startRefreshLocked`, with its two readings of the clock, and whether it launches a refresh.
unfoldable pub start_refresh : {S : Type 0} → ℕ → ℕ → Cache S → Cache S × Bool
unfolding is_due
start_refresh now stamp c =
    if c.refreshing
    then (c, false)
    else if not (is_due c.ttl now c.attempted)
    then (c, false)
    else (record c { refreshing = true; attempted = some stamp }, true)

abbrev pub is_missing : {S : Type 0} → Option S → Bool
is_missing none = true
is_missing (some s) = false

-- The snapshot with its flag `Stale`, or `ErrNotReady` with what the last attempt failed on.
pub data Got (S : Type 0) : Type 0 where
  not_ready : Option Str → Got S
  snapshot : S → Bool → Got S

abbrev pub answer : {S : Type 0} → Bool → Option Str → Option S → Got S
answer stale e none = not_ready e
answer stale e (some s) = snapshot s stale

unfoldable pub get_refresh : {S : Type 0} → ℕ → ℕ → ℕ → Cache S → Cache S × Bool
unfolding start_refresh
get_refresh first now stamp c =
    if is_missing c.snap || leb c.ttl (first - c.fetched_at)
    then start_refresh now stamp c
    else (c, false)

-- `Get`, with its own reading of the clock in front: the cache and whether a refresh is launched, and
-- the answer.
unfoldable pub get : {S : Type 0} → ℕ → ℕ → ℕ → Cache S → (Cache S × Bool) × Got S
unfolding get_refresh
get first now stamp c =
    let p = get_refresh first now stamp c in
    (p, answer (ltb p.0.stale_after (first - c.fetched_at)) p.0.last_err p.0.snap)

-- What a refresh ends with.
pub data Outcome (S : Type 0) : Type 0 where
  collected : S → Outcome S
  not_collected : Str → Outcome S

-- The end of `refresh`, under the mutex.
unfoldable pub end_refresh : {S : Type 0} → ℕ → Outcome S → Cache S → Cache S
end_refresh now (collected s) c = record c {
  refreshing = false;
  last_err = none;
  snap = some s;
  fetched_at = now;
  refreshes = c.refreshes + 1;
}
end_refresh now (not_collected e) c = record c {
  refreshing = false;
  last_err = some e;
  refreshes = c.refreshes + 1;
}
