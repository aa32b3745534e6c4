-- ===== src/Infra/Tests.antt =====
-- Runs of the cache, and its properties at concrete inputs.
mod Snapshots
use tinycloud_platform.Base.{
  ℕ, ◌*◌, ◌≤◌, ◌≡◌, refl, true, false, none, some, [], ◌∷◌, arith, length, pos,
}
use tinycloud_platform.Infra.Cache.{
  Cache, CacheOptions, start_refresh, get_refresh, get, end_refresh, collected, not_ready, snapshot,
}
use tinycloud_platform.Infra.Cache.Steps.{System, after_start, asked, Steps, stay, step, new_system}
use tinycloud_platform.Infra.Cache.Keeps.{flights_of, IsSpaced, steps_lem, get_lem, launches_lem}

abbrev second : ℕ
second = 1000000000

abbrev options : CacheOptions
options = record { ttl = pos 0; stale_after = pos 0; timeout = pos 0 }

abbrev cold : System ℕ
cold = new_system options

abbrev asked_once : System ℕ
asked_once = after_start 6 cold (get_refresh 5 5 6 cold.cache)

abbrev warm : Cache ℕ
warm = end_refresh (2 * second) (collected 7) (start_refresh second second cold.cache).0

-- Before the first collection ends there is nothing to serve.
get-cold : (get 5 5 6 cold.cache).1 ≡ not_ready none
unfolding get new_system
get-cold = refl

-- After a minute the snapshot is served as it is, and a refresh is launched behind it.
get-warm :
    ((get (70 * second) (70 * second) (70 * second) warm).0.1 ≡ true)
    × ((get (70 * second) (70 * second) (70 * second) warm).1 ≡ snapshot 7 false)
unfolding get end_refresh start_refresh new_system
get-warm = (refl, refl)

-- After five minutes it is stale.
get-stale : (get (303 * second) (303 * second) (303 * second) warm).1 ≡ snapshot 7 true
unfolding get end_refresh start_refresh new_system
get-stale = refl

asked_once-Steps : Steps cold asked_once
asked_once-Steps = step (stay cold) (asked cold 5 5 6 (omega arith))

steps_lem_example :
    (length asked_once.flights ≡ flights_of asked_once.cache.refreshing)
    × IsSpaced cold.cache.ttl asked_once.launches
steps_lem_example = steps_lem options asked_once asked_once-Steps

one_launch : asked_once.launches ≡ 6 ∷ []
unfolding after_start get_refresh new_system
one_launch = refl

launches_lem_example : length {A = ℕ} [] * cold.cache.ttl ≤ 6
launches_lem_example = launches_lem options asked_once 6 [] asked_once-Steps one_launch

abbrev warm_system : System ℕ
warm_system = record {
  cache = record {
    ttl = 60;
    stale_after = 300;
    timeout = 20;
    has_collector = true;
    snap = some 7;
    fetched_at = 10;
    attempted = some 5;
    refreshing = false;
    last_err = none;
    refreshes = 1;
  };
  flights = [];
  launches = 5 ∷ [];
}

get_lem_example :
    (x : ℕ) × (warm_system.cache.snap ≡ some x)
    × ((get 400 400 400 warm_system.cache).1 ≡ snapshot x true)
get_lem_example = get_lem warm_system warm_system 400 400 400 (stay warm_system) refl
