-- ===== src/Infra/Cache/Steps.antt =====
-- The cache among its callers and its refreshes: each critical section is one step.
use tinycloud_platform.Base.{ℕ, ◌≤◌, ◌≡◌, Bool, true, false, List, [], ◌∷◌, ◌++◌, Str}
use tinycloud_platform.Infra.Cache.{
  Cache, CacheOptions, new_cache, start_refresh, get_refresh, end_refresh, collected, not_collected,
}

-- Where a refresh is: before it has a collector, and with one.
pub data Flight : Type 0 where
  starting collecting : Flight

-- The refreshes that run, and the times at which refreshes were launched, the last one first.
pub record System (S : Type 0) : Type 0 where
  pub cache : Cache S
  pub flights : List Flight
  pub launches : List ℕ

-- After `startRefreshLocked`, whose second reading of the clock is `stamp`.
unfoldable pub after_start : {S : Type 0} → ℕ → System S → Cache S × Bool → System S
after_start stamp s (c, true) = record {
  cache = c;
  flights = s.flights ++ starting ∷ [];
  launches = stamp ∷ s.launches;
}
after_start stamp s (c, false) = record s { cache = c }

pub data Step {S : Type 0} : System S → System S → Type 0 where
  primed :
      (s : System S) (now stamp : ℕ)
      → now ≤ stamp
      → Step s (after_start stamp s (start_refresh now stamp s.cache))
  asked :
      (s : System S) (first now stamp : ℕ)
      → now ≤ stamp
      → Step s (after_start stamp s (get_refresh first now stamp s.cache))
  not_built :
      (s : System S) (fs gs : List Flight) (now : ℕ) (e : Str)
      → s.cache.has_collector ≡ false
      → s.flights ≡ fs ++ starting ∷ gs
      → Step s (record s { cache = end_refresh now (not_collected e) s.cache; flights = fs ++ gs })
  built :
      (s : System S) (fs gs : List Flight)
      → s.cache.has_collector ≡ false
      → s.flights ≡ fs ++ starting ∷ gs
      → Step s (record s {
        cache = record s.cache { has_collector = true };
        flights = fs ++ collecting ∷ gs;
      })
  reused :
      (s : System S) (fs gs : List Flight)
      → s.cache.has_collector ≡ true
      → s.flights ≡ fs ++ starting ∷ gs
      → Step s (record s { flights = fs ++ collecting ∷ gs })
  ended :
      (s : System S) (fs gs : List Flight) (now : ℕ) (snap : S)
      → s.flights ≡ fs ++ collecting ∷ gs
      → Step s (record s { cache = end_refresh now (collected snap) s.cache; flights = fs ++ gs })

unfoldable pub new_system : {S : Type 0} → CacheOptions → System S
unfolding new_cache
new_system opts = record { cache = new_cache opts; flights = []; launches = [] }

pub data Steps {S : Type 0} : System S → System S → Type 0 where
  stay : (s : System S) → Steps s s
  step : {s t u : System S} → Steps s t → Step t u → Steps s u
