-- ===== src/Infra/Cache/Keeps.antt =====
-- The cache in the states that its callers and its refreshes lead to.
use tinycloud_platform.Base.{
  ℕ, ◌+◌, ◌-◌, ◌*◌, ◌≤◌, ◌≡◌, ◌≢◌, refl, sym, ap, subst, ◌∙◌, Bool, true, false, ◌||◌, Option, none,
  some, List, [], ◌∷◌, ◌++◌, arith, leb, Str, length, length-append, Bool-cases, inl, inr, ℤ, pos,
  negsuc, ltb,
}
use tinycloud_platform.Infra.Cache.{
  Cache, CacheOptions, or_default, answer, is_due, start_refresh, get_refresh, get, is_missing,
  end_refresh, collected, not_collected, snapshot,
}
use tinycloud_platform.Infra.Cache.Steps.{
  Flight, starting, collecting, System, after_start, Step, primed, asked, not_built, built, reused,
  ended, new_system, Steps, stay, step,
}

abbrev pub first_of : List ℕ → Option ℕ
first_of [] = none
first_of (t ∷ ts) = some t

-- Of times, the last one first, each is at least `d` after the one before it.
abbrev pub IsSpaced : ℕ → List ℕ → Type 0
IsSpaced d [] = Unit
IsSpaced d (t ∷ []) = Unit
IsSpaced d (t ∷ u ∷ ts) = (u + d ≤ t) × IsSpaced d (u ∷ ts)

abbrev pub flights_of : Bool → ℕ
flights_of true = 1
flights_of false = 0

pub record IsCalm {S : Type 0} (s : System S) : Type 0 where
  pub single : length s.flights ≡ flights_of s.cache.refreshing
  pub last : s.cache.attempted ≡ first_of s.launches
  pub spaced : IsSpaced s.cache.ttl s.launches

IsSpaced-cons :
    (d now stamp : ℕ) (ts : List ℕ)
    → now ≤ stamp
    → is_due d now (first_of ts) ≡ true
    → 0 ≢ d
    → IsSpaced d ts
    → IsSpaced d (stamp ∷ ts)
unfolding is_due
IsSpaced-cons d now stamp [] l h z k = tt
IsSpaced-cons d now stamp (t ∷ ts) l h z k = (ground arith, k)

or_default_positive : (z : ℤ) → 0 ≢ or_default z 60000000000
unfolding or_default
or_default_positive (pos n) = ground arith
or_default_positive (negsuc n) = ground arith

ttl_positive : (S : Type 0) (opts : CacheOptions) → 0 ≢ (new_system {S = S} opts).cache.ttl
unfolding new_system
ttl_positive S opts = or_default_positive opts.ttl

IsSpaced-length : (d t : ℕ) (ts : List ℕ) → IsSpaced d (t ∷ ts) → length ts * d ≤ t
IsSpaced-length d t [] h = omega arith
IsSpaced-length d t (u ∷ ts) h = let k = IsSpaced-length d u ts h.1 in grind (arith, k, h.0)

module _ {S : Type 0} where
  abbrev launched : ℕ → System S → System S
  launched stamp s = record {
    cache = record s.cache { refreshing = true; attempted = some stamp };
    flights = s.flights ++ starting ∷ [];
    launches = stamp ∷ s.launches;
  }

  launched-IsCalm :
      (s : System S) (now stamp : ℕ)
      → now ≤ stamp
      → 0 ≢ s.cache.ttl
      → s.cache.refreshing ≡ false
      → is_due s.cache.ttl now s.cache.attempted ≡ true
      → IsCalm s
      → IsCalm (launched stamp s)
  launched-IsCalm s now stamp l z r d h = record {
    single =
        let none_yet : length s.flights ≡ 0 = h.single ∙ ap flights_of r in
        omega (arith, length-append s.flights (starting ∷ []));
    last = refl;
    spaced =
        IsSpaced-cons s.cache.ttl now stamp s.launches l
          (ap (is_due s.cache.ttl now) (sym h.last) ∙ d) z h.spaced;
  }

  start_refresh-busy :
      (c : Cache S) (now stamp : ℕ) → c.refreshing ≡ true → start_refresh now stamp c ≡ (c, false)
  unfolding start_refresh
  start_refresh-busy c now stamp r = rw r

  start_refresh-early :
      (c : Cache S) (now stamp : ℕ)
      → c.refreshing ≡ false
      → is_due c.ttl now c.attempted ≡ false
      → start_refresh now stamp c ≡ (c, false)
  unfolding start_refresh
  start_refresh-early c now stamp r d = rw (r, d)

  start_refresh-due :
      (c : Cache S) (now stamp : ℕ)
      → c.refreshing ≡ false
      → is_due c.ttl now c.attempted ≡ true
      → start_refresh now stamp c ≡ (record c { refreshing = true; attempted = some stamp }, true)
  unfolding start_refresh
  start_refresh-due c now stamp r d = rw (r, d)

  start-IsCalm :
      (s : System S) (now stamp : ℕ)
      → now ≤ stamp
      → 0 ≢ s.cache.ttl
      → IsCalm s
      → IsCalm (after_start stamp s (start_refresh now stamp s.cache))
  unfolding after_start
  start-IsCalm s now stamp l z h = elim (Bool-cases s.cache.refreshing) [
    | inl r ↦ rw (start_refresh-busy s.cache now stamp r) h
    | inr r ↦ elim (Bool-cases (is_due s.cache.ttl now s.cache.attempted)) [
      | inl d ↦ rw (start_refresh-due s.cache now stamp r d) (launched-IsCalm s now stamp l z r d h)
      | inr d ↦ rw (start_refresh-early s.cache now stamp r d) h
    ]
  ]

  get-IsCalm :
      (s : System S) (first now stamp : ℕ)
      → now ≤ stamp
      → 0 ≢ s.cache.ttl
      → IsCalm s
      → IsCalm (after_start stamp s (get_refresh first now stamp s.cache))
  unfolding get_refresh after_start
  get-IsCalm s first now stamp l z h =
      elim (Bool-cases (is_missing s.cache.snap || leb s.cache.ttl (first - s.cache.fetched_at))) [
        | inl e ↦ rw (get_refresh, e) (start-IsCalm s now stamp l z h)
        | inr e ↦ rw (get_refresh, e) h
      ]

  removed-IsCalm :
      (s : System S) (fs gs : List Flight) (f : Flight) (c : Cache S)
      → s.flights ≡ fs ++ f ∷ gs
      → c.refreshing ≡ false
      → c.attempted ≡ s.cache.attempted
      → c.ttl ≡ s.cache.ttl
      → IsCalm s
      → IsCalm (record s { cache = c; flights = fs ++ gs })
  removed-IsCalm s fs gs f c e r a t h = record {
    single = ground (
      arith,
      h.single,
      ap length e,
      length-append fs (f ∷ gs),
      length-append fs gs,
      ap flights_of r,
    );
    last = a ∙ h.last;
    spaced = rw t h.spaced;
  }

  moved-IsCalm :
      (s : System S) (fs gs : List Flight) (f g : Flight) (c : Cache S)
      → s.flights ≡ fs ++ f ∷ gs
      → c.refreshing ≡ s.cache.refreshing
      → c.attempted ≡ s.cache.attempted
      → c.ttl ≡ s.cache.ttl
      → IsCalm s
      → IsCalm (record s { cache = c; flights = fs ++ g ∷ gs })
  moved-IsCalm s fs gs f g c e r a t h = record {
    single =
        length-append fs (g ∷ gs)
        ∙ sym (length-append fs (f ∷ gs))
        ∙ sym (ap length e)
        ∙ h.single
        ∙ sym (ap flights_of r);
    last = a ∙ h.last;
    spaced = rw t h.spaced;
  }

  Step-IsCalm : (s t : System S) → Step s t → 0 ≢ s.cache.ttl → IsCalm s → IsCalm t
  unfolding end_refresh
  Step-IsCalm _ _ (primed s now stamp l) z h = start-IsCalm s now stamp l z h
  Step-IsCalm _ _ (asked s first now stamp l) z h = get-IsCalm s first now stamp l z h
  Step-IsCalm _ _ (not_built s fs gs now e b f) z h =
      removed-IsCalm s fs gs starting (end_refresh now (not_collected e) s.cache) f refl refl refl h
  Step-IsCalm _ _ (built s fs gs b f) z h =
      moved-IsCalm s fs gs starting collecting (record s.cache { has_collector = true }) f refl refl
        refl h
  Step-IsCalm _ _ (reused s fs gs b f) z h =
      moved-IsCalm s fs gs starting collecting s.cache f refl refl refl h
  Step-IsCalm _ _ (ended s fs gs now snap f) z h =
      removed-IsCalm s fs gs collecting (end_refresh now (collected snap) s.cache) f refl refl refl
        h

  Step-ttl : (s t : System S) → Step s t → t.cache.ttl ≡ s.cache.ttl
  unfolding end_refresh after_start start_refresh get_refresh
  Step-ttl _ _ (primed s now stamp l) = ground arith
  Step-ttl _ _ (asked s first now stamp l) = ground arith
  Step-ttl _ _ (not_built s fs gs now e b f) = refl
  Step-ttl _ _ (built s fs gs b f) = refl
  Step-ttl _ _ (reused s fs gs b f) = refl
  Step-ttl _ _ (ended s fs gs now snap f) = refl

  Steps-ttl : (s t : System S) → Steps s t → t.cache.ttl ≡ s.cache.ttl
  Steps-ttl _ _ (stay s) = refl
  Steps-ttl s u (step {t = t} r p) = Step-ttl t u p ∙ Steps-ttl s t r

  Steps-IsCalm : (s t : System S) → Steps s t → 0 ≢ s.cache.ttl → IsCalm s → IsCalm t
  Steps-IsCalm _ _ (stay s) z h = h
  Steps-IsCalm s u (step {t = t} r p) z h =
      Step-IsCalm t u p (λ e. z (e ∙ Steps-ttl s t r)) (Steps-IsCalm s t r z h)

  new_system-IsCalm : (opts : CacheOptions) → IsCalm (new_system {S = S} opts)
  unfolding new_system
  new_system-IsCalm opts = record { single = refl; last = refl; spaced = tt }

  -- Whatever requests, primings and refreshes a new cache has gone through: exactly one refresh runs if
  -- the cache is marked as refreshing, and none otherwise; and each refresh was launched no sooner than
  -- the time to live after the launch before it, whether that one succeeded or not.
  pub steps_lem :
      (opts : CacheOptions) (s : System S)
      → Steps (new_system opts) s
      → (length s.flights ≡ flights_of s.cache.refreshing)
        × IsSpaced (new_system {S = S} opts).cache.ttl s.launches
  steps_lem opts s r =
      let calm =
        Steps-IsCalm (new_system opts) s r (ttl_positive S opts) (new_system-IsCalm opts) in
      (
        calm.single,
        subst (λ d. IsSpaced d s.launches) (Steps-ttl (new_system opts) s r) calm.spaced,
      )

  Step-snap :
      (s t : System S)
      → Step s t
      → is_missing s.cache.snap ≡ false
      → is_missing t.cache.snap ≡ false
  unfolding end_refresh after_start start_refresh get_refresh
  Step-snap _ _ (primed s now stamp l) h = ground arith
  Step-snap _ _ (asked s first now stamp l) h = ground arith
  Step-snap _ _ (not_built s fs gs now e b f) h = h
  Step-snap _ _ (built s fs gs b f) h = h
  Step-snap _ _ (reused s fs gs b f) h = h
  Step-snap _ _ (ended s fs gs now snap f) h = refl

  Steps-snap :
      (s t : System S)
      → Steps s t
      → is_missing s.cache.snap ≡ false
      → is_missing t.cache.snap ≡ false
  Steps-snap _ _ (stay s) h = h
  Steps-snap s u (step {t = t} r p) h = Step-snap t u p (Steps-snap s t r h)

  get_refresh-snap :
      (first now stamp : ℕ) (c : Cache S) → (get_refresh first now stamp c).0.snap ≡ c.snap
  unfolding get_refresh start_refresh
  get_refresh-snap first now stamp c = ground arith

  get_refresh-stale_after :
      (first now stamp : ℕ) (c : Cache S)
      → (get_refresh first now stamp c).0.stale_after ≡ c.stale_after
  unfolding get_refresh start_refresh
  get_refresh-stale_after first now stamp c = ground arith

  answer-served :
      (b : Bool) (e : Option Str) (o : Option S)
      → is_missing o ≡ false
      → (x : S) × (o ≡ some x) × (answer b e o ≡ snapshot x b)
  answer-served b e none h = cc
  answer-served b e (some x) h = (x, refl, refl)

  -- Once a cache has a snapshot, every later request is answered with the snapshot that the cache has
  -- then, flagged stale if it is older than the threshold.
  pub get_lem :
      (s t : System S) (first now stamp : ℕ)
      → Steps s t
      → is_missing s.cache.snap ≡ false
      → (x : S) × (t.cache.snap ≡ some x)
        × ((get first now stamp t.cache).1
            ≡ snapshot x (ltb t.cache.stale_after (first - t.cache.fetched_at)))
  unfolding get
  get_lem s t first now stamp r h =
      let p = get_refresh first now stamp t.cache in
      let age = first - t.cache.fetched_at in
      let m = get_refresh-snap first now stamp t.cache in
      let q = get_refresh-stale_after first now stamp t.cache in
      let (x, o, a) =
        answer-served (ltb t.cache.stale_after age) p.0.last_err t.cache.snap
          (Steps-snap s t r h) in
      (
        x,
        o,
        ap (λ n. answer (ltb n age) p.0.last_err p.0.snap) q
            ∙ ap (answer (ltb t.cache.stale_after age) p.0.last_err) m
            ∙ a,
      )

  -- A new cache has launched at most one refresh for each time to live that has passed since it was
  -- made, and one more.
  pub launches_lem :
      (opts : CacheOptions) (s : System S) (t : ℕ) (ts : List ℕ)
      → Steps (new_system opts) s
      → s.launches ≡ t ∷ ts
      → length ts * (new_system {S = S} opts).cache.ttl ≤ t
  launches_lem opts s t ts r e =
      let d = (new_system {S = S} opts).cache.ttl in
      IsSpaced-length d t ts (subst (IsSpaced d) e (steps_lem opts s r).1)
