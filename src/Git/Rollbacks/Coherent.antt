-- ===== src/Git/Rollbacks/Coherent.antt =====
-- The rollbacks' file after a sequence of rollbacks and restores.
use tinycloud_platform.Base.{
  ◌≡◌, refl, sym, ap, subst, ◌∙◌, Bool, true, false, none, some, List, [], ◌∷◌, ◌++◌, if◌then◌else◌,
  Str, StrMap, str_eq, str_eq_iff, lookup, insert, lookup-insert, last, last-append, append_assoc,
  append-nil, ◌⊎◌, inl, inr, Bool-cases,
}
use tinycloud_platform.Git.Rollbacks.{
  RollbackEntry, AppRollbacks, RollbacksFile, status_normal, status_rollback, app_or_new,
  with_rollback, with_restore,
}

-- What is recorded, with the time of the record.
pub data Recorded : Type 0 where
  rolled_back : Str → Str → RollbackEntry → Recorded
  restored : Str → Str → RollbackEntry → Recorded

abbrev pub recorded : Recorded → RollbacksFile → RollbacksFile
recorded (rolled_back stamp app entry) file = with_rollback stamp app entry file
recorded (restored stamp app entry) file = with_restore stamp app entry file

unfoldable pub replay : List Recorded → RollbacksFile → RollbacksFile
replay [] file = file
replay (e ∷ events) file = replay events (recorded e file)

abbrev pub app_of : Recorded → Str
app_of (rolled_back stamp app entry) = app
app_of (restored stamp app entry) = app

-- The entries of an app, in order.
unfoldable pub entries_of : Str → List Recorded → List RollbackEntry
entries_of app [] = []
entries_of app (rolled_back stamp a entry ∷ events) =
    let rest = entries_of app events in if str_eq a app then entry ∷ rest else rest
entries_of app (restored stamp a entry ∷ events) =
    let rest = entries_of app events in if str_eq a app then entry ∷ rest else rest

-- What the file says of an app.
abbrev pub state_of : Str → RollbacksFile → AppRollbacks
state_of app file = app_or_new (lookup app file.apps)

-- In a rollback the active one ends the history; otherwise there is none.
abbrev pub IsCoherent : AppRollbacks → Type 0
IsCoherent a =
    ((a.current_status ≡ status_normal) × (a.active_rollback ≡ none))
    ⊎ ((entry : RollbackEntry) × (a.current_status ≡ status_rollback)
        × (a.active_rollback ≡ some entry)
        × (last a.history ≡ some entry))

-- The state of an app after one event.
abbrev after_recorded : Recorded → AppRollbacks → AppRollbacks
after_recorded (rolled_back stamp app entry) a = record {
  current_status = status_rollback;
  active_rollback = some entry;
  history = a.history ++ entry ∷ [];
}
after_recorded (restored stamp app entry) a = record {
  current_status = status_normal;
  active_rollback = none;
  history = a.history ++ entry ∷ [];
}

state_changed :
    (f : AppRollbacks → AppRollbacks) (app a : Str) (apps : StrMap AppRollbacks)
    → app_or_new (lookup app (insert a (f (app_or_new (lookup a apps))) apps))
      ≡ (if str_eq a app then f (app_or_new (lookup app apps)) else app_or_new (lookup app apps))
state_changed f app a apps =
    ap app_or_new (lookup-insert a app (f (app_or_new (lookup a apps))) apps)
    ∙ elim (Bool-cases (str_eq a app)) [
      | inl e ↦ rw e (ap (λ k. f (app_or_new (lookup k apps))) ((str_eq_iff a app).0 e))
      | inr e ↦ rw e refl
    ]

state_of-recorded :
    (app : Str) (e : Recorded) (file : RollbacksFile)
    → state_of app (recorded e file)
      ≡ (if str_eq (app_of e) app then after_recorded e (state_of app file) else state_of app file)
unfolding with_rollback with_restore
state_of-recorded app (rolled_back stamp a entry) file =
    state_changed (after_recorded (rolled_back stamp a entry)) app a file.apps
state_of-recorded app (restored stamp a entry) file =
    state_changed (after_recorded (restored stamp a entry)) app a file.apps

after_recorded-IsCoherent : (e : Recorded) (a : AppRollbacks) → IsCoherent (after_recorded e a)
after_recorded-IsCoherent (rolled_back stamp app entry) a =
    inr (entry, refl, refl, last-append a.history entry)
after_recorded-IsCoherent (restored stamp app entry) a = inl (refl, refl)

recorded-IsCoherent :
    (app : Str) (e : Recorded) (file : RollbacksFile)
    → IsCoherent (state_of app file)
    → IsCoherent (state_of app (recorded e file))
recorded-IsCoherent app e file h = elim (Bool-cases (str_eq (app_of e) app)) [
  | inl k ↦
      subst IsCoherent (sym (state_of-recorded app e file ∙ rw k refl))
        (after_recorded-IsCoherent e (state_of app file))
  | inr k ↦ subst IsCoherent (sym (state_of-recorded app e file ∙ rw k refl)) h
]

history_if :
    (b : Bool) (new old : AppRollbacks) (entry : RollbackEntry) (rest : List RollbackEntry)
    → new.history ≡ old.history ++ entry ∷ []
    → (if b then new else old).history ++ rest ≡ old.history ++ (if b then entry ∷ rest else rest)
history_if true new old entry rest h =
    ap (λ l. l ++ rest) h ∙ append_assoc old.history (entry ∷ []) rest
history_if false new old entry rest h = refl

recorded-history :
    (app : Str) (e : Recorded) (events : List Recorded) (file : RollbacksFile)
    → (state_of app (recorded e file)).history ++ entries_of app events
      ≡ (state_of app file).history ++ entries_of app (e ∷ events)
unfolding entries_of
recorded-history app (rolled_back stamp a entry) events file =
    ap (λ (s : AppRollbacks). s.history ++ entries_of app events)
      (state_of-recorded app (rolled_back stamp a entry) file)
    ∙ history_if (str_eq a app) (after_recorded (rolled_back stamp a entry) (state_of app file))
        (state_of app file) entry (entries_of app events) refl
recorded-history app (restored stamp a entry) events file =
    ap (λ (s : AppRollbacks). s.history ++ entries_of app events)
      (state_of-recorded app (restored stamp a entry) file)
    ∙ history_if (str_eq a app) (after_recorded (restored stamp a entry) (state_of app file))
        (state_of app file) entry (entries_of app events) refl

-- Whatever rollbacks and restores are recorded, in whatever order, an app that was coherent in the file
-- stays so: in a rollback, its active entry is the last of its history, and otherwise it has none. Its
-- history is what it was, followed by the entries recorded for it, in order.
pub replay-IsCoherent :
    (app : Str) (events : List Recorded) (file : RollbacksFile)
    → IsCoherent (state_of app file)
    → IsCoherent (state_of app (replay events file))
      × ((state_of app (replay events file)).history
          ≡ (state_of app file).history ++ entries_of app events)
unfolding replay entries_of
replay-IsCoherent app [] file h = (h, sym (append-nil (state_of app file).history))
replay-IsCoherent app (e ∷ events) file h =
    let (c, r) =
      replay-IsCoherent app events (recorded e file) (recorded-IsCoherent app e file h) in
    (c, r ∙ recorded-history app e events file)
