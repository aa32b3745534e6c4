-- ===== src/Build/Webhook/Keeps.antt =====
-- What a delivery changes of the world.
use tinycloud_platform.Base.{
  ◌≡◌, ◌≢◌, ◌&&◌, ◌++◌, All, str_eq_sound, refl, sym, subst, true, false, ◌||◌, Option, none, some,
  List, [], ◌∷◌, Str, codes, str_eq, is_empty, Bool-cases, ◌⊎◌, inl, inr,
}
use tinycloud_platform.Text.{trim_prefix}
use tinycloud_platform.Build.Types.{BuildJob, is_active}
use tinycloud_platform.Build.Tables.{Result, ok, err}
use tinycloud_platform.Build.Store.{AppRepo, get_job_by_app_name, list_app_repos}
use tinycloud_platform.Build.Store.Single.{IsPresent}
use tinycloud_platform.Build.World.{Server, Run, World}
use tinycloud_platform.Build.Server.{start_rebuild, Started, started, not_dispatched, not_stored}
use tinycloud_platform.Build.Server.Sound.{IsSound, IsIdle, start_rebuild-IsSound}
use tinycloud_platform.Build.Server.Keeps.{IsLast, get_job-IsLast, newest-of_app, some-IsIdle}
use tinycloud_platform.Build.Webhook.Signature.{valid_signature_sound}
use tinycloud_platform.Build.Webhook.{
  PushEvent, Delivery, valid_signature, builds_from, triggered, trigger_previous, trigger_app,
  trigger_apps, normalize_repo, decode_hex, pushed_reply, pushed_repo, push_to_apps, handle_push,
  github_webhook, is_absent,
}

-- In each round the stored text of the time is not below the text of any row that is there then.
abbrev pub IsTimely : Server → (Str → Run) → Str → Str → World → List AppRepo → Type 0
IsTimely srv runs pushed branch w [] = Unit
IsTimely srv runs pushed branch w (a ∷ as') =
    IsPresent (runs a.app_name).now w.store.jobs
    × IsTimely srv runs pushed branch (trigger_app srv (runs a.app_name) pushed branch w a).0 as'

triggered-store : (app : Str) (p : World × Started) → (triggered app p).0.store ≡ p.0.store
triggered-store app (w, started j) = refl
triggered-store app (w, not_dispatched) = refl
triggered-store app (w, not_stored e) = refl

trigger_previous-IsSound :
    (srv : Server) (run : Run) (w : World) (app : Str) (r : Result (Option BuildJob))
    → IsSound w.store
    → IsPresent run.now w.store.jobs
    → IsLast w app r
    → IsSound (trigger_previous srv run w app r).0.store
unfolding trigger_previous
trigger_previous-IsSound srv run w app (err e) h p l = h
trigger_previous-IsSound srv run w app (ok none) h p l = h
trigger_previous-IsSound srv run w app (ok (some j)) h p l = elim (Bool-cases (is_active j)) [
  | inl a ↦ rw a h
  | inr a ↦
      rw (a, triggered-store app (start_rebuild srv run w j))
        (start_rebuild-IsSound srv run w j h p (
          subst (λ b. IsIdle b w.store.jobs) (sym (newest-of_app app w.store.jobs j l))
            (some-IsIdle app w.store.jobs j l a)))
]

trigger_app-IsSound :
    (srv : Server) (run : Run) (pushed branch : Str) (w : World) (a : AppRepo)
    → IsSound w.store
    → IsPresent run.now w.store.jobs
    → IsSound (trigger_app srv run pushed branch w a).0.store
unfolding trigger_app
trigger_app-IsSound srv run pushed branch w a h p =
    elim (Bool-cases (builds_from srv.unicode pushed branch a)) [
      | inl e ↦ rw e (
          trigger_previous-IsSound srv run w a.app_name
            (get_job_by_app_name run.faults w.store a.app_name) h p
            (get_job-IsLast run.faults w a.app_name))
      | inr e ↦ rw e h
    ]

-- The loop over the apps keeps a sound store, when no text of a row is above that of the time.
pub trigger_apps-IsSound :
    (srv : Server) (runs : Str → Run) (pushed branch : Str) (w : World) (apps : List AppRepo)
    → IsSound w.store
    → IsTimely srv runs pushed branch w apps
    → IsSound (trigger_apps srv runs pushed branch w apps).0.store
unfolding trigger_apps
trigger_apps-IsSound srv runs pushed branch w [] h t = h
trigger_apps-IsSound srv runs pushed branch w (a ∷ as') h t =
    trigger_apps-IsSound srv runs pushed branch
      (trigger_app srv (runs a.app_name) pushed branch w a).0 as'
      (trigger_app-IsSound srv (runs a.app_name) pushed branch w a h t.0) t.1

trigger_app-unmatched :
    (srv : Server) (run : Run) (pushed branch : Str) (w : World) (a : AppRepo)
    → builds_from srv.unicode pushed branch a ≡ false
    → trigger_app srv run pushed branch w a ≡ (w, [])
unfolding trigger_app
trigger_app-unmatched srv run pushed branch w a e = rw e

-- The app has another branch, or its repository is another one than the pushed one.
abbrev pub IsElsewhere : Server → Str → Str → AppRepo → Type 0
IsElsewhere srv pushed branch a =
    (a.git_ref ≢ branch) ⊎ (normalize_repo srv.unicode a.repo_url ≢ pushed)

both_equal : (a b c d : Str) → str_eq a b && str_eq c d ≡ true → (a ≡ b) × (c ≡ d)
both_equal a b c d h = elim (Bool-cases (str_eq a b)) [
  | inl e ↦ (str_eq_sound a b e, str_eq_sound c d (rw e at h))
  | inr e ↦ cc (rw e at h)
]

elsewhere-builds_from :
    (srv : Server) (pushed branch : Str) (a : AppRepo)
    → IsElsewhere srv pushed branch a
    → builds_from srv.unicode pushed branch a ≡ false
unfolding builds_from
elsewhere-builds_from srv pushed branch a n =
    elim (Bool-cases (builds_from srv.unicode pushed branch a)) [
      | inr e ↦ e
      | inl e ↦
          let (repo, ref) =
            both_equal (normalize_repo srv.unicode a.repo_url) pushed a.git_ref branch e in
          elim n [ inl h ↦ absurd (h ref) | inr h ↦ absurd (h repo) ]
    ]

-- A push changes nothing and starts nothing when each app has another branch than the pushed one, or
-- another repository, by its normalized URL.
pub trigger_apps-unmatched :
    (srv : Server) (runs : Str → Run) (pushed branch : Str) (w : World) (apps : List AppRepo)
    → All (IsElsewhere srv pushed branch) apps
    → trigger_apps srv runs pushed branch w apps ≡ (w, [])
unfolding trigger_apps
trigger_apps-unmatched srv runs pushed branch w [] h = refl
trigger_apps-unmatched srv runs pushed branch w (a ∷ as') h = rw (
  trigger_app-unmatched srv (runs a.app_name) pushed branch w a
      (elsewhere-builds_from srv pushed branch a h.0),
  trigger_apps-unmatched srv runs pushed branch w as' h.1,
)

-- A delivery changes nothing, unless the server has a secret and the signature of the delivery is
-- `sha256=` and hexadecimal digits of the MAC of its body under that secret.
pub github_webhook-signed :
    (hmac : Str → Str → Str) (parse : Str → Option PushEvent) (srv : Server) (run : Run)
    (runs : Str → Run) (w : World) (d : Delivery)
    → ((github_webhook hmac parse srv run runs w d).0 ≡ w)
      ⊎ ((digits : Str) × (d.signature ≡ codes "sha256=" ++ digits)
          × (decode_hex digits ≡ some (hmac srv.webhook_secret d.body))
          × (is_empty srv.webhook_secret ≡ false))
unfolding github_webhook
github_webhook-signed hmac parse srv run runs w d =
    elim (Bool-cases (is_empty srv.webhook_secret)) [
      | inl a ↦ inl (rw a refl)
      | inr a ↦ elim (Bool-cases (valid_signature hmac srv.webhook_secret d.body d.signature)) [
        | inr b ↦ inl (rw (a, b) refl)
        | inl b ↦
            let (digits, prefix, decoded) =
              valid_signature_sound hmac srv.webhook_secret d.body d.signature b in
            inr (digits, prefix, decoded, a)
      ]
    ]

-- What a push needs of the clock: at each app of the list in its turn.
abbrev pub IsPushTimely : Server → (Str → Run) → World → PushEvent → Result (List AppRepo) → Type 0
IsPushTimely srv runs w ev (err e) = Unit
IsPushTimely srv runs w ev (ok apps) =
    IsTimely srv runs (pushed_repo srv.unicode ev) (trim_prefix ev.git_ref (codes "refs/heads/")) w
      apps

pushed_reply-store :
    (ev : PushEvent) (branch : Str) (p : World × List Str) → (pushed_reply ev branch p).0 ≡ p.0
pushed_reply-store ev branch (w, []) = refl
pushed_reply-store ev branch (w, t ∷ ts) = refl

push_to_apps-IsSound :
    (srv : Server) (runs : Str → Run) (w : World) (ev : PushEvent) (r : Result (List AppRepo))
    → IsSound w.store
    → IsPushTimely srv runs w ev r
    → IsSound (push_to_apps srv runs w ev (trim_prefix ev.git_ref (codes "refs/heads/")) r).0.store
unfolding push_to_apps
push_to_apps-IsSound srv runs w ev (err e) h t = h
push_to_apps-IsSound srv runs w ev (ok apps) h t =
    let branch = trim_prefix ev.git_ref (codes "refs/heads/") in
    let pushed = pushed_repo srv.unicode ev in
    rw (pushed_reply-store ev branch (trigger_apps srv runs pushed branch w apps))
      (trigger_apps-IsSound srv runs pushed branch w apps h t)

handle_push-IsSound :
    (srv : Server) (run : Run) (runs : Str → Run) (w : World) (o : Option PushEvent)
    → IsSound w.store
    → ((ev : PushEvent)
        → o ≡ some ev
        → IsPushTimely srv runs w ev (list_app_repos run.faults w.store))
    → IsSound (handle_push srv run runs w o).0.store
unfolding handle_push
handle_push-IsSound srv run runs w none h t = h
handle_push-IsSound srv run runs w (some ev) h t =
    elim (Bool-cases (ev.deleted || is_absent ev.head_commit)) [
      | inl e ↦ rw e h
      | inr e ↦
          elim (Bool-cases (str_eq (trim_prefix ev.git_ref (codes "refs/heads/")) ev.git_ref)) [
            | inl b ↦ rw (e, b) h
            | inr b ↦
                rw (e, b)
                  (push_to_apps-IsSound srv runs w ev (list_app_repos run.faults w.store) h
                    (t ev refl))
          ]
    ]

-- From a store with distinct ids, `created_at` texts ascending over all the rows, only the last row of each
-- app queued or running, and numbered logs, and when at each app that a push comes to the stored text of the
-- time is not below the text of any row that is there then, a delivery of any kind leaves a store with these
-- four properties. The order of texts is not the order of times.
pub github_webhook-IsSound :
    (hmac : Str → Str → Str) (parse : Str → Option PushEvent) (srv : Server) (run : Run)
    (runs : Str → Run) (w : World) (d : Delivery)
    → IsSound w.store
    → ((ev : PushEvent)
        → parse d.body ≡ some ev
        → IsPushTimely srv runs w ev (list_app_repos run.faults w.store))
    → IsSound (github_webhook hmac parse srv run runs w d).0.store
unfolding github_webhook
github_webhook-IsSound hmac parse srv run runs w d h t =
    elim (Bool-cases (is_empty srv.webhook_secret)) [
      | inl a ↦ rw a h
      | inr a ↦ elim (Bool-cases (valid_signature hmac srv.webhook_secret d.body d.signature)) [
        | inr b ↦ rw (a, b) h
        | inl b ↦ elim (Bool-cases (str_eq d.event (codes "push"))) [
          | inr c ↦ rw (a, b, c) h
          | inl c ↦ rw (a, b, c) (handle_push-IsSound srv run runs w (parse d.body) h t)
        ]
      ]
    ]
