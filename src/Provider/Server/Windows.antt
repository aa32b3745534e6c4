-- ===== src/Provider/Server/Windows.antt =====
-- The window of a metric, from the query of a request to the Provider.
use tinycloud_platform.Base.{
  wrap64, ℕ, ◌*◌, ◌-◌, ◌≤◌, ◌<◌, ◌≡◌, refl, ap, ◌∙◌, true, some, [], ◌∷◌, arith, ltb, Str, codes, ℤ,
  pos, negsuc, lookup, str_eq, Bool-cases, inl, inr,
}
use tinycloud_platform.Text.{decimal, atoi, atoi-decimal, int_max}
use tinycloud_platform.Provider.Config.{metrics, capability}
use tinycloud_platform.Provider.Contract.{series_body, Request, valid_metric}
use tinycloud_platform.Provider.Server.{
  Server, listed, metrics_handler, metric_answer, query_value, write_answer, duration,
}

wrap64-below : (n : ℕ) → n < 9223372036854775808 → wrap64 n ≡ pos n
unfolding wrap64
wrap64-below n h = ground arith

wrap64-above :
    (n : ℕ)
    → 9223372036854775808 ≤ n
    → n < 18446744073709551616
    → wrap64 n ≡ negsuc (18446744073709551615 - n)
unfolding wrap64
wrap64-above n h k = ground arith

-- What the handler does once the metric is one of the contract.
pub metrics_handler-valid :
    (srv : Server) (r : Request) (metric : Str)
    → query_value (codes "metric") r.query ≡ metric
    → valid_metric metric ≡ true
    → metrics_handler srv r ≡ metric_answer srv metric (atoi (query_value (codes "window") r.query))
unfolding metrics_handler
metrics_handler-valid srv r metric h v = rw (h, v) refl

query_value-metric :
    (metric window : Str)
    → query_value (codes "metric") ((codes "metric", metric) ∷ (codes "window", window) ∷ [])
      ≡ metric
unfolding query_value lookup str_eq
query_value-metric metric window = refl

query_value-window :
    (metric window : Str)
    → query_value (codes "window") ((codes "metric", metric) ∷ (codes "window", window) ∷ [])
      ≡ window
unfolding query_value lookup str_eq
query_value-window metric window = refl

metric_answer-positive :
    (srv : Server) (metric : Str) (seconds : ℕ)
    → 0 < seconds
    → metric_answer srv metric (some (pos seconds))
      ≡ write_answer srv
          (capability metrics)
          (λ l. series_body (some (listed l)))
          (srv.provider.metric metric (duration seconds))
metric_answer-positive srv metric n l = elim (Bool-cases (ltb 0 n)) [
  | inl e ↦ rw e refl
  | inr e ↦ absurd (ground arith)
]

metrics_handler-duration :
    (srv : Server) (r : Request) (metric : Str) (seconds : ℕ) (d : ℤ)
    → valid_metric metric ≡ true
    → r.query ≡ (codes "metric", metric) ∷ (codes "window", decimal seconds) ∷ []
    → 0 < seconds
    → seconds ≤ int_max
    → duration seconds ≡ d
    → metrics_handler srv r
      ≡ write_answer srv
          (capability metrics)
          (λ l. series_body (some (listed l)))
          (srv.provider.metric metric d)
metrics_handler-duration srv r metric seconds d v q l u e =
    metrics_handler-valid srv r metric
      (ap (query_value (codes "metric")) q ∙ query_value-metric metric (decimal seconds)) v
    ∙ ap (λ w. metric_answer srv metric (atoi w))
        (ap (query_value (codes "window")) q ∙ query_value-window metric (decimal seconds))
    ∙ ap (metric_answer srv metric) (atoi-decimal seconds u)
    ∙ metric_answer-positive srv metric seconds l
    ∙ ap
        (λ w.
          write_answer srv (capability metrics) (λ l. series_body (some (listed l)))
            (srv.provider.metric metric w))
        e

-- A window of a positive number of seconds, up to 9223372036, reaches the Provider as that many seconds.
pub metrics_handler-exact :
    (srv : Server) (r : Request) (metric : Str) (seconds : ℕ)
    → valid_metric metric ≡ true
    → r.query ≡ (codes "metric", metric) ∷ (codes "window", decimal seconds) ∷ []
    → 0 < seconds
    → seconds ≤ 9223372036
    → metrics_handler srv r
      ≡ write_answer srv
          (capability metrics)
          (λ l. series_body (some (listed l)))
          (srv.provider.metric metric (pos (seconds * 1000000000)))
metrics_handler-exact srv r metric seconds v q l u =
    metrics_handler-duration srv r metric seconds (pos (seconds * 1000000000)) v q l (omega arith)
      (wrap64-below (seconds * 1000000000) (omega arith))

-- A window from 9223372037 to 18446744073 seconds is not refused, and reaches the Provider as a negative
-- time.Duration.
pub metrics_handler-negative :
    (srv : Server) (r : Request) (metric : Str) (seconds : ℕ)
    → valid_metric metric ≡ true
    → r.query ≡ (codes "metric", metric) ∷ (codes "window", decimal seconds) ∷ []
    → 9223372037 ≤ seconds
    → seconds ≤ 18446744073
    → metrics_handler srv r
      ≡ write_answer srv
          (capability metrics)
          (λ l. series_body (some (listed l)))
          (srv.provider.metric metric (negsuc (18446744073709551615 - seconds * 1000000000)))
metrics_handler-negative srv r metric seconds v q l u =
    metrics_handler-duration srv r metric seconds
      (negsuc (18446744073709551615 - seconds * 1000000000)) v q (omega arith) (omega arith)
      (wrap64-above (seconds * 1000000000) (omega arith) (omega arith))
