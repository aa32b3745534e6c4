-- ===== src/Provider/Client/Reads.antt =====
-- What a read of the client yields when the server of a Provider answers it, beside the answer of that
-- Provider itself.
use tinycloud_platform.Base.{
  ℕ, max, ◌*◌, ◌≤◌, ◌≡◌, refl, ap, ◌∙◌, true, false, Option, none, some, [], ◌∷◌, ◌++◌, arith,
  if◌then◌else◌, is_empty, Str, codes, str_eq, StrMap, pos, Bool-cases, inl, inr,
}
use tinycloud_platform.Text.{decimal}
use tinycloud_platform.Provider.Config.{
  Slot, instances, metrics, alarms, ingress, backups, capability, kind_infra,
}
use tinycloud_platform.Provider.Contract.{
  capabilities_body, not_implemented, other, Answer, answered, failed, Body, error_body,
  instances_body, series_body, alarms_body, ingress_body, backups_body, Request, Response, Json,
  Decodes, path_for, valid_metric, not_implemented_by,
}
use tinycloud_platform.Provider.Server.{
  Server, has_cap, refused_message, listed, handler_of, write_answer, allow_get,
}
use tinycloud_platform.Provider.Client.{
  replied, Client, Fetched, got, error, named, detail_of, status_error, request_of, read, is_known,
  list_instances, query_metric, list_alarm_statuses, ingress_public_ip, list_objects,
  window_seconds, received, decoded_as, read_supported, ip_of,
}
use tinycloud_platform.Provider.Client.Served.{
  declared_by, served_by, IsPaired, supported, supported-IsPaired, supported-declared,
  supports-served, declared_error-served, get-served,
}
use tinycloud_platform.Provider.Server.Access.{serve-has_cap}
use tinycloud_platform.Provider.Server.Windows.{metrics_handler-exact}

-- What a caller of the client should see of an answer of the Provider.
abbrev pub relayed :
    {A B : Type 0} → (ℕ → Str) → Server → Client → Str → (A → B) → Answer A → Fetched B
relayed status_text srv c name view (answered a) = got (view a)
relayed status_text srv c name view (failed (not_implemented e)) =
    error (not_implemented (named c (refused_message srv name)))
relayed status_text srv c name view (failed (other e)) =
    error (other (named c (status_text 502 ++ codes ": " ++ (name ++ codes ": " ++ e))))

-- The response of a handler, received.
abbrev pub received_from :
    {B : Type 0} → (j : Json) → (ℕ → Str) → Client → Str → (j.Raw → Option B) → Response → Fetched B
received_from j status_text c path decode a =
    received j c path decode (replied a.status (status_text a.status) (j.encode a.body))

detail_of-message :
    (j : Json) (code m : Str)
    → is_empty m ≡ false
    → Decodes j (error_body code m)
    → detail_of j (j.encode (error_body code m)) ≡ m
unfolding Decodes
detail_of-message j code m h d = rw (d, h) refl

upstream_is_empty : (s : Slot) (e : Str) → is_empty (capability s ++ codes ": " ++ e) ≡ false
upstream_is_empty instances e = refl
upstream_is_empty metrics e = refl
upstream_is_empty alarms e = refl
upstream_is_empty ingress e = refl
upstream_is_empty backups e = refl

received_from-write_answer :
    {A B : Type 0} (j : Json) (status_text : ℕ → Str) (srv : Server) (c : Client) (s : Slot)
    (decode : j.Raw → Option B) (wrap : A → Body) (view : A → B) (r : Answer A)
    → ((a : A) → Decodes j (wrap a) → decode (j.encode (wrap a)) ≡ some (view a))
    → Decodes j (write_answer srv (capability s) wrap r).body
    → received_from j status_text c (path_for s) decode (write_answer srv (capability s) wrap r)
      ≡ relayed status_text srv c (capability s) view r
unfolding status_error
received_from-write_answer j st srv c s decode wrap view (answered a) reads d =
    ap (decoded_as c (path_for s) (j.decode_failure (j.encode (wrap a)))) (reads a d)
received_from-write_answer j st srv c s decode wrap view (failed (not_implemented e)) reads d =
    ap (λ m. error (not_implemented (named c m)))
      (detail_of-message j (codes "not_implemented") (refused_message srv (capability s)) refl d)
received_from-write_answer j st srv c s decode wrap view (failed (other e)) reads d =
    ap (λ m. error (other (named c (st 502 ++ codes ": " ++ m))))
      (detail_of-message j (codes "upstream_error") (capability s ++ codes ": " ++ e)
        (upstream_is_empty s e) d)

module _ (j : Json) (status_text : ℕ → Str) (srv : Server) (t : Str)
    (lists : Decodes j
      (capabilities_body kind_infra srv.provider.name (some (declared_by srv)))) where
  -- The client after a read, and the request the server gets.
  abbrev pub after : ℕ → ℕ → Client → Client
  after = supported j status_text srv t lists

  abbrev pub asked : ℕ → ℕ → Client → Slot → StrMap Str → Request
  asked now stamp c s query =
      request_of (after now stamp c) (path_for s) query (codes "Bearer " ++ t)

  undeclared-after :
      (now stamp : ℕ) (c : Client) (name : Str)
      → not_implemented_by (after now stamp c).quote_other name (after now stamp c).name
        ≡ not_implemented_by c.quote_other name c.name
  undeclared-after now stamp c name = elim (Bool-cases (is_known now c.known_at c.declared)) [
    | inl e ↦ rw e refl
    | inr e ↦ rw e refl
  ]

  read-supported :
      {B : Type 0} (now stamp : ℕ) (c : Client) (s : Slot) (query : StrMap Str)
      (decode : j.Raw → Option B)
      → IsPaired c srv t
      → read j (served_by j status_text srv) now stamp c s query decode
        ≡ read_supported j (served_by j status_text srv) s query decode (
          after now stamp c,
          if has_cap srv (capability s)
              then none
              else some (not_implemented_by c.quote_other (capability s) c.name),
        )
  unfolding read
  read-supported now stamp c s query decode h =
      ap (read_supported j (served_by j status_text srv) s query decode) (
        supports-served j status_text srv t lists now stamp c s h
        ∙ ap (λ e. (after now stamp c, e))
            (declared_error-served j status_text srv t lists (after now stamp c) s
                (supported-declared j status_text srv t lists now stamp c h)
              ∙ ap (λ e. if has_cap srv (capability s) then none else some e)
                  (undeclared-after now stamp c (capability s))))

  read-has_cap :
      {B : Type 0} (now stamp : ℕ) (c : Client) (s : Slot) (query : StrMap Str)
      (decode : j.Raw → Option B)
      → IsPaired c srv t
      → has_cap srv (capability s) ≡ true
      → read j (served_by j status_text srv) now stamp c s query decode ≡ (
        after now stamp c,
        received_from j status_text
            (after now stamp c)
            (path_for s)
            decode
            (handler_of srv (asked now stamp c s query) s),
      )
  unfolding served_by
  read-has_cap now stamp c s query decode h k =
      read-supported now stamp c s query decode h
      ∙ rw k refl
      ∙ ap (λ r. (after now stamp c, r))
          (get-served j status_text srv t lists (after now stamp c) (path_for s) query decode
              (supported-IsPaired j status_text srv t lists now stamp c h)
            ∙ ap (received_from j status_text (after now stamp c) (path_for s) decode)
                (serve-has_cap srv t (asked now stamp c s query) s h.wants h.trimmed refl refl k))

  read-relayed :
      {A B : Type 0} (now stamp : ℕ) (c : Client) (s : Slot) (query : StrMap Str)
      (decode : j.Raw → Option B) (wrap : A → Body) (view : A → B) (r : Answer A)
      → IsPaired c srv t
      → has_cap srv (capability s) ≡ true
      → ((a : A) → Decodes j (wrap a) → decode (j.encode (wrap a)) ≡ some (view a))
      → Decodes j (write_answer srv (capability s) wrap r).body
      → handler_of srv (asked now stamp c s query) s ≡ write_answer srv (capability s) wrap r
      → read j (served_by j status_text srv) now stamp c s query decode
        ≡ (after now stamp c, relayed status_text srv (after now stamp c) (capability s) view r)
  read-relayed now stamp c s query decode wrap view r h k reads d e =
      read-has_cap now stamp c s query decode h k
      ∙ ap
          (λ a. (
            after now stamp c,
            received_from j status_text (after now stamp c) (path_for s) decode a,
          ))
          e
      ∙ ap (λ a. (after now stamp c, a))
          (received_from-write_answer j status_text srv (after now stamp c) s decode wrap view r
            reads d)

  -- A read of a capability that the server does not declare is refused by the client: it yields the
  -- error of a capability that is not implemented, whatever is asked and however it would be decoded.
  pub read-undeclared :
      {B : Type 0} (now stamp : ℕ) (c : Client) (s : Slot) (query : StrMap Str)
      (decode : j.Raw → Option B)
      → IsPaired c srv t
      → has_cap srv (capability s) ≡ false
      → read j (served_by j status_text srv) now stamp c s query decode
        ≡ (after now stamp c, error (not_implemented_by c.quote_other (capability s) c.name))
  read-undeclared now stamp c s query decode h k =
      read-supported now stamp c s query decode h ∙ rw k refl

  instances_relayed :
      (now stamp : ℕ) (c : Client)
      → IsPaired c srv t
      → has_cap srv (capability instances) ≡ true
      → Decodes j
          (write_answer srv
            (capability instances)
            (λ l. instances_body (some (listed l)))
            srv.provider.instances).body
      → list_instances j (served_by j status_text srv) now stamp c ≡ (
        after now stamp c,
        relayed status_text srv
            (after now stamp c)
            (capability instances)
            (λ l. some (listed l))
            srv.provider.instances,
      )
  unfolding list_instances handler_of allow_get str_eq Decodes
  instances_relayed now stamp c h k reads =
      read-relayed now stamp c instances [] j.decode_instances
        (λ l. instances_body (some (listed l))) (λ l. some (listed l)) srv.provider.instances h k
        (λ l d. d) reads refl

  alarms_relayed :
      (now stamp : ℕ) (c : Client)
      → IsPaired c srv t
      → has_cap srv (capability alarms) ≡ true
      → Decodes j
          (write_answer srv
            (capability alarms)
            (λ l. alarms_body (some (listed l)))
            srv.provider.alarms).body
      → list_alarm_statuses j (served_by j status_text srv) now stamp c ≡ (
        after now stamp c,
        relayed status_text srv
            (after now stamp c)
            (capability alarms)
            (λ l. some (listed l))
            srv.provider.alarms,
      )
  unfolding list_alarm_statuses handler_of allow_get str_eq Decodes
  alarms_relayed now stamp c h k reads =
      read-relayed now stamp c alarms [] j.decode_alarms (λ l. alarms_body (some (listed l)))
        (λ l. some (listed l)) srv.provider.alarms h k (λ l d. d) reads refl

  ingress_relayed :
      (now stamp : ℕ) (c : Client)
      → IsPaired c srv t
      → has_cap srv (capability ingress) ≡ true
      → Decodes j
          (write_answer srv (capability ingress) ingress_body srv.provider.ingress_address).body
      → ingress_public_ip j (served_by j status_text srv) now stamp c ≡ (
        after now stamp c,
        relayed status_text srv
            (after now stamp c)
            (capability ingress)
            (λ ip. ip)
            srv.provider.ingress_address,
      )
  unfolding ingress_public_ip handler_of allow_get str_eq Decodes
  ingress_relayed now stamp c h k reads =
      read-relayed now stamp c ingress [] (λ raw. ip_of (j.decode_ingress raw)) ingress_body
        (λ ip. ip) srv.provider.ingress_address h k (λ ip d. ap ip_of d) reads refl

  backups_relayed :
      (now stamp : ℕ) (c : Client)
      → IsPaired c srv t
      → has_cap srv (capability backups) ≡ true
      → Decodes j
          (write_answer srv
            (capability backups)
            (λ l. backups_body (some (listed l)))
            srv.provider.backup_objects).body
      → list_objects j (served_by j status_text srv) now stamp c ≡ (
        after now stamp c,
        relayed status_text srv
            (after now stamp c)
            (capability backups)
            (λ l. some (listed l))
            srv.provider.backup_objects,
      )
  unfolding list_objects handler_of allow_get str_eq Decodes
  backups_relayed now stamp c h k reads =
      read-relayed now stamp c backups [] j.decode_backups (λ l. backups_body (some (listed l)))
        (λ l. some (listed l)) srv.provider.backup_objects h k (λ l d. d) reads refl

  -- The four lists and the address: through client and server, a read yields what the Provider itself
  -- answers, a nil list as an empty one and its errors as errors of the same kind that name the client.
  -- Client and server share the token, which has no space at its ends; what the client remembers of the
  -- server's capabilities, if anything, is what the server declares; the capabilities are declared; and
  -- the server's list of capabilities and its answers to these four requests are read back as they were
  -- written, of an error the first 8 KiB.
  pub reads_relayed :
      (now stamp : ℕ) (c : Client)
      → IsPaired c srv t
      → ((s : Slot) → has_cap srv (capability s) ≡ true)
      → Decodes j
          (write_answer srv
            (capability instances)
            (λ l. instances_body (some (listed l)))
            srv.provider.instances).body
      → Decodes j
          (write_answer srv
            (capability alarms)
            (λ l. alarms_body (some (listed l)))
            srv.provider.alarms).body
      → Decodes j
          (write_answer srv (capability ingress) ingress_body srv.provider.ingress_address).body
      → Decodes j
          (write_answer srv
            (capability backups)
            (λ l. backups_body (some (listed l)))
            srv.provider.backup_objects).body
      → (list_instances j (served_by j status_text srv) now stamp c ≡ (
        after now stamp c,
        relayed status_text srv
            (after now stamp c)
            (capability instances)
            (λ l. some (listed l))
            srv.provider.instances,
      ))
        × (list_alarm_statuses j (served_by j status_text srv) now stamp c ≡ (
          after now stamp c,
          relayed status_text srv
              (after now stamp c)
              (capability alarms)
              (λ l. some (listed l))
              srv.provider.alarms,
        ))
        × (ingress_public_ip j (served_by j status_text srv) now stamp c ≡ (
          after now stamp c,
          relayed status_text srv
              (after now stamp c)
              (capability ingress)
              (λ ip. ip)
              srv.provider.ingress_address,
        ))
        × (list_objects j (served_by j status_text srv) now stamp c ≡ (
          after now stamp c,
          relayed status_text srv
              (after now stamp c)
              (capability backups)
              (λ l. some (listed l))
              srv.provider.backup_objects,
        ))
  reads_relayed now stamp c h k a b d e = (
    instances_relayed now stamp c h (k instances) a,
    alarms_relayed now stamp c h (k alarms) b,
    ingress_relayed now stamp c h (k ingress) d,
    backups_relayed now stamp c h (k backups) e,
  )

  window_seconds-max :
      (c : Client) (window : ℕ) → window_seconds c window ≡ max 1 (c.int_seconds window)
  unfolding window_seconds
  window_seconds-max c window = ground arith

  -- A metric of the contract, asked for over a window whose whole seconds, as int(d.Seconds()) gives them,
  -- are at most 9223372036, is what the Provider answers for that metric over those seconds, or over one
  -- second if they are none. Client and server share the token, which has no space at its ends; what the
  -- client remembers of the server's capabilities, if anything, is what the server declares; the metrics
  -- are declared; and the server's list of capabilities and its answer to this request are read back as they
  -- were written, of an error the first 8 KiB.
  pub query_metric-relayed :
      (now stamp : ℕ) (c : Client) (metric : Str) (window : ℕ)
      → IsPaired c srv t
      → has_cap srv (capability metrics) ≡ true
      → valid_metric metric ≡ true
      → c.int_seconds window ≤ 9223372036
      → Decodes j
          (write_answer srv
            (capability metrics)
            (λ l. series_body (some (listed l)))
            (srv.provider.metric metric (pos (max 1 (c.int_seconds window) * 1000000000)))).body
      → query_metric j (served_by j status_text srv) now stamp c metric window ≡ (
        after now stamp c,
        relayed status_text srv
            (after now stamp c)
            (capability metrics)
            (λ l. some (listed l))
            (srv.provider.metric metric (pos (max 1 (c.int_seconds window) * 1000000000))),
      )
  unfolding query_metric handler_of allow_get str_eq Decodes decimal
  query_metric-relayed now stamp c metric window h k v u d =
      let seconds = max 1 (c.int_seconds window) in
      let query = (codes "metric", metric) ∷ (codes "window", decimal seconds) ∷ [] in
      ap
        (λ n.
          read j (served_by j status_text srv) now stamp c metrics
            ((codes "metric", metric) ∷ (codes "window", decimal n) ∷ []) j.decode_series)
        (window_seconds-max c window)
      ∙ read-relayed now stamp c metrics query j.decode_series (λ l. series_body (some (listed l)))
          (λ l. some (listed l)) (srv.provider.metric metric (pos (seconds * 1000000000))) h k
          (λ l d. d) d
          (metrics_handler-exact srv (asked now stamp c metrics query) metric seconds v refl
            (omega arith) (omega arith))
