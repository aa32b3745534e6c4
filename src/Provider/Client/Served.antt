-- ===== src/Provider/Client/Served.antt =====
-- The client in front of the server of a Provider.
use tinycloud_platform.Base.{
  ℕ, ◌≡◌, refl, ap, ◌∙◌, Bool, ◌&&◌, Option, none, some, List, [], ◌∷◌, ◌++◌, arith, if◌then◌else◌,
  Str, codes, str_eq, StrMap, any, keep, keep-keep, Bool-cases, inl, inr, ◌⊎◌,
}
use tinycloud_platform.Text.{trim_space}
use tinycloud_platform.Provider.Config.{
  Slot, instances, metrics, alarms, ingress, backups, capability, token, kind_infra,
}
use tinycloud_platform.Provider.Contract.{
  capabilities_body, Request, Response, Json, Decodes, path_capabilities, infra_capabilities,
  valid_capability, not_implemented_by,
}
use tinycloud_platform.Provider.Server.{
  Server, write_json, allow_get, has_cap, capabilities_handler, serve,
}
use tinycloud_platform.Provider.Server.Access.{authenticated-sent, serve-capabilities}
use tinycloud_platform.Provider.Client.{
  replied, Transport, Client, got, request_of, get, capabilities, supports, is_known, declares,
  declared_error, received, decoded_as, discovered, rediscovered,
}

-- The transport to a server: every request is made and answered.
unfoldable pub served_by : (j : Json) → (ℕ → Str) → Server → Transport j.Raw
unfolding serve
served_by j status_text srv = record {
  invalid = λ r. none;
  send = λ r. let a = serve srv r in replied a.status (status_text a.status) (j.encode a.body);
}

-- What the server's capabilities handler lists.
abbrev pub declared_by : Server → List Str
declared_by srv = keep (has_cap srv) infra_capabilities

-- Client and server have the same token, which has no space at its ends, and what the client remembers
-- of the server's capabilities is what the server declares.
pub record IsPaired (c : Client) (srv : Server) (t : Str) : Type 0 where
  pub sends : c.secret ≡ some (token t)
  pub wants : srv.secret ≡ some (token t)
  pub trimmed : trim_space t ≡ t
  pub current : (c.declared ≡ none) ⊎ (c.declared ≡ some (declared_by srv))

any-keep : (p q : Str → Bool) (xs : List Str) → any q (keep p xs) ≡ any (λ x. p x && q x) xs
unfolding any keep
any-keep p q [] = refl
any-keep p q (x ∷ xs) = ground (arith, any-keep p q xs)

-- What the server lists is what it serves.
pub declares-declared_by :
    (srv : Server) (s : Slot)
    → any (str_eq (capability s)) (declared_by srv) ≡ has_cap srv (capability s)
unfolding any str_eq
declares-declared_by srv instances =
    any-keep (has_cap srv) (str_eq (capability instances)) infra_capabilities ∙ ground arith
declares-declared_by srv metrics =
    any-keep (has_cap srv) (str_eq (capability metrics)) infra_capabilities ∙ ground arith
declares-declared_by srv alarms =
    any-keep (has_cap srv) (str_eq (capability alarms)) infra_capabilities ∙ ground arith
declares-declared_by srv ingress =
    any-keep (has_cap srv) (str_eq (capability ingress)) infra_capabilities ∙ ground arith
declares-declared_by srv backups =
    any-keep (has_cap srv) (str_eq (capability backups)) infra_capabilities ∙ ground arith

infra_valid : keep valid_capability infra_capabilities ≡ infra_capabilities
unfolding keep valid_capability any str_eq
infra_valid = refl

pub declared_valid : (srv : Server) → keep valid_capability (declared_by srv) ≡ declared_by srv
declared_valid srv =
    keep-keep valid_capability (has_cap srv) infra_capabilities
    ∙ ap (keep (has_cap srv)) infra_valid

module _ (j : Json) (status_text : ℕ → Str) (srv : Server) (t : Str)
    (lists : Decodes j
      (capabilities_body kind_infra srv.provider.name (some (declared_by srv)))) where
  abbrev net : Transport j.Raw
  net = served_by j status_text srv

  abbrev pub sent_by : Client → Str → StrMap Str → Request
  sent_by c path query = request_of c path query (codes "Bearer " ++ t)

  pub get-served :
      {A : Type 0} (c : Client) (path : Str) (query : StrMap Str) (decode : j.Raw → Option A)
      → IsPaired c srv t
      → get j net c path query decode ≡ received j c path decode (net.send (sent_by c path query))
  unfolding get served_by
  get-served c path query decode h = rw h.sends refl

  serve-declared :
      (c : Client)
      → IsPaired c srv t
      → serve srv (sent_by c path_capabilities [])
        ≡ write_json (capabilities_body kind_infra srv.provider.name (some (declared_by srv)))
  unfolding capabilities_handler allow_get str_eq
  serve-declared c h =
      serve-capabilities srv (sent_by c path_capabilities []) refl
      ∙ authenticated-sent srv (sent_by c path_capabilities []) t
          (capabilities_handler srv (sent_by c path_capabilities [])) h.wants h.trimmed refl

  abbrev remembering : ℕ → Client → Client
  remembering now c = record c { declared = some (declared_by srv); known_at = now }

  capabilities-served :
      (now : ℕ) (c : Client)
      → IsPaired c srv t
      → capabilities j net now c ≡ (remembering now c, got (declared_by srv))
  unfolding capabilities served_by str_eq Decodes
  capabilities-served now c h =
      let b = capabilities_body kind_infra srv.provider.name (some (declared_by srv)) in
      ap (discovered c now) (
        get-served c path_capabilities [] j.decode_capabilities h
        ∙ ap
            (λ (a : Response).
              received j c path_capabilities j.decode_capabilities
                (replied a.status (status_text a.status) (j.encode a.body)))
            (serve-declared c h)
        ∙ ap (decoded_as c path_capabilities (j.decode_failure (j.encode b))) lists)
      ∙ rw (declared_valid srv) refl

  remembering-IsPaired :
      (now : ℕ) (c : Client) → IsPaired c srv t → IsPaired (remembering now c) srv t
  remembering-IsPaired now c h = record {
    sends = h.sends;
    wants = h.wants;
    trimmed = h.trimmed;
    current = inr refl;
  }

  -- What a call of `supports` leaves.
  abbrev pub supported : ℕ → ℕ → Client → Client
  supported now stamp c = if is_known now c.known_at c.declared then c else remembering stamp c

  pub supported-IsPaired :
      (now stamp : ℕ) (c : Client) → IsPaired c srv t → IsPaired (supported now stamp c) srv t
  supported-IsPaired now stamp c h = elim (Bool-cases (is_known now c.known_at c.declared)) [
    | inl e ↦ rw e h
    | inr e ↦ rw e (remembering-IsPaired stamp c h)
  ]

  pub supported-declared :
      (now stamp : ℕ) (c : Client)
      → IsPaired c srv t
      → (supported now stamp c).declared ≡ some (declared_by srv)
  supported-declared now stamp c h = elim h.current [
    | inl n ↦ rw n refl
    | inr d ↦ elim (Bool-cases (is_known now c.known_at c.declared)) [
      | inl e ↦ rw e d
      | inr e ↦ rw e refl
    ]
  ]

  pub declared_error-served :
      (c : Client) (s : Slot)
      → c.declared ≡ some (declared_by srv)
      → declared_error c (capability s) ≡ (
          if has_cap srv (capability s)
          then none
          else some (not_implemented_by c.quote_other (capability s) c.name))
  unfolding declared_error
  declared_error-served c s d =
      ap
        (λ o.
          if declares o (capability s)
          then none
          else some (not_implemented_by c.quote_other (capability s) c.name))
        d
      ∙ ap (λ b. if b then none else some (not_implemented_by c.quote_other (capability s) c.name))
          (declares-declared_by srv s)

  pub supports-served :
      (now stamp : ℕ) (c : Client) (s : Slot)
      → IsPaired c srv t
      → supports j net now stamp c (capability s)
        ≡ (supported now stamp c, declared_error (supported now stamp c) (capability s))
  unfolding supports
  supports-served now stamp c s h = elim (Bool-cases (is_known now c.known_at c.declared)) [
    | inl e ↦ rw e refl
    | inr e ↦ rw e (ap (rediscovered (capability s)) (capabilities-served stamp c h))
  ]
