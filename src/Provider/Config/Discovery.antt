-- ===== src/Provider/Config/Discovery.antt =====
-- What InfraSources finds when it asks the Providers for their capabilities.
use tinycloud_platform.Base.{
  ◌≡◌, refl, sym, ap, ◌∙◌, true, false, ◌||◌, Option, none, some, List, [], ◌∷◌, arith,
  if◌then◌else◌, Str, str_eq, any, lookup, Bool-cases, Option-cases, inl, inr,
}
use tinycloud_platform.Provider.Config.{
  Entry, Client, client_of, kind_infra, Found, found_client, find_clients,
}
use tinycloud_platform.Provider.Config.Reference.{
  or_else, first_of, names, is_silent, first_naming, first_silent, is_infra, lookup-declare_all,
  first_added, or_else_assoc,
}

module _ (asks : Client → Option (List Str)) where
  pub find_clients-skip :
      (e : Entry) (es : List Entry) (f : Found)
      → str_eq e.kind kind_infra ≡ false
      → find_clients asks (e ∷ es) f ≡ find_clients asks es f
  unfolding find_clients
  find_clients-skip e es f k = rw k

  pub find_clients-ask :
      (e : Entry) (es : List Entry) (f : Found) (o : Option (List Str))
      → str_eq e.kind kind_infra ≡ true
      → asks (client_of e) ≡ o
      → find_clients asks (e ∷ es) f ≡ find_clients asks es (found_client (client_of e) o f)
  unfolding find_clients
  find_clients-ask e es f o k a =
      rw k (ap (λ r. find_clients asks es (found_client (client_of e) r f)) a)

  pub naming_asked :
      (cap : Str) (e : Entry) (es : List Entry) (o : Option (List Str))
      → str_eq e.kind kind_infra ≡ true
      → asks (client_of e) ≡ o
      → first_naming asks cap (e ∷ es)
        ≡ or_else (if names cap o then some (client_of e) else none) (first_naming asks cap es)
  unfolding first_naming
  naming_asked cap e es o k a = rw k (
      ap (λ r. if names cap r then some (client_of e) else first_naming asks cap es) a
      ∙ ground arith)

  pub silent_asked :
      (e : Entry) (es : List Entry) (o : Option (List Str))
      → str_eq e.kind kind_infra ≡ true
      → asks (client_of e) ≡ o
      → first_silent asks (e ∷ es)
        ≡ or_else (if is_silent o then some (client_of e) else none) (first_silent asks es)
  unfolding first_silent
  silent_asked e es o k a =
      rw k (
        ap (λ r. if is_silent r then some (client_of e) else first_silent asks es) a ∙ ground arith)

  pub naming_skipped :
      (cap : Str) (e : Entry) (es : List Entry)
      → str_eq e.kind kind_infra ≡ false
      → first_naming asks cap (e ∷ es) ≡ first_naming asks cap es
  unfolding first_naming
  naming_skipped cap e es k = rw k

  pub silent_skipped :
      (e : Entry) (es : List Entry)
      → str_eq e.kind kind_infra ≡ false
      → first_silent asks (e ∷ es) ≡ first_silent asks es
  unfolding first_silent
  silent_skipped e es k = rw k

  pub find_clients-by_capability :
      (cap : Str) (es : List Entry) (f : Found)
      → lookup cap (find_clients asks es f).by_capability
        ≡ or_else (lookup cap f.by_capability) (first_naming asks cap es)
  unfolding find_clients first_naming found_client
  find_clients-by_capability cap [] f = ground arith
  find_clients-by_capability cap (e ∷ es) f = elim (Bool-cases (str_eq e.kind kind_infra)) [
    | inr k ↦
        ap (λ (g : Found). lookup cap g.by_capability) (find_clients-skip e es f k)
        ∙ find_clients-by_capability cap es f
        ∙ sym (ap (or_else (lookup cap f.by_capability)) (naming_skipped cap e es k))
    | inl k ↦ elim (Option-cases (asks (client_of e))) [
      | inl a ↦
          ap (λ (g : Found). lookup cap g.by_capability) (find_clients-ask e es f none k a)
          ∙ find_clients-by_capability cap es (found_client (client_of e) none f)
          ∙ sym (ap (or_else (lookup cap f.by_capability)) (naming_asked cap e es none k a))
      | inr (ds, a) ↦
          ap (λ (g : Found). lookup cap g.by_capability) (find_clients-ask e es f (some ds) k a)
          ∙ find_clients-by_capability cap es (found_client (client_of e) (some ds) f)
          ∙ ap (λ o. or_else o (first_naming asks cap es))
              (lookup-declare_all cap (client_of e) ds f.by_capability)
          ∙ or_else_assoc (lookup cap f.by_capability)
              (if any (str_eq cap) ds then some (client_of e) else none) (first_naming asks cap es)
          ∙ sym (ap (or_else (lookup cap f.by_capability)) (naming_asked cap e es (some ds) k a))
    ]
  ]

  pub find_clients-undiscovered :
      (es : List Entry) (f : Found)
      → first_of (find_clients asks es f).undiscovered
        ≡ or_else (first_of f.undiscovered) (first_silent asks es)
  unfolding find_clients first_silent found_client
  find_clients-undiscovered [] f = ground arith
  find_clients-undiscovered (e ∷ es) f = elim (Bool-cases (str_eq e.kind kind_infra)) [
    | inr k ↦
        ap (λ (g : Found). first_of g.undiscovered) (find_clients-skip e es f k)
        ∙ find_clients-undiscovered es f
        ∙ sym (ap (or_else (first_of f.undiscovered)) (silent_skipped e es k))
    | inl k ↦ elim (Option-cases (asks (client_of e))) [
      | inl a ↦
          ap (λ (g : Found). first_of g.undiscovered) (find_clients-ask e es f none k a)
          ∙ find_clients-undiscovered es (found_client (client_of e) none f)
          ∙ first_added f.undiscovered (client_of e) (first_silent asks es)
          ∙ sym (ap (or_else (first_of f.undiscovered)) (silent_asked e es none k a))
      | inr (ds, a) ↦
          ap (λ (g : Found). first_of g.undiscovered) (find_clients-ask e es f (some ds) k a)
          ∙ find_clients-undiscovered es (found_client (client_of e) (some ds) f)
          ∙ sym (ap (or_else (first_of f.undiscovered)) (silent_asked e es (some ds) k a))
    ]
  ]

  pub found_client-configured :
      (c : Client) (o : Option (List Str)) (f : Found) → (found_client c o f).configured ≡ true
  unfolding found_client
  found_client-configured c none f = refl
  found_client-configured c (some ds) f = refl

  pub find_clients-configured :
      (es : List Entry) (f : Found)
      → (find_clients asks es f).configured ≡ (f.configured || any is_infra es)
  unfolding find_clients any
  find_clients-configured [] f = ground arith
  find_clients-configured (e ∷ es) f = elim (Bool-cases (str_eq e.kind kind_infra)) [
    | inr k ↦
        ap (λ (g : Found). g.configured) (find_clients-skip e es f k)
        ∙ find_clients-configured es f
        ∙ rw k refl
    | inl k ↦
        ap (λ (g : Found). g.configured) (find_clients-ask e es f (asks (client_of e)) k refl)
        ∙ find_clients-configured es (found_client (client_of e) (asks (client_of e)) f)
        ∙ ap (λ b. b || any is_infra es)
            (found_client-configured (client_of e) (asks (client_of e)) f)
        ∙ (rw k (ground arith))
  ]
