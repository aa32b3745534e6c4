-- ===== src/Manifests/Validate/Laws.antt =====
-- What an accepted onboarding request is like.
use tinycloud_platform.Base.{
  ℕ, List, Bool, ◌&&◌, ◌⊎◌, ◌∙◌, ltb, leb, all, last, str_eq, if◌then◌else◌, All-of-any, ◌≤◌, ◌<◌,
  ◌≡◌, refl, true, false, ◌||◌, Option, none, some, [], ◌∷◌, arith, ◌==◌, Str, codes, lookup, ℤ,
  pos, int_lt, lt_int, int_eq, length, All, Bool-cases, inl, inr, negsuc,
}
use tinycloud_platform.Text.{trim_space, Unicode}
use tinycloud_platform.Manifests.Request.{
  CreateAppRequest, max_replicas, app_port, normalize_create_app_request,
}
use tinycloud_platform.Manifests.Validate.{
  is_alnum, name_rest, is_app_name, is_reserved, name_error, image_error, tag_error, shape_error,
  ◌or_else◌, validate_create_app_request, is_commit_sha, is_wrong_port,
}

both_true : (a b : Bool) → a && b ≡ true → (a ≡ true) × (b ≡ true)
both_true true b h = (refl, h)
both_true false b h = cc

-- a-z or 0-9
abbrev pub IsAlnum : ℕ → Type 0
IsAlnum c = ((97 ≤ c) × (c ≤ 122)) ⊎ ((48 ≤ c) × (c ≤ 57))

-- a-f or 0-9
abbrev pub IsHexByte : ℕ → Type 0
IsHexByte c = ((97 ≤ c) × (c ≤ 102)) ⊎ ((48 ≤ c) × (c ≤ 57))

abbrev pub IsNameByte : ℕ → Type 0
IsNameByte c = IsAlnum c ⊎ (c ≡ 45)

is_alnum-IsAlnum : (c : ℕ) → is_alnum c ≡ true → IsAlnum c
unfolding is_alnum
is_alnum-IsAlnum c h = elim (Bool-cases (ltb c 58)) [
  | inl e ↦ inr (ground arith, ground arith)
  | inr e ↦ inl (ground arith, ground arith)
]

in_name : (c : ℕ) → (is_alnum c || c == b'-') ≡ true → IsNameByte c
in_name c h = elim (Bool-cases (is_alnum c)) [
  | inl e ↦ inl (is_alnum-IsAlnum c e)
  | inr e ↦ inr (ground arith)
]

-- The names that no app may have, as the platform's list has them.
abbrev pub taken_names : List Str
taken_names =
    codes "tinycloud-api"
    ∷ codes "tinycloud-ui"
    ∷ codes "tinycloud-platform"
    ∷ codes "nginx-proxy"
    ∷ codes "oauth2-proxy"
    ∷ codes "traefik"
    ∷ codes "kube-system"
    ∷ codes "monitoring"
    ∷ codes "argocd"
    ∷ codes "cert-manager"
    ∷ codes "kube-dns"
    ∷ codes "default"
    ∷ []

-- What an accepted request is, once it is normalized.
pub record IsOnboardable (req : CreateAppRequest) : Type 0 where
  pub short : length req.name ≤ 63
  pub bytes : All IsNameByte req.name
  pub starts : (c : ℕ) × (rest : Str) × (req.name ≡ c ∷ rest) × IsAlnum c
  pub ends : (c : ℕ) × (last req.name ≡ some c) × IsAlnum c
  pub free : All (λ r. str_eq req.name r ≡ false) taken_names
  pub sha_length : length req.tag ≡ 40
  pub sha_bytes : All IsHexByte req.tag
  pub replicas : (n : ℕ) × (req.replicas ≡ pos n) × (1 ≤ n) × (n ≤ 5)
  pub port : req.port ≡ pos 8080

name_rest-bytes : (s : Str) → name_rest s ≡ true → All IsNameByte s
unfolding name_rest
name_rest-bytes [] h = cc
name_rest-bytes (c ∷ []) h = (inl (is_alnum-IsAlnum c h), tt)
name_rest-bytes (c ∷ d ∷ s) h =
    let (e, r) = both_true (is_alnum c || c == b'-') (name_rest (d ∷ s)) h in
    (in_name c e, name_rest-bytes (d ∷ s) r)

name_rest-ends : (s : Str) → name_rest s ≡ true → (c : ℕ) × (last s ≡ some c) × IsAlnum c
unfolding name_rest last
name_rest-ends [] h = cc
name_rest-ends (c ∷ []) h = (c, refl, is_alnum-IsAlnum c h)
name_rest-ends (c ∷ d ∷ s) h =
    name_rest-ends (d ∷ s) (both_true (is_alnum c || c == b'-') (name_rest (d ∷ s)) h).1

app_name-bytes : (s : Str) → is_app_name s ≡ true → All IsNameByte s
unfolding is_app_name
app_name-bytes [] h = cc
app_name-bytes (c ∷ []) h = (inl (is_alnum-IsAlnum c h), tt)
app_name-bytes (c ∷ d ∷ s) h =
    let (e, r) = both_true (is_alnum c) (name_rest (d ∷ s)) h in
    (inl (is_alnum-IsAlnum c e), name_rest-bytes (d ∷ s) r)

app_name-starts :
    (s : Str) → is_app_name s ≡ true → (c : ℕ) × (rest : Str) × (s ≡ c ∷ rest) × IsAlnum c
unfolding is_app_name
app_name-starts [] h = cc
app_name-starts (c ∷ []) h = (c, [], refl, is_alnum-IsAlnum c h)
app_name-starts (c ∷ d ∷ s) h =
    (c, d ∷ s, refl, is_alnum-IsAlnum c (both_true (is_alnum c) (name_rest (d ∷ s)) h).0)

app_name-ends : (s : Str) → is_app_name s ≡ true → (c : ℕ) × (last s ≡ some c) × IsAlnum c
unfolding is_app_name last
app_name-ends [] h = cc
app_name-ends (c ∷ []) h = (c, refl, is_alnum-IsAlnum c h)
app_name-ends (c ∷ d ∷ s) h =
    name_rest-ends (d ∷ s) (both_true (is_alnum c) (name_rest (d ∷ s)) h).1

in_sha : (c : ℕ) → (leb b'a' c && leb c b'f' || leb b'0' c && leb c b'9') ≡ true → IsHexByte c
in_sha c h = elim (Bool-cases (ltb c 58)) [
  | inl e ↦ inr (ground arith, ground arith)
  | inr e ↦ inl (ground arith, ground arith)
]

hex_bytes :
    (s : Str)
    → all (λ c. leb b'a' c && leb c b'f' || leb b'0' c && leb c b'9') s ≡ true
    → All IsHexByte s
unfolding all
hex_bytes [] h = tt
hex_bytes (c ∷ s) h =
    let (e, r) =
      both_true (leb b'a' c && leb c b'f' || leb b'0' c && leb c b'9')
        (all (λ c. leb b'a' c && leb c b'f' || leb b'0' c && leb c b'9') s) h in
    (in_sha c e, hex_bytes s r)

commit_sha-bytes : (s : Str) → is_commit_sha s ≡ true → (length s ≡ 40) × All IsHexByte s
unfolding is_commit_sha
commit_sha-bytes s h =
    let (e, r) =
      both_true (length s == 40) (all (λ c. leb b'a' c && leb c b'f' || leb b'0' c && leb c b'9') s)
        h in
    (ground arith, hex_bytes s r)

few :
    (z : ℤ)
    → int_lt z 1 ≡ false
    → lt_int max_replicas z ≡ false
    → (n : ℕ) × (z ≡ pos n) × (1 ≤ n) × (n ≤ 5)
few (pos n) h k = (n, refl, ground arith, ground arith)
few (negsuc n) h k = cc

normal_replicas : (z : ℤ) → int_lt z 1 ≡ false → (if int_eq z 0 then pos 1 else z) ≡ z
normal_replicas (pos n) h = ground arith
normal_replicas (negsuc n) h = cc

pub record IsFreeLabel (name : Str) : Type 0 where
  pub long : 0 < length name
  pub short : length name ≤ 63
  pub label : is_app_name name ≡ true
  pub free : is_reserved name ≡ false

name_error-none : (name : Str) → name_error name ≡ none → IsFreeLabel name
unfolding name_error
name_error-none [] h = cc
name_error-none (c ∷ s) h = ground arith

tag_error-none : (tag : Str) → tag_error tag ≡ none → is_commit_sha tag ≡ true
unfolding tag_error
tag_error-none [] h = cc
tag_error-none (c ∷ s) h = ground arith

or_else-none : (e f : Option Str) → e or_else f ≡ none → (e ≡ none) × (f ≡ none)
or_else-none none f h = (refl, h)
or_else-none (some e) f h = cc

int_eq_sound : (z : ℤ) (n : ℕ) → int_eq z n ≡ true → z ≡ pos n
int_eq_sound (pos m) n h = ground arith
int_eq_sound (negsuc m) n h = cc

pub record HasShape (req : CreateAppRequest) : Type 0 where
  pub some_replicas : int_lt req.replicas 1 ≡ false
  pub few_replicas : lt_int max_replicas req.replicas ≡ false
  pub port : int_eq req.port app_port ≡ true
  pub env_port : is_wrong_port (lookup (codes "PORT") req.env) ≡ false

shape_error-none : (req : CreateAppRequest) → shape_error req ≡ none → HasShape req
unfolding shape_error
shape_error-none req h = elim (Bool-cases (int_lt req.replicas 1)) [
  | inl a ↦ cc (rw a at h)
  | inr a ↦ elim (Bool-cases (lt_int max_replicas req.replicas)) [
    | inl b ↦ cc (rw (a, b) at h)
    | inr b ↦ elim (Bool-cases (int_eq req.port app_port)) [
      | inr c ↦ cc (rw (a, b, c) at h)
      | inl c ↦ elim (Bool-cases (is_wrong_port (lookup (codes "PORT") req.env))) [
        | inl d ↦ cc (rw (a, b, c, d) at h)
        | inr d ↦ record { some_replicas = a; few_replicas = b; port = c; env_port = d }
      ]
    ]
  ]
]

-- A request that passes the validation is, once it is normalized, such: its name has 1 to 63 bytes of
-- a-z, 0-9 and `-`, the first and the last not `-`, and is none of the reserved names; its tag is 40 bytes
-- of a-f and 0-9; it has 1 to 5 replicas, and port 8080.
pub validated-IsOnboardable :
    (u : Unicode) (req : CreateAppRequest)
    → validate_create_app_request u (some req) ≡ none
    → IsOnboardable (normalize_create_app_request req)
unfolding validate_create_app_request normalize_create_app_request is_reserved
validated-IsOnboardable u req h =
    let (n, e) =
      or_else-none (name_error (trim_space req.name))
        (image_error u (trim_space req.image)
          or_else tag_error (trim_space req.tag)
          or_else shape_error req)
        h in
    let (i, f) =
      or_else-none (image_error u (trim_space req.image))
        (tag_error (trim_space req.tag) or_else shape_error req) e in
    let (t, g) = or_else-none (tag_error (trim_space req.tag)) (shape_error req) f in
    let name = name_error-none (trim_space req.name) n in
    let shape = shape_error-none req g in
    let (size, digits) =
      commit_sha-bytes (trim_space req.tag) (tag_error-none (trim_space req.tag) t) in
    let (k, number, least, most) = few req.replicas shape.some_replicas shape.few_replicas in
    record {
      short = name.short;
      bytes = app_name-bytes (trim_space req.name) name.label;
      starts = app_name-starts (trim_space req.name) name.label;
      ends = app_name-ends (trim_space req.name) name.label;
      free = All-of-any (str_eq (trim_space req.name)) taken_names name.free;
      sha_length = size;
      sha_bytes = digits;
      replicas = (k, normal_replicas req.replicas shape.some_replicas ∙ number, least, most);
      port = refl;
    }
