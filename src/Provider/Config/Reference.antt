-- ===== src/Provider/Config/Reference.antt =====
-- The choice of a source for a capability, described without the maps of InfraSources, and what
-- declarations make of those.
use tinycloud_platform.Base.{
  ◌≡◌, refl, ap, ◌∙◌, Bool, true, false, ◌&&◌, Option, none, some, List, [], ◌∷◌, ◌++◌, arith,
  if◌then◌else◌, Str, str_eq, str_eq_iff, str_eq_refl, str_eq_comm, any, StrMap, lookup, insert,
  lookup-insert, Bool-cases, Option-cases, inl, inr,
}
use tinycloud_platform.Provider.Config.{
  Entry, Client, client_of, kind_infra, Slot, instances, metrics, alarms, ingress, backups,
  capability, Source, client, unimplemented, Sources, slot_of, fill, declare_all,
}

-- The same slot.
unfoldable pub is_slot : Slot → Slot → Bool
is_slot instances instances = true
is_slot metrics metrics = true
is_slot alarms alarms = true
is_slot ingress ingress = true
is_slot backups backups = true
is_slot _ _ = false

pub slot_of-fill :
    (t s : Slot) (v : Source) (src : Sources)
    → slot_of t (fill s v src) ≡ (if is_slot t s then some v else slot_of t src)
unfolding slot_of fill is_slot
slot_of-fill instances instances v src = refl
slot_of-fill instances metrics v src = refl
slot_of-fill instances alarms v src = refl
slot_of-fill instances ingress v src = refl
slot_of-fill instances backups v src = refl
slot_of-fill metrics instances v src = refl
slot_of-fill metrics metrics v src = refl
slot_of-fill metrics alarms v src = refl
slot_of-fill metrics ingress v src = refl
slot_of-fill metrics backups v src = refl
slot_of-fill alarms instances v src = refl
slot_of-fill alarms metrics v src = refl
slot_of-fill alarms alarms v src = refl
slot_of-fill alarms ingress v src = refl
slot_of-fill alarms backups v src = refl
slot_of-fill ingress instances v src = refl
slot_of-fill ingress metrics v src = refl
slot_of-fill ingress alarms v src = refl
slot_of-fill ingress ingress v src = refl
slot_of-fill ingress backups v src = refl
slot_of-fill backups instances v src = refl
slot_of-fill backups metrics v src = refl
slot_of-fill backups alarms v src = refl
slot_of-fill backups ingress v src = refl
slot_of-fill backups backups v src = refl

abbrev pub or_else : {A : Type 0} → Option A → Option A → Option A
or_else none b = b
or_else (some a) b = some a

abbrev pub first_of : {A : Type 0} → List A → Option A
first_of [] = none
first_of (a ∷ as') = some a

-- The first Provider of the kind that names the capability when it is asked.
abbrev pub names : Str → Option (List Str) → Bool
names cap none = false
names cap (some ds) = any (str_eq cap) ds

abbrev pub is_silent : Option (List Str) → Bool
is_silent none = true
is_silent (some ds) = false

unfoldable pub first_naming : (Client → Option (List Str)) → Str → List Entry → Option Client
first_naming asks cap [] = none
first_naming asks cap (e ∷ es) =
    let rest = first_naming asks cap es in
    if str_eq e.kind kind_infra && names cap (asks (client_of e)) then some (client_of e) else rest

-- The first Provider of the kind that cannot be asked.
unfoldable pub first_silent : (Client → Option (List Str)) → List Entry → Option Client
first_silent asks [] = none
first_silent asks (e ∷ es) =
    let rest = first_silent asks es in
    if str_eq e.kind kind_infra && is_silent (asks (client_of e)) then some (client_of e) else rest

abbrev pub is_infra : Entry → Bool
is_infra e = str_eq e.kind kind_infra

abbrev pub stub_if : Bool → Slot → Option Source
stub_if true slot = some (unimplemented (capability slot))
stub_if false slot = none

abbrev pub left : Option Source → Option Client → Bool → Slot → Option Source
left (some v) c b slot = some v
left none (some c) b slot = some (client c)
left none none b slot = stub_if b slot

-- The order of precedence: a Provider that names the capability, the fallback, a Provider that cannot
-- be asked, the stub if any Provider is configured.
abbrev pub choice : Option Client → Option Source → Option Client → Bool → Slot → Option Source
choice (some c) own silent b slot = some (client c)
choice none own silent b slot = left own silent b slot

pub declare_all-new :
    (d : Str) (c : Client) (ds : List Str) (m : StrMap Client)
    → lookup d m ≡ none
    → declare_all c (d ∷ ds) m ≡ declare_all c ds (insert d c m)
unfolding declare_all
declare_all-new d c ds m e = rw (e, declare_all)

pub declare_all-taken :
    (d : Str) (c : Client) (ds : List Str) (m : StrMap Client) (x : Client)
    → lookup d m ≡ some x
    → declare_all c (d ∷ ds) m ≡ declare_all c ds m
unfolding declare_all
declare_all-taken d c ds m x e = rw (e, declare_all)

pub declared_new :
    (cap d : Str) (c : Client) (ds : List Str) (m : StrMap Client)
    → lookup d m ≡ none
    → or_else (lookup cap (insert d c m)) (if any (str_eq cap) ds then some c else none)
      ≡ or_else (lookup cap m) (if any (str_eq cap) (d ∷ ds) then some c else none)
unfolding any
declared_new cap d c ds m e = elim (Bool-cases (str_eq cap d)) [
  | inl b ↦
      let same = (str_eq_iff cap d).0 b in rw (lookup-insert d cap c m, same, str_eq_refl d, e)
  | inr b ↦ let other = str_eq_comm d cap ∙ b in rw (lookup-insert d cap c m, other, b)
]

pub declared_taken :
    (cap d : Str) (c : Client) (ds : List Str) (m : StrMap Client) (x : Client)
    → lookup d m ≡ some x
    → or_else (lookup cap m) (if any (str_eq cap) ds then some c else none)
      ≡ or_else (lookup cap m) (if any (str_eq cap) (d ∷ ds) then some c else none)
unfolding any
declared_taken cap d c ds m x e = elim (Bool-cases (str_eq cap d)) [
  | inl b ↦ let same = (str_eq_iff cap d).0 b in rw (same, e)
  | inr b ↦ rw b
]

pub lookup-declare_all :
    (cap : Str) (c : Client) (ds : List Str) (m : StrMap Client)
    → lookup cap (declare_all c ds m)
      ≡ or_else (lookup cap m) (if any (str_eq cap) ds then some c else none)
unfolding declare_all any
lookup-declare_all cap c [] m = ground arith
lookup-declare_all cap c (d ∷ ds) m = elim (Option-cases (lookup d m)) [
  | inl e ↦
      ap (lookup cap) (declare_all-new d c ds m e)
      ∙ lookup-declare_all cap c ds (insert d c m)
      ∙ declared_new cap d c ds m e
  | inr (x, e) ↦
      ap (lookup cap) (declare_all-taken d c ds m x e)
      ∙ lookup-declare_all cap c ds m
      ∙ declared_taken cap d c ds m x e
]

pub first_added :
    (cs : List Client) (c : Client) (o : Option Client)
    → or_else (first_of (cs ++ c ∷ [])) o ≡ or_else (first_of cs) (some c)
first_added [] c o = refl
first_added (b ∷ cs) c o = refl

pub or_else_assoc : (a b c : Option Client) → or_else (or_else a b) c ≡ or_else a (or_else b c)
or_else_assoc none b c = refl
or_else_assoc (some x) b c = refl
