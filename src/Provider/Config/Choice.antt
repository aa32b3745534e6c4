-- ===== src/Provider/Config/Choice.antt =====
-- Which source each capability gets.
use tinycloud_platform.Base.{
  ◌≡◌, refl, ap, ◌∙◌, Bool, true, false, Option, none, some, List, [], ◌∷◌, ◌++◌, arith, Str, any,
  lookup, Bool-cases, Option-cases, inl, inr,
}
use tinycloud_platform.Provider.Config.{
  Entry, Client, Slot, instances, metrics, alarms, ingress, backups, capability, Source, client,
  unimplemented, Sources, slot_of, fill, Found, find_clients, fill_left, fill_slot, fill_slots,
  infra_slots, infra_sources, nothing_found,
}
use tinycloud_platform.Provider.Config.Reference.{
  is_slot, slot_of-fill, first_of, first_naming, first_silent, is_infra, left, choice,
}
use tinycloud_platform.Provider.Config.Discovery.{
  find_clients-by_capability, find_clients-undiscovered, find_clients-configured,
}

is_slot_refl : (s : Slot) → is_slot s s ≡ true
unfolding is_slot
is_slot_refl instances = refl
is_slot_refl metrics = refl
is_slot_refl alarms = refl
is_slot_refl ingress = refl
is_slot_refl backups = refl

slot_of-fill_own : (s : Slot) (v : Source) (src : Sources) → slot_of s (fill s v src) ≡ some v
slot_of-fill_own s v src = slot_of-fill s s v src ∙ rw (is_slot_refl s) refl

slot_of-fill_other :
    (t s : Slot) (v : Source) (src : Sources)
    → is_slot t s ≡ false
    → slot_of t (fill s v src) ≡ slot_of t src
slot_of-fill_other t s v src h = slot_of-fill t s v src ∙ rw h refl

module _ (f : Found) where
  left_own :
      (s : Slot) (src : Sources) (o : Option Source) (cs : List Client) (b : Bool)
      → slot_of s src ≡ o
      → f.configured ≡ b
      → slot_of s (fill_left f s src o cs) ≡ left o (first_of cs) b s
  left_own s src (some v) cs b e c = e
  left_own s src none (x ∷ cs) b e c = slot_of-fill_own s (client x) src
  left_own s src none [] true e c = rw c (slot_of-fill_own s (unimplemented (capability s)) src)
  left_own s src none [] false e c = rw c e

  left_other :
      (t s : Slot) (src : Sources) (o : Option Source) (cs : List Client)
      → is_slot t s ≡ false
      → slot_of t (fill_left f s src o cs) ≡ slot_of t src
  left_other t s src (some v) cs h = refl
  left_other t s src none (x ∷ cs) h = slot_of-fill_other t s (client x) src h
  left_other t s src none [] h = elim (Bool-cases f.configured) [
    | inl c ↦ rw c (slot_of-fill_other t s (unimplemented (capability s)) src h)
    | inr c ↦ rw c refl
  ]

  fill_slot-named :
      (s : Slot) (src : Sources) (c : Client)
      → lookup (capability s) f.by_capability ≡ some c
      → fill_slot f s src ≡ fill s (client c) src
  unfolding fill_slot
  fill_slot-named s src c e = rw (e, fill_slot)

  fill_slot-left :
      (s : Slot) (src : Sources)
      → lookup (capability s) f.by_capability ≡ none
      → fill_slot f s src ≡ fill_left f s src (slot_of s src) f.undiscovered
  unfolding fill_slot
  fill_slot-left s src e = rw (e, fill_slot)

  abbrev chosen : Slot → Option Source → Option Source
  chosen s own =
      choice (lookup (capability s) f.by_capability) own (first_of f.undiscovered) f.configured s

  fill_slot_own :
      (s : Slot) (src : Sources) → slot_of s (fill_slot f s src) ≡ chosen s (slot_of s src)
  fill_slot_own s src = elim (Option-cases (lookup (capability s) f.by_capability)) [
    | inr (c, e) ↦ rw (fill_slot-named s src c e, e) (slot_of-fill_own s (client c) src)
    | inl e ↦
        rw (fill_slot-left s src e, e)
          (left_own s src (slot_of s src) f.undiscovered f.configured refl refl)
  ]

  fill_slot_other :
      (t s : Slot) (src : Sources)
      → is_slot t s ≡ false
      → slot_of t (fill_slot f s src) ≡ slot_of t src
  fill_slot_other t s src h = elim (Option-cases (lookup (capability s) f.by_capability)) [
    | inr (c, e) ↦ rw (fill_slot-named s src c e) (slot_of-fill_other t s (client c) src h)
    | inl e ↦ rw (fill_slot-left s src e) (left_other t s src (slot_of s src) f.undiscovered h)
  ]

  fill_slots_other :
      (t : Slot) (slots : List Slot) (src : Sources)
      → any (is_slot t) slots ≡ false
      → slot_of t (fill_slots f slots src) ≡ slot_of t src
  unfolding fill_slots any
  fill_slots_other t [] src h = refl
  fill_slots_other t (s ∷ slots) src h =
      fill_slots_other t slots (fill_slot f s src) (ground arith)
      ∙ fill_slot_other t s src (ground arith)

  fill_slots_own :
      (t : Slot) (before after : List Slot) (src : Sources)
      → any (is_slot t) before ≡ false
      → any (is_slot t) after ≡ false
      → slot_of t (fill_slots f (before ++ t ∷ after) src) ≡ chosen t (slot_of t src)
  unfolding fill_slots any
  fill_slots_own t [] after src h k =
      fill_slots_other t after (fill_slot f t src) k ∙ fill_slot_own t src
  fill_slots_own t (s ∷ before) after src h k =
      fill_slots_own t before after (fill_slot f s src) (ground arith) k
      ∙ ap (chosen t) (fill_slot_other t s src (ground arith))

  infra_slots_own :
      (t : Slot) (src : Sources)
      → slot_of t (fill_slots f infra_slots src) ≡ chosen t (slot_of t src)
  unfolding is_slot any
  infra_slots_own instances src =
      fill_slots_own instances [] (metrics ∷ alarms ∷ ingress ∷ backups ∷ []) src refl refl
  infra_slots_own metrics src =
      fill_slots_own metrics (instances ∷ []) (alarms ∷ ingress ∷ backups ∷ []) src refl refl
  infra_slots_own alarms src =
      fill_slots_own alarms (instances ∷ metrics ∷ []) (ingress ∷ backups ∷ []) src refl refl
  infra_slots_own ingress src =
      fill_slots_own ingress (instances ∷ metrics ∷ alarms ∷ []) (backups ∷ []) src refl refl
  infra_slots_own backups src =
      fill_slots_own backups (instances ∷ metrics ∷ alarms ∷ ingress ∷ []) [] src refl refl

-- Each capability is served by the first configured Provider that names it when it is asked; else by
-- the fallback; else by the first Provider that cannot be asked; else, if any Provider of the kind is
-- configured, by the stub that reports it as not implemented; else by nothing.
pub infra_sources-choice :
    (asks : Client → Option (List Str)) (es : List Entry) (fallback : Sources) (t : Slot)
    → slot_of t (infra_sources asks es fallback)
      ≡ choice
          (first_naming asks (capability t) es)
          (slot_of t fallback)
          (first_silent asks es)
          (any is_infra es)
          t
unfolding infra_sources lookup
infra_sources-choice asks es fallback t =
    infra_slots_own (find_clients asks es nothing_found) t fallback
    ∙ rw
        (
          find_clients-by_capability asks (capability t) es nothing_found,
          find_clients-undiscovered asks es nothing_found,
          find_clients-configured asks es nothing_found,
        )
        refl
