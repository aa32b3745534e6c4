-- ===== src/Infra/Assemble/Failures.antt =====
-- The sources that fail: their warnings, and what the snapshot leaves unknown.
use tinycloud_platform.Base.{
  ℕ, ◌≡◌, refl, sym, ap, ◌∙◌, Bool, true, false, none, some, List, [], ◌∷◌, ◌++◌, if◌then◌else◌,
  Str, str_eq, str_eq_iff, ◌⊎◌, inl, inr, Bool-cases, All, map, sort_strings, sort_by, All-sort_by,
  append_assoc, append-nil,
}
use mathlib.Core.List.{Permᴰ}
use tinycloud_platform.Infra.Types.{InstanceInfo}
use tinycloud_platform.Infra.Snapshot.{Node, Ingress, Backups, Snapshot}
use tinycloud_platform.Infra.Collect.{
  Sources, Source, src_instances, src_alarms, src_ingress, src_backups, src_cpu, src_memory,
  src_healthy, src_unhealthy, src_uptime, source_name, all_sources, Payload, no_payload, answer,
  CollectResult, no_result, same, warning, ended, fan_out,
}
use tinycloud_platform.Infra.Assemble.{Collector, assemble, collect, node_of}
use tinycloud_platform.Infra.Assemble.Order.{collect_order}

-- The warnings of the sources that fail, in the order of the sources.
abbrev warned : {A : Type 0} → Source → Str ⊎ A → List Str → List Str
warned s (inl e) rest = warning s e ∷ rest
warned s (inr p) rest = rest

unfoldable pub failures : Sources → List Source → List Str
failures src [] = []
failures src (s ∷ order) = warned s (answer src s) (failures src order)

ended-warned :
    (src : Sources) (s : Source) {A : Type 0} (a : Str ⊎ A) (r : CollectResult) (rest : List Str)
    → (ended src s a r).warnings ++ rest ≡ r.warnings ++ warned s a rest
ended-warned src s (inl e) r rest = append_assoc r.warnings (warning s e ∷ []) rest
ended-warned src s (inr p) r rest = refl

fan_out-failures :
    (src : Sources) (order : List Source) (r : CollectResult)
    → (fan_out src order r).warnings ≡ r.warnings ++ failures src order
unfolding fan_out failures
fan_out-failures src [] r = sym (append-nil r.warnings)
fan_out-failures src (s ∷ order) r =
    fan_out-failures src order (ended src s (answer src s) r)
    ∙ ended-warned src s (answer src s) r (failures src order)

-- In whatever order the nine reads end, the snapshot's warnings are those of the sources that failed or
-- are not configured, one for each, in the order of strings.
pub collect_warnings :
    (c : Collector) (src : Sources) (now : ℕ) (order : List Source)
    → Permᴰ order all_sources
    → (collect c src now order).warnings ≡ sort_strings (failures src all_sources)
unfolding collect assemble
collect_warnings c src now order d =
    ap (λ (s : Snapshot). s.warnings) (collect_order c src now order all_sources d)
    ∙ ap sort_strings (fan_out-failures src all_sources no_result)

source_named : Str → List Source → Source
source_named name [] = src_instances
source_named name (s ∷ ss) =
    let rest = source_named name ss in if str_eq name (source_name s) then s else rest

source_named-source_name : (s : Source) → source_named (source_name s) all_sources ≡ s
unfolding source_named str_eq
source_named-source_name src_instances = refl
source_named-source_name src_alarms = refl
source_named-source_name src_ingress = refl
source_named-source_name src_backups = refl
source_named-source_name src_cpu = refl
source_named-source_name src_memory = refl
source_named-source_name src_healthy = refl
source_named-source_name src_unhealthy = refl
source_named-source_name src_uptime = refl

same_sound : (s t : Source) → same s t ≡ true → s ≡ t
unfolding same
same_sound s t h =
    sym (source_named-source_name s)
    ∙ ap (λ n. source_named n all_sources) ((str_eq_iff (source_name s) (source_name t)).0 h)
    ∙ source_named-source_name t

-- What a source has left in the result.
abbrev IsUnread : Source → CollectResult → Type 0
IsUnread s r = (r.ok s ≡ false) × (r.field s ≡ no_payload s)

abbrev is_inl : {A : Type 0} → Str ⊎ A → Bool
is_inl (inl e) = true
is_inl (inr p) = false

failed_not_read :
    (src : Sources) (s t : Source) (e : Str) (p : Payload t)
    → answer src s ≡ inl e
    → answer src t ≡ inr p
    → same t s ≡ false
failed_not_read src s t e p h k = elim (Bool-cases (same t s)) [
  | inl b ↦
      b ∙ sym (ap is_inl h) ∙ ap (λ x. is_inl (answer src x)) (sym (same_sound t s b)) ∙ ap is_inl k
  | inr b ↦ b
]

ended-IsUnread :
    (src : Sources) (s t : Source) (e : Str) (a : Str ⊎ Payload t) (r : CollectResult)
    → answer src s ≡ inl e
    → answer src t ≡ a
    → IsUnread s r
    → IsUnread s (ended src t a r)
ended-IsUnread src s t e (inl d) r h k u = u
ended-IsUnread src s t e (inr p) r h k u = rw (failed_not_read src s t e p h k) u

fan_out-IsUnread :
    (src : Sources) (s : Source) (e : Str) (order : List Source) (r : CollectResult)
    → answer src s ≡ inl e
    → IsUnread s r
    → IsUnread s (fan_out src order r)
unfolding fan_out
fan_out-IsUnread src s e [] r h u = u
fan_out-IsUnread src s e (t ∷ order) r h u =
    fan_out-IsUnread src s e order (ended src t (answer src t) r) h
      (ended-IsUnread src s t e (answer src t) r h refl u)

-- The values of a source are missing from a snapshot: null, no element at all, or the empty address.
unfoldable pub IsUnknown : Collector → Source → Snapshot → Type 0
IsUnknown c src_instances snap =
    (snap.nodes ≡ [])
    × (snap.capacity.ampere_ocpu_used ≡ none)
    × (snap.capacity.ampere_memory_gb_used ≡ none)
IsUnknown c src_alarms snap = snap.alarms ≡ []
IsUnknown c src_ingress snap = (i : Ingress) × (snap.ingress ≡ some i) × (i.public_ip ≡ [])
IsUnknown c src_backups snap =
    ((b : Backups) × (snap.backups ≡ some b)
      × (b.object_count ≡ none)
      × (b.size_bytes ≡ none)
      × (b.streams ≡ []))
    × (snap.capacity.object_storage_used_bytes ≡ none)
IsUnknown c src_cpu snap = All (λ (n : Node). n.cpu_percent ≡ none) snap.nodes
IsUnknown c src_memory snap = All (λ (n : Node). n.memory_percent ≡ none) snap.nodes
IsUnknown c src_healthy snap = (i : Ingress) × (snap.ingress ≡ some i) × (i.healthy_backends ≡ none)
IsUnknown c src_unhealthy snap =
    (i : Ingress) × (snap.ingress ≡ some i) × (i.unhealthy_backends ≡ none)
IsUnknown c src_uptime snap = snap.uptime ≡ []

All-nodes :
    (c : Collector) (r : CollectResult) (P : Node → Type 0) (insts : List InstanceInfo)
    → ((i : InstanceInfo) → P (node_of c.unicode r i))
    → All P (map (node_of c.unicode r) insts)
All-nodes c r P [] h = tt
All-nodes c r P (i ∷ insts) h = (h i, All-nodes c r P insts h)

assemble-IsUnknown :
    (c : Collector) (now : ℕ) (s : Source) (r : CollectResult)
    → IsUnread s r
    → IsUnknown c s (assemble c now r)
unfolding assemble IsUnknown node_of sort_by
assemble-IsUnknown c now src_instances r u = (rw u.1 refl, rw u.0 refl, rw u.0 refl)
assemble-IsUnknown c now src_alarms r u = rw u.1 refl
assemble-IsUnknown c now src_ingress r u = (_, refl, u.1)
assemble-IsUnknown c now src_backups r u =
    ((_, refl, rw u.0 refl, rw u.0 refl, rw u.0 refl), rw u.0 refl)
assemble-IsUnknown c now src_cpu r u =
    All-sort_by (λ (n : Node). n.name) (λ n. n.cpu_percent ≡ none)
      (map (node_of c.unicode r) (r.field src_instances))
      (All-nodes c r (λ n. n.cpu_percent ≡ none) (r.field src_instances) (λ i. rw u.0 refl))
assemble-IsUnknown c now src_memory r u =
    All-sort_by (λ (n : Node). n.name) (λ n. n.memory_percent ≡ none)
      (map (node_of c.unicode r) (r.field src_instances))
      (All-nodes c r (λ n. n.memory_percent ≡ none) (r.field src_instances) (λ i. rw u.0 refl))
assemble-IsUnknown c now src_healthy r u = (_, refl, rw u.0 refl)
assemble-IsUnknown c now src_unhealthy r u = (_, refl, rw u.0 refl)
assemble-IsUnknown c now src_uptime r u = rw u.0 refl

-- A source that fails or is not configured leaves its values in the snapshot unknown: null, an empty
-- list, or the empty address, in whatever order the reads end and whatever the other sources yield.
pub collect-IsUnknown :
    (c : Collector) (src : Sources) (now : ℕ) (order : List Source) (s : Source) (e : Str)
    → answer src s ≡ inl e
    → IsUnknown c s (collect c src now order)
unfolding collect
collect-IsUnknown c src now order s e h =
    assemble-IsUnknown c now s (fan_out src order no_result)
      (fan_out-IsUnread src s e order no_result h (refl, refl))
