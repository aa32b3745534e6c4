-- ===== src/Infra/Assemble/Order.antt =====
-- The order in which the reads of a snapshot end.
use tinycloud_platform.Base.{
  ℕ, ◌≡◌, refl, sym, ap, ◌∙◌, Bool, true, false, List, [], ◌∷◌, ◌++◌, if◌then◌else◌, Str, ◌⊎◌, inl,
  inr, sort_strings, sort_by, before, insert_strings_comm,
}
use mathlib.Core.List.{Permᴰ}
use tinycloud_platform.Infra.Snapshot.{Snapshot}
use tinycloud_platform.Infra.Collect.{
  Sources, Source, answer, CollectResult, no_result, same, payload_or, warning, ended, fan_out,
}
use tinycloud_platform.Infra.Assemble.{Collector, assemble, collect}

-- A read that ends, with the warnings kept sorted.
abbrev ended_sorted : Sources → Source → {A : Type 0} → Str ⊎ A → CollectResult → CollectResult
ended_sorted src s (inl e) r = record r { warnings = before (warning s e) r.warnings }
ended_sorted src s (inr p) r = ended src s (inr p) r

fan_sorted : Sources → List Source → CollectResult → CollectResult
fan_sorted src [] r = r
fan_sorted src (s ∷ order) r = fan_sorted src order (ended_sorted src s (answer src s) r)

abbrev sorted : CollectResult → CollectResult
sorted r = record r { warnings = sort_strings r.warnings }

sort_strings-append :
    (xs : List Str) (w : Str) → sort_strings (xs ++ w ∷ []) ≡ before w (sort_strings xs)
unfolding sort_strings sort_by
sort_strings-append [] w = refl
sort_strings-append (x ∷ xs) w =
    ap (before x) (sort_strings-append xs w) ∙ insert_strings_comm x w (sort_strings xs)

sorted-ended :
    (src : Sources) (s : Source) {A : Type 0} (a : Str ⊎ A) (r : CollectResult)
    → sorted (ended src s a r) ≡ ended_sorted src s a (sorted r)
sorted-ended src s (inl e) r =
    ap (λ ws. record r { warnings = ws }) (sort_strings-append r.warnings (warning s e))
sorted-ended src s (inr p) r = refl

sorted-fan_out :
    (src : Sources) (order : List Source) (r : CollectResult)
    → sorted (fan_out src order r) ≡ fan_sorted src order (sorted r)
unfolding fan_out fan_sorted
sorted-fan_out src [] r = refl
sorted-fan_out src (s ∷ order) r =
    sorted-fan_out src order (ended src s (answer src s) r)
    ∙ ap (fan_sorted src order) (sorted-ended src s (answer src s) r)

if_twice :
    {A : Type 0} (a b : Bool) (x z : A)
    → (if a then x else if b then x else z) ≡ (if b then x else if a then x else z)
if_twice true true x z = refl
if_twice true false x z = refl
if_twice false b x z = refl

payload_or_twice :
    {A : Type 0} (a : Str ⊎ A) (old : A) → payload_or (payload_or old a) a ≡ payload_or old a
payload_or_twice (inl e) old = refl
payload_or_twice (inr p) old = refl

-- Two writes to a field, whichever of them hit it.
field_comm :
    {A : Type 0} (a b : Bool) (x : Str ⊎ A) (old : A)
    → (if b
        then payload_or (if a then payload_or old x else old) x
        else if a
        then payload_or old x
        else old)
      ≡ (if a
          then payload_or (if b then payload_or old x else old) x
          else if b
          then payload_or old x
          else old)
field_comm true true x old = refl
field_comm true false x old = refl
field_comm false true x old = refl
field_comm false false x old = refl

-- Two reads may end in either order.
ended_sorted_comm :
    (src : Sources) (a b : Source) {A B : Type 0} (x : Str ⊎ A) (y : Str ⊎ B) (r : CollectResult)
    → ended_sorted src b y (ended_sorted src a x r) ≡ ended_sorted src a x (ended_sorted src b y r)
ended_sorted_comm src a b (inl e) (inl d) r =
    ap (λ ws. record r { warnings = ws })
      (insert_strings_comm (warning b d) (warning a e) r.warnings)
ended_sorted_comm src a b (inl e) (inr q) r = refl
ended_sorted_comm src a b (inr p) (inl d) r = refl
ended_sorted_comm src a b (inr p) (inr q) r = λ i. record {
  field = λ t. field_comm (same a t) (same b t) (answer src t) (r.field t) i;
  ok = λ t. if_twice (same b t) (same a t) true (r.ok t) i;
  warnings = r.warnings;
}

fan_sorted-Perm :
    (src : Sources) {xs ys : List Source} (r : CollectResult)
    → Permᴰ xs ys
    → fan_sorted src xs r ≡ fan_sorted src ys r
unfolding fan_sorted
fan_sorted-Perm src r Permᴰ.nil = refl
fan_sorted-Perm src r (Permᴰ.cons {l₂ = l₂} e d) =
    fan_sorted-Perm src _ d ∙ ap (λ s. fan_sorted src l₂ (ended_sorted src s (answer src s) r)) e
fan_sorted-Perm src r (Permᴰ.swap {a = a} {b = b} {a' = a'} {l = l} e d) =
    ap (fan_sorted src l) (ended_sorted_comm src a b (answer src a) (answer src b) r)
    ∙ ap
        (λ s.
          fan_sorted src l
            (ended_sorted src a (answer src a) (ended_sorted src s (answer src s) r)))
        d
    ∙ ap
        (λ s.
          fan_sorted src l
            (ended_sorted src s (answer src s) (ended_sorted src a' (answer src a') r)))
        e
fan_sorted-Perm src r (Permᴰ.trans d e) = fan_sorted-Perm src r d ∙ fan_sorted-Perm src r e

-- The snapshot from the warnings once they are sorted.
abbrev shown : Collector → ℕ → CollectResult → Snapshot
shown c now v = record (assemble c now (record v { warnings = [] })) { warnings = v.warnings }

assemble-sorted :
    (c : Collector) (now : ℕ) (r : CollectResult) → assemble c now r ≡ shown c now (sorted r)
unfolding assemble
assemble-sorted c now r = refl

-- The snapshot does not depend on the order in which the reads end.
pub collect_order :
    (c : Collector) (src : Sources) (now : ℕ) (order order' : List Source)
    → Permᴰ order order'
    → collect c src now order ≡ collect c src now order'
unfolding collect
collect_order c src now order order' d =
    assemble-sorted c now (fan_out src order no_result)
    ∙ ap (shown c now) (
        sorted-fan_out src order no_result
        ∙ fan_sorted-Perm src (sorted no_result) d
        ∙ sym (sorted-fan_out src order' no_result))
    ∙ sym (assemble-sorted c now (fan_out src order' no_result))
