-- ===== src/Infra/Assemble/Streams.antt =====
-- The summary of the backups.
use tinycloud_platform.Base.{
  ℕ, ◌+◌, ◌≡◌, refl, ap, ◌∙◌, Bool, true, false, Option, none, some, List, [], ◌∷◌, arith, ltb,
  ◌==◌, if◌then◌else◌, Str, str_eq, str_eq_refl, str_eq_iff, StrMap, lookup, lookup-insert, length,
  keep, map, Bool-cases, inl, inr, max,
}
use tinycloud_platform.Infra.Types.{ObjectInfo}
use tinycloud_platform.Infra.Snapshot.{Stream}
use tinycloud_platform.Infra.Assemble.{
  BackupCounts, no_counts, or_zero, stream_of, newer, counted_in, count_objects, unless_zero,
  stream_row, summarise_backups,
}

abbrev pub is_stream : Str → Option Str → Bool
is_stream p none = false
is_stream p (some q) = str_eq q p

-- Whether an object belongs to a stream: the first of the prefixes that it has is that one.
abbrev pub in_stream : List Str → Str → ObjectInfo → Bool
in_stream prefixes p o = is_stream p (stream_of prefixes o.name)

-- The latest time of a list, and of what was before it; zero if there is none.
unfoldable pub latest_time : List ObjectInfo → ℕ → ℕ
latest_time [] t = t
latest_time (o ∷ objects) t = latest_time objects (max t o.modified)

counted-count :
    (p : Str) (q : Option Str) (o : ObjectInfo) (b : BackupCounts)
    → or_zero (lookup p (counted_in q o b).counts)
      ≡ or_zero (lookup p b.counts) + (if is_stream p q then 1 else 0)
counted-count p none o b = omega arith
counted-count p (some q) o b =
    ap or_zero (lookup-insert q p (or_zero (lookup q b.counts) + 1) b.counts)
    ∙ elim (Bool-cases (str_eq q p)) [
      | inl e ↦ rw e (ap (λ k. or_zero (lookup k b.counts) + 1) ((str_eq_iff q p).0 e))
      | inr e ↦ rw e (omega arith)
    ]

newer-same :
    (p : Str) (t : ℕ) (m : StrMap ℕ)
    → or_zero (lookup p (newer p t m)) ≡ max (or_zero (lookup p m)) t
newer-same p t m = elim (Bool-cases (ltb (or_zero (lookup p m)) t)) [
  | inl e ↦ rw e (ap or_zero (lookup-insert p p t m) ∙ rw (str_eq_refl p) (ground arith))
  | inr e ↦ rw e (ground arith)
]

newer-different :
    (q p : Str) (t : ℕ) (m : StrMap ℕ) → str_eq q p ≡ false → lookup p (newer q t m) ≡ lookup p m
newer-different q p t m h = elim (Bool-cases (ltb (or_zero (lookup q m)) t)) [
  | inl e ↦ rw e (lookup-insert q p t m ∙ rw h refl)
  | inr e ↦ rw e refl
]

counted-newest :
    (p : Str) (q : Option Str) (o : ObjectInfo) (b : BackupCounts)
    → or_zero (lookup p (counted_in q o b).newest) ≡ (
        if is_stream p q
        then max (or_zero (lookup p b.newest)) o.modified
        else or_zero (lookup p b.newest))
counted-newest p none o b = refl
counted-newest p (some q) o b = elim (Bool-cases (str_eq q p)) [
  | inl e ↦ rw e (
      ap (λ k. or_zero (lookup p (newer k o.modified b.newest))) ((str_eq_iff q p).0 e)
      ∙ newer-same p o.modified b.newest)
  | inr e ↦ rw e (ap or_zero (newer-different q p o.modified b.newest e))
]

counted-total :
    (q : Option Str) (o : ObjectInfo) (b : BackupCounts) → (counted_in q o b).total ≡ b.total + 1
counted-total none o b = refl
counted-total (some q) o b = refl

length-if :
    (c : Bool) (n : ℕ) (o : ObjectInfo) (os : List ObjectInfo)
    → (n + (if c then 1 else 0)) + length os ≡ n + length (if c then o ∷ os else os)
length-if true n o os = omega arith
length-if false n o os = omega arith

latest_time-if :
    (c : Bool) (o : ObjectInfo) (os : List ObjectInfo) (t : ℕ)
    → latest_time os (if c then max t o.modified else t) ≡ latest_time (if c then o ∷ os else os) t
unfolding latest_time
latest_time-if true o os t = refl
latest_time-if false o os t = refl

count_objects-total :
    (prefixes : List Str) (objects : List ObjectInfo) (b : BackupCounts)
    → (count_objects prefixes objects b).total ≡ b.total + length objects
unfolding count_objects
count_objects-total prefixes [] b = omega arith
count_objects-total prefixes (o ∷ objects) b =
    count_objects-total prefixes objects (counted_in (stream_of prefixes o.name) o b)
    ∙ omega (arith, counted-total (stream_of prefixes o.name) o b)

count_objects-count :
    (prefixes : List Str) (p : Str) (objects : List ObjectInfo) (b : BackupCounts)
    → or_zero (lookup p (count_objects prefixes objects b).counts)
      ≡ or_zero (lookup p b.counts) + length (keep (in_stream prefixes p) objects)
unfolding count_objects keep
count_objects-count prefixes p [] b = omega arith
count_objects-count prefixes p (o ∷ objects) b =
    count_objects-count prefixes p objects (counted_in (stream_of prefixes o.name) o b)
    ∙ ap (λ n. n + length (keep (in_stream prefixes p) objects))
        (counted-count p (stream_of prefixes o.name) o b)
    ∙ length-if (in_stream prefixes p o) (or_zero (lookup p b.counts)) o
        (keep (in_stream prefixes p) objects)

count_objects-newest :
    (prefixes : List Str) (p : Str) (objects : List ObjectInfo) (b : BackupCounts)
    → or_zero (lookup p (count_objects prefixes objects b).newest)
      ≡ latest_time (keep (in_stream prefixes p) objects) (or_zero (lookup p b.newest))
unfolding count_objects keep latest_time
count_objects-newest prefixes p [] b = refl
count_objects-newest prefixes p (o ∷ objects) b =
    count_objects-newest prefixes p objects (counted_in (stream_of prefixes o.name) o b)
    ∙ ap (latest_time (keep (in_stream prefixes p) objects))
        (counted-newest p (stream_of prefixes o.name) o b)
    ∙ latest_time-if (in_stream prefixes p o) o (keep (in_stream prefixes p) objects)
        (or_zero (lookup p b.newest))

-- The row of a stream: how many objects belong to it, and the latest time of one.
abbrev pub expected_row : List Str → List ObjectInfo → Str → Stream
expected_row prefixes objects p =
    let t = latest_time (keep (in_stream prefixes p) objects) 0 in
    record {
      prefix = p;
      count = length (keep (in_stream prefixes p) objects);
      newest = if t == 0 then none else some t;
    }

unless_zero-or_zero :
    (o : Option ℕ) → unless_zero o ≡ (if or_zero o == 0 then none else some (or_zero o))
unless_zero-or_zero none = refl
unless_zero-or_zero (some t) = refl

stream_row-expected :
    (prefixes : List Str) (objects : List ObjectInfo) (p : Str)
    → stream_row (count_objects prefixes objects no_counts) p ≡ expected_row prefixes objects p
unfolding stream_row lookup
stream_row-expected prefixes objects p =
    let b = count_objects prefixes objects no_counts in
    ap (λ n. record { prefix = p; count = or_zero (lookup p b.counts); newest = n })
      (unless_zero-or_zero (lookup p b.newest)
        ∙ ap (λ t. if t == 0 then none else some t)
            (count_objects-newest prefixes p objects no_counts))
    ∙ ap (λ n. record (expected_row prefixes objects p) { count = n })
        (omega (arith, count_objects-count prefixes p objects no_counts))

map-pointwise :
    {A B : Type 0} (f g : A → B) (xs : List A) → ((x : A) → f x ≡ g x) → map f xs ≡ map g xs
map-pointwise f g [] h = refl
map-pointwise f g (x ∷ xs) h =
    ap (λ y. y ∷ map f xs) (h x) ∙ ap (λ ys. g x ∷ ys) (map-pointwise f g xs h)

-- The summary counts each object in the total and in one stream at most: that of the first configured
-- prefix that, without a slash at its end, begins its name before a slash. A row has the number of its
-- objects and the latest of their times, and null for it when there is none but the zero time.
pub summarise_backups-rows :
    (bucket : Str) (prefixes : List Str) (objects : List ObjectInfo)
    → ((summarise_backups bucket prefixes objects).object_count ≡ some (length objects))
      × ((summarise_backups bucket prefixes objects).streams
          ≡ map (expected_row prefixes objects) prefixes)
unfolding summarise_backups
summarise_backups-rows bucket prefixes objects = (
  ap some (omega (arith, count_objects-total prefixes objects no_counts)),
  map-pointwise (stream_row (count_objects prefixes objects no_counts))
      (expected_row prefixes objects) prefixes (stream_row-expected prefixes objects),
)
