-- ===== src/Build/Store/Order.antt =====
-- What `ORDER BY created_at` finds. The column holds texts, so the order is that of their bytes.
use tinycloud_platform.Base.{
  subst, Option, none, Bool, ℕ, ◌<◌, ◌≡◌, refl, sym, ap, true, false, some, List, [], ◌∷◌, ◌++◌,
  arith, Str, str_lt, All, All-append, All-keep, keep, last, last-cons, All-last, ◌∙◌, Bool-cases,
  inl, inr,
}
use tinycloud_platform.Build.Types.{BuildJob}
use tinycloud_platform.Build.Time.{format_time, fraction, date_time}
use tinycloud_platform.Build.Tables.{newer, newest}

-- No row has an earlier text than a row in front of it.
abbrev pub IsChronological : List BuildJob → Type 0
IsChronological [] = Unit
IsChronological (j ∷ js) =
    All (λ k. str_lt k.created_at j.created_at ≡ false) js × IsChronological js

pub IsChronological-append :
    (js : List BuildJob) (j : BuildJob)
    → IsChronological js
    → All (λ k. str_lt j.created_at k.created_at ≡ false) js
    → IsChronological (js ++ j ∷ [])
IsChronological-append [] j h l = (tt, tt)
IsChronological-append (k ∷ ks) j h l = (
  All-append (λ i. str_lt i.created_at k.created_at ≡ false) ks (j ∷ []) h.0 (l.0, tt),
  IsChronological-append ks j h.1 l.1,
)

pub IsChronological-keep :
    (p : BuildJob → Bool) (js : List BuildJob) → IsChronological js → IsChronological (keep p js)
unfolding keep
IsChronological-keep p [] h = tt
IsChronological-keep p (j ∷ js) h = elim (Bool-cases (p j)) [
  | inl e ↦ rw e (
    All-keep (λ k. str_lt k.created_at j.created_at ≡ false) p js h.0,
    IsChronological-keep p js h.1,
  )
  | inr e ↦ rw e (IsChronological-keep p js h.1)
]

newer-eq_later : (j k : BuildJob) → str_lt k.created_at j.created_at ≡ false → newer j (some k) ≡ k
unfolding newer
newer-eq_later j k h = rw h

-- In chronological rows the newest one is the last.
pub newest-eq-last : (js : List BuildJob) → IsChronological js → newest js ≡ last js
unfolding newest last
newest-eq-last [] h = refl
newest-eq-last (j ∷ []) h = refl
newest-eq-last (j ∷ k ∷ js) h =
    let (l, e) = last-cons k js in
    ap (λ o. some (newer j o)) (newest-eq-last (k ∷ js) h.1 ∙ e)
    ∙ ap some (
        newer-eq_later j l
          (All-last (λ i. str_lt i.created_at j.created_at ≡ false) (k ∷ js) h.0 e))
    ∙ sym e

str_lt-append : (p s t : Str) → str_lt (p ++ s) (p ++ t) ≡ str_lt s t
unfolding str_lt
str_lt-append [] s t = refl
str_lt-append (c ∷ p) s t = ground (arith, str_lt-append p s t)

fraction_first : (n : ℕ) → 0 < n → str_lt (fraction n ++ b'Z' ∷ []) (fraction 0 ++ b'Z' ∷ []) ≡ true
unfolding fraction str_lt
fraction_first n h = ground arith

-- A time with a fraction of a second has an earlier text than the whole second that it follows.
pub str_lt-format_time :
    (s n : ℕ)
    → 0 < n
    → str_lt
        (format_time (record { seconds = s; nanos = n }))
        (format_time (record { seconds = s; nanos = 0 }))
      ≡ true
unfolding format_time str_lt
str_lt-format_time s n h =
    str_lt-append (date_time s) (fraction n ++ b'Z' ∷ []) (fraction 0 ++ b'Z' ∷ [])
    ∙ fraction_first n h

newer-mem :
    (P : BuildJob → Type 0) (j : BuildJob) (o : Option BuildJob)
    → P j
    → ((k : BuildJob) → o ≡ some k → P k)
    → P (newer j o)
unfolding newer
newer-mem P j none h k = h
newer-mem P j (some i) h k = elim (Bool-cases (str_lt i.created_at j.created_at)) [
  | inl e ↦ rw e h
  | inr e ↦ rw e (k i refl)
]

-- What holds of every row holds of the newest.
pub newest-All :
    (P : BuildJob → Type 0) (js : List BuildJob) (j : BuildJob)
    → All P js
    → newest js ≡ some j
    → P j
unfolding newest
newest-All P [] j h e = cc
newest-All P (k ∷ js) j h e =
    subst P (cc) (newer-mem P k (newest js) h.0 (λ i d. newest-All P js i h.1 d))
