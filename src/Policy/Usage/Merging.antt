-- ===== src/Policy/Usage/Merging.antt =====
-- focus-core/src/policy.rs, the merging loop of rule_active_seconds_between: the intervals that it
-- adds up.
use bloc_kuntu.Common.{
  ℕ, ◌+◌, ◌≤◌, ◌<◌, max, ◌≡◌, refl, ◌∙◌, ◌↔◌, ◌⊎◌, inl, inr, false, none, some, List, [], ◌∷◌,
  arith, ltb, leb, if◌then◌else◌, ltb→lt, ltb→ge, leb→le, leb→gt, Bool-cases, All, Any, sort_by,
  insert_by, All-map,
}
use bloc_kuntu.Platform.{Instant}
use bloc_kuntu.Common.Members.{All-insert_by}
use bloc_kuntu.Store.Detox.{Interval}
use bloc_kuntu.Policy.Usage.{seconds_of, merge_loop, starts_before}

-- The instant is in the interval, its end excluded.
abbrev pub IsIn : Instant → Interval → Type 0
IsIn t i = (i.0 ≤ t) × (t < i.1)

-- In the order of their starts.
pub IsSorted : List Interval → Type 0
IsSorted [] = Unit {0}
IsSorted (i ∷ rest) = All (λ k. i.0 ≤ k.0) rest × IsSorted rest

-- Each interval ends before all later ones start.
unfoldable pub IsApart : List Interval → Type 0
IsApart [] = Unit {0}
IsApart (m ∷ rest) = All (λ k. m.1 < k.0) rest × IsApart rest

unfoldable pub total_seconds : List Interval → ℕ
total_seconds [] = 0
total_seconds (m ∷ rest) = seconds_of m + total_seconds rest

-- The intervals that the loop closes, in their order.
merged : Interval → List Interval → List Interval
merged a [] = a ∷ []
merged a (i ∷ rest) =
    let joined = merged (a.0, max a.1 i.1) rest in
    let apart = a ∷ merged i rest in if leb i.0 a.1 then joined else apart

merge_loop-merged :
    (total : ℕ) (a : Interval) (is : List Interval)
    → merge_loop total (some a) is ≡ total + total_seconds (merged a is)
unfolding merge_loop merged total_seconds
merge_loop-merged total a [] = omega arith
merge_loop-merged total a (i ∷ rest) = elim (Bool-cases (leb i.0 a.1)) [
  | inl e ↦ rw e (merge_loop-merged total (a.0, max a.1 i.1) rest)
  | inr e ↦ rw (e, merge_loop-merged (total + seconds_of a) i rest) (omega arith)
]

merged-All :
    (P : Interval → Type 0)
    → ((a i : Interval) → P a → P i → P (a.0, max a.1 i.1))
    → (a : Interval) (is : List Interval) → P a
    → All P is
    → All P (merged a is)
unfolding merged
merged-All P join a [] h hs = (h, tt)
merged-All P join a (i ∷ rest) h (hi, hs) = elim (Bool-cases (leb i.0 a.1)) [
  | inl e ↦ rw e (merged-All P join (a.0, max a.1 i.1) rest (join a i h hi) hs)
  | inr e ↦ rw e (h, merged-All P join i rest hi hs)
]

merged-starts :
    (bound : ℕ) (a : Interval) (is : List Interval)
    → bound < a.0
    → All (λ k. bound < k.0) is
    → All (λ k. bound < k.0) (merged a is)
merged-starts bound = merged-All (λ k. bound < k.0) (λ a i h hi. h)

later_starts :
    (bound : ℕ) (i : Interval) (rest : List Interval)
    → bound < i.0
    → All (λ k. i.0 ≤ k.0) rest
    → All (λ k. bound < k.0) rest
later_starts bound i rest h = All-map (λ k. i.0 ≤ k.0) (λ k. bound < k.0) (λ k le. omega arith) rest

merged-IsApart : (a : Interval) (is : List Interval) → IsSorted is → IsApart (merged a is)
unfolding merged IsSorted IsApart
merged-IsApart a [] s = (tt, tt)
merged-IsApart a (i ∷ rest) (le, s) = elim (Bool-cases (leb i.0 a.1)) [
  | inl e ↦ rw e (merged-IsApart (a.0, max a.1 i.1) rest s)
  | inr e ↦
      let gap : a.1 < i.0 = leb→gt _ _ e in
      rw e (merged-starts a.1 i rest gap (later_starts a.1 i rest gap le), merged-IsApart i rest s)
]

into_join :
    (t : Instant) (a i : Interval) → a.0 ≤ i.0 → IsIn t a ⊎ IsIn t i → IsIn t (a.0, max a.1 i.1)
into_join t a i le (inl (from, before)) = (from, omega arith)
into_join t a i le (inr (from, before)) = (omega arith, omega arith)

out_of_join :
    (t : Instant) (a i : Interval) → i.0 ≤ a.1 → IsIn t (a.0, max a.1 i.1) → IsIn t a ⊎ IsIn t i
out_of_join t a i touch (from, before) = elim (Bool-cases (ltb t a.1)) [
  | inl e ↦ inl (from, ltb→lt _ _ e)
  | inr e ↦ let past : a.1 ≤ t = ltb→ge _ _ e in inr (omega arith, omega arith)
]

merged-covers :
    (t : Instant) (a : Interval) (is : List Interval)
    → All (λ k. a.0 ≤ k.0) is
    → IsSorted is
    → Any (IsIn t) (a ∷ is)
    → Any (IsIn t) (merged a is)
unfolding merged IsSorted
merged-covers t a [] le s h = h
merged-covers t a (i ∷ rest) (le, les) (first, s) h = elim (Bool-cases (leb i.0 a.1)) [
  | inl e ↦ rw e (
      merged-covers t (a.0, max a.1 i.1) rest les s
        (elim h [
          | inl x ↦ inl (into_join t a i le (inl x))
          | inr (inl x) ↦ inl (into_join t a i le (inr x))
          | inr (inr x) ↦ inr x
        ]))
  | inr e ↦ rw e (elim h [ inl x ↦ inl x | inr x ↦ inr (merged-covers t i rest first s x) ])
]

merged-covers_only :
    (t : Instant) (a : Interval) (is : List Interval)
    → Any (IsIn t) (merged a is)
    → Any (IsIn t) (a ∷ is)
unfolding merged
merged-covers_only t a [] h = h
merged-covers_only t a (i ∷ rest) h = elim (Bool-cases (leb i.0 a.1)) [
  | inl e ↦
      let opened : Any (IsIn t) (merged (a.0, max a.1 i.1) rest) = rw (merged, e) at h in
      elim (merged-covers_only t (a.0, max a.1 i.1) rest opened) [
        | inr x ↦ inr (inr x)
        | inl x ↦ elim (out_of_join t a i (leb→le _ _ e) x) [ inl y ↦ inl y | inr y ↦ inr (inl y) ]
      ]
  | inr e ↦
      let opened : Any (IsIn t) (a ∷ merged i rest) = rw (merged, e) at h in
      elim opened [ inl x ↦ inl x | inr x ↦ inr (merged-covers_only t i rest x) ]
]

-- What the loop adds up over sorted intervals.
pub record IsMerged (is ms : List Interval) : Type 0 where
  pub separate : IsApart ms
  pub covers : (t : Instant) → Any (IsIn t) is ↔ Any (IsIn t) ms

pub merge_loop-IsMerged :
    (is : List Interval)
    → IsSorted is
    → (ms : List Interval) × (merge_loop 0 none is ≡ total_seconds ms)
      × IsMerged is ms
      × ((P : Interval → Type 0)
          → ((a i : Interval) → P a → P i → P (a.0, max a.1 i.1))
          → All P is
          → All P ms)
unfolding merge_loop total_seconds IsApart IsSorted
merge_loop-IsMerged [] s =
    ([], refl, record { separate = tt; covers = λ t. (λ h. h, λ h. h) }, λ P join h. tt)
merge_loop-IsMerged (a ∷ is) (le, s) = (
  merged a is,
  merge_loop-merged 0 a is ∙ omega arith,
  record {
    separate = merged-IsApart a is s;
    covers = λ t. (merged-covers t a is le s, merged-covers_only t a is);
  },
  λ P join (h, hs). merged-All P join a is h hs,
)

later_or_equal : (i k : Interval) → i.0 ≤ k.0 → (m : Interval) → k.0 ≤ m.0 → i.0 ≤ m.0
later_or_equal i k h m h' = omega arith

from_gap : (i k : Interval) → starts_before i k ≡ false → k.0 ≤ i.0
from_gap i k e = ground arith

insert_by-IsSorted :
    (i : Interval) (is : List Interval) → IsSorted is → IsSorted (insert_by starts_before i is)
unfolding insert_by IsSorted
insert_by-IsSorted i [] s = (tt, tt)
insert_by-IsSorted i (k ∷ rest) (le, s) = elim (Bool-cases (starts_before i k)) [
  | inl e ↦ rw e (
    (
      leb→le _ _ e,
      All-map (λ m. k.0 ≤ m.0) (λ m. i.0 ≤ m.0) (later_or_equal i k (leb→le _ _ e)) rest le,
    ),
    (le, s),
  )
  | inr e ↦ rw e (
    All-insert_by (λ m. k.0 ≤ m.0) starts_before i rest (from_gap i k e) le,
    insert_by-IsSorted i rest s,
  )
]

pub sort_by-IsSorted : (is : List Interval) → IsSorted (sort_by starts_before is)
unfolding sort_by IsSorted
sort_by-IsSorted [] = tt
sort_by-IsSorted (i ∷ is) = insert_by-IsSorted i (sort_by starts_before is) (sort_by-IsSorted is)
