-- ===== src/Daemon/Schedules/Targets.antt =====
-- focusd/src/rpc.rs, normalized_unique_ids: the ids that a request names.
use bloc_kuntu.Common.{
  ◌≡◌, refl, ap, ◌⊎◌, inl, inr, Bool, true, not, ◌||◌, List, [], ◌∷◌, ◌++◌, arith, if◌then◌else◌,
  Bool-cases, or-false, All, all, is_empty,
}
use bloc_kuntu.Text.{Text, text_eq, trim}
use bloc_kuntu.Text.Laws.{text_eq_refl}
use bloc_kuntu.Store.{is_distinct, id_member}
use bloc_kuntu.Daemon.Import.Append.{is_distinct_snoc}
use bloc_kuntu.Daemon.Schedules.{normalized_from, normalized_unique_ids}

-- The ids of the result: none twice, none empty, and the trimmed form of each id that is not blank.
pub record IsNormal (asked final : List Text) : Type 0 where
  pub distinct : is_distinct final ≡ true
  pub filled : all (λ id. not (is_empty id)) final ≡ true
  pub complete : All (λ id. (is_empty (trim id) ≡ true) ⊎ (id_member (trim id) final ≡ true)) asked

all_snoc :
    (p : Text → Bool) (xs : List Text) (x : Text)
    → all p xs ≡ true
    → p x ≡ true
    → all p (xs ++ x ∷ []) ≡ true
all_snoc p [] x h k = ground arith
all_snoc p (y ∷ xs) x h k = let rest = all_snoc p xs x (ground arith) k in ground arith

member-snoc :
    (x y : Text) (xs : List Text) → id_member x xs ≡ true → id_member x (xs ++ y ∷ []) ≡ true
member-snoc x y [] h = cc
member-snoc x y (z ∷ xs) h = elim (Bool-cases (text_eq z x)) [
  | inl e ↦ rw e refl
  | inr e ↦ let rest = member-snoc x y xs (ground arith) in rw e rest
]

member_last : (x : Text) (xs : List Text) → id_member x (xs ++ x ∷ []) ≡ true
member_last x [] = rw (text_eq_refl x) refl
member_last x (z ∷ xs) = let rest = member_last x xs in ground arith

abbrev push : Text → List Text → List Text
push id unique = if is_empty id || id_member id unique then unique else unique ++ id ∷ []

push-distinct :
    (id : Text) (unique : List Text)
    → is_distinct unique ≡ true
    → is_distinct (push id unique) ≡ true
push-distinct id unique h = elim (Bool-cases (is_empty id || id_member id unique)) [
  | inl e ↦ rw e h
  | inr e ↦ rw e (is_distinct_snoc unique id h (or-false (is_empty id) (id_member id unique) e).1)
]

push-filled :
    (id : Text) (unique : List Text)
    → all (λ t. not (is_empty t)) unique ≡ true
    → all (λ t. not (is_empty t)) (push id unique) ≡ true
push-filled id unique h = elim (Bool-cases (is_empty id || id_member id unique)) [
  | inl e ↦ rw e h
  | inr e ↦
      let filled = (or-false (is_empty id) (id_member id unique) e).0 in
      rw e (all_snoc (λ t. not (is_empty t)) unique id h (ap not filled))
]

push-member :
    (id other : Text) (unique : List Text)
    → id_member other unique ≡ true
    → id_member other (push id unique) ≡ true
push-member id other unique h = elim (Bool-cases (is_empty id || id_member id unique)) [
  | inl e ↦ rw e h
  | inr e ↦ rw e (member-snoc other id unique h)
]

push-has :
    (id : Text) (unique : List Text) → (is_empty id ≡ true) ⊎ (id_member id (push id unique) ≡ true)
push-has id unique = elim (Bool-cases (is_empty id)) [
  | inl e ↦ inl e
  | inr e ↦ elim (Bool-cases (id_member id unique)) [
    | inl f ↦ inr (push-member id id unique f)
    | inr f ↦ inr (rw e (rw f (member_last id unique)))
  ]
]

from-member :
    (asked unique : List Text) (id : Text)
    → id_member id unique ≡ true
    → id_member id (normalized_from unique asked) ≡ true
unfolding normalized_from
from-member [] unique id h = h
from-member (x ∷ asked) unique id h =
    from-member asked (push (trim x) unique) id (push-member (trim x) id unique h)

from-IsNormal :
    (asked unique : List Text)
    → is_distinct unique ≡ true
    → all (λ t. not (is_empty t)) unique ≡ true
    → IsNormal asked (normalized_from unique asked)
unfolding normalized_from
from-IsNormal [] unique d f = record { distinct = d; filled = f; complete = tt }
from-IsNormal (x ∷ asked) unique d f =
    let next = push (trim x) unique in
    let rest =
      from-IsNormal asked next (push-distinct (trim x) unique d) (push-filled (trim x) unique f) in
    record {
      distinct = rest.distinct;
      filled = rest.filled;
      complete = (
        elim (push-has (trim x) unique) [
          | inl e ↦ inl e
          | inr m ↦ inr (from-member asked next (trim x) m)
        ],
        rest.complete,
      );
    }

-- No id of the result is empty or stands there twice, and the trimmed form of every id that is
-- asked for and not blank is among them.
pub normalized_unique_ids-IsNormal :
    (asked : List Text) → IsNormal asked (normalized_unique_ids asked)
unfolding normalized_unique_ids is_distinct
normalized_unique_ids-IsNormal asked = from-IsNormal asked [] refl refl
