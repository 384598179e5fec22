-- ===== src/Store/Visits/Counting.antt =====
-- focus-core/src/db.rs, visits of websites: counting the open visits of a tab.
use bloc_kuntu.Common.{
  ℕ, ◌+◌, ◌≤◌, ◌≡◌, refl, inl, inr, Bool, true, false, ◌&&◌, List, [], ◌∷◌, ◌++◌, map, arith,
  Bool-cases, length, filter,
}
use bloc_kuntu.Text.{Text, text_eq}
use bloc_kuntu.Store.{Stamp, VisitRow}
use bloc_kuntu.Store.Visits.{is_open, close_tab}

abbrev pub is_open_in : Text → VisitRow → Bool
is_open_in tab v = text_eq v.tab_id tab && is_open v

unfoldable pub open_visits : Text → List VisitRow → ℕ
open_visits tab vs = length (filter (is_open_in tab) vs)

-- An update that opens no visit in a tab.
pub open_visits-map :
    (tab : Text) (f : VisitRow → VisitRow)
    → ((v : VisitRow) → is_open_in tab (f v) ≡ true → is_open_in tab v ≡ true)
    → (vs : List VisitRow) → open_visits tab (map f vs) ≤ open_visits tab vs
unfolding open_visits
open_visits-map tab f closes [] = omega arith
open_visits-map tab f closes (v ∷ vs) =
    let rest = open_visits-map tab f closes vs in
    elim (Bool-cases (is_open_in tab (f v))) [
      | inl e ↦ rw (filter, e, closes v e) (omega arith)
      | inr e ↦ elim (Bool-cases (is_open_in tab v)) [
        | inl e' ↦ rw (filter, e, e') (omega arith)
        | inr e' ↦ rw (filter, e, e') rest
      ]
    ]

pub open_visits-append :
    (tab : Text) (vs : List VisitRow) (v : VisitRow)
    → open_visits tab (vs ++ v ∷ []) ≤ open_visits tab vs + open_visits tab (v ∷ [])
unfolding open_visits
open_visits-append tab [] v = omega arith
open_visits-append tab (w ∷ vs) v =
    let rest = open_visits-append tab vs v in
    elim (Bool-cases (is_open_in tab w)) [
      | inl e ↦ rw (filter, e) (omega arith)
      | inr e ↦ rw (filter, e) rest
    ]

and-false_right : (b : Bool) → b && false ≡ false
and-false_right true = refl
and-false_right false = refl

pub open_visits-closed :
    (now : Stamp) (tab : Text) (vs : List VisitRow)
    → open_visits tab (map (close_tab now tab) vs) ≡ 0
unfolding open_visits close_tab
open_visits-closed now tab [] = refl
open_visits-closed now tab (v ∷ vs) =
    let rest = open_visits-closed now tab vs in
    elim (Bool-cases (is_open_in tab v)) [
      | inl e ↦ rw (filter, e, and-false_right (text_eq v.tab_id tab)) rest
      | inr e ↦ rw (filter, e, e) rest
    ]

pub open_visits-single : (tab : Text) (v : VisitRow) → open_visits tab (v ∷ []) ≤ 1
unfolding open_visits
open_visits-single tab v = elim (Bool-cases (is_open_in tab v)) [
  | inl e ↦ rw (filter, e) (omega arith)
  | inr e ↦ rw (filter, e) (omega arith)
]

pub open_visits-other :
    (tab : Text) (v : VisitRow) → text_eq v.tab_id tab ≡ false → open_visits tab (v ∷ []) ≡ 0
unfolding open_visits
open_visits-other tab v e = rw (filter, e) refl
