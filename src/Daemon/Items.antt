-- ===== src/Daemon/Items.antt =====
-- Items with ids in a vector: what replacing, removing, adding and changing them does to a lookup.
use bloc_kuntu.Common.{
  ◌≡◌, refl, sym, ◌∙◌, ap, inl, inr, true, false, some, List, [], ◌∷◌, ◌++◌, map, arith, Bool-cases,
}
use bloc_kuntu.Text.{Text, text_eq}
use bloc_kuntu.Text.Laws.{text_eq_iff}
use bloc_kuntu.Daemon.Lists.{find_item, put, remove}

-- Equal texts compare alike with a third.
pub text_eq_via : (s t u : Text) → text_eq s t ≡ true → text_eq s u ≡ text_eq t u
text_eq_via s t u h = ap (λ x. text_eq x u) ((text_eq_iff s t).0 h)

pub text_eq_sym : (s t : Text) → text_eq s t ≡ true → text_eq t s ≡ true
text_eq_sym s t h = (text_eq_iff t s).1 (sym ((text_eq_iff s t).0 h))

module _ {A : Type 0} (id_of : A → Text) where
  pub find_item-has_id :
      (i : Text) (xs : List A) (r : A) → find_item id_of i xs ≡ some r → text_eq (id_of r) i ≡ true
  find_item-has_id i [] r h = absurd (ground arith)
  find_item-has_id i (x ∷ xs) r h = elim (Bool-cases (text_eq (id_of x) i)) [
    | inl e ↦ let same : x ≡ r = ground arith in rw (← same) e
    | inr e ↦ find_item-has_id i xs r (ground arith)
  ]

  pub find_item-put_same :
      (i : Text) (new : A) (xs : List A)
      → text_eq (id_of new) i ≡ true
      → find_item id_of i (put id_of new xs) ≡ some new
  find_item-put_same i new [] h = rw h refl
  find_item-put_same i new (x ∷ xs) h =
      let rest = find_item-put_same i new xs h in
      elim (Bool-cases (text_eq (id_of x) (id_of new))) [
        | inl e ↦ rw e (rw h refl)
        | inr e ↦
            let other : text_eq (id_of x) i ≡ false =
              sym (ap (λ t. text_eq (id_of x) t) ((text_eq_iff (id_of new) i).0 h)) ∙ e in
            rw e (rw other rest)
      ]

  pub find_item-put_other :
      (i : Text) (new : A) (xs : List A)
      → text_eq (id_of new) i ≡ false
      → find_item id_of i (put id_of new xs) ≡ find_item id_of i xs
  find_item-put_other i new [] h = rw h refl
  find_item-put_other i new (x ∷ xs) h =
      let rest = find_item-put_other i new xs h in
      elim (Bool-cases (text_eq (id_of x) (id_of new))) [
        | inl e ↦
            let other : text_eq (id_of x) i ≡ false = text_eq_via (id_of x) (id_of new) i e ∙ h in
            rw e (rw h (rw other refl))
        | inr e ↦ rw e (rw rest refl)
      ]

  pub find_item-remove_other :
      (i id : Text) (xs : List A)
      → text_eq id i ≡ false
      → find_item id_of i (remove id_of id xs) ≡ find_item id_of i xs
  find_item-remove_other i id [] h = refl
  find_item-remove_other i id (x ∷ xs) h =
      let rest = find_item-remove_other i id xs h in
      elim (Bool-cases (text_eq (id_of x) id)) [
        | inl e ↦
            let other : text_eq (id_of x) i ≡ false = text_eq_via (id_of x) id i e ∙ h in
            rw e (rw other refl)
        | inr e ↦ rw e (rw rest refl)
      ]

  -- A change of each item that keeps its id.
  pub find_item-map :
      (f : A → A) (keeps : (x : A) → id_of (f x) ≡ id_of x) (i : Text) (xs : List A) (r : A)
      → find_item id_of i xs ≡ some r
      → find_item id_of i (map f xs) ≡ some (f r)
  find_item-map f keeps i [] r h = absurd (ground arith)
  find_item-map f keeps i (x ∷ xs) r h = elim (Bool-cases (text_eq (id_of x) i)) [
    | inl e ↦ let same : x ≡ r = ground arith in rw (keeps x) (rw e (ap (λ y. some (f y)) same))
    | inr e ↦ rw (keeps x) (rw e (find_item-map f keeps i xs r (ground arith)))
  ]

  pub find_item-append :
      (i : Text) (xs ys : List A) (r : A)
      → find_item id_of i xs ≡ some r
      → find_item id_of i (xs ++ ys) ≡ some r
  find_item-append i [] ys r h = absurd (ground arith)
  find_item-append i (x ∷ xs) ys r h = elim (Bool-cases (text_eq (id_of x) i)) [
    | inl e ↦ ground (arith, e, h)
    | inr e ↦ let rest = find_item-append i xs ys r (ground arith) in rw e rest
  ]
