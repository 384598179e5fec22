-- ===== src/Common/Members.antt =====
-- What becomes of `All`, `Any` and membership under filters, sorting and maps.
use mathlib.Core.Path.{◌≡◌, refl}
use mathlib.Core.Logic.{◌⊎◌, inl, inr}
use mathlib.Core.Bool.{Bool, true}
use mathlib.Core.List.{List, [], ◌∷◌, ◌++◌, map, Memᴰ}
use mathlib.Core.Path.{subst, sym}
use bloc_kuntu.Common.Tests.{Bool-cases}
use mathlib.Core.List.{Permᴰ}
use mathlib.Core.List.Permᴰ
use bloc_kuntu.Common.Lists.{All, Any, filter, filter_map, head?, sort_by, insert_by}
use mathlib.Core.Option.{Option, none, some}

module _ {A : Type 0} where
  pub All-Memᴰ : (P : A → Type 0) (xs : List A) {x : A} → All P xs → Memᴰ x xs → P x
  All-Memᴰ P [] h m = elim m [ ]
  All-Memᴰ P (y ∷ xs) (h, hs) (Memᴰ.head e) = subst P (sym e) h
  All-Memᴰ P (y ∷ xs) (h, hs) (Memᴰ.tail m) = All-Memᴰ P xs hs m

  pub Any-filter :
      (P : A → Type 0) (test : A → Bool) (xs : List A)
      → Any (λ x. P x × (test x ≡ true)) xs
      → Any P (filter test xs)
  Any-filter P test [] h = elim h [ ]
  Any-filter P test (x ∷ xs) (inl (h, t)) = rw t (inl h)
  Any-filter P test (x ∷ xs) (inr h) = elim (Bool-cases (test x)) [
    | inl t ↦ rw t (inr (Any-filter P test xs h))
    | inr t ↦ rw t (Any-filter P test xs h)
  ]

  Any-insert_by :
      (P : A → Type 0) (before : A → A → Bool) (x : A) (xs : List A)
      → Any P (x ∷ xs)
      → Any P (insert_by before x xs)
  unfolding insert_by
  Any-insert_by P before x [] h = h
  Any-insert_by P before x (y ∷ ys) h = elim (Bool-cases (before x y)) [
    | inl t ↦ rw t h
    | inr t ↦ rw t (elim h [
      | inl p ↦ inr (Any-insert_by P before x ys (inl p))
      | inr (inl q) ↦ inl q
      | inr (inr q) ↦ inr (Any-insert_by P before x ys (inr q))
    ])
  ]

  pub Any-sort_by :
      (P : A → Type 0) (before : A → A → Bool) (xs : List A) → Any P xs → Any P (sort_by before xs)
  unfolding sort_by
  Any-sort_by P before [] h = h
  Any-sort_by P before (x ∷ xs) (inl p) = Any-insert_by P before x (sort_by before xs) (inl p)
  Any-sort_by P before (x ∷ xs) (inr q) =
      Any-insert_by P before x (sort_by before xs) (inr (Any-sort_by P before xs q))

  Any-of_insert_by :
      (P : A → Type 0) (before : A → A → Bool) (x : A) (xs : List A)
      → Any P (insert_by before x xs)
      → Any P (x ∷ xs)
  unfolding insert_by
  Any-of_insert_by P before x [] h = h
  Any-of_insert_by P before x (y ∷ ys) h = elim (Bool-cases (before x y)) [
    | inl t ↦ rw (insert_by, t) at h
    | inr t ↦
        let opened : Any P (y ∷ insert_by before x ys) = rw (insert_by, t) at h in
        elim opened [
          | inl p ↦ inr (inl p)
          | inr q ↦ elim (Any-of_insert_by P before x ys q) [ inl p ↦ inl p | inr r ↦ inr (inr r) ]
        ]
  ]

  pub Any-of_sort_by :
      (P : A → Type 0) (before : A → A → Bool) (xs : List A) → Any P (sort_by before xs) → Any P xs
  unfolding sort_by
  Any-of_sort_by P before [] h = h
  Any-of_sort_by P before (x ∷ xs) h = elim (Any-of_insert_by P before x (sort_by before xs) h) [
    | inl p ↦ inl p
    | inr q ↦ inr (Any-of_sort_by P before xs q)
  ]

  pub All-insert_by :
      (P : A → Type 0) (before : A → A → Bool) (x : A) (xs : List A)
      → P x
      → All P xs
      → All P (insert_by before x xs)
  unfolding insert_by
  All-insert_by P before x [] p h = (p, tt)
  All-insert_by P before x (y ∷ ys) p (h, hs) = elim (Bool-cases (before x y)) [
    | inl t ↦ rw t (p, (h, hs))
    | inr t ↦ rw t (h, All-insert_by P before x ys p hs)
  ]

  pub All-sort_by :
      (P : A → Type 0) (before : A → A → Bool) (xs : List A) → All P xs → All P (sort_by before xs)
  unfolding sort_by
  All-sort_by P before [] h = tt
  All-sort_by P before (x ∷ xs) (h, hs) =
      All-insert_by P before x (sort_by before xs) h (All-sort_by P before xs hs)

  pub Any-append_left : (P : A → Type 0) (xs ys : List A) → Any P xs → Any P (xs ++ ys)
  Any-append_left P [] ys h = elim h [ ]
  Any-append_left P (x ∷ xs) ys (inl h) = inl h
  Any-append_left P (x ∷ xs) ys (inr h) = inr (Any-append_left P xs ys h)

  pub Any-append_right : (P : A → Type 0) (xs ys : List A) → Any P ys → Any P (xs ++ ys)
  Any-append_right P [] ys h = h
  Any-append_right P (x ∷ xs) ys h = inr (Any-append_right P xs ys h)

  pub All-append : (P : A → Type 0) (xs ys : List A) → All P xs → All P ys → All P (xs ++ ys)
  All-append P [] ys h k = k
  All-append P (x ∷ xs) ys (h, hs) k = (h, All-append P xs ys hs k)

  pub not-All-Any :
      (P Q : A → Type 0) (xs : List A) → ((x : A) → P x → Q x → ⊥) → All P xs → Any Q xs → ⊥
  not-All-Any P Q [] f h q = q
  not-All-Any P Q (x ∷ xs) f (h, hs) (inl q) = f x h q
  not-All-Any P Q (x ∷ xs) f (h, hs) (inr q) = not-All-Any P Q xs f hs q

module _ {A B : Type 0} where
  pub Any-map_of :
      (P : B → Type 0) (f : A → B) (xs : List A) → Any (λ x. P (f x)) xs → Any P (map f xs)
  Any-map_of P f [] h = elim h [ ]
  Any-map_of P f (x ∷ xs) (inl h) = inl h
  Any-map_of P f (x ∷ xs) (inr h) = inr (Any-map_of P f xs h)

  pub All-map_of :
      (P : B → Type 0) (f : A → B) (xs : List A) → All (λ x. P (f x)) xs → All P (map f xs)
  All-map_of P f [] h = tt
  All-map_of P f (x ∷ xs) (h, hs) = (h, All-map_of P f xs hs)

module _ {A : Type 0} where
  pub filter-All : (test : A → Bool) (xs : List A) → All (λ x. test x ≡ true) (filter test xs)
  filter-All test [] = tt
  filter-All test (x ∷ xs) = elim (Bool-cases (test x)) [
    | inl t ↦ rw t (t, filter-All test xs)
    | inr t ↦ rw t (filter-All test xs)
  ]

  -- The first of a list in which something stands, with what holds of all.
  pub head?-All :
      (P Q : A → Type 0) (xs : List A) → All P xs → Any Q xs → (x : A) × (head? xs ≡ some x) × P x
  head?-All P Q [] h q = absurd q
  head?-All P Q (x ∷ xs) (h, hs) q = (x, refl, h)

  pub head?-some-All : (P : A → Type 0) (xs : List A) {x : A} → All P xs → head? xs ≡ some x → P x
  head?-some-All P [] h e = absurd (cc)
  head?-some-All P (y ∷ xs) {x} (h, hs) e = let same_head : y ≡ x = cc in rw (← same_head) h

-- The same elements, each as often, in any order.
abbrev pub IsPermutation {ℓ} : {A : Type ℓ} → List A → List A → Type ℓ
IsPermutation xs ys = Permᴰ xs ys

module _ {ℓ} {A : Type ℓ} (before : A → A → Bool) where
  insert_by-IsPermutation : (x : A) (xs : List A) → IsPermutation (insert_by before x xs) (x ∷ xs)
  unfolding insert_by
  insert_by-IsPermutation x [] = Permᴰ.refl (x ∷ [])
  insert_by-IsPermutation x (y ∷ ys) = elim (Bool-cases (before x y)) [
    | inl e ↦ rw e (Permᴰ.refl (x ∷ y ∷ ys))
    | inr e ↦
        rw e (Permᴰ.trans (Permᴰ.cons refl (insert_by-IsPermutation x ys)) (Permᴰ.swap refl refl))
  ]

  pub sort_by-IsPermutation : (xs : List A) → IsPermutation (sort_by before xs) xs
  unfolding sort_by
  sort_by-IsPermutation [] = Permᴰ.nil
  sort_by-IsPermutation (x ∷ xs) =
      Permᴰ.trans (insert_by-IsPermutation x (sort_by before xs))
        (Permᴰ.cons refl (sort_by-IsPermutation xs))

module _ {A B : Type 0} (f : A → Option B) (P : B → Type 0) (Q : A → Type 0) where
  now_or_later :
      (o : Option B) (ys : List B)
      → ((y : B) × (o ≡ some y) × P y) ⊎ Any P ys
      → Any P (elim o [ none ↦ ys | some y ↦ y ∷ ys ])
  now_or_later none ys (inl (y, e, p)) = absurd (none-ne-some e)
    where
      none-ne-some : {z : B} → ◌≡◌ {A = Option B} none (some z) → ⊥
      none-ne-some e = cc
  now_or_later none ys (inr h) = h
  now_or_later (some x) ys (inl (y, e, p)) = inl (subst P (sym (some-injective e)) p)
    where
      some-injective : {u v : B} → ◌≡◌ {A = Option B} (some u) (some v) → u ≡ v
      some-injective e = cc
  now_or_later (some x) ys (inr h) = inr h

  pub filter_map-Any :
      ((x : A) → Q x → (y : B) × (f x ≡ some y) × P y)
      → (xs : List A) → Any Q xs
      → Any P (filter_map f xs)
  filter_map-Any found [] h = elim h [ ]
  filter_map-Any found (x ∷ xs) (inl q) = now_or_later (f x) (filter_map f xs) (inl (found x q))
  filter_map-Any found (x ∷ xs) (inr h) =
      now_or_later (f x) (filter_map f xs) (inr (filter_map-Any found xs h))

  kept_or_later :
      (x : A) (o : Option B) (ys : List B)
      → f x ≡ o
      → Any P (elim o [ none ↦ ys | some y ↦ y ∷ ys ])
      → ((y : B) × (f x ≡ some y) × P y) ⊎ Any P ys
  kept_or_later x none ys e h = inr h
  kept_or_later x (some y) ys e (inl p) = inl (y, e, p)
  kept_or_later x (some y) ys e (inr h) = inr h

  pub filter_map-Any_of :
      ((x : A) (y : B) → f x ≡ some y → P y → Q x)
      → (xs : List A) → Any P (filter_map f xs)
      → Any Q xs
  filter_map-Any_of take [] h = elim h [ ]
  filter_map-Any_of take (x ∷ xs) h = elim (kept_or_later x (f x) (filter_map f xs) refl h) [
    | inl (y, e, p) ↦ inl (take x y e p)
    | inr later ↦ inr (filter_map-Any_of take xs later)
  ]

pub Any-of_append :
    {A : Type 0} (P : A → Type 0) (xs ys : List A) → Any P (xs ++ ys) → Any P xs ⊎ Any P ys
Any-of_append P [] ys h = inr h
Any-of_append P (x ∷ xs) ys (inl p) = inl (inl p)
Any-of_append P (x ∷ xs) ys (inr h) = elim (Any-of_append P xs ys h) [
  | inl k ↦ inl (inr k)
  | inr k ↦ inr k
]
