-- ===== src/Daemon/Import/Append.antt =====
-- focusd/src/rpc.rs, append_unique_by_id: what is appended, and what stays.
use bloc_kuntu.Common.{
  ℕ, ◌+◌, ◌≡◌, refl, sym, ap, ◌∙◌, ◌⊎◌, inl, inr, Bool, true, false, Option, none, some, List, [],
  ◌∷◌, ◌++◌, map, append-nil, append_assoc, arith, Bool-cases, same, All, length, any,
}
use bloc_kuntu.Common.Results.{ok, ok-injective, >>=-eq-ok}
use mathlib.Core.Path.{subst}
use bloc_kuntu.Text.{Text, text_eq}
use bloc_kuntu.Text.Laws.{text_eq_refl}
use bloc_kuntu.Store.{is_distinct, id_member}
use bloc_kuntu.Daemon.{ItemKind}
use bloc_kuntu.Daemon.Lists.{find_item}
use bloc_kuntu.Daemon.Items.{find_item-append, text_eq_sym}
use bloc_kuntu.Daemon.Import.{append_one, append_from, append_unique_by_id}

length_append : {A : Type 0} (xs ys : List A) → length (xs ++ ys) ≡ length xs + length ys
length_append [] ys = omega arith
length_append (x ∷ xs) ys = omega (arith, length_append xs ys)

pub is_distinct_snoc :
    (xs : List Text) (x : Text)
    → is_distinct xs ≡ true
    → id_member x xs ≡ false
    → is_distinct (xs ++ x ∷ []) ≡ true
unfolding is_distinct
is_distinct_snoc [] x h m = refl
is_distinct_snoc (y ∷ xs) x h m =
    let rest = is_distinct_snoc xs x (ground arith) (ground arith) in
    let apart : text_eq x y ≡ false = not_sym x y (ground arith) in
    let fresh : id_member y (xs ++ x ∷ []) ≡ false =
      any_snoc (λ c. text_eq c y) xs x (ground arith) apart in
    ground arith
  where
    not_sym : (s t : Text) → text_eq t s ≡ false → text_eq s t ≡ false
    not_sym s t h = elim (Bool-cases (text_eq s t)) [
      | inr e ↦ e
      | inl e ↦ let flipped = text_eq_sym s t e in cc
    ]

    any_snoc :
        (p : Text → Bool) (ys : List Text) (y : Text)
        → any p ys ≡ false
        → p y ≡ false
        → any p (ys ++ y ∷ []) ≡ false
    any_snoc p [] y h k = ground arith
    any_snoc p (z ∷ ys) y h k = let rest = any_snoc p ys y (ground arith) k in ground arith

module _ {A : Type 0} (id_of : A → Text) where
  not_found→not_member :
      (i : Text) (xs : List A) → find_item id_of i xs ≡ none → id_member i (map id_of xs) ≡ false
  not_found→not_member i [] h = refl
  not_found→not_member i (x ∷ xs) h =
      let rest = not_found→not_member i xs (ground arith) in ground arith

  find_item-append_new :
      (item : A) (xs : List A)
      → find_item id_of (id_of item) xs ≡ none
      → find_item id_of (id_of item) (xs ++ item ∷ []) ≡ some item
  find_item-append_new item [] h = rw (text_eq_refl (id_of item)) refl
  find_item-append_new item (x ∷ xs) h =
      let rest = find_item-append_new item xs (ground arith) in ground arith

  map-append_one : (xs : List A) (x : A) → map id_of (xs ++ x ∷ []) ≡ map id_of xs ++ id_of x ∷ []
  map-append_one [] x = refl
  map-append_one (y ∷ xs) x = ap (λ t. id_of y ∷ t) (map-append_one xs x)

module _ {A : Type 0} (id_of : A → Text) (eq : A → A → Bool) (kind : ItemKind) where
  -- The items have one with the same id that is the same, or equal by the test.
  abbrev pub Includes : List A → A → Type 0
  Includes final item =
      (kept : A) × (find_item id_of (id_of item) final ≡ some kept)
      × ((kept ≡ item) ⊎ (eq kept item ≡ true))

  -- The items that are there stay where they are; others come behind them, as many as are counted;
  -- distinct ids stay distinct.
  pub record Extends (current final : List A) (added total : ℕ) : Type 0 where
    pub new : List A
    pub behind : final ≡ current ++ new
    pub count : total ≡ added + length new
    pub distinct : is_distinct (map id_of current) ≡ true → is_distinct (map id_of final) ≡ true

  append_one-Extends :
      (item : A) (found : Option A) (current : List A) (added : ℕ) (next : List A) (total : ℕ)
      → find_item id_of (id_of item) current ≡ found
      → append_one id_of eq kind item found current added ≡ ok (next, total)
      → Extends current next added total × Includes next item
  unfolding append_one
  append_one-Extends item none current added next total known h =
      let e = ok-injective h in
      let same : current ++ item ∷ [] ≡ next = ap (λ x. x.0) e in
      (
        record {
          new = item ∷ [];
          behind = sym same;
          count = sym (ap (λ x. x.1) e);
          distinct = λ d. rw (← same) (
              rw (map-append_one id_of current item) (
                is_distinct_snoc (map id_of current) (id_of item) d
                  (not_found→not_member id_of (id_of item) current known)));
        },
        (
          item,
          ap (find_item id_of (id_of item)) (sym same)
              ∙ find_item-append_new id_of item current known,
          inl refl,
        ),
      )
  append_one-Extends item (some existing) current added next total known h =
      elim (Bool-cases (eq existing item)) [
        | inr e ↦ absurd (ground arith)
        | inl e ↦
            let same : ◌≡◌ {A = List A × ℕ} (current, added) (next, total) =
              ok-injective (rw e at h) in
            let items : current ≡ next = ap (λ x. x.0) same in
            (
              record {
                new = [];
                behind = sym items ∙ sym (append-nil current);
                count = sym (ap (λ x. x.1) same) ∙ omega arith;
                distinct = λ d. rw (← items) d;
              },
              (existing, ap (find_item id_of (id_of item)) (sym items) ∙ known, inr e),
            )
      ]

  Includes-behind :
      (next new final : List A) (item : A)
      → final ≡ next ++ new
      → Includes next item
      → Includes final item
  Includes-behind next new final item behind (kept, found, same) = (
    kept,
    ap (find_item id_of (id_of item)) behind
        ∙ find_item-append id_of (id_of item) next new kept found,
    same,
  )

  Extends-trans : (a b c : List A) (k m n : ℕ) → Extends a b k m → Extends b c m n → Extends a c k n
  Extends-trans a b c k m n p q = record {
    new = p.new ++ q.new;
    behind = q.behind ∙ ap (λ x. x ++ q.new) p.behind ∙ append_assoc a p.new q.new;
    count = omega (arith, p.count, q.count, length_append p.new q.new);
    distinct = λ d. q.distinct (p.distinct d);
  }

  append_from-Extends :
      (imported current : List A) (added : ℕ) (final : List A) (total : ℕ)
      → append_from id_of eq kind imported current added ≡ ok (final, total)
      → Extends current final added total × All (Includes final) imported
  unfolding append_from
  append_from-Extends [] current added final total h = (
    record {
      new = [];
      behind = sym (ap (λ x. x.0) (ok-injective h)) ∙ sym (append-nil current);
      count = sym (ap (λ x. x.1) (ok-injective h)) ∙ omega arith;
      distinct =
          λ d. subst (λ xs. is_distinct (map id_of xs) ≡ true) (ap (λ x. x.0) (ok-injective h)) d;
    },
    tt,
  )
  append_from-Extends (item ∷ imported) current added final total h =
      let ((next, more), one, h') =
        >>=-eq-ok
          (append_one id_of eq kind item (find_item id_of (id_of item) current) current added) _
          h in
      let (first, included) = append_one-Extends item _ current added next more refl one in
      let (rest, others) = append_from-Extends imported next more final total h' in
      (
        Extends-trans current next final added more total first rest,
        (Includes-behind next rest.new final item rest.behind included, others),
      )

  -- What an import leaves, where it finds no conflict: the items that were there, in their places;
  -- new ones behind them, as many as it reports; one for each imported item, with its id, that is
  -- the imported one or equal to it; and no id twice, where none was before.
  pub append_unique_by_id-Extends :
      (current imported final : List A) (total : ℕ)
      → append_unique_by_id id_of eq kind current imported ≡ ok (final, total)
      → Extends current final 0 total × All (Includes final) imported
  unfolding append_unique_by_id
  append_unique_by_id-Extends current imported final total h =
      append_from-Extends imported current 0 final total h
