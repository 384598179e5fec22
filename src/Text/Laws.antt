-- ===== src/Text/Laws.antt =====
-- Laws of the tests on texts that every modelled file uses.
use bloc_kuntu.Common.{true, ◌≡◌, refl, ◌↔◌, [], ◌∷◌, ◌++◌, arith}
use bloc_kuntu.Text.{Text, text_eq, starts_with}

text_eq→≡ : (s t : Text) → text_eq s t ≡ true → s ≡ t
unfolding text_eq
text_eq→≡ [] [] h = refl
text_eq→≡ [] (d ∷ t) h = cc
text_eq→≡ (c ∷ s) [] h = cc
text_eq→≡ (c ∷ s) (d ∷ t) h = ground (arith, text_eq→≡ s t)

pub text_eq_refl : (s : Text) → text_eq s s ≡ true
unfolding text_eq
text_eq_refl [] = refl
text_eq_refl (c ∷ s) = ground (arith, text_eq_refl s)

≡→text_eq : (s t : Text) → s ≡ t → text_eq s t ≡ true
≡→text_eq s t e = rw (← e) (text_eq_refl s)

pub text_eq_iff : (s t : Text) → (text_eq s t ≡ true) ↔ (s ≡ t)
text_eq_iff s t = (text_eq→≡ s t, ≡→text_eq s t)

-- A text that starts with another is that one and a rest.
pub starts_with→append : (s p : Text) → starts_with s p ≡ true → (r : Text) × (s ≡ p ++ r)
unfolding starts_with
starts_with→append s [] h = (s, refl)
starts_with→append [] (d ∷ p) h = cc
starts_with→append (c ∷ s) (d ∷ p) h =
    let same_head : c ≡ d = ground arith in
    let (r, e) = starts_with→append s p (ground arith) in (r, cc)
