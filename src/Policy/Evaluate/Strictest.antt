-- ===== src/Policy/Evaluate/Strictest.antt =====
-- focus-core/src/policy.rs, is_stricter_than and the Tier 3 loops: which of several blocking lists
-- decides.
use bloc_kuntu.Common.{
  ◌≡◌, ◌⊎◌, inl, inr, Bool, true, false, ◌&&◌, Option, none, some, List, [], ◌∷◌, arith, Bool-cases,
  All, Any,
}
use bloc_kuntu.Common.Results.{ok, >>=-eq-ok}
use bloc_kuntu.Types.{Fallible, Decision, is_block}
use bloc_kuntu.Policy.Evaluate.{Strictness, is_stricter_than, step_controlled, controlled_loop}

pub is_stricter_than-irreflexive : (a : Strictness) → is_stricter_than a a ≡ false
unfolding is_stricter_than
is_stricter_than-irreflexive a = ground arith

pub is_stricter_than_trans :
    (a b c : Strictness)
    → is_stricter_than a b ≡ true
    → is_stricter_than b c ≡ true
    → is_stricter_than a c ≡ true
unfolding is_stricter_than
is_stricter_than_trans a b c h k = ground arith

-- What is not stricter than one is not stricter than a stricter one.
not-stricter_trans :
    (a b c : Strictness)
    → is_stricter_than a c ≡ false
    → is_stricter_than b c ≡ true
    → is_stricter_than a b ≡ false
not-stricter_trans a b c h k = elim (Bool-cases (is_stricter_than a b)) [
  | inl e ↦ cc (is_stricter_than_trans a b c e k)
  | inr e ↦ e
]

module _ {R : Type 0} (active : R → Fallible Bool) (evaluate : R → Decision)
    (strictness : R → Strictness) where
  -- An active list that blocks.
  abbrev pub Contends : R → Type 0
  Contends r = (active r ≡ ok true) × (is_block (evaluate r) ≡ true)

  -- The decision and strictness are those of one of the lists that contend, and no list that
  -- contends is stricter.
  pub record IsStrictest (rs : List R) (d : Decision) (s : Strictness) : Type 0 where
    pub chosen : Any (λ r. Contends r × (evaluate r ≡ d) × (strictness r ≡ s)) rs
    pub strictest : All (λ r. Contends r → is_stricter_than (strictness r) s ≡ false) rs

  abbrev loop : Option (Decision × Strictness) → List R → Fallible (Option (Decision × Strictness))
  loop = controlled_loop active evaluate strictness

  step-some :
      (r : R) (d : Decision) (s : Strictness)
      → (step_controlled active evaluate strictness r (some (d, s)) ≡ some (d, s))
          × (is_block (evaluate r) ≡ true → is_stricter_than (strictness r) s ≡ false)
        ⊎ ((step_controlled active evaluate strictness r (some (d, s))
              ≡ some (evaluate r, strictness r))
            × (is_block (evaluate r) ≡ true)
            × (is_stricter_than (strictness r) s ≡ true))
  unfolding step_controlled
  step-some r d s = elim (Bool-cases (is_block (evaluate r))) [
    | inl b ↦ elim (Bool-cases (is_stricter_than (strictness r) s)) [
      | inl t ↦ inr (rw (b, t), b, t)
      | inr t ↦ inl (rw (b, t), λ _. t)
    ]
    | inr b ↦ inl (rw b, λ c. cc)
  ]

  -- With a best entry so far, the result is that entry or one of the lists, and it is not beaten by
  -- the entry or by a list.
  record Outcome (rs : List R) (s₀ : Strictness) (d₀ : Decision) (d : Decision) (s : Strictness)
      : Type 0 where
    origin :
        ((d₀ ≡ d) × (s₀ ≡ s)) ⊎ Any (λ r. Contends r × (evaluate r ≡ d) × (strictness r ≡ s)) rs
    keeps : (a : Strictness) → is_stricter_than a s₀ ≡ false → is_stricter_than a s ≡ false
    strictest : All (λ r. Contends r → is_stricter_than (strictness r) s ≡ false) rs

  loop-Outcome :
      (rs : List R) (d₀ : Decision) (s₀ : Strictness) (d : Decision) (s : Strictness)
      → loop (some (d₀, s₀)) rs ≡ ok (some (d, s))
      → Outcome rs s₀ d₀ d s
  unfolding controlled_loop
  loop-Outcome [] d₀ s₀ d s h =
      let (e, e') : (d₀ ≡ d) × (s₀ ≡ s) = (ground arith, ground arith) in
      record { origin = inl (e, e'); keeps = λ a k. rw (← e') k; strictest = tt }
  loop-Outcome (r ∷ rs) d₀ s₀ d s h =
      let (on, e, rest) = >>=-eq-ok (active r) _ h in
      elim (Bool-cases on) [
        | inr off ↦
            let o = loop-Outcome rs d₀ s₀ d s (ground arith) in
            record {
              origin = elim o.origin [ inl q ↦ inl q | inr q ↦ inr (inr q) ];
              keeps = o.keeps;
              strictest = (λ c. cc, o.strictest);
            }
        | inl t ↦ elim (step-some r d₀ s₀) [
          | inl kept ↦
              let o = loop-Outcome rs d₀ s₀ d s (ground arith) in
              record {
                origin = elim o.origin [ inl q ↦ inl q | inr q ↦ inr (inr q) ];
                keeps = o.keeps;
                strictest = (λ c. o.keeps (strictness r) (kept.1 c.1), o.strictest);
              }
          | inr new ↦
              let o = loop-Outcome rs (evaluate r) (strictness r) d s (ground arith) in
              record {
                origin = elim o.origin [
                  | inl q ↦ inr (inl (((rw t at e, new.1), q.0, q.1)))
                  | inr q ↦ inr (inr q)
                ];
                keeps = λ a k. o.keeps a (not-stricter_trans a (strictness r) s₀ k new.2);
                strictest = (
                  λ c. o.keeps (strictness r) (is_stricter_than-irreflexive (strictness r)),
                  o.strictest,
                );
              }
        ]
      ]

  -- What the loop over the Tier 3 lists returns is the decision of a list that is active and
  -- blocks, and no list that is active and blocks is stricter than that one.
  pub controlled_loop-IsStrictest :
      (rs : List R) (d : Decision) (s : Strictness)
      → controlled_loop active evaluate strictness none rs ≡ ok (some (d, s))
      → IsStrictest rs d s
  unfolding controlled_loop step_controlled
  controlled_loop-IsStrictest [] d s h = cc
  controlled_loop-IsStrictest (r ∷ rs) d s h =
      let (on, e, rest) = >>=-eq-ok (active r) _ h in
      elim (Bool-cases (on && is_block (evaluate r))) [
        | inr off ↦
            let o = controlled_loop-IsStrictest rs d s (ground arith) in
            record { chosen = inr o.chosen; strictest = (λ c. ground arith, o.strictest) }
        | inl t ↦
            let o = loop-Outcome rs (evaluate r) (strictness r) d s (ground arith) in
            record {
              chosen = elim o.origin [
                | inl q ↦ inl ((ground arith, ground arith), q.0, q.1)
                | inr q ↦ inr q
              ];
              strictest = (
                λ c. o.keeps (strictness r) (is_stricter_than-irreflexive (strictness r)),
                o.strictest,
              );
            }
      ]
