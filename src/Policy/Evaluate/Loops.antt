-- ===== src/Policy/Evaluate/Loops.antt =====
-- focus-core/src/policy.rs: what it takes for each loop and test behind a decision to find nothing.
use bloc_kuntu.Common.{
  ◌≡◌, refl, ◌≢◌, ◌⊎◌, inl, inr, Bool, true, false, ◌&&◌, Option, none, some, List, [], ◌∷◌, arith,
  Bool-cases, and-true, All, filter, find, head?, max_by_key, All-map,
}
use bloc_kuntu.Common.Results.{ok, err, >>=-eq-ok}
use bloc_kuntu.Text.{Text}
use bloc_kuntu.Config.{RuleConfig, AppRuleConfig}
use bloc_kuntu.Types.{Fallible, DetoxTargetKind, BlockReason, Decision, is_block, DetoxSession}
use bloc_kuntu.Store.{id_member}
use bloc_kuntu.Policy.Activity.{latest_session, detox_loop, detox_result}
use bloc_kuntu.Policy.Evaluate.{
  Strictness, is_stricter_than, step_controlled, controlled_loop, decision_of, decide_in_order,
  rule_label, app_rule_label,
}

module _ {R : Type 0} where
  -- A list that passes both tests of `matching_rules`.
  abbrev pub Passes : (R → Bool) → (R → Bool) → R → Type 0
  Passes f g r = (f r ≡ true) × (g r ≡ true)

  module _ (f g : R → Bool) where
    pub head?-none→All :
        (rs : List R) → head? (filter g (filter f rs)) ≡ none → All (λ r. ¬ Passes f g r) rs
    head?-none→All [] h = tt
    head?-none→All (r ∷ rs) h = (λ q. ground arith, head?-none→All rs (ground arith))

    pub All→head?-none :
        (rs : List R) → All (λ r. ¬ Passes f g r) rs → head? (filter g (filter f rs)) ≡ none
    All→head?-none [] h = refl
    All→head?-none (r ∷ rs) (h, hs) = ground (arith, All→head?-none rs hs)

    pub find-none→All :
        (on : R → Bool) (rs : List R)
        → find on (filter g (filter f rs)) ≡ none
        → All (λ r. Passes f g r → on r ≡ false) rs
    find-none→All on [] h = tt
    find-none→All on (r ∷ rs) h = (λ q. ground arith, find-none→All on rs (ground arith))

    pub All→find-none :
        (on : R → Bool) (rs : List R)
        → All (λ r. Passes f g r → on r ≡ false) rs
        → find on (filter g (filter f rs)) ≡ none
    All→find-none on [] h = refl
    All→find-none on (r ∷ rs) (h, hs) = ground (arith, All→find-none on rs hs)

module _ (ids : DetoxSession → List Text) (id : Text) where
  pub latest_session-none→All :
      (ss : List DetoxSession)
      → latest_session ids id ss ≡ none
      → All (λ s. id_member id (ids s) ≡ false) ss
  unfolding latest_session max_by_key
  latest_session-none→All [] h = tt
  latest_session-none→All (s ∷ ss) h = ground (arith, latest_session-none→All ss)

  pub All→latest_session-none :
      (ss : List DetoxSession)
      → All (λ s. id_member id (ids s) ≡ false) ss
      → latest_session ids id ss ≡ none
  unfolding latest_session max_by_key
  All→latest_session-none [] h = refl
  All→latest_session-none (s ∷ ss) (h, hs) = ground (arith, All→latest_session-none ss hs)

module _ {R : Type 0} (covers : R → Bool) (id name : R → Text) (ids : DetoxSession → List Text)
    (sessions : List DetoxSession) where
  -- No session names a list that covers the target.
  abbrev pub Untouched : R → Type 0
  Untouched r = covers r ≡ true → All (λ s. id_member (id r) (ids s) ≡ false) sessions

  pub detox_loop-none→All :
      (rs : List R) (block : Option (DetoxSession × Text × Text))
      → detox_loop covers id name ids sessions block rs ≡ none
      → (block ≡ none) × All Untouched rs
  unfolding detox_loop
  detox_loop-none→All [] block h = (h, tt)
  detox_loop-none→All (r ∷ rs) block h =
      let (kept, later) = detox_loop-none→All rs _ h in
      (ground arith, (λ c. latest_session-none→All ids (id r) sessions (ground arith), later))

  pub All→detox_loop-none :
      (rs : List R) → All Untouched rs → detox_loop covers id name ids sessions none rs ≡ none
  unfolding detox_loop
  All→detox_loop-none [] h = refl
  All→detox_loop-none (r ∷ rs) (h, hs) = elim (Bool-cases (covers r)) [
    | inl c ↦ rw (c, All→latest_session-none ids (id r) sessions (h c)) (All→detox_loop-none rs hs)
    | inr c ↦ rw c (All→detox_loop-none rs hs)
  ]

module _ {R : Type 0} (active : R → Fallible Bool) (evaluate : R → Decision)
    (strictness : R → Strictness) where
  abbrev pub loop :
      Option (Decision × Strictness) → List R → Fallible (Option (Decision × Strictness))
  loop = controlled_loop active evaluate strictness

  -- A list that lets the target pass: inactive, or active with an allowance or unlock in force.
  abbrev pub LetsPass : R → Type 0
  LetsPass r = (active r ≡ ok false) ⊎ ((active r ≡ ok true) × (evaluate r ≡ Decision.allow))

  loop-some : (b : Decision × Strictness) (rs : List R) → loop (some b) rs ≢ ok none
  unfolding controlled_loop step_controlled
  loop-some b [] h = cc
  loop-some b (r ∷ rs) h = ground (arith, loop-some b rs, loop-some (evaluate r, strictness r) rs)

  pub loop-none→All : (rs : List R) → loop none rs ≡ ok none → All LetsPass rs
  unfolding controlled_loop step_controlled
  loop-none→All [] h = tt
  loop-none→All (r ∷ rs) h = (
    ground (arith, loop-some (evaluate r, strictness r) rs),
    ground (arith, loop-none→All rs, loop-some (evaluate r, strictness r) rs),
  )

  pub All→loop-none : (rs : List R) → All LetsPass rs → loop none rs ≡ ok none
  unfolding controlled_loop step_controlled
  All→loop-none [] h = refl
  All→loop-none (r ∷ rs) (inl off, hs) = rw off (All→loop-none rs hs)
  All→loop-none (r ∷ rs) (inr (on, passes), hs) = rw (on, passes) (All→loop-none rs hs)

  abbrev pub Blocks : Option (Decision × Strictness) → Type 0
  Blocks none = Unit
  Blocks (some (d, _)) = is_block d ≡ true

  step-Blocks :
      (r : R) (best : Option (Decision × Strictness))
      → Blocks best
      → Blocks (step_controlled active evaluate strictness r best)
  unfolding step_controlled
  step-Blocks r none b = elim (Bool-cases (is_block (evaluate r))) [
    | inl e ↦ rw e e
    | inr e ↦ rw e tt
  ]
  step-Blocks r (some (d, s)) b =
      elim (Bool-cases (is_block (evaluate r) && is_stricter_than (strictness r) s)) [
        | inl e ↦ rw e (and-true (is_block (evaluate r)) _ e).0
        | inr e ↦ rw e b
      ]

  pub loop-Blocks :
      (best result : Option (Decision × Strictness)) (rs : List R)
      → Blocks best
      → loop best rs ≡ ok result
      → Blocks result
  unfolding controlled_loop
  loop-Blocks best result [] b h =
      let same_best : best ≡ result = ground arith in rw (← same_best) b
  loop-Blocks best result (r ∷ rs) b h =
      let (on, e, rest) = >>=-eq-ok (active r) _ h in
      elim (Bool-cases on) [
        | inl t ↦
            loop-Blocks (step_controlled active evaluate strictness r best) result rs
              (step-Blocks r best b) (ground arith)
        | inr f ↦ loop-Blocks best result rs b (ground arith)
      ]

module _ {R : Type 0} (f : R → Bool) where
  pub filter→All :
      (P : R → Type 0) (rs : List R) → All P (filter f rs) → All (λ r. f r ≡ true → P r) rs
  filter→All P [] h = tt
  filter→All P (r ∷ rs) h = elim (Bool-cases (f r)) [
    | inl e ↦ let (first, rest) = rw e at h in ((λ _. first), filter→All P rs rest)
    | inr e ↦ ((λ t. cc), filter→All P rs (rw e at h))
  ]

  pub All→filter :
      (P : R → Type 0) (rs : List R) → All (λ r. f r ≡ true → P r) rs → All P (filter f rs)
  All→filter P [] h = tt
  All→filter P (r ∷ rs) (h, hs) = elim (Bool-cases (f r)) [
    | inl e ↦ rw e (h e, All→filter P rs hs)
    | inr e ↦ rw e (All→filter P rs hs)
  ]

module _ {R : Type 0} (f g : R → Bool) (P : R → Type 0) where
  pub filters→All :
      (rs : List R) → All P (filter g (filter f rs)) → All (λ r. Passes f g r → P r) rs
  filters→All rs h =
      All-map (λ r. f r ≡ true → g r ≡ true → P r) (λ r. Passes f g r → P r) (λ r k q. k q.0 q.1) rs
        (filter→All f (λ r. g r ≡ true → P r) rs (filter→All g P (filter f rs) h))

  pub All→filters :
      (rs : List R) → All (λ r. Passes f g r → P r) rs → All P (filter g (filter f rs))
  All→filters rs h = All→filter g P (filter f rs) (
      All→filter f (λ r. g r ≡ true → P r) rs
        (All-map (λ r. Passes f g r → P r) (λ r. f r ≡ true → g r ≡ true → P r)
          (λ r k a b. k (a, b)) rs h))

pub decision_of-allow :
    (c : Fallible (Option (Decision × Strictness)))
    → ((b : Decision × Strictness) → c ≡ ok (some b) → is_block b.0 ≡ true)
    → decision_of c ≡ Decision.allow
    → c ≡ ok none
decision_of-allow (err e) b h = cc
decision_of-allow (ok none) b h = refl
decision_of-allow (ok (some (Decision.allow, s))) b h = cc (b (Decision.allow, s) refl)
decision_of-allow (ok (some (Decision.block r, s))) b h = cc

pub decide_in_order-allow :
    (h : Option (Text × Text)) (d : Fallible (Option BlockReason)) (s : Option (Text × Text))
    (c : Fallible (Option (Decision × Strictness)))
    → decide_in_order h d s c ≡ Decision.allow
    → (h ≡ none) × (d ≡ ok none) × (s ≡ none) × (decision_of c ≡ Decision.allow)
decide_in_order-allow (some (id, name)) d s c e = cc
decide_in_order-allow none (err x) s c e = cc
decide_in_order-allow none (ok (some reason)) s c e = cc
decide_in_order-allow none (ok none) (some (id, name)) c e = cc
decide_in_order-allow none (ok none) none c e = (refl, refl, refl, e)

pub detox_result-none :
    (kind : DetoxTargetKind) (o : Option (DetoxSession × Text × Text))
    → detox_result kind o ≡ none
    → o ≡ none
detox_result-none kind none h = refl
detox_result-none kind (some x) h = cc

pub rule_label-none : (o : Option RuleConfig) → rule_label o ≡ none → o ≡ none
rule_label-none none h = refl
rule_label-none (some r) h = cc

pub app_rule_label-none : (o : Option AppRuleConfig) → app_rule_label o ≡ none → o ≡ none
app_rule_label-none none h = refl
app_rule_label-none (some r) h = cc
