-- ===== src/Edits/Additive.antt =====
-- focusd/src/rpc.rs, the tests of additive edits: what they keep blocked or active.
use bloc_kuntu.Common.{
  ◌≡◌, refl, ap, inl, inr, Bool, true, List, [], ◌∷◌, arith, Bool-cases, same_iff, any, all,
}
use bloc_kuntu.Config.{
  ListMode, ScheduleWindow, ScheduleConfig, RulePatternConfig, AppMatcherConfig, RuleConfig,
  AppRuleConfig,
}
use bloc_kuntu.Types.{ProcessIdentity}
use bloc_kuntu.Platform.{DateTime, Chrono, Platform}
use bloc_kuntu.Text.Laws.{text_eq_iff}
use bloc_kuntu.Config.Equality.{mode_eq→≡, matcher_kind_eq→≡, pattern_kind_eq→≡, schedule_day_eq→≡}
use bloc_kuntu.Policy.Matching.{
  NormalizedUrl, pattern_matches, applies_by_mode, site_rule_applies, app_matcher_matches,
  app_rule_applies,
}
use bloc_kuntu.Policy.Schedule.{
  window_is_active, current_weekday, current_minute, schedule_is_active,
}
use bloc_kuntu.Edits.{
  pattern_eq, matcher_eq, window_eq, extends, members_are_additive, site_list_edit_is_additive,
  app_rule_edit_is_additive, schedule_edit_is_additive,
}

module _ {A : Type 0} (eq : A → A → Bool) (eq→≡ : (c d : A) → eq c d ≡ true → c ≡ d)
    (test : A → Bool) where
  -- What passes the test in the old members passes it in the members that extend them.
  extends-any : (cs ds : List A) → extends eq cs ds ≡ true → any test cs ≡ true → any test ds ≡ true
  extends-any [] ds h t = absurd (ground arith)
  extends-any (c ∷ cs) [] h t = absurd (ground arith)
  extends-any (c ∷ cs) (d ∷ ds) h t =
      let same_test : test c ≡ test d = ap test (eq→≡ c d (ground arith)) in
      elim (Bool-cases (test d)) [
        | inl e ↦ rw e refl
        | inr e ↦ rw e (extends-any cs ds (ground arith) (ground arith))
      ]

  shrinks-one :
      (cs : List A) (d : A) → any (λ c. eq c d) cs ≡ true → test d ≡ true → any test cs ≡ true
  shrinks-one [] d h t = absurd (ground arith)
  shrinks-one (c ∷ cs) d h t = elim (Bool-cases (eq c d)) [
    | inl e ↦ let same_head = eq→≡ c d e in rw (same_head, t) refl
    | inr e ↦ let rest = shrinks-one cs d (ground arith) t in ground arith
  ]

  shrinks-any :
      (cs ds : List A)
      → all (λ d. any (λ c. eq c d) cs) ds ≡ true
      → any test ds ≡ true
      → any test cs ≡ true
  shrinks-any cs [] h t = absurd (ground arith)
  shrinks-any cs (d ∷ ds) h t = elim (Bool-cases (test d)) [
    | inl e ↦ shrinks-one cs d (ground arith) e
    | inr e ↦ shrinks-any cs ds (ground arith) (ground arith)
  ]

  -- Under either mode, a target that the list applies to stays one.
  members-apply :
      (mode : ListMode) (cs ds : List A)
      → members_are_additive eq mode cs ds ≡ true
      → applies_by_mode mode (any test cs) ≡ true
      → applies_by_mode mode (any test ds) ≡ true
  members-apply ListMode.blocklist cs ds h t = extends-any cs ds h t
  members-apply ListMode.allowlist cs ds h t = elim (Bool-cases (any test ds)) [
    | inr e ↦ rw e refl
    | inl e ↦ let clash = shrinks-any cs ds (ground arith) e in absurd (ground arith)
  ]

pub pattern_eq→≡ : (a b : RulePatternConfig) → pattern_eq a b ≡ true → a ≡ b
pattern_eq→≡ a b h =
    let kind = pattern_kind_eq→≡ a.kind b.kind (ground arith) in
    let value = (text_eq_iff a.value b.value).0 (ground arith) in
    let subdomains = (same_iff a.match_subdomains b.match_subdomains).0 (ground arith) in cc

pub matcher_eq→≡ : (a b : AppMatcherConfig) → matcher_eq a b ≡ true → a ≡ b
matcher_eq→≡ a b h =
    let kind = matcher_kind_eq→≡ a.kind b.kind (ground arith) in
    let value = (text_eq_iff a.value b.value).0 (ground arith) in cc

pub window_eq→≡ : (a b : ScheduleWindow) → window_eq a b ≡ true → a ≡ b
window_eq→≡ a b h =
    let day = schedule_day_eq→≡ a.weekday b.weekday (ground arith) in
    let h1 : a.start.hour ≡ b.start.hour = ground arith in
    let h2 : a.start.minute ≡ b.start.minute = ground arith in
    let h3 : a.end.hour ≡ b.end.hour = ground arith in
    let h4 : a.end.minute ≡ b.end.minute = ground arith in cc

-- An additive edit of a website list leaves every address that the list applies to one that it
-- applies to, in both modes.
pub site_list_edit-applies :
    (p : Platform) (current proposed : RuleConfig) (url : NormalizedUrl)
    → site_list_edit_is_additive current proposed ≡ true
    → site_rule_applies p current url ≡ true
    → site_rule_applies p proposed url ≡ true
unfolding site_list_edit_is_additive site_rule_applies
site_list_edit-applies p current proposed url additive applies =
    let same_mode = mode_eq→≡ current.mode proposed.mode (ground arith) in
    rw (← same_mode) (
      members-apply pattern_eq pattern_eq→≡ (λ pattern. pattern_matches p pattern url) current.mode
        current.patterns proposed.patterns (ground arith) applies)

-- An additive edit of an application list leaves every process that the list applies to one that it
-- applies to, in both modes.
pub app_rule_edit-applies :
    (current proposed : AppRuleConfig) (process : ProcessIdentity)
    → app_rule_edit_is_additive current proposed ≡ true
    → app_rule_applies current process ≡ true
    → app_rule_applies proposed process ≡ true
unfolding app_rule_edit_is_additive app_rule_applies
app_rule_edit-applies current proposed process additive applies =
    let same_mode = mode_eq→≡ current.mode proposed.mode (ground arith) in
    rw (← same_mode) (
      members-apply matcher_eq matcher_eq→≡ (λ matcher. app_matcher_matches matcher process)
        current.mode current.matchers proposed.matchers (ground arith) applies)

-- An additive edit of a schedule leaves it active whenever it was.
pub schedule_edit-active :
    (c : Chrono) (current proposed : ScheduleConfig) (now : DateTime)
    → schedule_edit_is_additive current proposed ≡ true
    → schedule_is_active c current now ≡ true
    → schedule_is_active c proposed now ≡ true
unfolding schedule_edit_is_additive schedule_is_active
schedule_edit-active c current proposed now additive active =
    extends-any window_eq window_eq→≡
      (λ w. window_is_active w (current_weekday c now) (current_minute c now)) current.windows
      proposed.windows (ground arith) active
