-- ===== src/Config/Validate/Links.antt =====
-- focus-core/src/config.rs, Config::validate: the links of allowances, and the whole.
use bloc_kuntu.Common.{
  ℕ, ◌+◌, ◌≤◌, ◌<◌, ◌≡◌, refl, ap, ◌≢◌, inl, inr, false, Option, none, some, List, [], ◌∷◌, map,
  arith, ◌==◌, if◌then◌else◌, Bool-cases, All, Any, is_empty, filter_map,
}
use bloc_kuntu.Common.Results.{
  Result, ok, reject_if, for_each, >>=-eq-ok, >>-eq-ok, reject_if-eq-ok,
}
use bloc_kuntu.Text.{Text, text_eq}
use bloc_kuntu.Config.{
  TimeOfDay, ScheduleWindow, ScheduleConfig, AllowanceConfig, RuleConfig, AppRuleConfig, Config,
}
use bloc_kuntu.Text.Laws.{text_eq_iff}
use bloc_kuntu.Platform.{Platform}
use bloc_kuntu.Config.Validate.{
  Label, rule, app_rule, schedule, allowance, Links, KnownIds, require_identifier,
  ensure_unique_ids, time_eq, validate_schedule, linked_to, link_allowance, validate_rule,
  validate_app_rule, fold_links, known_ids, validate, empty_window, zero_grace_seconds,
}
use bloc_kuntu.Config.Validate.Sound.{
  occurrences, ensure_unique_ids-occurrences, IsValidList, rule-IsValidList, app_rule-IsValidList,
  rule_facts, app_rule_facts, has_id-false,
}

abbrev keys : Links → List Text
keys = map (λ e. e.0)

abbrev allowance_count : Text → Option Text → ℕ
allowance_count a none = 0
allowance_count a (some b) = if text_eq b a then 1 else 0

linked_to-none :
    (a : Text) (links : Links) → linked_to a links ≡ none → occurrences a (keys links) ≡ 0
unfolding linked_to
linked_to-none a [] h = refl
linked_to-none a ((b, id) ∷ links) h = ground (arith, linked_to-none a links)

-- One list's step: its allowance is counted, and no count passes one.
record LinkStep (o : Option Text) (links links' : Links) : Type 0 where
  counts :
      (a : Text) → occurrences a (keys links') ≡ allowance_count a o + occurrences a (keys links)
  bounded :
      ((a : Text) → occurrences a (keys links) ≤ 1) → (a : Text) → occurrences a (keys links') ≤ 1

link_allowance-LinkStep :
    (label : Label) (known : List Text) (id : Text) (o : Option Text) (links links' : Links)
    → link_allowance label known id o links ≡ ok links'
    → LinkStep o links links'
unfolding link_allowance
link_allowance-LinkStep label known id none links links' h =
    let same_links : links ≡ links' = ground arith in
    record {
      counts = λ a. rw (← same_links) (omega arith);
      bounded = λ b a. rw (← same_links) (b a);
    }
link_allowance-LinkStep label known id (some c) links links' h =
    let unlinked : linked_to c links ≡ none = ground arith in
    let grown : links' ≡ (c, id) ∷ links = ground arith in
    record {
      counts = λ a. rw grown refl;
      bounded = λ b a. rw grown (elim (Bool-cases (text_eq c a)) [
        | inl e ↦
            let same_key : c ≡ a = (text_eq_iff c a).0 e in
            let absent : occurrences a (keys links) ≡ 0 =
              rw (← same_key) (linked_to-none c links unlinked) in
            ground (arith, e, absent)
        | inr e ↦ ground (arith, e, b a)
      ]);
    }

abbrev pub allowances_of : {A : Type 0} → (A → Option Text) → List A → List Text
allowances_of f = filter_map f

occurrences-allowances_of :
    {A : Type 0} (of : A → Option Text) (a : Text) (x : A) (xs : List A)
    → occurrences a (allowances_of of (x ∷ xs))
      ≡ allowance_count a (of x) + occurrences a (allowances_of of xs)
occurrences-allowances_of of a x xs = ground arith

module _ {A : Type 0} (P : A → Type 0) (of : A → Option Text) (check : A → Links → Result _ Links)
    (step : (x : A) (l l' : Links) → check x l ≡ ok l' → P x × LinkStep (of x) l l') where
  fold_links_facts :
      (xs : List A) (l l' : Links)
      → fold_links check xs l ≡ ok l'
      → ((a : Text) → occurrences a (keys l) ≤ 1)
      → All P xs
        × ((a : Text)
            → occurrences a (keys l')
              ≡ occurrences a (allowances_of of xs) + occurrences a (keys l))
        × ((a : Text) → occurrences a (keys l') ≤ 1)
  unfolding fold_links
  fold_links_facts [] l l' h b =
      let same_links : l ≡ l' = ground arith in
      (tt, λ a. rw (← same_links) (omega arith), λ a. rw (← same_links) (b a))
  fold_links_facts (x ∷ xs) l l' h b =
      let (l₁, first, rest) = >>=-eq-ok (check x l) (fold_links check xs) h in
      let (valid, s) = step x l l₁ first in
      let (all_valid, counts, bound) = fold_links_facts xs l₁ l' rest (s.bounded b) in
      (
        (valid, all_valid),
        λ a. omega (arith, counts a, s.counts a, occurrences-allowances_of of a x xs),
        bound,
      )

-- A list that `validate` accepts, with its members.
abbrev pub IsValidRule : KnownIds → RuleConfig → Type 0
IsValidRule known r =
    IsValidList known r.id r.name r.tier r.enabled r.mode r.schedule_ids r.allowance_id
    × (r.patterns ≢ [])

abbrev pub IsValidAppRule : KnownIds → AppRuleConfig → Type 0
IsValidAppRule known r =
    IsValidList known r.id r.name r.tier r.enabled r.mode r.schedule_ids r.allowance_id
    × (r.matchers ≢ [])
    × (¬ Any (λ k. k ≡ r.id) known.site_rule_ids)

members-ne-nil : {A : Type 0} (xs : List A) → is_empty xs ≡ false → xs ≢ []
members-ne-nil [] h e = cc
members-ne-nil (x ∷ xs) h e = cc

rule_step :
    (p : Platform) (known : KnownIds) (r : RuleConfig) (l l' : Links)
    → validate_rule p known r l ≡ ok l'
    → IsValidRule known r × LinkStep r.allowance_id l l'
rule_step p known r l l' h =
    let f = rule_facts p known r l l' h in
    (
      (rule-IsValidList p known r l l' h, members-ne-nil r.patterns f.2),
      link_allowance-LinkStep rule known.allowance_ids r.id r.allowance_id l l' f.6,
    )

app_rule_step :
    (p : Platform) (known : KnownIds) (r : AppRuleConfig) (l l' : Links)
    → validate_app_rule p known r l ≡ ok l'
    → IsValidAppRule known r × LinkStep r.allowance_id l l'
app_rule_step p known r l l' h =
    let f = app_rule_facts p known r l l' h in
    (
      (
        app_rule-IsValidList p known r l l' h,
        members-ne-nil r.matchers f.4,
        has_id-false r.id known.site_rule_ids f.1,
      ),
      link_allowance-LinkStep app_rule known.allowance_ids r.id r.allowance_id l l' f.7,
    )

-- What a policy is asked to satisfy, apart from the shapes of patterns and matchers.
pub record IsValid (c : Config) : Type 0 where
  pub rule_ids : (a : Text) → occurrences a (map (λ (r : RuleConfig). r.id) c.rules) ≤ 1
  pub app_rule_ids : (a : Text) → occurrences a (map (λ (r : AppRuleConfig). r.id) c.app_rules) ≤ 1
  pub schedule_ids : (a : Text) → occurrences a (map (λ (s : ScheduleConfig). s.id) c.schedules) ≤ 1
  pub allowance_ids :
      (a : Text) → occurrences a (map (λ (w : AllowanceConfig). w.id) c.allowances) ≤ 1
  pub grace : 0 < c.strict_mode.grace_seconds
  pub windows :
      All
        (λ (s : ScheduleConfig). All (λ (w : ScheduleWindow). w.start ≢ w.end) s.windows)
        c.schedules
  pub rules : All (IsValidRule (known_ids c)) c.rules
  pub app_rules : All (IsValidAppRule (known_ids c)) c.app_rules
  -- over website and application lists together
  pub linked_once :
      (a : Text)
      → occurrences a (allowances_of (λ (r : RuleConfig). r.allowance_id) c.rules)
          + occurrences a (allowances_of (λ (r : AppRuleConfig). r.allowance_id) c.app_rules)
        ≤ 1

window_facts :
    (id : Text) (ws : List ScheduleWindow)
    → for_each
        (λ (w : ScheduleWindow). reject_if (time_eq w.start w.end) (empty_window id w.start))
        ws
      ≡ ok tt
    → All (λ (w : ScheduleWindow). w.start ≢ w.end) ws
window_facts id [] h = tt
window_facts id (w ∷ ws) h =
    let differ : time_eq w.start w.end ≡ false = ground arith in
    (
      λ e. ground (arith, ap (λ (t : TimeOfDay). t.hour) e, ap (λ (t : TimeOfDay). t.minute) e),
      window_facts id ws (ground arith),
    )

schedules_facts :
    (ss : List ScheduleConfig)
    → for_each validate_schedule ss ≡ ok tt
    → All (λ (s : ScheduleConfig). All (λ (w : ScheduleWindow). w.start ≢ w.end) s.windows) ss
unfolding validate_schedule
schedules_facts [] h = tt
schedules_facts (s ∷ ss) h = (
  window_facts s.id s.windows (ground (arith, require_identifier schedule s.id)),
  schedules_facts ss (ground arith),
)

-- What the checks of an accepted policy returned, with the links after each loop.
record Accepted (p : Platform) (c : Config) : Type 0 where
  links : Links
  final : Links
  rule_ids : ensure_unique_ids rule (map (λ (r : RuleConfig). r.id) c.rules) ≡ ok tt
  app_rule_ids : ensure_unique_ids app_rule (map (λ (r : AppRuleConfig). r.id) c.app_rules) ≡ ok tt
  schedule_ids : ensure_unique_ids schedule (map (λ (s : ScheduleConfig). s.id) c.schedules) ≡ ok tt
  allowance_ids :
      ensure_unique_ids allowance (map (λ (w : AllowanceConfig). w.id) c.allowances) ≡ ok tt
  grace : (c.strict_mode.grace_seconds == 0) ≡ false
  windows : for_each validate_schedule c.schedules ≡ ok tt
  rules : fold_links (validate_rule p (known_ids c)) c.rules [] ≡ ok links
  app_rules : fold_links (validate_app_rule p (known_ids c)) c.app_rules links ≡ ok final

validate-Accepted : (p : Platform) (c : Config) → validate p c ≡ ok tt → Accepted p c
unfolding validate known_ids
validate-Accepted p c h =
    let known = known_ids c in
    let (h₁, k₁) = >>-eq-ok (ensure_unique_ids rule (map (λ (r : RuleConfig). r.id) c.rules)) _ h in
    let (h₂, k₂) =
      >>-eq-ok (ensure_unique_ids app_rule (map (λ (r : AppRuleConfig). r.id) c.app_rules)) _ k₁ in
    let (h₃, k₃) = >>-eq-ok (ensure_unique_ids schedule known.schedule_ids) _ k₂ in
    let (h₄, k₄) = >>-eq-ok (ensure_unique_ids allowance known.allowance_ids) _ k₃ in
    let (h₅, k₅) =
      >>-eq-ok (reject_if (c.strict_mode.grace_seconds == 0) zero_grace_seconds) _ k₄ in
    let (h₆, k₆) = >>-eq-ok (for_each validate_schedule c.schedules) _ k₅ in
    let (_, k₇) =
      >>-eq-ok (for_each (λ (a : AllowanceConfig). require_identifier allowance a.id) c.allowances)
        _ k₆ in
    let (links, h₈, k₈) = >>=-eq-ok (fold_links (validate_rule p known) c.rules []) _ k₇ in
    let (final, h₉, _) =
      >>=-eq-ok (fold_links (validate_app_rule p known) c.app_rules links) _ k₈ in
    record {
      links = links;
      final = final;
      rule_ids = h₁;
      app_rule_ids = h₂;
      schedule_ids = h₃;
      allowance_ids = h₄;
      grace = reject_if-eq-ok _ zero_grace_seconds h₅;
      windows = h₆;
      rules = h₈;
      app_rules = h₉;
    }

-- Every policy that `validate` accepts is valid: the ids of each kind are distinct, no application
-- list has the id of a website list, references are to items of the policy, no allowance is linked
-- to two lists of either kind, only Tier 3 lists have one, an allowlist of either kind is switched
-- on and not Tier 1, lists have a trimmed id, a name and members, the grace period is not zero, and
-- no schedule window starts when it ends.
pub validate-IsValid : (p : Platform) (c : Config) → validate p c ≡ ok tt → IsValid c
unfolding known_ids
validate-IsValid p c h =
    let a = validate-Accepted p c h in
    let (rules, count₁, bound) =
      fold_links_facts (IsValidRule (known_ids c)) (λ r. r.allowance_id)
        (validate_rule p (known_ids c)) (rule_step p (known_ids c)) c.rules [] a.links a.rules
        (λ x. omega arith) in
    let (app_rules, count₂, bound') =
      fold_links_facts (IsValidAppRule (known_ids c)) (λ r. r.allowance_id)
        (validate_app_rule p (known_ids c)) (app_rule_step p (known_ids c)) c.app_rules a.links
        a.final a.app_rules bound in
    record {
      rule_ids = ensure_unique_ids-occurrences rule _ a.rule_ids;
      app_rule_ids = ensure_unique_ids-occurrences app_rule _ a.app_rule_ids;
      schedule_ids = ensure_unique_ids-occurrences schedule _ a.schedule_ids;
      allowance_ids = ensure_unique_ids-occurrences allowance _ a.allowance_ids;
      grace = ground (arith, a.grace);
      windows = schedules_facts c.schedules a.windows;
      rules = rules;
      app_rules = app_rules;
      linked_once = λ x. omega (arith, count₁ x, count₂ x, bound' x);
    }
