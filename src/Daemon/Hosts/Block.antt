-- ===== src/Daemon/Hosts/Block.antt =====
-- focusd/src/hosts.rs: the domains that the managed section names.
use bloc_kuntu.Common.{
  Any, find, ◌≡◌, refl, sym, ap, ◌∙◌, ◌⊎◌, inl, inr, Bool, true, false, not, ◌&&◌, ◌||◌, some, List,
  [], ◌∷◌, arith, Bool-cases, Option-cases, same, filter, is_empty,
}
use mathlib.Core.List.{Memᴰ}
use bloc_kuntu.Text.{Text, text_lt, lit, text_eq, starts_with}
use bloc_kuntu.Text.Laws.{text_eq_refl, text_eq_iff}
use bloc_kuntu.Config.{
  RuleTier, ListMode, RulePatternKind, pattern_kind_eq, RulePatternConfig, RuleConfig, Config,
}
use bloc_kuntu.Types.{DetoxSession}
use bloc_kuntu.Platform.{DateTime, Chrono}
use bloc_kuntu.Store.{id_member}
use bloc_kuntu.Policy.Schedule.{schedule_ids_are_active_at}
use bloc_kuntu.Daemon.Lists.{find_item}
use bloc_kuntu.Daemon.Hosts.{
  insert_domain, domain_of, www, add_pattern, add_rule_domains, add_rules, is_managed,
  managed_domains, detox_rule, add_targets, add_sessions, managed_domains_with_active_detox,
}

insert_domain-has :
    (domain : Text) (ds : List Text) → id_member domain (insert_domain domain ds) ≡ true
unfolding insert_domain
insert_domain-has domain [] = rw (text_eq_refl domain) refl
insert_domain-has domain (d ∷ ds) =
    let rest = insert_domain-has domain ds in
    let own = text_eq_refl domain in
    elim (Bool-cases (text_eq domain d)) [
      | inl e ↦
          let same : text_eq d domain ≡ true =
            (text_eq_iff d domain).1 (sym ((text_eq_iff domain d).0 e)) in
          rw e (rw same refl)
      | inr e ↦ elim (Bool-cases (text_lt domain d)) [
        | inl f ↦ rw e (rw f (rw own refl))
        | inr f ↦ rw e (rw f (ground (arith, rest)))
      ]
    ]

insert_domain-keeps :
    (other domain : Text) (ds : List Text)
    → id_member other ds ≡ true
    → id_member other (insert_domain domain ds) ≡ true
unfolding insert_domain
insert_domain-keeps other domain [] h = cc
insert_domain-keeps other domain (d ∷ ds) h = elim (Bool-cases (text_eq domain d)) [
  | inl e ↦ rw e h
  | inr e ↦ elim (Bool-cases (text_lt domain d)) [
    | inl f ↦ rw e (rw f (ground (arith, h)))
    | inr f ↦ elim (Bool-cases (text_eq d other)) [
      | inl g ↦ rw e (rw f (rw g refl))
      | inr g ↦
          let rest = insert_domain-keeps other domain ds (ground arith) in rw e (rw f (rw g rest))
    ]
  ]
]

add_pattern-keeps :
    (other : Text) (p : RulePatternConfig) (ds : List Text)
    → id_member other ds ≡ true
    → id_member other (add_pattern p ds) ≡ true
unfolding add_pattern
add_pattern-keeps other p ds h =
    let own = insert_domain-keeps other (domain_of p) ds h in
    let sub = insert_domain-keeps other (www (domain_of p)) (insert_domain (domain_of p) ds) own in
    elim (Bool-cases
      (not (pattern_kind_eq p.kind RulePatternKind.domain) || is_empty (domain_of p))) [
        | inl e ↦ rw e h
        | inr e ↦
            elim (Bool-cases (p.match_subdomains && not (starts_with (domain_of p) (lit "www.")))) [
              | inl f ↦ rw e (rw f sub)
              | inr f ↦ rw e (rw f own)
            ]
      ]

-- A domain pattern that is not blank.
abbrev pub IsDomain : RulePatternConfig → Type 0
IsDomain p = (not (pattern_kind_eq p.kind RulePatternKind.domain) || is_empty (domain_of p)) ≡ false

add_pattern-has :
    (p : RulePatternConfig) (ds : List Text)
    → IsDomain p
    → id_member (domain_of p) (add_pattern p ds) ≡ true
unfolding add_pattern
add_pattern-has p ds e =
    let own = insert_domain-has (domain_of p) ds in
    let sub =
      insert_domain-keeps (domain_of p) (www (domain_of p)) (insert_domain (domain_of p) ds) own in
    elim (Bool-cases (p.match_subdomains && not (starts_with (domain_of p) (lit "www.")))) [
      | inl f ↦ rw e (rw f sub)
      | inr f ↦ rw e (rw f own)
    ]

add_rule_domains-keeps :
    (other : Text) (ps : List RulePatternConfig) (ds : List Text)
    → id_member other ds ≡ true
    → id_member other (add_rule_domains ps ds) ≡ true
unfolding add_rule_domains
add_rule_domains-keeps other [] ds h = h
add_rule_domains-keeps other (p ∷ ps) ds h =
    add_rule_domains-keeps other ps (add_pattern p ds) (add_pattern-keeps other p ds h)

add_rule_domains-has :
    (p : RulePatternConfig) (ps : List RulePatternConfig) (ds : List Text)
    → Memᴰ p ps
    → IsDomain p
    → id_member (domain_of p) (add_rule_domains ps ds) ≡ true
unfolding add_rule_domains
add_rule_domains-has p [] ds m h = elim m [ ]
add_rule_domains-has p (q ∷ ps) ds (Memᴰ.head e) h =
    add_rule_domains-keeps (domain_of p) ps (add_pattern q ds) (rw (← e) (add_pattern-has p ds h))
add_rule_domains-has p (q ∷ ps) ds (Memᴰ.tail m) h =
    add_rule_domains-has p ps (add_pattern q ds) m h

add_rules-keeps :
    (other : Text) (rs : List RuleConfig) (ds : List Text)
    → id_member other ds ≡ true
    → id_member other (add_rules rs ds) ≡ true
add_rules-keeps other [] ds h = h
add_rules-keeps other (r ∷ rs) ds h =
    add_rules-keeps other rs (add_rule_domains r.patterns ds)
      (add_rule_domains-keeps other r.patterns ds h)

-- The first item that passes a test is the first that passes a narrower one, if it passes that.
find_narrower :
    {A : Type 0} (p q : A → Bool)
    → ((x : A) → q x ≡ true → p x ≡ true)
    → (r : A) (xs : List A) → find p xs ≡ some r
    → q r ≡ true
    → find q xs ≡ some r
find_narrower p q narrow r [] h t = cc
find_narrower p q narrow r (x ∷ xs) h t = elim (Bool-cases (p x)) [
  | inl e ↦
      let same_item : x ≡ r = ground (arith, e, h) in rw (ap q same_item ∙ t) (ap some same_item)
  | inr e ↦ elim (Bool-cases (q x)) [
    | inl f ↦ absurd (ground (arith, narrow x f))
    | inr f ↦ rw f (find_narrower p q narrow r xs (rw e at h) t)
  ]
]

module _ (c : Chrono) (config : Config) (now : DateTime) (clock_tampered : Bool) where
  -- A list whose domains the file must block: a list of the policy that is switched on and a
  -- blocklist, and either Tier 1, or of Tier 2 with an active schedule, or of Tier 2 and named by
  -- one of the sessions. The ids of a policy's lists are distinct: the list is found by its id.
  pub record IsBlocked (sessions : List DetoxSession) (r : RuleConfig) : Type 0 where
    pub listed : Memᴰ r config.rules
    pub own_id : find_item (λ (x : RuleConfig). x.id) r.id config.rules ≡ some r
    pub enabled : r.enabled ≡ true
    pub is_blocklist : r.mode ≡ ListMode.blocklist
    pub reason :
        (r.tier ≡ RuleTier.hard)
        ⊎ ((r.tier ≡ RuleTier.scheduled_block)
            × ((schedule_ids_are_active_at c r.schedule_ids config now clock_tampered ≡ true)
                ⊎ Any (λ (s : DetoxSession). Memᴰ r.id s.site_rule_ids) sessions))

module _ (c : Chrono) (config : Config) (now : DateTime) (clock_tampered : Bool)
    (p : RulePatternConfig) (is_domain : IsDomain p) where
  add_rules-has :
      (test : RuleConfig → Bool) (r : RuleConfig) (rs : List RuleConfig) (ds : List Text)
      → Memᴰ r rs
      → test r ≡ true
      → Memᴰ p r.patterns
      → id_member (domain_of p) (add_rules (filter test rs) ds) ≡ true
  add_rules-has test r [] ds m t mp = elim m [ ]
  add_rules-has test r (x ∷ rs) ds (Memᴰ.head e) t mp =
      let t' : test x ≡ true = ap test (sym e) ∙ t in
      rw t' (
        add_rules-keeps (domain_of p) (filter test rs) (add_rule_domains x.patterns ds)
          (rw (← e) (add_rule_domains-has p r.patterns ds mp is_domain)))
  add_rules-has test r (x ∷ rs) ds (Memᴰ.tail m) t mp = elim (Bool-cases (test x)) [
    | inl f ↦ rw f (add_rules-has test r rs (add_rule_domains x.patterns ds) m t mp)
    | inr f ↦ rw f (add_rules-has test r rs ds m t mp)
  ]

  add_targets-keeps :
      (other : Text) (targets : List Text) (ds : List Text)
      → id_member other ds ≡ true
      → id_member other (add_targets c config now clock_tampered targets ds) ≡ true
  add_targets-keeps other [] ds h = h
  add_targets-keeps other (id ∷ targets) ds h =
      elim (Option-cases (detox_rule c config now clock_tampered id)) [
        | inl e ↦ rw (e, add_targets) (add_targets-keeps other targets ds h)
        | inr (r, e) ↦
            rw (e, add_targets)
              (add_targets-keeps other targets (add_rule_domains r.patterns ds)
                (add_rule_domains-keeps other r.patterns ds h))
      ]

  add_sessions-keeps :
      (other : Text) (sessions : List DetoxSession) (ds : List Text)
      → id_member other ds ≡ true
      → id_member other (add_sessions c config now clock_tampered sessions ds) ≡ true
  add_sessions-keeps other [] ds h = h
  add_sessions-keeps other (s ∷ sessions) ds h =
      add_sessions-keeps other sessions (add_targets c config now clock_tampered s.site_rule_ids ds)
        (add_targets-keeps other s.site_rule_ids ds h)

  add_targets-has :
      (id : Text) (r : RuleConfig) (targets : List Text) (ds : List Text)
      → Memᴰ id targets
      → detox_rule c config now clock_tampered id ≡ some r
      → Memᴰ p r.patterns
      → id_member (domain_of p) (add_targets c config now clock_tampered targets ds) ≡ true
  add_targets-has id r [] ds m e mp = elim m [ ]
  add_targets-has id r (x ∷ targets) ds (Memᴰ.head same) e mp =
      let e' : detox_rule c config now clock_tampered x ≡ some r =
        ap (detox_rule c config now clock_tampered) (sym same) ∙ e in
      rw (e', add_targets)
        (add_targets-keeps (domain_of p) targets (add_rule_domains r.patterns ds)
          (add_rule_domains-has p r.patterns ds mp is_domain))
  add_targets-has id r (x ∷ targets) ds (Memᴰ.tail m) e mp =
      elim (Option-cases (detox_rule c config now clock_tampered x)) [
        | inl f ↦ rw (f, add_targets) (add_targets-has id r targets ds m e mp)
        | inr (other, f) ↦
            rw (f, add_targets)
              (add_targets-has id r targets (add_rule_domains other.patterns ds) m e mp)
      ]

  is_managed_lem :
      (sessions : List DetoxSession) (r : RuleConfig)
      → IsBlocked c config now clock_tampered sessions r
      → (is_managed c config now clock_tampered r ≡ true)
        ⊎ ((r.tier ≡ RuleTier.scheduled_block)
            × Any (λ (s : DetoxSession). Memᴰ r.id s.site_rule_ids) sessions)
  is_managed_lem sessions r b = elim b.reason [
    | inl e ↦ inl (rw (b.enabled, b.is_blocklist, e) refl)
    | inr (e, inl active) ↦ inl (rw (b.enabled, b.is_blocklist, e, active) refl)
    | inr (e, inr named) ↦ inr (e, named)
  ]

  detox_rule_lem :
      (sessions : List DetoxSession) (r : RuleConfig)
      → IsBlocked c config now clock_tampered sessions r
      → r.tier ≡ RuleTier.scheduled_block
      → detox_rule c config now clock_tampered r.id ≡ some r
  detox_rule_lem sessions r b e =
      find_narrower _ _ (λ x h. ground arith) r config.rules b.own_id
        (rw (text_eq_refl r.id, b.enabled, b.is_blocklist, e) refl)

  add_named-has :
      (r : RuleConfig) (sessions : List DetoxSession) (ds : List Text)
      → Any (λ (s : DetoxSession). Memᴰ r.id s.site_rule_ids) sessions
      → detox_rule c config now clock_tampered r.id ≡ some r
      → Memᴰ p r.patterns
      → id_member (domain_of p) (add_sessions c config now clock_tampered sessions ds) ≡ true
  add_named-has r [] ds named e mp = elim named [ ]
  add_named-has r (x ∷ sessions) ds (inl named) e mp =
      add_sessions-keeps (domain_of p) sessions
        (add_targets c config now clock_tampered x.site_rule_ids ds)
        (add_targets-has r.id r x.site_rule_ids ds named e mp)
  add_named-has r (x ∷ sessions) ds (inr named) e mp =
      add_named-has r sessions (add_targets c config now clock_tampered x.site_rule_ids ds) named e
        mp

  pub managed_domains-has :
      (r : RuleConfig) (sessions : List DetoxSession)
      → IsBlocked c config now clock_tampered sessions r
      → Memᴰ p r.patterns
      → id_member
          (domain_of p)
          (managed_domains_with_active_detox c config now clock_tampered sessions)
        ≡ true
  unfolding managed_domains_with_active_detox managed_domains
  managed_domains-has r sessions b mp =
      let lists = add_rules (filter (is_managed c config now clock_tampered) config.rules) [] in
      elim (is_managed_lem sessions r b) [
        | inl managed ↦ add_sessions-keeps (domain_of p) sessions lists (
            add_rules-has (is_managed c config now clock_tampered) r config.rules [] b.listed
              managed mp)
        | inr (e, named) ↦ add_named-has r sessions lists named (detox_rule_lem sessions r b e) mp
      ]
