-- ===== src/Daemon/Lists/Covered.antt =====
-- focusd/src/rpc.rs: a website list that a Detox session names, under edits of lists and
-- allowances.
use bloc_kuntu.Common.{
  ◌≡◌, refl, sym, ap, ◌∙◌, ◌≢◌, ◌⊎◌, inl, inr, Bool, true, not, ◌&&◌, Option, none, some, List, [],
  ◌∷◌, arith, same, same_iff,
}
use bloc_kuntu.Common.Results.{ok, reject_if, >>=-eq-ok, >>-eq-ok, reject_if-eq-ok}
use bloc_kuntu.Text.{Text}
use bloc_kuntu.Config.{RuleTier, RuleConfig, Config}
use bloc_kuntu.Platform.{Platform}
use bloc_kuntu.Policy.Matching.{NormalizedUrl, site_rule_applies}
use bloc_kuntu.Policy.Activity.{in_tier}
use bloc_kuntu.Config.Equality.{mode_eq→≡, tier_eq→≡}
use bloc_kuntu.Edits.{pattern_eq, site_list_edit_is_additive, remove_unreferenced_allowance}
use bloc_kuntu.Edits.Additive.{site_list_edit-applies, pattern_eq→≡}
use bloc_kuntu.Daemon.{ItemKind, Refusal, DaemonError, Outcome}
use bloc_kuntu.Daemon.Lists.{list_eq, rule_eq, find_item, check_edit, check_delete}

-- A question whose answer, when it has one, is yes.
abbrev pub IsYes : Outcome Bool → Type 0
IsYes question = (b : Bool) → question ≡ ok b → b ≡ true

pub check_edit-additive :
    (kind : ItemKind) (id : Text) (additive active : Bool) (detox window : Outcome Bool)
    → IsYes detox
    → check_edit kind id true additive detox active window ≡ ok tt
    → additive ≡ true
unfolding check_edit
check_edit-additive kind id additive active detox window locked h =
    let (b, asked, rest) = >>=-eq-ok detox _ h in
    let (passed, _) =
      >>-eq-ok
        (reject_if (b && not additive)
          (DaemonError.invalid_request (Refusal.in_active_detox kind id)))
        _ rest in
    let kept = reject_if-eq-ok (b && not additive) _ passed in
    let in_detox = locked b asked in ground arith

pub check_delete-refused :
    (kind : ItemKind) (id : Text) (active : Bool) (detox window : Outcome Bool)
    → IsYes detox
    → check_delete kind id detox active window ≢ ok tt
unfolding check_delete
check_delete-refused kind id active detox window locked h =
    let (b, asked, rest) = >>=-eq-ok detox _ h in
    let (passed, _) =
      >>-eq-ok (reject_if b (DaemonError.invalid_request (Refusal.in_active_detox kind id))) _
        rest in
    let kept = reject_if-eq-ok b _ passed in let in_detox = locked b asked in cc

list_eq→≡ :
    {A : Type 0} (eq : A → A → Bool) (eq→≡ : (a b : A) → eq a b ≡ true → a ≡ b) (xs ys : List A)
    → list_eq eq xs ys ≡ true
    → xs ≡ ys
list_eq→≡ eq eq→≡ [] [] h = refl
list_eq→≡ eq eq→≡ [] (y ∷ ys) h = cc
list_eq→≡ eq eq→≡ (x ∷ xs) [] h = cc
list_eq→≡ eq eq→≡ (x ∷ xs) (y ∷ ys) h =
    let first = eq→≡ x y (ground arith) in let rest = list_eq→≡ eq eq→≡ xs ys (ground arith) in cc

-- What decides which addresses a list covers.
pub record SameCover (a b : RuleConfig) : Type 0 where
  pub tier : a.tier ≡ b.tier
  pub enabled : a.enabled ≡ b.enabled

rule_eq→patterns :
    (a b : RuleConfig) → rule_eq a b ≡ true → (a.mode ≡ b.mode) × (a.patterns ≡ b.patterns)
rule_eq→patterns a b h = (
  mode_eq→≡ a.mode b.mode (ground arith),
  list_eq→≡ pattern_eq pattern_eq→≡ a.patterns b.patterns (ground arith),
)

rule_eq→SameCover : (a b : RuleConfig) → rule_eq a b ≡ true → SameCover a b
rule_eq→SameCover a b h = record {
  tier = tier_eq→≡ a.tier b.tier (ground arith);
  enabled = (same_iff a.enabled b.enabled).0 (ground arith);
}

additive→SameCover : (a b : RuleConfig) → site_list_edit_is_additive a b ≡ true → SameCover a b
unfolding site_list_edit_is_additive
additive→SameCover a b h = record {
  tier = tier_eq→≡ a.tier b.tier (ground arith);
  enabled = (same_iff a.enabled b.enabled).0 (ground arith);
}

module _ (p : Platform) (i : Text) (url : NormalizedUrl) where
  -- The list with the id is an enabled Tier 2 list that covers the address.
  pub record CoversUrl (config : Config) : Type 0 where
    pub list : RuleConfig
    pub found : find_item (λ (r : RuleConfig). r.id) i config.rules ≡ some list
    pub in_force : in_tier list.tier list.enabled RuleTier.scheduled_block ≡ true
    pub applies : site_rule_applies p list url ≡ true

  pub same_cover :
      (a b : RuleConfig)
      → SameCover a b
      → in_tier a.tier a.enabled RuleTier.scheduled_block ≡ true
      → in_tier b.tier b.enabled RuleTier.scheduled_block ≡ true
  same_cover a b s h =
      ap (λ t. in_tier t b.enabled RuleTier.scheduled_block) (sym s.tier)
      ∙ ap (λ e. in_tier a.tier e RuleTier.scheduled_block) (sym s.enabled)
      ∙ h

  -- A list that is replaced by itself, or by one that an additive edit makes of it.
  pub replaced_covers :
      (current new : RuleConfig)
      → (rule_eq current new ≡ true) ⊎ (site_list_edit_is_additive current new ≡ true)
      → site_rule_applies p current url ≡ true
      → SameCover current new × (site_rule_applies p new url ≡ true)
  unfolding site_rule_applies
  replaced_covers current new (inl e) applies =
      let (mode, patterns) = rule_eq→patterns current new e in
      (rule_eq→SameCover current new e, rw (← mode) (rw (← patterns) applies))
  replaced_covers current new (inr e) applies =
      (additive→SameCover current new e, site_list_edit-applies p current new url e applies)

  pub remove_unreferenced-rules :
      (config : Config) (a : Option Text)
      → (remove_unreferenced_allowance config a).rules ≡ config.rules
  unfolding remove_unreferenced_allowance
  remove_unreferenced-rules config none = refl
  remove_unreferenced-rules config (some id) = ground arith

  -- Only the website lists decide.
  pub CoversUrl-rules :
      (config next : Config) → next.rules ≡ config.rules → CoversUrl config → CoversUrl next
  CoversUrl-rules config next same c = record {
    list = c.list;
    found = ap (find_item (λ (r : RuleConfig). r.id) i) same ∙ c.found;
    in_force = c.in_force;
    applies = c.applies;
  }
