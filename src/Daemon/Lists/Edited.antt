-- ===== src/Daemon/Lists/Edited.antt =====
-- focusd/src/rpc.rs: the website list that a Detox session names, in the policies that the handlers
-- of lists and allowances would save.
use bloc_kuntu.Common.{
  ◌≡◌, sym, ap, ◌∙◌, ◌⊎◌, inl, inr, true, not, ◌||◌, Option, none, some, Bool-cases, same,
}
use bloc_kuntu.Common.Results.{ok, ok-injective, reject_if, >>=-eq-ok, >>-eq-ok}
use bloc_kuntu.Text.{Text, text_eq}
use bloc_kuntu.Config.{RuleTier, tier_eq, AllowanceConfig, RuleConfig, Config}
use mathlib.Core.Path.{subst}
use bloc_kuntu.Platform.{DateTime}
use bloc_kuntu.Store.{Database}
use bloc_kuntu.Text.Laws.{text_eq_iff}
use bloc_kuntu.Policy.Matching.{NormalizedUrl}
use bloc_kuntu.Edits.{uses, option_eq, site_list_edit_is_additive, rule_is_active_at}
use bloc_kuntu.Daemon.{site_list, foreign_allowance, DaemonError, Environment}
use bloc_kuntu.Daemon.Items.{find_item-has_id, find_item-put_same, find_item-put_other}
use bloc_kuntu.Daemon.Lists.{
  rule_eq, find_item, put, check_edit, site_in_detox, edit_window, stage_allowance,
  stage_list_allowance, check_allowance,
}
use bloc_kuntu.Daemon.Lists.Covered.{
  IsYes, check_edit-additive, CoversUrl, replaced_covers, same_cover, remove_unreferenced-rules,
  CoversUrl-rules,
}
use bloc_kuntu.Daemon.Lists.Stage.{check_site_list, drop_allowance, stage_site_list}

abbrev id_of : RuleConfig → Text
id_of r = r.id

module _ (env : Environment) (config : Config) (db : Database) (now : DateTime) (i : Text)
    (url : NormalizedUrl) (locked : IsYes (site_in_detox env config db now i)) where
  pub locked_as : (id : Text) → text_eq id i ≡ true → IsYes (site_in_detox env config db now id)
  locked_as id h =
      subst (λ t. IsYes (site_in_detox env config db now t)) (sym ((text_eq_iff id i).0 h)) locked

  pub stage_allowance-rules :
      (new : AllowanceConfig) (next next' : Config)
      → stage_allowance env config db now new next ≡ ok next'
      → next'.rules ≡ next.rules
  unfolding stage_allowance
  stage_allowance-rules new next next' h =
      let (_, h') =
        >>-eq-ok
          (check_allowance env config db now new
            (find_item (λ (a : AllowanceConfig). a.id) new.id next.allowances))
          _ h in
      ap (λ (c : Config). c.rules) (sym (ok-injective h'))

  pub stage_list_allowance-rules :
      (given : Option AllowanceConfig) (a : Option Text) (tier : RuleTier) (next : Config)
      → stage_list_allowance env config db now given a tier config ≡ ok next
      → next.rules ≡ config.rules
  unfolding stage_list_allowance
  stage_list_allowance-rules none a tier next h =
      ap (λ (c : Config). c.rules) (sym (ok-injective h))
  stage_list_allowance-rules (some new) a tier next h =
      let (_, h') =
        >>-eq-ok
          (reject_if (not (tier_eq tier RuleTier.controlled_access) || not (uses new.id a))
            (DaemonError.invalid_request foreign_allowance))
          _ h in
      stage_allowance-rules new config next h'

  -- An edit of the list itself passes the check where it changes nothing or only adds.
  check_site_list-harmless :
      (new current : RuleConfig)
      → text_eq current.id i ≡ true
      → check_site_list env config db now new (some current) ≡ ok tt
      → (rule_eq current new ≡ true) ⊎ (site_list_edit_is_additive current new ≡ true)
  unfolding check_site_list
  check_site_list-harmless new current same h = elim (Bool-cases (rule_eq current new)) [
    | inl e ↦ inl e
    | inr e ↦ inr (
        check_edit-additive site_list current.id _
          (rule_is_active_at env.platform.chrono current config now) _ _ (locked_as current.id same)
          (subst
            (λ b.
              check_edit site_list current.id (not b) (site_list_edit_is_additive current new)
                (site_in_detox env config db now current.id)
                (rule_is_active_at env.platform.chrono current config now)
                (edit_window env config db now)
              ≡ ok tt)
            e h))
  ]

  abbrev Covers : Config → Type 0
  Covers = CoversUrl env.platform i url

  put-Covers :
      (new : RuleConfig) (next : Config)
      → Covers next
      → check_site_list env config db now new (find_item id_of new.id next.rules) ≡ ok tt
      → Covers (record next { rules = put id_of new next.rules })
  put-Covers new next c h = elim (Bool-cases (text_eq new.id i)) [
    | inr e ↦ record {
      list = c.list;
      found = find_item-put_other id_of i new next.rules e ∙ c.found;
      in_force = c.in_force;
      applies = c.applies;
    }
    | inl e ↦
        let found : find_item id_of new.id next.rules ≡ some c.list =
          subst (λ t. find_item id_of t next.rules ≡ some c.list) (sym ((text_eq_iff new.id i).0 e))
            c.found in
        let checked : check_site_list env config db now new (some c.list) ≡ ok tt =
          subst (λ o. check_site_list env config db now new o ≡ ok tt) found h in
        let same = find_item-has_id id_of i next.rules c.list c.found in
        let (cover, applies) =
          replaced_covers env.platform i url c.list new
            (check_site_list-harmless new c.list same checked) c.applies in
        record {
          list = new;
          found = find_item-put_same id_of i new next.rules e;
          in_force = same_cover env.platform i url c.list new cover c.in_force;
          applies = applies;
        }
  ]

  pub drop-Covers :
      (old new : Option Text) (next : Config)
      → Covers next
      → Covers (drop_allowance env config db now old new next)
  unfolding drop_allowance
  drop-Covers old new next c = elim (Bool-cases (option_eq old new)) [
    | inl e ↦ rw e c
    | inr e ↦ rw e (
        CoversUrl-rules env.platform i url next _
          (remove_unreferenced-rules env.platform i url next old) c)
  ]

  pub stage_site_list-Covers :
      (given : Option AllowanceConfig) (new : RuleConfig) (final : Config)
      → stage_site_list env config db now given new ≡ ok final
      → Covers config
      → Covers final
  unfolding stage_site_list
  stage_site_list-Covers given new final h c =
      let (next, staged, h₁) =
        >>=-eq-ok (stage_list_allowance env config db now given new.allowance_id new.tier config) _
          h in
      let (checked, h₂) =
        >>-eq-ok (check_site_list env config db now new (find_item id_of new.id next.rules)) _ h₁ in
      let c' =
        CoversUrl-rules env.platform i url config next
          (stage_list_allowance-rules given new.allowance_id new.tier next staged) c in
      subst Covers (ok-injective h₂) (drop-Covers _ _ _ (put-Covers new next c' checked))
