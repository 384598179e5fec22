-- ===== src/Daemon/Hosts/Written.antt =====
-- focusd/src/hosts.rs: the text that is written.
use bloc_kuntu.Common.{
  ◌≡◌, refl, sym, ap, ◌∙◌, inl, inr, Bool, true, List, [], ◌∷◌, ◌++◌, append_assoc, arith,
  Bool-cases, Option-cases,
}
use mathlib.Core.List.{Memᴰ}
use mathlib.Core.Path.{subst}
use bloc_kuntu.Text.{Text, text_eq}
use bloc_kuntu.Text.Laws.{text_eq_iff}
use bloc_kuntu.Config.{RulePatternConfig, RuleConfig, Config}
use bloc_kuntu.Types.{DetoxSession}
use bloc_kuntu.Platform.{DateTime, Chrono}
use bloc_kuntu.Store.{id_member}
use bloc_kuntu.Daemon.Hosts.{
  begin_marker, end_marker, find_marker, newline, domain_of, managed_domains_with_active_detox,
  entry, entries, notice, render_managed_block, replace_managed_block,
}
use bloc_kuntu.Daemon.Hosts.Block.{IsDomain, IsBlocked, managed_domains-has}

-- A text with another in it.
abbrev pub Holds : Text → Text → Type 0
Holds text part = (before : Text) × (after : Text) × (text ≡ before ++ (part ++ after))

Holds-front : (front text part : Text) → Holds text part → Holds (front ++ text) part
Holds-front front text part (before, after, e) = (
  front ++ before,
  after,
  ap (λ t. front ++ t) e ∙ sym (append_assoc front before (part ++ after)),
)

Holds-back : (text back part : Text) → Holds text part → Holds (text ++ back) part
Holds-back text back part (before, after, e) = (
  before,
  after ++ back,
  ap (λ t. t ++ back) e
      ∙ append_assoc before (part ++ after) back
      ∙ ap (λ t. before ++ t) (append_assoc part after back),
)

Holds-start : (part after : Text) → Holds (part ++ after) part
Holds-start part after = ([], after, refl)

entries-Holds :
    (domain : Text) (ds : List Text)
    → id_member domain ds ≡ true
    → Holds (entries ds) (entry domain)
entries-Holds domain [] h = cc
entries-Holds domain (d ∷ ds) h = elim (Bool-cases (text_eq d domain)) [
  | inl e ↦
      subst (λ t. Holds (entry d ++ entries ds) (entry t)) ((text_eq_iff d domain).0 e)
        (Holds-start (entry d) (entries ds))
  | inr e ↦
      Holds-front (entry d) (entries ds) (entry domain) (entries-Holds domain ds (ground arith))
]

render-Holds :
    (domain : Text) (ds : List Text)
    → id_member domain ds ≡ true
    → Holds (render_managed_block ds) (entry domain)
unfolding render_managed_block
render-Holds domain ds h =
    let part = entry domain in
    Holds-front begin_marker _ part (
      Holds-front newline _ part (
        Holds-front notice _ part (
          Holds-front newline _ part
            (Holds-back (entries ds) (end_marker ++ newline) part (entries-Holds domain ds h)))))

-- The new text is a prefix, the section and a suffix, whatever the old text was.
replace-Holds :
    (current block part : Text)
    → Holds block part
    → Holds (replace_managed_block current block) part
unfolding replace_managed_block
replace-Holds current block part h = elim (Option-cases (find_marker begin_marker current)) [
  | inl e ↦ rw (e, replace_managed_block) (Holds-front _ block part h)
  | inr ((before, after), e) ↦
      elim (Option-cases (find_marker end_marker (begin_marker ++ after))) [
        | inl f ↦ rw (e, f, replace_managed_block) (Holds-front _ block part h)
        | inr ((inside, behind), f) ↦
            rw (e, f, replace_managed_block) (Holds-front _ _ part (Holds-back block _ part h))
      ]
]

-- The text that replaces the hosts file has an entry for each domain of each list that it must
-- block: enabled blocklists of Tier 1, those of Tier 2 with an active schedule, and those of Tier 2
-- that an active Detox session names. This is so whatever the file held before.
pub replace_managed_block-blocks :
    (c : Chrono) (config : Config) (now : DateTime) (clock_tampered : Bool)
    (sessions : List DetoxSession) (r : RuleConfig) (p : RulePatternConfig) (current : Text)
    (is_domain : IsDomain p)
    → IsBlocked c config now clock_tampered sessions r
    → Memᴰ p r.patterns
    → Holds
        (replace_managed_block current (
          render_managed_block
            (managed_domains_with_active_detox c config now clock_tampered sessions)))
        (entry (domain_of p))
replace_managed_block-blocks c config now clock_tampered sessions r p current is_domain blocked m =
    replace-Holds current _ (entry (domain_of p)) (
      render-Holds (domain_of p) _
        (managed_domains-has c config now clock_tampered p is_domain r sessions blocked m))
