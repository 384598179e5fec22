-- ===== src/Daemon/Hosts.antt =====
-- focusd/src/hosts.rs: the managed section of the hosts file.
pub mod Block
pub mod Written
pub mod Repair
use bloc_kuntu.Common.{
  ℕ, zero, suc, ◌+◌, ◌-◌, ◌*◌, ◌/◌, ◌%◌, ◌≤◌, ◌<◌, ◌≡◌, refl, sym, ap, ◌∙◌, ◌≢◌, ◌↔◌, ◌⊎◌, inl, inr,
  Bool, true, false, not, ◌&&◌, ◌||◌, Option, none, some, List, [], ◌∷◌, ◌++◌, append_assoc, arith,
  ltb, ◌==◌, if◌then◌else◌, tests, Bool-cases, Option-cases, same, is_some, filter, find, is_empty,
}
use bloc_kuntu.Common.Results.{ok, err, ◌>>=◌, ◌>>◌}
use bloc_kuntu.Text.{
  text_lt, Text, lit, text_eq, strip_prefix, starts_with, contains, split_once, trim_start_matches,
  trim_end_matches, trim, to_ascii_lowercase,
}
use bloc_kuntu.Config.{
  RuleTier, tier_eq, ListMode, mode_eq, RulePatternKind, pattern_kind_eq, RulePatternConfig,
  RuleConfig, Config,
}
use bloc_kuntu.Types.{DetoxSession}
use bloc_kuntu.Platform.{DateTime, Chrono}
use bloc_kuntu.Policy.Schedule.{schedule_ids_are_active_at}
use bloc_kuntu.Daemon.{
  DaemonError, IoCall, HostsFile, read_hosts, write_hosts, clear_hosts_flag, read_hosts_flag,
  set_hosts_flag, done, failed, failed_late,
}

pub data HostsRepairStatus : Type 0 where
  already_compliant repaired skipped_inactive : HostsRepairStatus

abbrev pub begin_marker : Text
begin_marker = lit "# BEGIN BLOCKUNTU MANAGED"

abbrev pub end_marker : Text
end_marker = lit "# END BLOCKUNTU MANAGED"

-- `current.find(marker)`: the text before the first place of the marker, and the text after it.
unfoldable pub find_marker : Text → Text → Option (Text × Text)
find_marker marker [] = elim (strip_prefix [] marker) [ none ↦ none | some rest ↦ some ([], rest) ]
find_marker marker (c ∷ s) =
    let later : Option (Text × Text) = elim (find_marker marker s) [
      | none ↦ none
      | some (before, after) ↦ some (c ∷ before, after)
    ] in
    elim (strip_prefix (c ∷ s) marker) [ none ↦ later | some rest ↦ some ([], rest) ]

abbrev pub is_newline : ℕ → Bool
is_newline c = c == 10

abbrev pub newline : Text
newline = 10 ∷ []

-- What stands behind the line that the end marker is on.
abbrev pub after_line : Text → Text
after_line s = elim (split_once 10 s) [ none ↦ [] | some (line, rest) ↦ rest ]

-- A `BTreeSet` of texts is the list of its members in their order.
-- `domains.insert(domain)`
unfoldable pub insert_domain : Text → List Text → List Text
unfolding text_lt
insert_domain domain [] = domain ∷ []
insert_domain domain (d ∷ domains) =
    let rest = insert_domain domain domains in
    if text_eq domain d
    then d ∷ domains
    else if text_lt domain d
    then domain ∷ d ∷ domains
    else d ∷ rest

abbrev pub domain_of : RulePatternConfig → Text
domain_of pattern = to_ascii_lowercase (trim_end_matches (λ c. c == b'.') (trim pattern.value))

abbrev pub www : Text → Text
www domain = lit "www." ++ domain

unfoldable pub add_pattern : RulePatternConfig → List Text → List Text
add_pattern pattern domains =
    let domain = domain_of pattern in
    let own = insert_domain domain domains in
    if not (pattern_kind_eq pattern.kind RulePatternKind.domain) || is_empty domain
    then domains
    else if pattern.match_subdomains && not (starts_with domain (lit "www."))
    then insert_domain (www domain) own
    else own

-- The loop of `add_rule_domains`.
unfoldable pub add_rule_domains : List RulePatternConfig → List Text → List Text
unfolding add_pattern
add_rule_domains [] domains = domains
add_rule_domains (pattern ∷ patterns) domains =
    add_rule_domains patterns (add_pattern pattern domains)

abbrev pub add_rules : List RuleConfig → List Text → List Text
add_rules [] domains = domains
add_rules (r ∷ rules) domains = add_rules rules (add_rule_domains r.patterns domains)

module _ (c : Chrono) (config : Config) (now : DateTime) (clock_tampered : Bool) where
  abbrev pub is_managed : RuleConfig → Bool
  is_managed r =
      r.enabled
      && mode_eq r.mode ListMode.blocklist
      && (tier_eq r.tier RuleTier.hard
          || (tier_eq r.tier RuleTier.scheduled_block
              && schedule_ids_are_active_at c r.schedule_ids config now clock_tampered))

  unfoldable pub managed_domains : List Text
  managed_domains = add_rules (filter is_managed config.rules) []

  -- The list that a session's target names, where it is one that the file can express.
  abbrev pub detox_rule : Text → Option RuleConfig
  detox_rule id =
      find
        (λ (r : RuleConfig).
          text_eq r.id id
          && r.enabled
          && mode_eq r.mode ListMode.blocklist
          && tier_eq r.tier RuleTier.scheduled_block)
        config.rules

  abbrev pub add_targets : List Text → List Text → List Text
  add_targets [] domains = domains
  add_targets (id ∷ ids) domains = elim (detox_rule id) [
    | none ↦ add_targets ids domains
    | some r ↦ add_targets ids (add_rule_domains r.patterns domains)
  ]

  abbrev pub add_sessions : List DetoxSession → List Text → List Text
  add_sessions [] domains = domains
  add_sessions (s ∷ sessions) domains = add_sessions sessions (add_targets s.site_rule_ids domains)

  unfoldable pub managed_domains_with_active_detox : List DetoxSession → List Text
  unfolding managed_domains
  managed_domains_with_active_detox sessions = add_sessions sessions managed_domains

abbrev pub entry : Text → Text
entry domain = lit "0.0.0.0 " ++ (domain ++ (newline ++ (lit ":: " ++ (domain ++ newline))))

abbrev pub entries : List Text → Text
entries [] = []
entries (domain ∷ domains) = entry domain ++ entries domains

abbrev pub notice : Text
notice = lit "# This block is managed by blockuntud. Manual edits are repaired."

-- `render_managed_block_with_active_detox`, from the domains.
unfoldable pub render_managed_block : List Text → Text
render_managed_block domains =
    begin_marker
    ++ (newline ++ (notice ++ (newline ++ (entries domains ++ (end_marker ++ newline)))))

abbrev pub paragraph : Text → Text
paragraph [] = []
paragraph (c ∷ s) = (c ∷ s) ++ (newline ++ newline)

abbrev pub trailer : Text → Text
trailer [] = []
trailer (c ∷ s) = newline ++ c ∷ s

unfoldable pub replace_managed_block : Text → Text → Text
unfolding find_marker
replace_managed_block current block = elim (find_marker begin_marker current) [
  | none ↦ paragraph (trim_end_matches is_newline current) ++ block
  | some (before, after) ↦
      let prefix = paragraph (trim_end_matches is_newline before) in
      elim (find_marker end_marker (begin_marker ++ after)) [
        | none ↦ prefix ++ block
        | some (inside, behind) ↦
            prefix ++ (block ++ trailer (trim_start_matches is_newline (after_line behind)))
      ]
]

-- `value.replace("\r\n", "\n")`
unfoldable pub normalize_line_endings : Text → Text
normalize_line_endings [] = []
normalize_line_endings (c ∷ []) = c ∷ []
normalize_line_endings (c ∷ d ∷ s) =
    let rest = normalize_line_endings (d ∷ s) in if c == 13 && d == 10 then rest else c ∷ rest

unfoldable pub managed_block_present : Text → Bool
unfolding find_marker
managed_block_present current = elim (find_marker begin_marker current) [
  | none ↦ false
  | some (before, after) ↦ contains (begin_marker ++ after) end_marker
]
