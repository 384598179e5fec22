-- ===== src/Daemon/Requests/Enforced.antt =====
-- focusd/src/rpc.rs with focus-core/src/policy.rs: requests one after the other during a Detox.
use bloc_kuntu.Common.{
  ◌≡◌, sym, ap, ◌∙◌, ◌≢◌, inl, inr, Bool, true, some, List, [], ◌∷◌, ◌++◌, append-nil, append_assoc,
  arith, Bool-cases, All, Any,
}
use mathlib.Core.Path.{subst}
use mathlib.Core.List.{Memᴰ}
use bloc_kuntu.Text.{Text, text_eq}
use bloc_kuntu.Config.{RuleTier, RuleConfig}
use bloc_kuntu.Types.{Decision}
use bloc_kuntu.Platform.{DateTime}
use bloc_kuntu.Store.{DetoxRow, format_time, id_member}
use bloc_kuntu.Policy.Matching.{NormalizedUrl, parse, site_rule_applies}
use bloc_kuntu.Policy.Activity.{in_tier}
use bloc_kuntu.Policy.Evaluate.{evaluate_url}
use bloc_kuntu.Policy.Evaluate.FailClosed.{IsInForce, detox-blocks_url}
use bloc_kuntu.Daemon.{Daemon, Environment}
use bloc_kuntu.Daemon.Items.{find_item-has_id}
use bloc_kuntu.Daemon.Lists.{find_item}
use bloc_kuntu.Text.Laws.{text_eq_iff}
use bloc_kuntu.Daemon.Lists.Covered.{CoversUrl}
use bloc_kuntu.Daemon.Requests.{Call, call, after_calls}
use bloc_kuntu.Daemon.Requests.Handled.{HasEffect, call-HasEffect}
use bloc_kuntu.Daemon.Requests.Protected.{call-Covers}

abbrev id_of : RuleConfig → Text
id_of r = r.id

find_item→Memᴰ :
    (i : Text) (rules : List RuleConfig) (r : RuleConfig)
    → find_item id_of i rules ≡ some r
    → Memᴰ r rules
find_item→Memᴰ i [] r h = absurd (ground arith)
find_item→Memᴰ i (x ∷ rules) r h = elim (Bool-cases (text_eq x.id i)) [
  | inl e ↦ Memᴰ.head (ground arith)
  | inr e ↦ Memᴰ.tail (find_item→Memᴰ i rules r (ground arith))
]

Memᴰ-Any : {A : Type 0} (P : A → Type 0) (xs : List A) {x : A} → Memᴰ x xs → P x → Any P xs
Memᴰ-Any P [] m h = elim m [ ]
Memᴰ-Any P (y ∷ xs) (Memᴰ.head e) h = inl (subst P e h)
Memᴰ-Any P (y ∷ xs) (Memᴰ.tail m) h = inr (Memᴰ-Any P xs m h)

Memᴰ-append : {A : Type 0} {x : A} (xs ys : List A) → Memᴰ x xs → Memᴰ x (xs ++ ys)
Memᴰ-append [] ys m = elim m [ ]
Memᴰ-append (y ∷ xs) ys (Memᴰ.head e) = Memᴰ.head e
Memᴰ-append (y ∷ xs) ys (Memᴰ.tail m) = Memᴰ.tail (Memᴰ-append xs ys m)

module _ (env : Environment) where
  -- What a request started.
  new_sessions : (c : Call) (d d' : Daemon) → HasEffect env c d d' → List DetoxRow
  new_sessions c d d' (inl grown) = grown.started
  new_sessions c d d' (inr changed) = []

  call_sessions :
      (c : Call) (d d' : Daemon) (effect : HasEffect env c d d')
      → d'.database.detox_sessions ≡ d.database.detox_sessions ++ new_sessions c d d' effect
  unfolding new_sessions
  call_sessions c d d' (inl grown) = grown.sessions
  call_sessions c d d' (inr changed) =
      changed.installed.sessions
      ∙ changed.same.sessions
      ∙ sym (append-nil d.database.detox_sessions)

  -- No sequence of requests removes, cancels, shortens or changes a stored Detox session: the
  -- sessions afterwards are those before, with the new ones behind them, whatever SQLite and the
  -- operating system answer.
  pub after_calls-sessions :
      (cs : List Call) (d : Daemon)
      → (started : List DetoxRow) × ((after_calls env cs d).database.detox_sessions
          ≡ d.database.detox_sessions ++ started)
  unfolding after_calls
  after_calls-sessions [] d = ([], sym (append-nil d.database.detox_sessions))
  after_calls-sessions (c ∷ cs) d =
      let d' = (call env c d).0 in
      let effect = call-HasEffect env c d in
      let (later, rest) = after_calls-sessions cs d' in
      let first = new_sessions c d d' effect in
      (
        first ++ later,
        rest
            ∙ ap (λ rows. rows ++ later) (call_sessions c d d' effect)
            ∙ append_assoc d.database.detox_sessions first later,
      )

  module _ (i : Text) (url : NormalizedUrl) (row : DetoxRow)
      (names : id_member i row.site_rule_ids ≡ true) where
    abbrev IsDuring : Call → Type 0
    IsDuring c = IsInForce (format_time c.sample.wall.utc) row

    after_calls-Covers :
        (cs : List Call) (d : Daemon)
        → All IsDuring cs
        → Memᴰ row d.database.detox_sessions
        → CoversUrl env.platform i url d.config
        → CoversUrl env.platform i url (after_calls env cs d).config
          × Memᴰ row (after_calls env cs d).database.detox_sessions
    unfolding after_calls
    after_calls-Covers [] d during m c = (c, m)
    after_calls-Covers (k ∷ ks) d (now, later) m c =
        let d' = (call env k d).0 in
        let effect = call-HasEffect env k d in
        let named = Memᴰ-Any _ d.database.detox_sessions m (now, names) in
        let m' =
          subst (λ rows. Memᴰ row rows) (sym (call_sessions k d d' effect))
            (Memᴰ-append d.database.detox_sessions _ m) in
        after_calls-Covers ks d' later m' (call-Covers env i url k d d' effect named c)

  -- A stored session names a list that is enabled, of Tier 2 and covers an address. After any
  -- requests that arrive while the session is in force, with any answers of SQLite and the
  -- operating system, the engine still does not allow the address as long as the session is in
  -- force.
  pub after_calls-blocks_url :
      (cs : List Call) (d : Daemon) (row : DetoxRow) (r : RuleConfig) (url : Text)
      (parsed : NormalizedUrl) (now : DateTime) (clock_tampered : Bool)
      → parse env.platform url ≡ some parsed
      → find_item (λ (x : RuleConfig). x.id) r.id d.config.rules ≡ some r
      → in_tier r.tier r.enabled RuleTier.scheduled_block ≡ true
      → site_rule_applies env.platform r parsed ≡ true
      → Memᴰ row d.database.detox_sessions
      → id_member r.id row.site_rule_ids ≡ true
      → All (λ (c : Call). IsInForce (format_time c.sample.wall.utc) row) cs
      → IsInForce (format_time now.utc) row
      → evaluate_url env.platform
          (record {
            config = (after_calls env cs d).config;
            database = (after_calls env cs d).database;
            now = now;
            clock_tampered = clock_tampered;
          })
          url
        ≢ Decision.allow
  after_calls-blocks_url cs d row r url parsed now clock_tampered is_url found in_force applies m
        names during is_now =
      let (c, m') =
        after_calls-Covers r.id parsed row names cs d during m
          (record { list = r; found = found; in_force = in_force; applies = applies }) in
      let d' = after_calls env cs d in
      let same_id : r.id ≡ c.list.id = sym (
        (text_eq_iff c.list.id r.id).0
          (find_item-has_id id_of r.id d'.config.rules c.list c.found)) in
      let named = subst (λ t. id_member t row.site_rule_ids ≡ true) same_id names in
      detox-blocks_url env.platform _ url parsed c.list is_url
        (find_item→Memᴰ r.id d'.config.rules c.list c.found) (c.in_force, c.applies)
        (Memᴰ-Any _ d'.database.detox_sessions m' (is_now, named))
