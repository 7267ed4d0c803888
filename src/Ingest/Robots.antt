-- ===== src/Ingest/Robots.antt =====
-- `RobotsTxt` of crates/oracle-automate-ingest/src/robots.rs. A text is its code points. The reading
-- of a delay (a float in seconds, rounded to milliseconds) is a parameter.
pub mod Deciding
pub mod Grouping
pub mod Parsing
mod Tests
use oracle_automate.Prelude.{
  ℕ, ◌+◌, String, Bool, true, false, not, ◌&&◌, Option, none, some, List, [], ◌∷◌, ◌++◌, ltb, leb,
  max, if◌then◌else◌,
}
use oracle_automate.Prelude.Map
use oracle_automate.Text.{codes}
use oracle_automate.Text.Codes.{
  Codes, codes_eq, codes_Eq, is_prefix, byte_length, is_empty, trim, to_ascii_lowercase, before,
  split_once, lines,
}

pub data Decision : Type 0 where
  allowed disallowed : Decision

pub record Group : Type 0 where
  pub allow : List Codes
  pub disallow : List Codes
  pub crawl_delay : Option ℕ

pub record RobotsTxt : Type 0 where
  pub groups : Map.Map Codes Group

-- The variables of the loop of `parse`.
pub record ParseState : Type 0 where
  pub groups : Map.Map Codes Group
  pub current_agents : List Codes
  pub just_saw_directive : Bool

pub data Directive : Type 0 where
  user_agent allow disallow crawl_delay unknown : Directive

abbrev pub empty_group : Group
empty_group = record { allow = []; disallow = []; crawl_delay = none }

-- `entry(..).or_default()`
abbrev pub group_or_default : Option Group → Group
group_or_default none = empty_group
group_or_default (some g) = g

unfoldable pub directive_of : Codes → Directive
directive_of key =
    if codes_eq key (codes "user-agent")
    then user_agent
    else if codes_eq key (codes "allow")
    then allow
    else if codes_eq key (codes "disallow")
    then disallow
    else if codes_eq key (codes "crawl-delay")
    then crawl_delay
    else unknown

unfoldable pub with_delay : Option ℕ → Group → Group
with_delay none g = g
with_delay (some ms) g = record g { crawl_delay = some ms }

-- `&line[..i]` at the first `#`.
abbrev pub strip_comment : Codes → Codes
strip_comment line = before b'#' line

module _ (parse_delay : Codes → Option ℕ) where
  -- One rule line for one agent.
  unfoldable pub add_rule : Directive → Codes → Group → Group
  unfolding with_delay
  add_rule allow value g = if is_empty value then g else record g { allow = g.allow ++ value ∷ [] }
  add_rule disallow value g =
      if is_empty value then g else record g { disallow = g.disallow ++ value ∷ [] }
  add_rule crawl_delay value g = with_delay (parse_delay value) g
  add_rule user_agent value g = g
  add_rule unknown value g = g

  unfoldable pub for_agents :
      Directive → Codes → List Codes → Map.Map Codes Group → Map.Map Codes Group
  unfolding add_rule
  for_agents d value [] groups = groups
  for_agents d value (a ∷ agents) groups =
      for_agents d value agents
        (Map.insert a (add_rule d value (group_or_default (Map.get a groups))) groups)

  abbrev pub rule_line : Directive → Codes → ParseState → ParseState
  unfolding for_agents
  rule_line d value s = record s {
    groups = for_agents d value s.current_agents s.groups;
    just_saw_directive = true;
  }

  unfoldable pub apply_directive : Directive → Codes → ParseState → ParseState
  apply_directive user_agent value s =
      let agents = if s.just_saw_directive then [] else s.current_agents in
      record s {
        current_agents = agents ++ to_ascii_lowercase value ∷ [];
        just_saw_directive = false;
      }
  apply_directive allow value s = rule_line allow value s
  apply_directive disallow value s = rule_line disallow value s
  apply_directive crawl_delay value s = rule_line crawl_delay value s
  apply_directive unknown value s = s

  abbrev pub apply_pair : Option (Codes × Codes) → ParseState → ParseState
  unfolding directive_of apply_directive
  apply_pair none s = s
  apply_pair (some (k, v)) s =
      apply_directive (directive_of (to_ascii_lowercase (trim k))) (trim v) s

  -- One line of `parse`.
  unfoldable pub parse_line : Codes → ParseState → ParseState
  parse_line raw s =
      let line = trim (strip_comment raw) in
      if is_empty line then s else apply_pair (split_once b':' line) s

  unfoldable pub parse_lines : List Codes → ParseState → ParseState
  parse_lines [] s = s
  parse_lines (l ∷ ls) s = parse_lines ls (parse_line l s)

  unfoldable pub parse : Codes → RobotsTxt
  unfolding parse_lines parse_line
  parse body = record {
    groups =
        (parse_lines (lines body)
          (record { groups = []; current_agents = []; just_saw_directive = false })).groups;
  }

-- `Iterator::max`
abbrev pub max_with : ℕ → Option ℕ → Option ℕ
max_with n none = some n
max_with n (some k) = some (max n k)

unfoldable pub longest_of : List Codes → Codes → Option ℕ
longest_of [] path = none
longest_of (r ∷ rs) path =
    let rest = longest_of rs path in
    if is_prefix r path then max_with (byte_length r) rest else rest

unfoldable pub longest_prefix_match : Option (List Codes) → Codes → Option ℕ
unfolding longest_of
longest_prefix_match none path = none
longest_prefix_match (some rules) path = longest_of rules path

-- `best.map(|(len, _)| agent.len() > len).unwrap_or(true)`
abbrev pub is_longer : Codes → Option (ℕ × Group) → Bool
is_longer agent none = true
is_longer agent (some (len, g)) = ltb len (byte_length agent)

-- The loop over the groups, from the best one so far.
unfoldable pub best_prefix : Codes → Map.Map Codes Group → Option (ℕ × Group) → Option (ℕ × Group)
best_prefix ua [] best = best
best_prefix ua ((agent, g) ∷ groups) best = best_prefix ua groups (
    if not (codes_eq agent (codes "*")) && is_prefix agent ua && is_longer agent best
    then some (byte_length agent, g)
    else best)

abbrev pub best_or_star : Option (ℕ × Group) → Option Group → Option Group
best_or_star none star = star
best_or_star (some (len, g)) star = some g

abbrev pub exact_or : Option Group → Option Group → Option Group
exact_or (some g) other = some g
exact_or none other = other

unfoldable pub matching_group : RobotsTxt → Codes → Option Group
unfolding best_prefix
matching_group r agent_name =
    let ua = to_ascii_lowercase agent_name in
    exact_or (Map.get ua r.groups)
      (best_or_star (best_prefix ua r.groups none) (Map.get (codes "*") r.groups))

abbrev pub rules_of : (Group → List Codes) → Option Group → Option (List Codes)
rules_of field none = none
rules_of field (some g) = some (field g)

unfoldable pub decide : Option ℕ → Option ℕ → Decision
decide none none = allowed
decide (some a) none = allowed
decide none (some d) = disallowed
decide (some a) (some d) = if leb d a then allowed else disallowed

unfoldable pub is_allowed : RobotsTxt → Codes → Codes → Decision
unfolding decide longest_prefix_match
is_allowed r agent path =
    let group = matching_group r agent in
    decide (longest_prefix_match (rules_of Group.allow group) path)
      (longest_prefix_match (rules_of Group.disallow group) path)

abbrev pub delay_of : Option Group → Option ℕ
delay_of none = none
delay_of (some g) = g.crawl_delay

unfoldable pub crawl_delay_of : RobotsTxt → Codes → Option ℕ
crawl_delay_of r agent = delay_of (matching_group r agent)
