-- ===== src/Ingest/Robots/Tests.antt =====
-- The sample of the tests of crates/oracle-automate-ingest/src/robots.rs, and the theorems on it.
use oracle_automate.Prelude.{ℕ, ◌≡◌, refl, Option, none, some, [], ◌∷◌, Any, ◌↔◌}
use oracle_automate.Prelude.Map
use oracle_automate.Text.{codes}
use oracle_automate.Text.Codes.{
  Codes, codes_Eq, to_ascii_lowercase, trim, split_once, before, lines,
}
use oracle_automate.Ingest.Robots.{
  allowed, disallowed, Group, RobotsTxt, parse, apply_pair, add_rule, for_agents, with_delay,
  directive_of, is_allowed, matching_group,
}
use oracle_automate.Ingest.Robots.Deciding.{rules_for, Outranks, is_allowed-disallowed}
use oracle_automate.Ingest.Robots.Grouping.{Chosen, matching_group-Chosen}

-- Every delay reads as two seconds.
abbrev two_seconds : Codes → Option ℕ
two_seconds value = some 2000

abbrev sample : Codes
sample =
    codes
      "User-agent: *\nDisallow: /private/\nAllow: /private/public/\nCrawl-delay: 2\n\nUser-agent: FusionBot # ours\nDisallow:\n"

sample_is_parsed : parse two_seconds sample ≡ record {
  groups =
      (
        codes "*",
        record {
          allow = codes "/private/public/" ∷ [];
          disallow = codes "/private/" ∷ [];
          crawl_delay = some 2000;
        },
      )
      ∷ (codes "fusionbot", record { allow = []; disallow = []; crawl_delay = none })
      ∷ [];
}
unfolding parse add_rule for_agents with_delay directive_of codes to_ascii_lowercase trim split_once
    before lines Map.get Map.insert apply_pair
sample_is_parsed = refl

abbrev site : RobotsTxt
site = record {
  groups =
      (
        codes "*",
        record {
          allow = codes "/private/public/" ∷ [];
          disallow = codes "/private/" ∷ [];
          crawl_delay = some 2000;
        },
      )
      ∷ (codes "fusionbot", record { allow = []; disallow = []; crawl_delay = none })
      ∷ [];
}

private_is_refused : is_allowed site (codes "AnyBot") (codes "/private/secret") ≡ disallowed
unfolding is_allowed matching_group codes to_ascii_lowercase Map.get
private_is_refused = refl

public_is_allowed : is_allowed site (codes "AnyBot") (codes "/private/public/x") ≡ allowed
unfolding is_allowed matching_group codes to_ascii_lowercase Map.get
public_is_allowed = refl

own_group_wins : is_allowed site (codes "FusionBot/1.0") (codes "/private/secret") ≡ allowed
unfolding is_allowed matching_group codes to_ascii_lowercase Map.get
own_group_wins = refl

is_allowed-disallowed_example :
    (is_allowed site (codes "AnyBot") (codes "/private/secret") ≡ disallowed)
    ↔ Any
        (Outranks
          (codes "/private/secret")
          (rules_for (matching_group site (codes "AnyBot")) Group.allow))
        (rules_for (matching_group site (codes "AnyBot")) Group.disallow)
is_allowed-disallowed_example =
    is_allowed-disallowed site (codes "AnyBot") (codes "/private/secret")

matching_group-Chosen_example :
    Chosen site
      (to_ascii_lowercase (codes "FusionBot/1.0"))
      (matching_group site (codes "FusionBot/1.0"))
matching_group-Chosen_example = matching_group-Chosen site (codes "FusionBot/1.0")
