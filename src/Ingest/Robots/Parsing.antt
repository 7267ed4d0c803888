-- ===== src/Ingest/Robots/Parsing.antt =====
-- What `parse` of crates/oracle-automate-ingest/src/robots.rs puts into the groups.
use oracle_automate.Prelude.{
  ℕ, zero, suc, ◌≡◌, refl, inl, inr, false, Option, none, some, List, [], ◌∷◌, All, All-append,
  Bool-cases, Option-cases, if◌then◌else◌,
}
use oracle_automate.Prelude.Map
use oracle_automate.Text.Codes.{
  Codes, codes_eq, codes_eq_iff, codes_Eq, is_empty, trim, split_once, to_ascii_lowercase, lines,
}
use oracle_automate.Ingest.Robots.{
  Group, ParseState, Directive, user_agent, allow, disallow, crawl_delay, unknown, group_or_default,
  directive_of, with_delay, strip_comment, add_rule, for_agents, apply_directive, rule_line,
  apply_pair, parse_line, parse_lines, parse,
}

abbrev pub count : Codes → List Codes → ℕ
count a [] = 0
count a (b ∷ bs) = if codes_eq b a then suc (count a bs) else count a bs

abbrev pub times {ℓ} : {A : Type ℓ} → ℕ → (A → A) → A → A
times zero f x = x
times (suc n) f x = times n f (f x)

abbrev pub group_of : Codes → Map.Map Codes Group → Group
group_of a groups = group_or_default (Map.get a groups)

module _ (parse_delay : Codes → Option ℕ) where
  -- A rule line adds its rule to the group of each current agent, once for each time that the agent
  -- is named, and leaves every other group as it is.
  pub for_agents-group_of :
      (d : Directive) (value : Codes) (agents : List Codes) (groups : Map.Map Codes Group)
      (a : Codes)
      → group_of a (for_agents parse_delay d value agents groups)
        ≡ times (count a agents) (add_rule parse_delay d value) (group_of a groups)
  unfolding for_agents
  for_agents-group_of d value [] groups a = refl
  for_agents-group_of d value (b ∷ agents) groups a = elim (Bool-cases (codes_eq b a)) [
    | inl same ↦
        rw
          (
            for_agents-group_of d value agents
                (Map.insert b (add_rule parse_delay d value (group_of b groups)) groups) a,
            Map.get-insert,
            same,
            (codes_eq_iff b a).0 same,
          )
          refl
    | inr other ↦
        rw
          (
            for_agents-group_of d value agents
                (Map.insert b (add_rule parse_delay d value (group_of b groups)) groups) a,
            Map.get-insert,
            other,
          )
          refl
  ]

abbrev pub NonEmpty : Codes → Type 0
NonEmpty r = is_empty r ≡ false

-- No rule of the group is empty.
abbrev pub IsClean : Group → Type 0
IsClean g = All NonEmpty g.allow × All NonEmpty g.disallow

abbrev pub AreClean : Map.Map Codes Group → Type 0
AreClean groups = (a : Codes) → IsClean (group_of a groups)

module _ (parse_delay : Codes → Option ℕ) where
  add_rule-IsClean :
      (d : Directive) (value : Codes) (g : Group)
      → IsClean g
      → IsClean (add_rule parse_delay d value g)
  unfolding add_rule with_delay
  add_rule-IsClean user_agent value g c = c
  add_rule-IsClean allow value g c = elim (Bool-cases (is_empty value)) [
    | inl e ↦ rw e c
    | inr e ↦ rw e (All-append NonEmpty g.allow (value ∷ []) c.0 (e, tt), c.1)
  ]
  add_rule-IsClean disallow value g c = elim (Bool-cases (is_empty value)) [
    | inl e ↦ rw e c
    | inr e ↦ rw e (c.0, All-append NonEmpty g.disallow (value ∷ []) c.1 (e, tt))
  ]
  add_rule-IsClean crawl_delay value g c = elim (Option-cases (parse_delay value)) [
    | inl e ↦ rw e c
    | inr (ms, e) ↦ rw e c
  ]
  add_rule-IsClean unknown value g c = c

  times-IsClean :
      (n : ℕ) (d : Directive) (value : Codes) (g : Group)
      → IsClean g
      → IsClean (times n (add_rule parse_delay d value) g)
  times-IsClean zero d value g c = c
  times-IsClean (suc n) d value g c =
      times-IsClean n d value (add_rule parse_delay d value g) (add_rule-IsClean d value g c)

  for_agents-AreClean :
      (d : Directive) (value : Codes) (agents : List Codes) (groups : Map.Map Codes Group)
      → AreClean groups
      → AreClean (for_agents parse_delay d value agents groups)
  for_agents-AreClean d value agents groups c a =
      rw (for_agents-group_of parse_delay d value agents groups a)
        (times-IsClean (count a agents) d value (group_of a groups) (c a))

  apply_directive-AreClean :
      (d : Directive) (value : Codes) (s : ParseState)
      → AreClean s.groups
      → AreClean (apply_directive parse_delay d value s).groups
  unfolding apply_directive rule_line
  apply_directive-AreClean user_agent value s c = c
  apply_directive-AreClean allow value s c =
      for_agents-AreClean allow value s.current_agents s.groups c
  apply_directive-AreClean disallow value s c =
      for_agents-AreClean disallow value s.current_agents s.groups c
  apply_directive-AreClean crawl_delay value s c =
      for_agents-AreClean crawl_delay value s.current_agents s.groups c
  apply_directive-AreClean unknown value s c = c

  apply_pair-AreClean :
      (p : Option (Codes × Codes)) (s : ParseState)
      → AreClean s.groups
      → AreClean (apply_pair parse_delay p s).groups
  unfolding apply_pair
  apply_pair-AreClean none s c = c
  apply_pair-AreClean (some (k, v)) s c =
      apply_directive-AreClean (directive_of (to_ascii_lowercase (trim k))) (trim v) s c

  parse_line-AreClean :
      (l : Codes) (s : ParseState)
      → AreClean s.groups
      → AreClean (parse_line parse_delay l s).groups
  unfolding parse_line
  parse_line-AreClean l s c = elim (Bool-cases (is_empty (trim (strip_comment l)))) [
    | inl e ↦ rw e c
    | inr e ↦ rw e (apply_pair-AreClean (split_once b':' (trim (strip_comment l))) s c)
  ]

  parse_lines-AreClean :
      (ls : List Codes) (s : ParseState)
      → AreClean s.groups
      → AreClean (parse_lines parse_delay ls s).groups
  unfolding parse_lines
  parse_lines-AreClean [] s c = c
  parse_lines-AreClean (l ∷ ls) s c =
      parse_lines-AreClean ls (parse_line parse_delay l s) (parse_line-AreClean l s c)

  -- However the body reads, no group of the result has an empty rule.
  pub parse-AreClean : (body : Codes) → AreClean (parse parse_delay body).groups
  unfolding parse Map.get
  parse-AreClean body =
      parse_lines-AreClean (lines body)
        (record { groups = []; current_agents = []; just_saw_directive = false }) (λ a. (tt, tt))
