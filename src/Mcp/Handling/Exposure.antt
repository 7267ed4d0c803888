-- ===== src/Mcp/Handling/Exposure.antt =====
-- What the exposure policy of crates/mcp-server/src/server.rs keeps tools from doing.
use mathlib.Core.Path.{subst}
use oracle_automate.Prelude.{
  String, ◌≡◌, refl, inl, inr, Bool, true, Option, none, some, List, [], ◌∷◌, keep_if, All, arith,
  str_eq, string_Eq, pair_Eq, Bool-cases,
}
use oracle_automate.Prelude.Map
use oracle_automate.Json.{Json}
use oracle_automate.Mcp.Error.{McpResult, ok, err}
use oracle_automate.Mcp.Jsonrpc.{Request}
use oracle_automate.Mcp.Protocol.{CallToolParams}
use oracle_automate.Mcp.Registry.{
  ToolExposure, read_only, writes, read_only_only, allows, ToolDescriptor, is_allowed_by,
}
use oracle_automate.Mcp.Methods.{Outside, method_of, parse_params, or_empty}
use oracle_automate.Mcp.Server.{ServerBuilder, ServerContext, build}
use oracle_automate.Mcp.Handling.{run_tool, call_tool, handle, handle_method}

allows-read_only : (e : ToolExposure) → allows read_only_only e ≡ true → e ≡ read_only
unfolding allows
allows-read_only read_only h = refl
allows-read_only writes h = absurd (ground (arith, h))

module _ {W : Type 0} where
  -- What a filter keeps passes it and keeps what held.
  All-kept :
      (Q : String × ToolDescriptor W → Type 0) (p : String × ToolDescriptor W → Bool)
      (m : List (String × ToolDescriptor W))
      → All Q m
      → All (λ a. (p a ≡ true) × Q a) (keep_if p m)
  All-kept Q p [] a = tt
  All-kept Q p (x ∷ m) a = elim (Bool-cases (p x)) [
    | inl kept ↦ rw kept ((kept, a.0), All-kept Q p m a.1)
    | inr out ↦ rw out (All-kept Q p m a.1)
  ]

  -- What holds of every tool holds of one that is found.
  All-found :
      (Q : ToolDescriptor W → Type 0) (m : List (String × ToolDescriptor W)) (k : String)
      (d : ToolDescriptor W)
      → All (λ p. Q (p.1)) m
      → Map.get k m ≡ some d
      → Q d
  unfolding Map.get
  All-found Q [] k d a h = absurd (ground (arith, h))
  All-found Q ((j, e) ∷ m) k d a h = elim (Bool-cases (str_eq j k)) [
    | inl same ↦ let e_is_d : e ≡ d = ground (arith, h, same) in subst Q e_is_d a.0
    | inr other ↦ All-found Q m k d a.1 (ground (arith, h, other))
  ]

  -- The world is left as it is by every call of the tool.
  abbrev pub IsHarmless : ToolDescriptor W → Type 0
  IsHarmless d = (args : Json) (w : W) → (let (r, w') = d.handler args w in w') ≡ w

  run_tool-IsHarmless :
      (params : CallToolParams) (found : Option (ToolDescriptor W)) (c : ServerContext W)
      → ((d : ToolDescriptor W) → found ≡ some d → IsHarmless d)
      → (w : W) → (let (r, c', w') = run_tool params found c w in w') ≡ w
  unfolding run_tool
  run_tool-IsHarmless params none c f w = refl
  run_tool-IsHarmless params (some d) c f w = f d refl (or_empty params.arguments) w

  call_tool-IsHarmless :
      (c : ServerContext W)
      → All (λ p. IsHarmless (p.1)) c.tools
      → (r : McpResult CallToolParams) (w : W) → (let (x, c', w') = call_tool r c w in w') ≡ w
  unfolding call_tool
  call_tool-IsHarmless c a (err e) w = refl
  call_tool-IsHarmless c a (ok params) w =
      run_tool-IsHarmless params (Map.get params.name c.tools) c
        (λ d found. All-found IsHarmless c.tools params.name d a found) w

  allowed-IsHarmless :
      (m : List (String × ToolDescriptor W))
      → All
          (λ p.
            (is_allowed_by (p.1) read_only_only ≡ true)
            × (p.1.exposure ≡ read_only → IsHarmless (p.1)))
          m
      → All (λ p. IsHarmless (p.1)) m
  unfolding is_allowed_by
  allowed-IsHarmless [] a = tt
  allowed-IsHarmless ((k, d) ∷ m) a =
      (a.0.1 (allows-read_only d.exposure a.0.0), allowed-IsHarmless m a.1)

  build-IsHarmless :
      (b : ServerBuilder W)
      → b.exposure ≡ read_only_only
      → All (λ p. p.1.exposure ≡ read_only → IsHarmless (p.1)) b.tools
      → All (λ p. IsHarmless (p.1)) (build b).tools
  unfolding build
  build-IsHarmless b policy harmless = rw policy (
      allowed-IsHarmless _ (
        All-kept (λ p. p.1.exposure ≡ read_only → IsHarmless (p.1))
          (λ p. is_allowed_by (p.1) read_only_only) b.tools harmless))

module _ {W : Type 0} (outside : Outside) where
  pub handle_method-call :
      (req : Request) (c : ServerContext W) (w : W)
      → req.method ≡ "tools/call"
      → handle_method outside req c w ≡ call_tool (parse_params outside.read_call req.params) c w
  unfolding handle_method handle method_of
  handle_method-call req c w m = rw m refl

  -- With the read-only policy, and if every registered tool that is marked read-only leaves the world
  -- as it is, then no `tools/call` changes it, whatever the other tools do.
  pub tools_call-read_only :
      (b : ServerBuilder W)
      → b.exposure ≡ read_only_only
      → All (λ p. p.1.exposure ≡ read_only → IsHarmless (p.1)) b.tools
      → (req : Request) → req.method ≡ "tools/call"
      → (w : W) → (let (r, c', w') = handle_method outside req (build b) w in w') ≡ w
  tools_call-read_only b policy harmless req m w = rw (handle_method-call req (build b) w m) (
      call_tool-IsHarmless (build b) (build-IsHarmless b policy harmless)
        (parse_params outside.read_call req.params) w)
