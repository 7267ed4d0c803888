-- ===== src/Mcp/Handling/Surface.antt =====
-- Which tools of a server built by crates/mcp-server/src/server.rs can be seen and called.
use oracle_automate.Mcp.Handling.Exposure.{handle_method-call}
use oracle_automate.Prelude.{
  String, ◌≡◌, refl, sym, ◌↔◌, inl, inr, Bool, false, Option, none, some, List, [], ◌∷◌, map,
  keep_if, All, arith, str_eq, string_Eq, pair_Eq, Bool-cases,
}
use oracle_automate.Prelude.Map
use oracle_automate.Text.{◌<>◌}
use oracle_automate.Mcp.Error.{ErrorCode, ok, err, protocol}
use oracle_automate.Mcp.Jsonrpc.{Request}
use oracle_automate.Mcp.Protocol.{Tool, CallToolParams, LogLevel}
use oracle_automate.Mcp.Registry.{
  ExposurePolicy, ToolDescriptor, ResourceDescriptor, PromptDescriptor,
}
use oracle_automate.Mcp.Methods.{ArgumentCompleter, Reply, Outside, method_of, parse_params}
use oracle_automate.Mcp.Server.{
  ServerBuilder, ServerContext, new_builder, with_tool, with_resource, with_prompt, with_completer,
  with_log_level, with_exposure, with_instructions, build,
}
use oracle_automate.Mcp.Handling.{run_tool, call_tool, handle, handle_method}

-- No tool of a listing has the name.
abbrev pub Unlisted : String → List Tool → Type 0
Unlisted name ts = All (λ t. str_eq t.name name ≡ false) ts

module _ {W : Type 0} where
  -- The builders that calls of the builder's methods reach.
  pub data Built : ServerBuilder W → Type 0 where
    fresh : (name version : String) → Built (new_builder name version)
    tool : (d : ToolDescriptor W) (b : ServerBuilder W) → Built b → Built (with_tool d b)
    resource :
        (d : ResourceDescriptor W) (b : ServerBuilder W) → Built b → Built (with_resource d b)
    prompt : (d : PromptDescriptor W) (b : ServerBuilder W) → Built b → Built (with_prompt d b)
    completer :
        (p a : String) (f : ArgumentCompleter) (b : ServerBuilder W)
        → Built b
        → Built (with_completer p a f b)
    log_level : (l : LogLevel) (b : ServerBuilder W) → Built b → Built (with_log_level l b)
    exposure : (p : ExposurePolicy) (b : ServerBuilder W) → Built b → Built (with_exposure p b)
    instructions : (t : String) (b : ServerBuilder W) → Built b → Built (with_instructions t b)

  -- Every tool stands under its own name.
  abbrev AreKeyed : List (String × ToolDescriptor W) → Type 0
  AreKeyed m = All (λ p. p.0 ≡ p.1.tool.name) m

  insert-AreKeyed :
      (d : ToolDescriptor W) (m : List (String × ToolDescriptor W))
      → AreKeyed m
      → AreKeyed (Map.insert d.tool.name d m)
  unfolding Map.insert
  insert-AreKeyed d [] a = (refl, tt)
  insert-AreKeyed d ((k, e) ∷ m) a = elim (Bool-cases (str_eq k d.tool.name)) [
    | inl same ↦ rw same (refl, a.1)
    | inr other ↦ rw other (a.0, insert-AreKeyed d m a.1)
  ]

  Built-AreKeyed : (b : ServerBuilder W) → Built b → AreKeyed b.tools
  unfolding new_builder with_tool with_resource with_prompt with_completer with_log_level
      with_exposure with_instructions
  Built-AreKeyed b (fresh name version) = tt
  Built-AreKeyed b (tool d b' r) = insert-AreKeyed d b'.tools (Built-AreKeyed b' r)
  Built-AreKeyed b (resource d b' r) = Built-AreKeyed b' r
  Built-AreKeyed b (prompt d b' r) = Built-AreKeyed b' r
  Built-AreKeyed b (completer p a f b' r) = Built-AreKeyed b' r
  Built-AreKeyed b (log_level l b' r) = Built-AreKeyed b' r
  Built-AreKeyed b (exposure p b' r) = Built-AreKeyed b' r
  Built-AreKeyed b (instructions t b' r) = Built-AreKeyed b' r

  keep_if-AreKeyed :
      (p : String × ToolDescriptor W → Bool) (m : List (String × ToolDescriptor W))
      → AreKeyed m
      → AreKeyed (keep_if p m)
  keep_if-AreKeyed p [] a = tt
  keep_if-AreKeyed p (x ∷ m) a = elim (Bool-cases (p x)) [
    | inl kept ↦ rw kept (a.0, keep_if-AreKeyed p m a.1)
    | inr out ↦ rw out (keep_if-AreKeyed p m a.1)
  ]

  missing-Unlisted :
      (m : List (String × ToolDescriptor W)) (name : String)
      → AreKeyed m
      → (Map.get name m ≡ none) ↔ Unlisted name (map (λ p. p.1.tool) m)
  unfolding Map.get
  missing-Unlisted [] name a = ((λ h. tt), λ u. refl)
  missing-Unlisted ((k, d) ∷ m) name a = elim (Bool-cases (str_eq k name)) [
    | inl same ↦
        ((λ h. absurd (ground (arith, h, same))), λ u. absurd (ground (arith, u.0, a.0, same)))
    | inr other ↦ (
      (λ h.
          (ground (arith, other, a.0), (missing-Unlisted m name a.1).0 (ground (arith, h, other)))),
      λ u. rw other ((missing-Unlisted m name a.1).1 u.1),
    )
  ]

  run_tool-unknown :
      (params : CallToolParams) (found : Option (ToolDescriptor W)) (c : ServerContext W) (w : W)
      → (run_tool params found c w
          ≡ (err (protocol ErrorCode.unknown_tool ("unknown tool '" <> params.name <> "'")), c, w))
        ↔ (found ≡ none)
  unfolding run_tool
  run_tool-unknown params none c w = ((λ h. refl), λ h. refl)
  run_tool-unknown params (some d) c w =
      ((λ h. absurd (ground (arith, h))), λ h. absurd (ground (arith, h)))

module _ {W : Type 0} (outside : Outside) where
  handle_method-list :
      (req : Request) (c : ServerContext W) (w : W)
      → req.method ≡ "tools/list"
      → handle_method outside req c w ≡ (ok (Reply.tool_list (map (λ p. p.1.tool) c.tools)), c, w)
  unfolding handle_method handle method_of
  handle_method-list req c w m = rw m refl

  -- The listing and the calls of a built server agree: when `tools/list` answers with some tools, a
  -- readable `tools/call` is refused as unknown, with the server and the world unchanged, exactly
  -- when none of those tools has its name.
  pub tools_call-listed :
      (b : ServerBuilder W)
      → Built b
      → (list_request call_request : Request) → list_request.method ≡ "tools/list"
      → call_request.method ≡ "tools/call"
      → (params : CallToolParams) → parse_params outside.read_call call_request.params ≡ ok params
      → (w : W) (ts : List Tool)
      → handle_method outside list_request (build b) w ≡ (ok (Reply.tool_list ts), build b, w)
      → (handle_method outside call_request (build b) w ≡ (
        err (protocol ErrorCode.unknown_tool ("unknown tool '" <> params.name <> "'")),
        build b,
        w,
      ))
        ↔ Unlisted params.name ts
  unfolding call_tool build
  tools_call-listed b built list_request call_request l c params e w ts h =
      let tools = (build b).tools in
      let listed : map (λ p. p.1.tool) tools ≡ ts =
        ground (arith, handle_method-list list_request (build b) w l, h) in
      let seen =
        missing-Unlisted tools params.name (keep_if-AreKeyed _ b.tools (Built-AreKeyed b built)) in
      let refused = run_tool-unknown params (Map.get params.name tools) (build b) w in
      rw (handle_method-call outside call_request (build b) w c, e, sym listed)
        ((λ r. seen.0 (refused.0 r)), λ u. refused.1 (seen.1 u))
