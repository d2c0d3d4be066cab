-- ===== src/Cognition/Registry.antt =====
-- backend/app/services/cognitive_tooling/tool_registry.py. A dict is a list of keys and values; a
-- schema is the function `model_validate(...).model_dump()`, with `none` for its ValidationError;
-- a handler changes its surroundings and returns a dict, something else (`none`), or raises.
use ninai.Base.{
  Bool, List, Option, Outcome, Text, [], any, find?, if◌then◌else◌, key_error, none, ok, raise,
  same_text, some, strip, value_error, ℕ, ◌++◌, ◌∷◌,
}

abbrev pub Payload : Type 0 → Type 0
Payload V = List (Text × V)

abbrev pub Schema : Type 0 → Type 0
Schema V = Payload V → Option (Payload V)

pub record ToolSensitivity : Type 0 where
  pub allow_persist_input : Bool
  pub allow_persist_output : Bool
  pub redacted_input_fields : List Text
  pub redacted_output_fields : List Text

pub record ToolSpec (V : Type 0) : Type 0 where
  pub name : Text
  pub required_permissions : List Text
  pub input_schema : Option (Schema V)
  pub output_schema : Option (Schema V)
  pub allowed_scopes : Option (List Text)
  pub require_justification : Bool
  pub min_clearance_level : ℕ
  pub sensitivity : ToolSensitivity

-- `V` is the type of the values in a payload, `S` that of the surroundings.
abbrev pub ToolHandler : Type 0 → Type 0 → Type 0
ToolHandler V S = Payload V → S → Outcome (Option (Payload V)) × S

pub record Tool (V S : Type 0) : Type 0 where
  pub key : Text
  pub spec : ToolSpec V
  pub handler : ToolHandler V S

-- ToolRegistry._tools
abbrev pub ToolRegistry : Type 0 → Type 0 → Type 0
ToolRegistry V S = List (Tool V S)

module _ {V : Type 0} where
  -- A payload against an optional schema; without one it is taken as it is.
  unfoldable pub validated : Option (Schema V) → Payload V → Outcome (Payload V)
  validated none p = ok p
  validated (some schema) p = elim (schema p) [ none ↦ raise value_error | some q ↦ ok q ]

  -- What the handler gave, checked.
  checked : Option (Schema V) → Outcome (Option (Payload V)) → Outcome (Payload V)
  unfolding validated
  checked schema (raise e) = raise e
  checked schema (ok none) = raise value_error
  checked schema (ok (some output)) = validated schema output

module _ {V S : Type 0} where
  abbrev pub is_named : Text → Tool V S → Bool
  is_named tool_name t = same_text t.key tool_name

  abbrev pub find_tool : Text → ToolRegistry V S → Option (Tool V S)
  find_tool tool_name tools = find? (is_named tool_name) tools

  register_key : Text → ToolSpec V → ToolHandler V S → ToolRegistry V S → Outcome (ToolRegistry V S)
  register_key [] spec handler tools = raise value_error
  register_key (c ∷ cs) spec handler tools =
      if any (is_named (c ∷ cs)) tools
      then raise value_error
      else ok (tools ++ record { key = c ∷ cs; spec = spec; handler = handler } ∷ [])

  unfoldable pub register :
      ToolSpec V → ToolHandler V S → ToolRegistry V S → Outcome (ToolRegistry V S)
  unfolding register_key
  register spec handler tools = register_key (strip spec.name) spec handler tools

  spec_of : Option (Tool V S) → Outcome (ToolSpec V)
  spec_of none = raise key_error
  spec_of (some t) = ok t.spec

  unfoldable pub get_spec : Text → ToolRegistry V S → Outcome (ToolSpec V)
  unfolding spec_of
  get_spec tool_name tools = spec_of (find_tool tool_name tools)

  call_handler : Tool V S → Outcome (Payload V) → S → Outcome (Payload V) × S
  unfolding checked
  call_handler t (raise e) s = (raise e, s)
  call_handler t (ok input) s =
      let (reply, s') = t.handler input s in (checked t.spec.output_schema reply, s')

  call_found : Option (Tool V S) → Payload V → S → Outcome (Payload V) × S
  unfolding call_handler validated
  call_found none input s = (raise key_error, s)
  call_found (some t) input s = call_handler t (validated t.spec.input_schema input) s

  -- ToolRegistry.invoke
  unfoldable pub invoke_tool : ToolRegistry V S → Text → Payload V → S → Outcome (Payload V) × S
  unfolding call_found
  invoke_tool tools tool_name input s = call_found (find_tool tool_name tools) input s
