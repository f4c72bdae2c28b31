-- ===== src/Pinning.antt =====
-- agentauth/receipts/tool_pinning.py: a tool's metadata is pinned at its first call and compared at
-- the later ones. A schema is a value of a type S, and the hashes are arguments.
pub mod Laws
use clayseal_receipts.Prelude.{
  String, Option, none, some, Bool, true, false, not, ◌&&◌, List, [], ◌∷◌, ◌++◌, ◌==◌, string_eq,
  option_eq, contains, if◌then◌else◌, Eq,
}

pub record ToolPinningPolicy : Type 0 where
  pub enabled : Bool
  pub require_pinned : Bool
  pub deny_on_mismatch : Bool
  pub require_witness_tools : List String

pub record ToolPin : Type 0 where
  pub server : String
  pub tool : String
  pub identity_hash : String
  pub description_hash : Option String
  pub input_schema_hash : Option String

pub data PinViolation : Type 0 where
  tool_not_pinned description_changed schema_changed : PinViolation
  pin_without_metadata witness_missing : PinViolation

-- a live call of a tool, under the policy in force
pub record ToolCall (S : Type 0) : Type 0 where
  pub policy : ToolPinningPolicy
  pub server : String
  pub tool : String
  pub description : Option String
  pub input_schema : Option S
  pub tool_witness_present : Bool

pub record Hashes (S : Type 0) : Type 0 where
  pub of_identity : String → String → String
  pub of_description : String → String
  pub of_schema : S → String

-- the pins, the key of each being its server and tool
pub record ToolPinRegistry : Type 0 where
  pub pins : List ToolPin

abbrev pub is_pin_of : String → String → ToolPin → Bool
is_pin_of server tool pin = pin.server == server && pin.tool == tool

-- `dict.get`
abbrev pub find : String → String → List ToolPin → Option ToolPin
find server tool [] = none
find server tool (pin ∷ pins) =
    let later = find server tool pins in if is_pin_of server tool pin then some pin else later

-- `d[server, tool] = pin`
abbrev pub assign : ToolPin → List ToolPin → List ToolPin
assign pin [] = pin ∷ []
assign pin (p ∷ pins) =
    let later = assign pin pins in if is_pin_of pin.server pin.tool p then pin ∷ pins else p ∷ later

abbrev hashed : {A : Type 0} → (A → String) → Option A → Option String
hashed hash none = none
hashed hash (some a) = some (hash a)

-- the live metadata against a pin; a pin without a schema says nothing of it
unfoldable pub mismatches : ToolPin → ToolPin → List PinViolation
mismatches pinned live =
    let schema_same : Bool = elim pinned.input_schema_hash [
      | none ↦ true
      | some h ↦ live.input_schema_hash == some h
    ] in
    (if live.description_hash == pinned.description_hash then [] else description_changed ∷ [])
    ++ (if schema_same then [] else schema_changed ∷ [])

-- neither a description nor a schema
abbrev pub bare : {S : Type 0} → ToolCall S → Bool
bare call = elim call.description [
  | some d ↦ false
  | none ↦ elim call.input_schema [ none ↦ true | some s ↦ false ]
]

module _ {S : Type 0} (hashes : Hashes S) where
  -- `ToolPin.compute`
  unfoldable pub compute : ToolCall S → ToolPin
  compute call = record {
    server = call.server;
    tool = call.tool;
    identity_hash = hashes.of_identity call.server call.tool;
    description_hash = hashed hashes.of_description call.description;
    input_schema_hash = hashed hashes.of_schema call.input_schema;
  }

  unfoldable pub pin : ToolCall S → ToolPinRegistry → ToolPinRegistry
  unfolding compute
  pin call registry = record { pins = assign (compute call) registry.pins }

  unfoldable pub verify : ToolCall S → ToolPinRegistry → List PinViolation
  unfolding mismatches
  verify call registry = elim (find call.server call.tool registry.pins) [
    | none ↦ tool_not_pinned ∷ []
    | some pinned ↦ mismatches pinned (compute call)
  ]

  -- the violations and the registry that the call leaves
  unfoldable pub tool_pinning_violations :
      ToolCall S → ToolPinRegistry → List PinViolation × ToolPinRegistry
  unfolding verify pin
  tool_pinning_violations call registry =
      let p = call.policy in
      let first : List PinViolation × ToolPinRegistry = (
        (if p.require_pinned && bare call then pin_without_metadata ∷ [] else []),
        pin call registry,
      ) in
      let compared : List PinViolation = if p.deny_on_mismatch then verify call registry else [] in
      let witnessed : List PinViolation =
        if contains p.require_witness_tools call.tool && not call.tool_witness_present
        then witness_missing ∷ []
        else [] in
      let again : List PinViolation × ToolPinRegistry =
        elim (find call.server call.tool registry.pins) [
          | none ↦ first
          | some existing ↦ (compared ++ witnessed, registry)
        ] in
      if not p.enabled then ([], registry) else again

  -- the registry after a session's calls, the first one first
  unfoldable pub after_calls : List (ToolCall S) → ToolPinRegistry → ToolPinRegistry
  unfolding tool_pinning_violations
  after_calls [] registry = registry
  after_calls (call ∷ calls) registry = after_calls calls (tool_pinning_violations call registry).1
