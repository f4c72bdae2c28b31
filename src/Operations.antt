-- ===== src/Operations.antt =====
-- agentauth/core/operations.py: capabilities, the operations that they allow, and attenuation.
-- A capability from outside is a dictionary whose two texts may be missing; a missing list of
-- capabilities is the empty one.
pub mod Attenuation
use clayseal_receipts.Prelude.{
  ℕ, String, Option, none, some, Bool, true, false, not, ◌&&◌, ◌||◌, List, [], ◌∷◌, map, ◌==◌, ◌!=◌,
  option_eq, text_eq, nat_eq, Text, codes, strip, if◌then◌else◌, is_nil, contains,
}

-- `hosts` is what `allowed_hosts` or `hosts` lists
pub record RawCapability : Type 0 where
  pub resource : Option Text
  pub action : Option Text
  pub hosts : List Text

pub record Capability : Type 0 where
  pub resource : Text
  pub action : Text

pub record CapabilityOperation : Type 0 where
  pub resource : Text
  pub action : Text

pub data SideEffectLevel : Type 0 where
  read_only bounded_write external_side_effect privileged_mutation : SideEffectLevel

pub record ActionDescriptor : Type 0 where
  pub action_name : Text
  pub action_category : Text
  pub resource_type : Option Text
  pub resource_ref : Option Text
  pub side_effect_level : SideEffectLevel

-- `raw.get(key, "")`
abbrev pub or_empty : Option Text → Text
or_empty none = []
or_empty (some t) = t

unfoldable pub normalize_capabilities : List RawCapability → List Capability
normalize_capabilities [] = []
normalize_capabilities (raw ∷ rest) =
    let resource = strip (or_empty raw.resource) in
    let action = strip (or_empty raw.action) in
    let out = normalize_capabilities rest in
    if not (is_nil resource) && not (is_nil action)
    then record { resource = resource; action = action } ∷ out
    else out

abbrev pub mcp_tool : Text
mcp_tool = codes "mcp_tool"

pub mcp_tool_capability : Text → RawCapability
mcp_tool_capability tool_name = record {
  resource = some mcp_tool;
  action = some tool_name;
  hosts = [];
}

unfoldable pub operation_for_mcp_tool : Text → CapabilityOperation
operation_for_mcp_tool tool_name = record { resource = mcp_tool; action = tool_name }

-- `text.rsplit(separator, 1)[-1]`
abbrev pub after_last : ℕ → Text → Text
after_last separator [] = []
after_last separator (c ∷ cs) =
    let rest = after_last separator cs in
    if contains cs separator then rest else if c == separator then cs else c ∷ cs

unfoldable pub action_leaf : Text → Text
action_leaf action_name =
    let text = strip action_name in
    if contains text b'/'
    then after_last b'/' text
    else if contains text b'.'
    then after_last b'.' text
    else text

-- `a or b`, where `None` and `""` are falsy
abbrev pub or_text : Option Text → Text → Text
or_text none other = other
or_text (some []) other = other
or_text (some (c ∷ cs)) other = c ∷ cs

unfoldable pub operation_for_action : ActionDescriptor → CapabilityOperation
unfolding action_leaf
operation_for_action action =
    if action.action_category == codes "mcp_tool_call" && action.resource_type == some mcp_tool
    then record { resource = mcp_tool; action = action_leaf action.action_name }
    else record {
      resource =
          or_text action.resource_type (or_text (some action.action_category) (codes "action"));
      action = action_leaf action.action_name;
    }

-- the loop of `capability_allows`
unfoldable pub allowed_by : List Capability → Text → Text → Bool
allowed_by [] resource action = false
allowed_by (cap ∷ rest) resource action =
    let later = allowed_by rest resource action in
    if cap.resource != resource
    then later
    else if cap.action == codes "*" || cap.action == action
    then true
    else later

unfoldable pub capability_allows : List RawCapability → Text → Text → Bool
unfolding normalize_capabilities allowed_by
capability_allows capabilities resource action =
    allowed_by (normalize_capabilities capabilities) resource action

abbrev pub as_raw : Capability → RawCapability
as_raw cap = record { resource = some cap.resource; action = some cap.action; hosts = [] }

-- the capabilities of the child that the parent, normalized already, does not allow
unfoldable pub extra_capabilities : List RawCapability → List Capability → List Capability
unfolding capability_allows
extra_capabilities parent [] = []
extra_capabilities parent (cap ∷ rest) =
    let later = extra_capabilities parent rest in
    if capability_allows parent cap.resource cap.action then later else cap ∷ later

pub data Excess : Type 0 where
  exceeds : String → List Capability → List Capability → Excess

unfoldable pub capability_subset : List RawCapability → List RawCapability → String → List Excess
unfolding extra_capabilities normalize_capabilities
capability_subset child parent label =
    let parent_caps = normalize_capabilities parent in
    let extras = extra_capabilities (map as_raw parent_caps) (normalize_capabilities child) in
    if is_nil extras then [] else exceeds label extras parent_caps ∷ []
