-- ===== src/Scenarios/Pins.antt =====
-- Pinned tools at concrete inputs.
use clayseal_receipts.Prelude.{String, ◌≡◌, refl, ◌⊎◌, none, some, true, false, [], ◌∷◌}
use clayseal_receipts.Pinning.{
  ToolPinningPolicy, ToolCall, Hashes, compute, tool_pinning_violations, after_calls,
}
use clayseal_receipts.Pinning.Laws.{accepted_call_matches, repeated_call_accepted}

abbrev pinning : ToolPinningPolicy
pinning = record {
  enabled = true;
  require_pinned = true;
  deny_on_mismatch = true;
  require_witness_tools = [];
}

abbrev search : ToolCall String
search = record {
  policy = pinning;
  server = "mcp";
  tool = "search";
  description = some "finds";
  input_schema = none;
  tool_witness_present = false;
}

abbrev changed : ToolCall String
changed = record search { description = some "sends" }

abbrev later_schema : ToolCall String
later_schema = record search { input_schema = some "schema" }

abbrev plain : Hashes String
plain = record { of_identity = λ server tool. tool; of_description = λ d. d; of_schema = λ s. s }

accepted_call_matches_example :
    ((compute plain later_schema).description_hash ≡ (compute plain search).description_hash)
    × (((compute plain search).input_schema_hash ≡ none)
        ⊎ ((compute plain later_schema).input_schema_hash
            ≡ (compute plain search).input_schema_hash))
accepted_call_matches_example =
    accepted_call_matches plain search later_schema (changed ∷ []) (record { pins = [] }) refl refl
      refl refl refl refl (unfold tool_pinning_violations after_calls in refl)

repeated_call_accepted_example :
    (tool_pinning_violations plain search
      (after_calls plain (search ∷ changed ∷ []) (record { pins = [] }))).0
    ≡ []
repeated_call_accepted_example =
    repeated_call_accepted plain search (changed ∷ []) (record { pins = [] }) refl refl refl
