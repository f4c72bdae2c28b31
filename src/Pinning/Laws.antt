-- ===== src/Pinning/Laws.antt =====
-- A pin is never changed by a session's calls, so an accepted call is compared with the first one
-- (tool_pinning.py).
use clayseal_receipts.Prelude.{
  String, ◌≡◌, refl, ◌⊎◌, inl, inr, Option, none, some, true, false, not, ◌&&◌, List, [], ◌∷◌, ◌==◌,
  string_eq, option_eq, option_beq_iff, eq_iff, beq_self, contains, if◌then◌else◌, arith,
  Bool-cases, Option-cases, nil_of_append, passed,
}
use clayseal_receipts.Pinning.{
  ToolPin, PinViolation, ToolCall, Hashes, ToolPinRegistry, is_pin_of, find, assign, compute, pin,
  mismatches, verify, tool_pinning_violations, after_calls, description_changed, schema_changed,
  witness_missing,
}

-- a pin that was assigned is found, and a pin of another tool is found as before
find-assign :
    (p : ToolPin) (pins : List ToolPin) (server tool : String)
    → find server tool (assign p pins)
      ≡ (if is_pin_of server tool p then some p else find server tool pins)
find-assign p [] server tool = refl
find-assign p (q ∷ pins) server tool = ground (
  arith,
  find-assign p pins server tool,
  eq_iff q.server p.server,
  eq_iff q.tool p.tool,
  eq_iff p.server server,
  eq_iff p.tool tool,
  eq_iff q.server server,
  eq_iff q.tool tool,
)

mismatches-nil :
    (pinned live : ToolPin)
    → mismatches pinned live ≡ []
    → (live.description_hash ≡ pinned.description_hash)
      × ((pinned.input_schema_hash ≡ none) ⊎ (live.input_schema_hash ≡ pinned.input_schema_hash))
unfolding mismatches
mismatches-nil pinned live h =
    let (described, rest) =
      passed (live.description_hash == pinned.description_hash) description_changed _ h in
    (
      (option_beq_iff live.description_hash pinned.description_hash).0 described,
      schemas pinned.input_schema_hash rest,
    )
  where
    schemas :
        (o : Option String)
        → (if elim o [ none ↦ true | some s ↦ live.input_schema_hash == some s ]
            then []
            else schema_changed ∷ [])
          ≡ []
        → (o ≡ none) ⊎ (live.input_schema_hash ≡ o)
    schemas none e = inl refl
    schemas (some s) e = inr ((option_beq_iff live.input_schema_hash (some s)).0 (ground arith))

mismatches_self : (live : ToolPin) → mismatches live live ≡ []
unfolding mismatches
mismatches_self live = elim (Option-cases live.input_schema_hash) [
  | inl e ↦ ground (arith, option_beq_iff live.description_hash live.description_hash)
  | inr (s, e) ↦ ground (
    arith,
    option_beq_iff live.description_hash live.description_hash,
    option_beq_iff live.input_schema_hash (some s),
  )
]

module _ {S : Type 0} (hashes : Hashes S) where
  call_keeps_pin :
      (call : ToolCall S) (registry : ToolPinRegistry) (server tool : String) (p : ToolPin)
      → find server tool registry.pins ≡ some p
      → find server tool (tool_pinning_violations hashes call registry).1.pins ≡ some p
  unfolding tool_pinning_violations pin compute
  call_keeps_pin call registry server tool p found =
      elim (Option-cases (find call.server call.tool registry.pins)) [
        | inr (existing, e) ↦ ground arith
        | inl e ↦ elim (Bool-cases call.policy.enabled) [
          | inr q ↦ ground arith
          | inl q ↦ ground (
            arith,
            find-assign (compute hashes call) registry.pins server tool,
            eq_iff call.server server,
            eq_iff call.tool tool,
          )
        ]
      ]

  calls_keep_pin :
      (calls : List (ToolCall S)) (registry : ToolPinRegistry) (server tool : String) (p : ToolPin)
      → find server tool registry.pins ≡ some p
      → find server tool (after_calls hashes calls registry).pins ≡ some p
  unfolding after_calls
  calls_keep_pin [] registry server tool p found = found
  calls_keep_pin (call ∷ calls) registry server tool p found =
      calls_keep_pin calls (tool_pinning_violations hashes call registry).1 server tool p
        (call_keeps_pin call registry server tool p found)

  first_call_pins :
      (call : ToolCall S) (registry : ToolPinRegistry)
      → call.policy.enabled ≡ true
      → find call.server call.tool registry.pins ≡ none
      → find call.server call.tool (tool_pinning_violations hashes call registry).1.pins
        ≡ some (compute hashes call)
  unfolding tool_pinning_violations pin compute
  first_call_pins call registry on fresh = ground (
    arith,
    find-assign (compute hashes call) registry.pins call.server call.tool,
    beq_self call.server,
    beq_self call.tool,
  )

  pinned_after :
      (first : ToolCall S) (between : List (ToolCall S)) (registry : ToolPinRegistry)
      → first.policy.enabled ≡ true
      → find first.server first.tool registry.pins ≡ none
      → find first.server first.tool (after_calls hashes (first ∷ between) registry).pins
        ≡ some (compute hashes first)
  unfolding after_calls
  pinned_after first between registry on fresh =
      calls_keep_pin between (tool_pinning_violations hashes first registry).1 first.server
        first.tool (compute hashes first) (first_call_pins first registry on fresh)

  compared_call :
      (call : ToolCall S) (registry : ToolPinRegistry) (p : ToolPin)
      → call.policy.enabled ≡ true
      → call.policy.deny_on_mismatch ≡ true
      → find call.server call.tool registry.pins ≡ some p
      → (tool_pinning_violations hashes call registry).0 ≡ []
      → mismatches p (compute hashes call) ≡ []
  unfolding tool_pinning_violations verify
  compared_call call registry p on strict found h =
      let unwitnessed =
        contains call.policy.require_witness_tools call.tool && not call.tool_witness_present in
      let rest : List PinViolation = if unwitnessed then witness_missing ∷ [] else [] in
      (nil_of_append (mismatches p (compute hashes call)) rest (ground arith)).0

  same_call :
      (call : ToolCall S) (registry : ToolPinRegistry)
      → find call.server call.tool registry.pins ≡ some (compute hashes call)
      → (contains call.policy.require_witness_tools call.tool && not call.tool_witness_present)
        ≡ false
      → (tool_pinning_violations hashes call registry).0 ≡ []
  unfolding tool_pinning_violations verify
  same_call call registry found witnessed = ground (arith, mismatches_self (compute hashes call))

  -- After a tool's first call under a policy that is enabled, and after any further calls, a call of
  -- the tool that is found without violations, under a policy that denies a mismatch, has the
  -- description hash of the first call, and its schema hash where the first call had a schema.
  pub accepted_call_matches :
      (first last : ToolCall S) (between : List (ToolCall S)) (registry : ToolPinRegistry)
      → first.policy.enabled ≡ true
      → find first.server first.tool registry.pins ≡ none
      → last.policy.enabled ≡ true
      → last.policy.deny_on_mismatch ≡ true
      → last.server ≡ first.server
      → last.tool ≡ first.tool
      → (tool_pinning_violations hashes last (after_calls hashes (first ∷ between) registry)).0 ≡ []
      → ((compute hashes last).description_hash ≡ (compute hashes first).description_hash)
        × (((compute hashes first).input_schema_hash ≡ none)
            ⊎ ((compute hashes last).input_schema_hash ≡ (compute hashes first).input_schema_hash))
  accepted_call_matches first last between registry on fresh on' strict server tool h =
      mismatches-nil (compute hashes first) (compute hashes last) (
        compared_call last (after_calls hashes (first ∷ between) registry) (compute hashes first)
          on' strict (rw (server, tool) (pinned_after first between registry on fresh)) h)

  -- A call repeated after any further calls is found without violations, whatever the metadata that
  -- other calls brought, if its policy is enabled and its witness, where one is asked for, is there.
  pub repeated_call_accepted :
      (call : ToolCall S) (between : List (ToolCall S)) (registry : ToolPinRegistry)
      → call.policy.enabled ≡ true
      → find call.server call.tool registry.pins ≡ none
      → (contains call.policy.require_witness_tools call.tool && not call.tool_witness_present)
        ≡ false
      → (tool_pinning_violations hashes call (after_calls hashes (call ∷ between) registry)).0 ≡ []
  repeated_call_accepted call between registry on fresh witnessed =
      same_call call (after_calls hashes (call ∷ between) registry)
        (pinned_after call between registry on fresh) witnessed
