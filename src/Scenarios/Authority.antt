-- ===== src/Scenarios/Authority.antt =====
-- Decisions, mandates and permits at concrete inputs.
use clayseal_receipts.Prelude.{
  ℕ, ◌+◌, ◌<◌, String, ◌≡◌, refl, ◌↔◌, none, some, zero, suc, true, false, List, [], ◌∷◌, codes,
  pos, arith, text_eq, string_eq, strip, lower, ltb,
}
use clayseal_receipts.Signing.{Signature, verify}
use clayseal_receipts.Operations.{external_side_effect, ActionDescriptor}
use clayseal_receipts.Decision.{
  DecisionResult, BudgetEffect, allow, not_required, can_execute, is_consumption,
}
use clayseal_receipts.Decision.Execution.{can_execute_iff, LetsRun, AllSettled, waits}
use clayseal_receipts.Mandate.{
  Numbers, Mandate, MandateDocument, usd_limit, mandate_schema, verify_mandate_envelope,
}
use clayseal_receipts.Mandate.Receipts.{check_receipt_against_mandate}
use clayseal_receipts.Mandate.Ancestors.{IsSigned, IsUnderParent}
use clayseal_receipts.Mandate.Parents.{
  attenuation_issues, mandate_budget_subset, MandateSection, MandateEnv, Bundle,
  mandate_scope_subset, verify_bundle_mandate, action_time,
}
use clayseal_receipts.Mandate.Enforcement.{verify_bundle_mandate-IsWithin, IsWithin}
use clayseal_receipts.Permit.{
  ExecutionContext, ToolPermit, SignedToolPermit, Clock, permit_for, issue_tool_permit,
  verify_tool_permit,
}
use clayseal_receipts.Permit.Laws.{
  IsBoundTo, verify_tool_permit-IsBoundTo, verify_tool_permit-issue_tool_permit,
}
use clayseal_receipts.Scenarios.Platforms.{key_pairs, key_pairs-SignsCorrectly}
use clayseal_receipts.Scenarios.Delegations.{signature_of}

abbrev spending : BudgetEffect ℕ
spending = record {
  budget_id = "b";
  effect_type = codes "Spend";
  amount = some 3;
  status = codes "planned";
  notes = none;
}

abbrev decision : DecisionResult ℕ ℕ
decision = record {
  outcome = allow;
  policy_satisfied = true;
  violations = [];
  obligations =
      record {
        type = codes "create_case";
        status = codes " Done";
        details = 0;
        required_before_effect = true;
        required_after_effect = false;
      }
      ∷ [];
  recommended_action = none;
  approval_state = not_required;
  approval_metadata = none;
  budget_effects = spending ∷ record spending { budget_id = "c" } ∷ spending ∷ [];
  authority_version = 1;
  session_id = none;
}

can_execute_iff_example : (can_execute decision ≡ true) ↔ (
    (decision.policy_satisfied ≡ true)
    × LetsRun decision.outcome
    × (waits decision.approval_state ≡ false)
    × AllSettled decision.obligations)
can_execute_iff_example = can_execute_iff decision

abbrev naturals : Numbers
naturals = record { Amount = ℕ; nothing = 0; plus = λ a b. a + b; below = ltb }

abbrev mandate : Mandate ℕ
mandate = record {
  grant_id = "g";
  issuer = "key";
  issued_at = 10;
  expires_at = 20;
  delegate = none;
  allowed_actions = codes "pay" ∷ [];
  allowed_resources = [];
  budgets =
      record {
        budget_id = "b";
        budget_type = usd_limit;
        unit = "usd";
        limit = 6;
        remaining = 6;
        scope = none;
        shared = false;
      }
      ∷ [];
  parent_grant_id = none;
  owner_hpke_pk = none;
}

-- a mandate under that of the parent, with half of its time
abbrev narrower : Mandate ℕ
narrower = record mandate {
  grant_id = "h";
  issued_at = 12;
  expires_at = 17;
  parent_grant_id = some "g";
}

abbrev document : MandateDocument ℕ
document = record { schema = some mandate_schema; issuer = "key"; fields = some mandate }

abbrev hash_mandate : MandateDocument ℕ → String
hash_mandate d = "mandate"

abbrev commit : Mandate ℕ → String
commit m = m.grant_id

abbrev section : MandateSection ℕ
section = record {
  grant_id = some "h";
  commitment = some "h";
  document = some (record document { fields = some narrower });
  signature = some (signature_of "mandate");
  parent = some (record { document = some document; signature = some (signature_of "mandate") });
}

abbrev action : ActionDescriptor
action = record {
  action_name = codes "pay";
  action_category = codes "custom";
  resource_type = none;
  resource_ref = none;
  side_effect_level = external_side_effect;
}

abbrev bundle : Bundle ℕ
bundle = record {
  mandate = some section;
  identities = record {
    authority = [];
    actor_id = none;
    parent_actor_id = none;
    delegation_chain = [];
    certificate_agent_id = none;
    principal_id = none;
    proof_agent_id = none;
  };
  action_name = codes "pay";
  action = some action;
  budget = none;
  decision_budget = some ("spending" ∷ "spending" ∷ []);
  decision_effects = some (spending ∷ spending ∷ []);
  created_at = some 15;
}

abbrev mandate_env : MandateEnv
mandate_env = record { required_actions = []; require_for_budgets = true }

verify_bundle_mandate-IsWithin_example :
    (d : MandateDocument ℕ) × (s : Signature) × (m : Mandate ℕ) × (a : ActionDescriptor)
    × (effects : List (BudgetEffect ℕ)) × (section.document ≡ some d)
    × (d.fields ≡ some m)
    × IsSigned naturals key_pairs hash_mandate commit false d s
    × (section.commitment ≡ some (commit m))
    × IsUnderParent naturals key_pairs hash_mandate commit false section m
    × (bundle.action ≡ some a)
    × (bundle.decision_effects ≡ some effects)
    × IsWithin naturals m a effects
        (action_time naturals key_pairs hash_mandate commit false none (some 15) 99)
verify_bundle_mandate-IsWithin_example =
    verify_bundle_mandate-IsWithin naturals key_pairs hash_mandate commit false mandate_env bundle
      none 99 section refl
      (unfold verify_bundle_mandate verify verify_mandate_envelope attenuation_issues
          mandate_scope_subset mandate_budget_subset check_receipt_against_mandate is_consumption
          lower strip in
        refl)

abbrev call : ExecutionContext
call = record {
  query_id = some "q";
  authority_id = "a";
  authority_version = pos 1;
  permit_epoch = pos 0;
  action = record action { action_name = codes "server/pay" };
  input_hash = "i";
}

abbrev hash_permit : ToolPermit → String
hash_permit permit = permit.permit_id

-- instants in unary
abbrev pub spell : ℕ → String
spell zero = ""
spell (suc n) = String.◌∷◌ "1" (spell n)

abbrev pub spelled : String → ℕ
spelled String.[] = 0
spelled (String.◌∷◌ c s) = suc (spelled s)

abbrev pub clock : Clock
clock = record { isoformat = spell; parse = λ s. some (spelled s) }

clock_readable : (t : ℕ) → clock.parse (clock.isoformat t) ≡ some t
clock_readable zero = refl
clock_readable (suc n) = ground (arith, clock_readable n)

abbrev permit : SignedToolPermit
permit = record { permit = permit_for clock call 5 "p" 10; signature = signature_of "p" }

verify_tool_permit-IsBoundTo_example :
    (expires_at : ℕ) × (verify key_pairs hash_permit permit.permit permit.signature ≡ true)
    × (clock.parse permit.permit.expires_at ≡ some expires_at)
    × (12 < expires_at)
    × IsBoundTo permit.permit call
verify_tool_permit-IsBoundTo_example =
    verify_tool_permit-IsBoundTo key_pairs hash_permit clock permit call 12
      (unfold verify_tool_permit verify in refl)

verify_tool_permit-issue_tool_permit_example :
    (signed : SignedToolPermit) × (issue_tool_permit key_pairs hash_permit clock call "key" 5 "p" 10
      ≡ some signed)
    × (verify_tool_permit key_pairs hash_permit clock signed call 12 ≡ none)
verify_tool_permit-issue_tool_permit_example =
    verify_tool_permit-issue_tool_permit key_pairs hash_permit clock key_pairs-SignsCorrectly
      clock_readable call "key" 5 "p" 10 12 (omega arith) (omega arith)
