-- ===== src/Mandate.antt =====
-- agentauth/core/mandate.py: mandates, the receipts that they authorize and their parents. Instants
-- are numbers; an amount is of a type with a sum and an order; the environment is arguments.
pub mod Receipts
pub mod Parents
pub mod Enforcement
pub mod Attenuation
pub mod Ancestors
use Prim.Native.Char.{code}
use clayseal_receipts.Prelude.{
  ℕ, String, Option, none, some, Bool, true, false, not, ◌&&◌, ◌||◌, List, [], ◌∷◌, ◌++◌, map, ◌==◌,
  ◌!=◌, string_eq, option_eq, Text, eqb, if◌then◌else◌, is_nil,
}
use clayseal_receipts.Signing.{Signature, Crypto, verify}

pub record Numbers : Type 1 where
  pub Amount : Type 0
  pub nothing : Amount
  pub plus : Amount → Amount → Amount
  pub below : Amount → Amount → Bool

pub data BudgetType : Type 0 where
  usd_limit tool_call_limit token_limit compute_seconds data_export_bytes : BudgetType

-- core/budget.py
pub record CapabilityBudget (N : Type 0) : Type 0 where
  pub budget_id : String
  pub budget_type : BudgetType
  pub unit : String
  pub limit : N
  pub remaining : N
  pub scope : Option String
  pub shared : Bool

pub record Mandate (N : Type 0) : Type 0 where
  pub grant_id : String
  pub issuer : String
  pub issued_at : ℕ
  pub expires_at : ℕ
  pub delegate : Option String
  pub allowed_actions : List Text
  pub allowed_resources : List Text
  pub budgets : List (CapabilityBudget N)
  pub parent_grant_id : Option String
  pub owner_hpke_pk : Option String

-- a document; its fields are `none` where `Mandate.from_dict` raises on them
pub record MandateDocument (N : Type 0) : Type 0 where
  pub schema : Option String
  pub issuer : String
  pub fields : Option (Mandate N)

pub data MandateViolation : Type 0 where
  document_missing unsupported_schema signature_invalid issuer_not_bound : MandateViolation
  expired_or_not_yet_valid action_not_allowed resource_not_allowed : MandateViolation
  over_budget : String → MandateViolation
  actions_exceed_parent resources_exceed_parent : List Text → MandateViolation
  budget_not_on_parent budget_exceeds_parent : String → MandateViolation
  parent_not_embedded parent_incomplete : MandateViolation
  parent_invalid : MandateViolation → MandateViolation
  parent_grant_mismatch parent_delegate_mismatch issued_before_parent : MandateViolation
  expires_after_parent section_incomplete grant_id_mismatch commitment_mismatch : MandateViolation
  no_identity delegate_mismatch required_for_action required_for_budgets : MandateViolation

abbrev pub mandate_schema : String
mandate_schema = "agent-receipts.mandate.v1"

-- `s.removeprefix(prefix)`
abbrev pub without_prefix : String → String → Option String
without_prefix String.[] s = some s
without_prefix (String.◌∷◌ c cs) String.[] = none
without_prefix (String.◌∷◌ c cs) (String.◌∷◌ d ds) =
    let rest = without_prefix cs ds in if eqb (code c) (code d) then rest else none

abbrev pub remove_prefix : String → String → String
remove_prefix prefix s = elim (without_prefix prefix s) [ none ↦ s | some rest ↦ rest ]

-- the flag is `is_production()`
unfoldable pub mandate_signer_matches_issuer : Bool → String → Signature → Bool
mandate_signer_matches_issuer production issuer s = elim s.public_key [
  | none ↦ false
  | some public_key ↦
      if public_key == ""
      then false
      else if issuer == public_key || remove_prefix "ed25519:" issuer == public_key
      then not production
      else s.key_id == some issuer
]

module _ (c : Crypto) (N : Type 0) (hash : MandateDocument N → String) (production : Bool) where
  unfoldable pub verify_mandate_signature : Option (MandateDocument N) → Option Signature → Bool
  verify_mandate_signature none signature = false
  verify_mandate_signature (some document) none = false
  verify_mandate_signature (some document) (some s) = verify c hash document s

  unfoldable pub bound_issuer : MandateDocument N → Option Signature → Bool
  unfolding mandate_signer_matches_issuer
  bound_issuer document none = false
  bound_issuer document (some s) = mandate_signer_matches_issuer production document.issuer s

  unfoldable pub verify_mandate_envelope :
      Option (MandateDocument N) → Option Signature → List MandateViolation
  unfolding verify_mandate_signature bound_issuer
  verify_mandate_envelope none signature = document_missing ∷ []
  verify_mandate_envelope (some document) signature =
      let schema : List MandateViolation =
        if document.schema != some mandate_schema then unsupported_schema ∷ [] else [] in
      let issuer : List MandateViolation =
        if bound_issuer document signature then [] else issuer_not_bound ∷ [] in
      if verify_mandate_signature (some document) signature
      then schema ++ issuer
      else schema ++ signature_invalid ∷ []
