-- ===== src/Assurance.antt =====
-- agentauth/receipts/assurance.py: trust tiers, their order, and the tier of an execution proof.
-- What `tee_hybrid_attestation_blockers` and `verify_tee_quote` say of a quote is an argument.
pub mod Order
use clayseal_receipts.Prelude.{
  ℕ, String, Option, none, some, Bool, true, false, not, ◌&&◌, ◌==◌, string_eq, leb, if◌then◌else◌,
}

pub data TrustTier : Type 0 where
  declared signed sender_constrained workload_attested tee_attested : TrustTier
  zk_policy_proved zk_execution_proved : TrustTier

pub data AssuranceLevel : Type 0 where
  shadow operator_signed tee_hybrid_claimed tee_attested_level policy_proved : AssuranceLevel
  composed_proved : AssuranceLevel

-- `TIER_ORDINAL`
unfoldable pub tier_ordinal : TrustTier → ℕ
tier_ordinal declared = 0
tier_ordinal signed = 1
tier_ordinal sender_constrained = 2
tier_ordinal workload_attested = 3
tier_ordinal tee_attested = 4
tier_ordinal zk_policy_proved = 5
tier_ordinal zk_execution_proved = 6

-- `ASSURANCE_LEVEL_TO_TIER`
unfoldable pub trust_tier_for_level : AssuranceLevel → TrustTier
trust_tier_for_level shadow = declared
trust_tier_for_level operator_signed = signed
trust_tier_for_level tee_hybrid_claimed = signed
trust_tier_for_level tee_attested_level = tee_attested
trust_tier_for_level policy_proved = zk_policy_proved
trust_tier_for_level composed_proved = zk_execution_proved

abbrev pub tier_value : TrustTier → String
tier_value declared = "declared"
tier_value signed = "signed"
tier_value sender_constrained = "sender_constrained"
tier_value workload_attested = "workload_attested"
tier_value tee_attested = "tee_attested"
tier_value zk_policy_proved = "zk_policy_proved"
tier_value zk_execution_proved = "zk_execution_proved"

-- `TrustTier(text)`; `none` is the `ValueError`
unfoldable pub tier_of_value : String → Option TrustTier
tier_of_value text =
    if text == "declared"
    then some declared
    else if text == "signed"
    then some signed
    else if text == "sender_constrained"
    then some sender_constrained
    else if text == "workload_attested"
    then some workload_attested
    else if text == "tee_attested"
    then some tee_attested
    else if text == "zk_policy_proved"
    then some zk_policy_proved
    else if text == "zk_execution_proved"
    then some zk_execution_proved
    else none

-- `AssuranceLevel(text)`; `none` is the `ValueError`
unfoldable pub level_of_value : String → Option AssuranceLevel
level_of_value text =
    if text == "shadow"
    then some shadow
    else if text == "operator_signed"
    then some operator_signed
    else if text == "tee_hybrid_claimed"
    then some tee_hybrid_claimed
    else if text == "tee_attested"
    then some tee_attested_level
    else if text == "policy_proved"
    then some policy_proved
    else if text == "composed_proved"
    then some composed_proved
    else none

-- of a text; `none` is the `ValueError`
unfoldable pub parse_trust_tier : String → Option TrustTier
unfolding tier_of_value level_of_value trust_tier_for_level
parse_trust_tier text = elim (tier_of_value text) [
  | some tier ↦ some tier
  | none ↦ elim (level_of_value text) [
    | none ↦ none
    | some level ↦ some (trust_tier_for_level level)
  ]
]

unfoldable pub tier_meets : TrustTier → TrustTier → Bool
unfolding tier_ordinal
tier_meets actual minimum = leb (tier_ordinal minimum) (tier_ordinal actual)

unfoldable pub meets_assurance_threshold : String → String → Option Bool
unfolding parse_trust_tier tier_meets
meets_assurance_threshold actual minimum = elim (parse_trust_tier actual) [
  | none ↦ none
  | some a ↦ elim (parse_trust_tier minimum) [ none ↦ none | some m ↦ some (tier_meets a m) ]
]

pub data AttestationPath : Type 0 where
  full_zk tee_hybrid shadow_path : AttestationPath

-- what is said of a TEE quote: no dictionary, blocked, or the validity that its check finds
pub data QuoteCheck : Type 0 where
  no_quote blocked : QuoteCheck
  checked : Bool → QuoteCheck

pub record ProofSummary : Type 0 where
  pub attestation_path : AttestationPath
  pub has_policy_proof : Bool
  pub has_composed_proof : Bool
  pub tee_quote : QuoteCheck

-- the level before a quote is looked at
unfoldable pub base_level : ProofSummary → AssuranceLevel
base_level proof =
    let by_path : AssuranceLevel = elim proof.attestation_path [
      | full_zk ↦ if proof.has_policy_proof then policy_proved else operator_signed
      | shadow_path ↦ shadow
      | tee_hybrid ↦ operator_signed
    ] in
    if proof.has_composed_proof then composed_proved else by_path

unfoldable pub quote_level : QuoteCheck → AssuranceLevel
quote_level no_quote = tee_hybrid_claimed
quote_level blocked = tee_hybrid_claimed
quote_level (checked valid) = if valid then tee_attested_level else tee_hybrid_claimed

abbrev pub quote_verified : QuoteCheck → Bool
quote_verified no_quote = false
quote_verified blocked = false
quote_verified (checked valid) = valid

-- the level, and `tee_verified`
unfoldable pub assurance_from_proof : ProofSummary → AssuranceLevel × Bool
unfolding base_level quote_level
assurance_from_proof proof =
    let hybrid : AssuranceLevel =
      if proof.has_composed_proof then composed_proved else quote_level proof.tee_quote in
    elim proof.attestation_path [
      | tee_hybrid ↦ (hybrid, quote_verified proof.tee_quote)
      | shadow_path ↦ (base_level proof, false)
      | full_zk ↦ (base_level proof, false)
    ]
