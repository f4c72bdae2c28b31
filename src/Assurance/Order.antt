-- ===== src/Assurance/Order.antt =====
-- The tier of a proof is backed by what it carries (assurance.py).
use clayseal_receipts.Prelude.{◌≤◌, ◌≡◌, refl, some, true, false, arith, ◌⊎◌, inl, inr, Bool-cases}
use clayseal_receipts.Assurance.{
  TrustTier, declared, signed, sender_constrained, workload_attested, tee_attested,
  zk_policy_proved, zk_execution_proved, tier_ordinal, trust_tier_for_level, tier_value,
  tier_of_value, parse_trust_tier, AttestationPath, shadow_path, full_zk, tee_hybrid, ProofSummary,
  quote_verified, base_level, quote_level, assurance_from_proof,
}

-- Every tier is parsed from its own text.
pub parse_trust_tier-tier_value :
    (tier : TrustTier) → parse_trust_tier (tier_value tier) ≡ some tier
unfolding parse_trust_tier tier_of_value
parse_trust_tier-tier_value declared = refl
parse_trust_tier-tier_value signed = refl
parse_trust_tier-tier_value sender_constrained = refl
parse_trust_tier-tier_value workload_attested = refl
parse_trust_tier-tier_value tee_attested = refl
parse_trust_tier-tier_value zk_policy_proved = refl
parse_trust_tier-tier_value zk_execution_proved = refl

-- A proof whose tier is that of a verified TEE or above carries a composed proof, or a policy proof
-- on the path that proves in full, or a TEE quote on the hybrid path that was verified.
pub assurance_from_proof_backed :
    (proof : ProofSummary)
    → tier_ordinal tee_attested ≤ tier_ordinal (trust_tier_for_level (assurance_from_proof proof).0)
    → (proof.has_composed_proof ≡ true)
      ⊎ (((proof.attestation_path ≡ full_zk) × (proof.has_policy_proof ≡ true))
          ⊎ ((proof.attestation_path ≡ tee_hybrid) × (quote_verified proof.tee_quote ≡ true)))
unfolding assurance_from_proof base_level quote_level trust_tier_for_level tier_ordinal
assurance_from_proof_backed proof high = elim (Bool-cases proof.has_composed_proof) [
  | inl composed ↦ inl composed
  | inr plain ↦ inr (by_path plain proof.attestation_path refl)
]
  where
    by_path :
        proof.has_composed_proof ≡ false
        → (path : AttestationPath) → proof.attestation_path ≡ path
        → ((proof.attestation_path ≡ full_zk) × (proof.has_policy_proof ≡ true))
          ⊎ ((proof.attestation_path ≡ tee_hybrid) × (quote_verified proof.tee_quote ≡ true))
    by_path plain shadow_path e = absurd (ground arith)
    by_path plain full_zk e = inl (e, ground arith)
    by_path plain tee_hybrid e = inr (e, ground arith)
