-- ===== src/Policy/Trust.antt =====
-- The trust tier that an authority's evidence supports (policy_engine.py).
use clayseal_receipts.Prelude.{
  String, Option, none, some, Bool, true, false, not, ◌&&◌, List, [], ◌∷◌, ◌++◌, string_eq, leb,
  ltb, if◌then◌else◌,
}
use clayseal_receipts.Assurance.{
  TrustTier, declared, signed, sender_constrained, workload_attested, tier_ordinal,
  parse_trust_tier, tier_meets,
}
use clayseal_receipts.TaskScope.{truthy}
use clayseal_receipts.Policy.{
  AuthorityContext, PolicyViolation, trust_tier_unknown, trust_tier_unbacked, trust_tier_low,
}

abbrev pub is_there : Option String → Bool
is_there o = elim (truthy o) [ none ↦ false | some s ↦ true ]

-- `x is True`, and the truth value of an optional Boolean
abbrev pub is_true : Option Bool → Bool
is_true none = false
is_true (some b) = b

-- `x is False`
abbrev pub is_false : Option Bool → Bool
is_false none = false
is_false (some b) = not b

-- the tiers that verified evidence supports
unfoldable pub evidence_tiers : AuthorityContext → List TrustTier
evidence_tiers a =
    let possession : List TrustTier =
      if is_true a.proof_of_possession
        && is_there a.presenter_key_hash
        && is_true a.has_capability_grant
      then sender_constrained ∷ []
      else [] in
    let workload : List TrustTier =
      if is_there a.attestation_type && is_there a.workload_principal
      then workload_attested ∷ []
      else [] in
    if a.evidence_verified then possession ++ workload else []

-- the tier that is declared, where it needs no evidence, and what is wrong with it otherwise
unfoldable pub declared_tier : AuthorityContext → List TrustTier × List PolicyViolation
declared_tier a =
    let of_tier : TrustTier → List TrustTier × List PolicyViolation = λ tier.
      if leb (tier_ordinal tier) (tier_ordinal signed)
      then (tier ∷ [], [])
      else if a.evidence_verified
      then ([], [])
      else ([], trust_tier_unbacked ∷ []) in
    elim (truthy a.trust_tier) [
      | none ↦ ([], [])
      | some text ↦ elim (parse_trust_tier text) [
        | none ↦ ([], trust_tier_unknown ∷ [])
        | some tier ↦ of_tier tier
      ]
    ]

-- `max(candidates, key=tier_ordinal)`: the first of the greatest
unfoldable pub highest : TrustTier → List TrustTier → TrustTier
highest best [] = best
highest best (tier ∷ tiers) =
    highest (if ltb (tier_ordinal best) (tier_ordinal tier) then tier else best) tiers

unfoldable pub effective_authority_trust_tier : AuthorityContext → TrustTier × List PolicyViolation
unfolding evidence_tiers declared_tier highest
effective_authority_trust_tier a =
    let (tiers, issues) = declared_tier a in (highest declared (tiers ++ evidence_tiers a), issues)

-- against the policy's minimum; a minimum that is no tier raises: `none`
unfoldable pub trust_violations : Option String → AuthorityContext → Option (List PolicyViolation)
unfolding effective_authority_trust_tier
trust_violations minimum a =
    let (tier, issues) = effective_authority_trust_tier a in
    elim (truthy minimum) [
      | none ↦ some []
      | some text ↦ elim (parse_trust_tier text) [
        | none ↦ none
        | some m ↦ some (issues ++ (if tier_meets tier m then [] else trust_tier_low ∷ []))
      ]
    ]
