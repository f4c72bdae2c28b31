-- ===== src/Policy/Tiers.antt =====
-- The effective trust tier is the greatest that the authority supports (policy_engine.py).
use clayseal_receipts.Prelude.{
  ℕ, ◌≤◌, String, ◌≡◌, refl, Option, none, some, Bool, true, false, ◌&&◌, ◌||◌, List, [], ◌∷◌, ◌++◌,
  leb, ltb, arith, all_of, any_of, Bool-cases, Option-cases, inl, inr,
}
use clayseal_receipts.Assurance.{
  TrustTier, declared, signed, sender_constrained, workload_attested, tee_attested,
  zk_policy_proved, zk_execution_proved, tier_ordinal, parse_trust_tier,
}
use clayseal_receipts.TaskScope.{truthy}
use clayseal_receipts.Policy.{AuthorityContext}
use clayseal_receipts.Policy.Trust.{
  is_there, is_true, evidence_tiers, declared_tier, highest, effective_authority_trust_tier,
}

-- the text names the tier `signed`
abbrev names_signed : Option String → Bool
names_signed none = false
names_signed (some text) = elim (parse_trust_tier text) [ some signed ↦ true | _ ↦ false ]

-- what an authority supports: to be signed it only has to say so, the tiers above need verified
-- evidence of their own, and those of a TEE or a proof are not an authority's
unfoldable pub supports : AuthorityContext → TrustTier → Bool
supports a declared = true
supports a signed = names_signed (truthy a.trust_tier)
supports a sender_constrained =
    a.evidence_verified
    && (is_true a.proof_of_possession
        && is_there a.presenter_key_hash
        && is_true a.has_capability_grant)
supports a workload_attested =
    a.evidence_verified && (is_there a.attestation_type && is_there a.workload_principal)
supports a _ = false

all_of-append :
    (p : TrustTier → Bool) (xs ys : List TrustTier)
    → all_of p xs ≡ true
    → all_of p ys ≡ true
    → all_of p (xs ++ ys) ≡ true
all_of-append p [] ys h h' = h'
all_of-append p (x ∷ xs) ys h h' = ground (arith, all_of-append p xs ys)

any_of-append :
    (p : TrustTier → Bool) (xs ys : List TrustTier)
    → any_of p (xs ++ ys) ≡ any_of p xs || any_of p ys
any_of-append p [] ys = refl
any_of-append p (x ∷ xs) ys = ground (arith, any_of-append p xs ys)

highest_all :
    (p : TrustTier → Bool) (best : TrustTier) (tiers : List TrustTier)
    → p best ≡ true
    → all_of p tiers ≡ true
    → p (highest best tiers) ≡ true
unfolding highest
highest_all p best [] h h' = h
highest_all p best (tier ∷ tiers) h h' =
    elim (Bool-cases (ltb (tier_ordinal best) (tier_ordinal tier))) [
      | inl q ↦ ground (arith, highest_all p tier tiers)
      | inr q ↦ ground (arith, highest_all p best tiers)
    ]

highest_bound :
    (n : ℕ) (best : TrustTier) (tiers : List TrustTier)
    → leb n (tier_ordinal best) || any_of (λ t. leb n (tier_ordinal t)) tiers ≡ true
    → n ≤ tier_ordinal (highest best tiers)
unfolding highest
highest_bound n best [] h = ground arith
highest_bound n best (tier ∷ tiers) h =
    elim (Bool-cases (ltb (tier_ordinal best) (tier_ordinal tier))) [
      | inl q ↦ ground (arith, highest_bound n tier tiers)
      | inr q ↦ ground (arith, highest_bound n best tiers)
    ]

-- what is declared when the text names the tier
declared_tier_lem :
    (a : AuthorityContext) (text : String) (tier : TrustTier)
    → truthy a.trust_tier ≡ some text
    → parse_trust_tier text ≡ some tier
    → all_of (supports a) (declared_tier a).0 ≡ true
unfolding declared_tier supports tier_ordinal
declared_tier_lem a text declared e e' = ground arith
declared_tier_lem a text signed e e' = ground arith
declared_tier_lem a text sender_constrained e e' = ground arith
declared_tier_lem a text workload_attested e e' = ground arith
declared_tier_lem a text tee_attested e e' = ground arith
declared_tier_lem a text zk_policy_proved e e' = ground arith
declared_tier_lem a text zk_execution_proved e e' = ground arith

declared_tier-supports : (a : AuthorityContext) → all_of (supports a) (declared_tier a).0 ≡ true
unfolding declared_tier
declared_tier-supports a = elim (Option-cases (truthy a.trust_tier)) [
  | inl e ↦ ground arith
  | inr (text, e) ↦ elim (Option-cases (parse_trust_tier text)) [
    | inl e' ↦ ground arith
    | inr (tier, e') ↦ declared_tier_lem a text tier e e'
  ]
]

evidence_tiers-supports : (a : AuthorityContext) → all_of (supports a) (evidence_tiers a) ≡ true
unfolding evidence_tiers supports
evidence_tiers-supports a = ground arith

-- a text that names `signed` is a candidate
declared_tier_signed :
    (a : AuthorityContext) (text : String) (tier : TrustTier)
    → truthy a.trust_tier ≡ some text
    → parse_trust_tier text ≡ some tier
    → supports a signed ≡ true
    → any_of (λ u. leb 1 (tier_ordinal u)) (declared_tier a).0 ≡ true
unfolding declared_tier supports tier_ordinal
declared_tier_signed a text signed e e' h = ground arith
declared_tier_signed a text declared e e' h = absurd (ground arith)
declared_tier_signed a text sender_constrained e e' h = absurd (ground arith)
declared_tier_signed a text workload_attested e e' h = absurd (ground arith)
declared_tier_signed a text tee_attested e e' h = absurd (ground arith)
declared_tier_signed a text zk_policy_proved e e' h = absurd (ground arith)
declared_tier_signed a text zk_execution_proved e e' h = absurd (ground arith)

declared_tier-signed :
    (a : AuthorityContext)
    → supports a signed ≡ true
    → any_of (λ u. leb 1 (tier_ordinal u)) (declared_tier a).0 ≡ true
unfolding supports
declared_tier-signed a h = elim (Option-cases (truthy a.trust_tier)) [
  | inl e ↦ absurd (ground arith)
  | inr (text, e) ↦ elim (Option-cases (parse_trust_tier text)) [
    | inl e' ↦ absurd (ground arith)
    | inr (tier, e') ↦ declared_tier_signed a text tier e e' h
  ]
]

evidence_tiers_reach :
    (a : AuthorityContext) (t : TrustTier)
    → supports a t ≡ true
    → leb (tier_ordinal t) 1 ≡ false
    → any_of (λ u. leb (tier_ordinal t) (tier_ordinal u)) (evidence_tiers a) ≡ true
unfolding supports tier_ordinal evidence_tiers
evidence_tiers_reach a sender_constrained h high = ground arith
evidence_tiers_reach a workload_attested h high = ground arith
evidence_tiers_reach a declared h high = absurd (ground arith)
evidence_tiers_reach a signed h high = absurd (ground arith)
evidence_tiers_reach a tee_attested h high = absurd (ground arith)
evidence_tiers_reach a zk_policy_proved h high = absurd (ground arith)
evidence_tiers_reach a zk_execution_proved h high = absurd (ground arith)

supported_declared : (a : AuthorityContext) → supports a declared ≡ true
unfolding supports
supported_declared a = refl

candidates_reach :
    (a : AuthorityContext) (t : TrustTier)
    → supports a t ≡ true
    → leb (tier_ordinal t) (tier_ordinal declared)
        || any_of
            (λ u. leb (tier_ordinal t) (tier_ordinal u))
            ((declared_tier a).0 ++ evidence_tiers a)
      ≡ true
unfolding tier_ordinal
candidates_reach a declared h = refl
candidates_reach a signed h = ground (
  arith,
  any_of-append (λ u. leb 1 (tier_ordinal u)) (declared_tier a).0 (evidence_tiers a),
  declared_tier-signed a h,
)
candidates_reach a t h = ground (
  arith,
  any_of-append (λ u. leb (tier_ordinal t) (tier_ordinal u)) (declared_tier a).0 (evidence_tiers a),
  evidence_tiers_reach a t h refl,
)

-- The effective tier of an authority is one that it supports, and no tier that it supports is above
-- it.
pub effective_authority_trust_tier_greatest :
    (a : AuthorityContext) (t : TrustTier)
    → supports a t ≡ true
    → (supports a (effective_authority_trust_tier a).0 ≡ true)
      × (tier_ordinal t ≤ tier_ordinal (effective_authority_trust_tier a).0)
unfolding effective_authority_trust_tier
effective_authority_trust_tier_greatest a t h = (
  highest_all (supports a) declared ((declared_tier a).0 ++ evidence_tiers a) (supported_declared a)
      (all_of-append (supports a) (declared_tier a).0 (evidence_tiers a) (declared_tier-supports a)
        (evidence_tiers-supports a)),
  highest_bound (tier_ordinal t) declared ((declared_tier a).0 ++ evidence_tiers a)
      (candidates_reach a t h),
)
