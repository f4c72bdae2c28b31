-- ===== src/Signing/Bundles.antt =====
-- `verify_bundle_signatures` of signing.py: every signature of a bundle must be valid and trusted.
use clayseal_receipts.Prelude.{
  String, Option, none, some, Bool, true, false, not, ◌&&◌, ◌||◌, List, [], ◌∷◌, ◌++◌, ◌==◌,
  string_eq, contains, is_nil, is_nil-snoc, length, length-append, eqb, all_of, arith, refl, ◌≡◌,
  ◌↔◌, suc, ◌+◌, ◌∙◌, if◌then◌else◌,
}
use clayseal_receipts.Signing.{Signature, Crypto, signature_key_id_matches, verify}

pub data SignatureReason : Type 0 where
  key_id_mismatch untrusted_signer invalid_signature : String → SignatureReason
  no_trusted_signer_policy : SignatureReason

-- what the loop over the signatures keeps
pub record Tally : Type 0 where
  pub cryptographically_valid : Bool
  pub reasons : List SignatureReason
  pub signers : List String
  pub trusted_signers : List String

-- the result
pub record BundleReport : Type 0 where
  pub valid : Bool
  pub signed : Bool
  pub cryptographically_valid : Bool
  pub trust_configured : Bool
  pub signers : List String
  pub trusted_signers : List String
  pub reasons : List SignatureReason

-- `sig.get("role", sig.get("key_id", "unknown"))`
abbrev pub signer_role : Signature → String
signer_role s = elim s.role [ some r ↦ r | none ↦ elim s.key_id [ some k ↦ k | none ↦ "unknown" ] ]

-- `value and value in trusted`
abbrev pub listed : Option String → List String → Bool
listed none trusted = false
listed (some v) trusted = not (v == "") && contains trusted v

listed_nil : (v : Option String) → listed v [] ≡ false
listed_nil none = refl
listed_nil (some v) = ground arith

-- nobody is trusted by empty lists
trusted_needs_list :
    (a b : Option String) (xs ys : List String)
    → (listed a xs || listed b ys) ≡ true
    → (not (is_nil xs) || not (is_nil ys)) ≡ true
trusted_needs_list a b [] [] h = cc (listed_nil a, listed_nil b)
trusted_needs_list a b [] (y ∷ ys) h = refl
trusted_needs_list a b (x ∷ xs) ys h = refl

module _ (c : Crypto) {V : Type 0} (hash : V → String) (unsigned : V) where
  module _ (trusted_public_keys trusted_key_ids : List String) where
    abbrev pub trust_configured : Bool
    trust_configured = not (is_nil trusted_public_keys) || not (is_nil trusted_key_ids)

    abbrev pub is_trusted : Signature → Bool
    is_trusted s = listed s.public_key trusted_public_keys || listed s.key_id trusted_key_ids

    -- one round of the loop
    pub tally : Tally → Signature → Tally
    tally t s =
        let role = signer_role s in
        let accepted = record t { signers = t.signers ++ role ∷ [] } in
        if not (signature_key_id_matches c s)
        then record t {
          cryptographically_valid = false;
          reasons = t.reasons ++ key_id_mismatch role ∷ [];
        }
        else if verify c hash unsigned s
        then (if trust_configured
            then (if is_trusted s
                then record accepted { trusted_signers = t.trusted_signers ++ role ∷ [] }
                else record accepted { reasons = t.reasons ++ untrusted_signer role ∷ [] })
            else accepted)
        else record t {
          cryptographically_valid = false;
          reasons = t.reasons ++ invalid_signature role ∷ [];
        }

    pub tally_all : Tally → List Signature → Tally
    unfolding tally
    tally_all t [] = t
    tally_all t (s ∷ rest) = tally_all (tally t s) rest

    abbrev start : Tally
    start = record {
      cryptographically_valid = true;
      reasons = [];
      signers = [];
      trusted_signers = [];
    }

    -- the environment's keys are part of `trusted_public_keys`
    pub verify_bundle_signatures : List Signature → BundleReport
    unfolding tally_all
    verify_bundle_signatures signatures =
        let t = tally_all start signatures in
        let signed = not (is_nil signatures) in
        let reasons : List SignatureReason =
          if signed && not trust_configured
          then t.reasons ++ no_trusted_signer_policy ∷ []
          else t.reasons in
        record {
          valid =
              signed
              && t.cryptographically_valid
              && trust_configured
              && eqb (length t.trusted_signers) (length signatures)
              && is_nil reasons;
          signed = signed;
          cryptographically_valid = signed && t.cryptographically_valid;
          trust_configured = trust_configured;
          signers = t.signers;
          trusted_signers = t.trusted_signers;
          reasons = reasons;
        }

    -- what each signature of a valid bundle satisfies
    abbrev pub is_good : Signature → Bool
    is_good s = signature_key_id_matches c s && verify c hash unsigned s && is_trusted s

    tally_reasons :
        trust_configured ≡ true
        → (t : Tally) (s : Signature) → is_nil (tally t s).reasons ≡ true
        → (is_nil t.reasons ≡ true) × (is_good s ≡ true)
    unfolding tally
    tally_reasons on t s h = ground (
      arith,
      is_nil-snoc t.reasons (key_id_mismatch (signer_role s)),
      is_nil-snoc t.reasons (untrusted_signer (signer_role s)),
      is_nil-snoc t.reasons (invalid_signature (signer_role s)),
    )

    tally_all_reasons :
        trust_configured ≡ true
        → (t : Tally) (signatures : List Signature) → is_nil (tally_all t signatures).reasons ≡ true
        → (is_nil t.reasons ≡ true) × (all_of is_good signatures ≡ true)
    unfolding tally_all
    tally_all_reasons on t [] h = (h, refl)
    tally_all_reasons on t (s ∷ rest) h =
        let (empty, all) = tally_all_reasons on (tally t s) rest h in
        let (before, good) = tally_reasons on t s empty in (before, ground arith)

    -- a good signature is counted, and leaves no reason
    tally_good :
        trust_configured ≡ true
        → (t : Tally) (s : Signature) → is_good s ≡ true
        → ((tally t s).reasons ≡ t.reasons)
          × ((tally t s).cryptographically_valid ≡ t.cryptographically_valid)
          × (length (tally t s).trusted_signers ≡ suc (length t.trusted_signers))
    unfolding tally
    tally_good on t s h = ground (arith, length-append t.trusted_signers (signer_role s ∷ []))

    tally_all_good :
        trust_configured ≡ true
        → (t : Tally) (signatures : List Signature) → all_of is_good signatures ≡ true
        → ((tally_all t signatures).reasons ≡ t.reasons)
          × ((tally_all t signatures).cryptographically_valid ≡ t.cryptographically_valid)
          × (length (tally_all t signatures).trusted_signers
              ≡ length t.trusted_signers + length signatures)
    unfolding tally_all
    tally_all_good on t [] h = (refl, refl, omega arith)
    tally_all_good on t (s ∷ rest) h =
        let (r, v, n) = tally_good on t s (ground arith) in
        let (r', v', n') = tally_all_good on (tally t s) rest (ground arith) in
        (r' ∙ r, v' ∙ v, omega arith)

    -- A bundle is valid exactly if it is signed and each of its signatures has the key id of its
    -- public key, is accepted for the bundle without its signatures, and is of a trusted signer.
    pub verify_bundle_signatures_valid :
        (signatures : List Signature)
        → ((verify_bundle_signatures signatures).valid ≡ true)
          ↔ ((is_nil signatures ≡ false) × (all_of is_good signatures ≡ true))
    unfolding verify_bundle_signatures
    verify_bundle_signatures_valid [] = ((λ h. cc), (λ h. cc))
    verify_bundle_signatures_valid (s ∷ rest) = (forward, backward)
      where
        forward :
            (verify_bundle_signatures (s ∷ rest)).valid ≡ true
            → (is_nil (s ∷ rest) ≡ false) × (all_of is_good (s ∷ rest) ≡ true)
        forward h =
            let on : trust_configured ≡ true = ground arith in
            (refl, (tally_all_reasons on start (s ∷ rest) (ground arith)).1)

        backward :
            (is_nil (s ∷ rest) ≡ false) × (all_of is_good (s ∷ rest) ≡ true)
            → (verify_bundle_signatures (s ∷ rest)).valid ≡ true
        backward h =
            let on : trust_configured ≡ true =
              trusted_needs_list s.public_key s.key_id trusted_public_keys trusted_key_ids
                (ground arith) in
            let (r, v, n) = tally_all_good on start (s ∷ rest) h.1 in ground arith
