-- ===== src/Mandate/Ancestors.antt =====
-- The parent that a mandate section embeds (mandate.py).
use clayseal_receipts.Prelude.{
  String, ◌≡◌, refl, Option, some, Bool, true, List, [], ◌∷◌, map, arith, option_eq, option_beq_iff,
  string_eq, Option-cases, inl, inr, is_nil, if◌then◌else◌,
}
use clayseal_receipts.Signing.{Signature, Crypto, verify}
use clayseal_receipts.Mandate.{
  Numbers, Mandate, MandateDocument, MandateViolation, mandate_schema, parent_invalid,
  verify_mandate_envelope, verify_mandate_signature, bound_issuer, mandate_signer_matches_issuer,
}
use clayseal_receipts.Mandate.Parents.{
  ParentSection, MandateSection, present, parent_section_issues, mandate_parent_issues,
}
use clayseal_receipts.Mandate.Attenuation.{IsAttenuated, attenuation_issues_sound}

no_invalid :
    (violations : List MandateViolation) (rest : Option (List MandateViolation))
    → (if is_nil violations then rest else some (map parent_invalid violations)) ≡ some []
    → (violations ≡ []) × (rest ≡ some [])
no_invalid [] rest h = (refl, h)
no_invalid (v ∷ vs) rest h = absurd (ground arith)

module _ (num : Numbers) where
  open num use {Amount}

  module _ (c : Crypto) (hash : MandateDocument Amount → String)
      (commitment : Mandate Amount → String) (production : Bool) where
    -- of the schema, with a signature that verifies, by the issuer
    abbrev pub IsSigned : MandateDocument Amount → Signature → Type 0
    IsSigned document s =
        (document.schema ≡ some mandate_schema)
        × (verify c hash document s ≡ true)
        × (mandate_signer_matches_issuer production document.issuer s ≡ true)

    pub verify_mandate_envelope-IsSigned :
        (document : MandateDocument Amount) (s : Signature)
        → verify_mandate_envelope c Amount hash production (some document) (some s) ≡ []
        → IsSigned document s
    unfolding verify_mandate_envelope verify_mandate_signature bound_issuer
    verify_mandate_envelope-IsSigned document s h = (
      ground (arith, option_beq_iff document.schema (some mandate_schema)),
      ground arith,
      ground arith,
    )

    -- where the mandate names a parent grant, the section embeds a signed parent that it attenuates
    abbrev pub IsUnderParent : MandateSection Amount → Mandate Amount → Type 0
    IsUnderParent section m =
        (id : String)
        → present m.parent_grant_id ≡ some id
        → (parent : ParentSection Amount) × (document : MandateDocument Amount) × (s : Signature)
          × (above : Mandate Amount) × (section.parent ≡ some parent)
          × (parent.document ≡ some document)
          × (parent.signature ≡ some s)
          × (document.fields ≡ some above)
          × IsSigned document s
          × IsAttenuated num m above

    parent_section-IsAttenuated :
        (parent : ParentSection Amount) (m : Mandate Amount)
        → parent_section_issues num c hash commitment production parent m ≡ some []
        → (document : MandateDocument Amount) × (s : Signature) × (above : Mandate Amount)
          × (parent.document ≡ some document)
          × (parent.signature ≡ some s)
          × (document.fields ≡ some above)
          × IsSigned document s
          × IsAttenuated num m above
    unfolding parent_section_issues
    parent_section-IsAttenuated parent m h = elim (Option-cases parent.document) [
      | inl e ↦ absurd (ground arith)
      | inr (document, e) ↦ elim (Option-cases parent.signature) [
        | inl e' ↦ absurd (ground arith)
        | inr (s, e') ↦
            let (valid, rest) =
              no_invalid (verify_mandate_envelope c Amount hash production (some document) (some s))
                _ (rw (e, e') at h) in
            elim (Option-cases document.fields) [
              | inl e'' ↦ absurd (ground arith)
              | inr (above, e'') ↦ (
                document,
                s,
                above,
                e,
                e',
                e'',
                verify_mandate_envelope-IsSigned document s valid,
                attenuation_issues_sound num m above (ground arith),
              )
            ]
      ]
    ]

    pub mandate_parent_issues-IsUnderParent :
        (section : MandateSection Amount) (m : Mandate Amount)
        → mandate_parent_issues num c hash commitment production section m ≡ some []
        → IsUnderParent section m
    unfolding mandate_parent_issues
    mandate_parent_issues-IsUnderParent section m h id named = elim (Option-cases section.parent) [
      | inl e ↦ absurd (ground arith)
      | inr (parent, e) ↦
          let (document, s, above, e1, e2, e3, signed, attenuated) =
            parent_section-IsAttenuated parent m (ground arith) in
          (parent, document, s, above, e, e1, e2, e3, signed, attenuated)
    ]
