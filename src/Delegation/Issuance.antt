-- ===== src/Delegation/Issuance.antt =====
-- What an issued delegation allows (delegation.py).
use clayseal_receipts.Prelude.{
  ℕ, suc, String, ◌≡◌, refl, sym, ◌∙◌, Option, none, some, Bool, true, false, ◌||◌, ◌&&◌, not, List,
  [], ◌∷◌, inl, ◌↔◌, text_eq, Text, strip, arith, is_nil,
}
use clayseal_receipts.Signing.{Crypto}
use clayseal_receipts.Operations.{
  RawCapability, CapabilityOperation, Excess, or_empty, normalize_capabilities, allowed_by,
  capability_allows, capability_subset,
}
use clayseal_receipts.Operations.Attenuation.{capability_subset_iff}
use clayseal_receipts.Delegation.{
  DelegationToken, DelegationViolation, child, link, Document, Envelope, capabilities_from_raw,
  verify_delegation_envelope, delegation_from_envelope, chain_violations, parent_of,
}
use clayseal_receipts.Delegation.Chain.{AllAllow}
use clayseal_receipts.Delegation.Issue.{
  Request, insert_capability, sorted_capabilities, issued_link, issue_under, issue_delegation,
  unless_excess, issue_verified,
}

-- whether one capability allows an operation
abbrev grants : RawCapability → Text → Text → Bool
grants cap resource action = capability_allows (cap ∷ []) resource action

capability_allows-cons :
    (cap : RawCapability) (rest : List RawCapability) (resource action : Text)
    → capability_allows (cap ∷ rest) resource action
      ≡ (grants cap resource action || capability_allows rest resource action)
unfolding capability_allows normalize_capabilities allowed_by
capability_allows-cons cap rest resource action = ground arith

capability_allows-insert_capability :
    (cap : RawCapability) (rest : List RawCapability) (resource action : Text)
    → capability_allows (insert_capability cap rest) resource action
      ≡ capability_allows (cap ∷ rest) resource action
unfolding insert_capability
capability_allows-insert_capability cap [] resource action = refl
capability_allows-insert_capability cap (other ∷ rest) resource action = ground (
  arith,
  capability_allows-insert_capability cap rest resource action,
  capability_allows-cons cap (other ∷ rest) resource action,
  capability_allows-cons cap rest resource action,
  capability_allows-cons other rest resource action,
  capability_allows-cons other (insert_capability cap rest) resource action,
)

capability_allows-sorted_capabilities :
    (capabilities : List RawCapability) (resource action : Text)
    → capability_allows (sorted_capabilities capabilities) resource action
      ≡ capability_allows capabilities resource action
unfolding sorted_capabilities
capability_allows-sorted_capabilities [] resource action = refl
capability_allows-sorted_capabilities (cap ∷ rest) resource action = ground (
  arith,
  capability_allows-insert_capability cap (sorted_capabilities rest) resource action,
  capability_allows-cons cap (sorted_capabilities rest) resource action,
  capability_allows-cons cap rest resource action,
  capability_allows-sorted_capabilities rest resource action,
)

hosts_do_not_grant :
    (cap : RawCapability) (resource action : Text)
    → grants (record cap { hosts = [] }) resource action ≡ grants cap resource action
unfolding capability_allows normalize_capabilities
hosts_do_not_grant cap resource action = refl

strip_nil : (t : Text) → is_nil t ≡ true → strip t ≡ []
unfolding strip
strip_nil [] h = refl
strip_nil (x ∷ xs) h = cc

-- A capability without one of its texts allows nothing.
incomplete_grants_nothing :
    (cap : RawCapability) (resource action : Text)
    → (not (is_nil (or_empty cap.resource)) && not (is_nil (or_empty cap.action))) ≡ false
    → grants cap resource action ≡ false
unfolding capability_allows normalize_capabilities allowed_by
incomplete_grants_nothing cap resource action h =
    ground (arith, strip_nil (or_empty cap.resource), strip_nil (or_empty cap.action))

-- Only capabilities that allow nothing are left out.
capability_allows-capabilities_from_raw :
    (raw : List RawCapability) (resource action : Text)
    → capability_allows (capabilities_from_raw raw) resource action
      ≡ capability_allows raw resource action
unfolding capabilities_from_raw
capability_allows-capabilities_from_raw [] resource action = refl
capability_allows-capabilities_from_raw (cap ∷ rest) resource action = ground (
  arith,
  capability_allows-capabilities_from_raw rest resource action,
  capability_allows-cons cap rest resource action,
  capability_allows-cons (record cap { hosts = [] }) (capabilities_from_raw rest) resource action,
  hosts_do_not_grant cap resource action,
  incomplete_grants_nothing cap resource action,
)

-- the capabilities of the issued token, against those that were asked for
abbrev issued_capabilities : Request → List RawCapability
issued_capabilities request = sorted_capabilities (capabilities_from_raw request.capabilities)

issued_capabilities_allow :
    (request : Request) (resource action : Text)
    → capability_allows (issued_capabilities request) resource action
      ≡ capability_allows request.capabilities resource action
issued_capabilities_allow request resource action =
    capability_allows-sorted_capabilities (capabilities_from_raw request.capabilities) resource
      action
    ∙ capability_allows-capabilities_from_raw request.capabilities resource action

-- Attenuation that holds for the capabilities asked for holds for those issued.
issued_capabilities_subset :
    (request : Request) (parent : List RawCapability) (label label' : String)
    → capability_subset request.capabilities parent label ≡ []
    → capability_subset (issued_capabilities request) parent label' ≡ []
issued_capabilities_subset request parent label label' h =
    let (down, up) = capability_subset_iff request.capabilities parent label in
    (capability_subset_iff (issued_capabilities request) parent label').1
      (λ resource action allowed.
        down h resource action (sym (issued_capabilities_allow request resource action) ∙ allowed))

module _ (c : Crypto) (hash : Document → String) where
  -- what is returned with a parent is a child of it, after the subset test
  abbrev IsIssuedUnder : ℕ → String → Request → DelegationToken → DelegationToken → Type 0
  IsIssuedUnder now id request token p =
      (token ≡ child (issued_link now id (suc (link p).depth) request) p)
      × (capability_subset request.capabilities (link p).capabilities "delegation" ≡ [])

  unless_excess-inl :
      (violations : List Excess) (issued token : DelegationToken)
      → unless_excess violations issued ≡ inl token
      → (violations ≡ []) × (issued ≡ token)
  unless_excess-inl [] issued token h = (refl, cc)
  unless_excess-inl (e ∷ es) issued token h = cc

  issue_under_child :
      (now : ℕ) (id : String) (parent : Option DelegationToken) (request : Request)
      (token p : DelegationToken)
      → parent_of c hash token ≡ some p
      → issue_under now id parent request ≡ inl token
      → IsIssuedUnder now id request token p
  unfolding issue_under
  issue_under_child now id none request token p has h = cc
  issue_under_child now id (some q) request token p has h =
      let (subset, same) = unless_excess-inl _ _ token h in
      let above : q ≡ p = cc (has, same) in rw (← above) (sym same, subset)

  issue_delegation_child :
      (now : ℕ) (id : String) (parent : Option DelegationToken) (request : Request)
      (envelope : Option Envelope) (token p : DelegationToken)
      → parent_of c hash token ≡ some p
      → issue_delegation c hash now id parent request envelope ≡ inl token
      → IsIssuedUnder now id request token p
  unfolding issue_delegation
  issue_delegation_child now id parent request none token p has h =
      issue_under_child now id parent request token p has h
  issue_delegation_child now id parent request (some envelope) token p has h =
      verified_child (verify_delegation_envelope c hash true envelope)
        (delegation_from_envelope envelope) h
    where
      verified_child :
          (violations : List DelegationViolation) (above : Option DelegationToken)
          → issue_verified now id violations above request ≡ inl token
          → IsIssuedUnder now id request token p
      verified_child (v ∷ vs) above e = cc
      verified_child [] none e = cc
      verified_child [] (some q) e = issue_under_child now id (some q) request token p has e

  chain_violations_issued :
      (now : ℕ) (id : String) (request : Request) (p : DelegationToken)
      → capability_subset request.capabilities (link p).capabilities "delegation" ≡ []
      → chain_violations c hash (child (issued_link now id (suc (link p).depth) request) p)
        ≡ chain_violations c hash p
  unfolding chain_violations issued_link
  chain_violations_issued now id request p h =
      rw (issued_capabilities_subset request (link p).capabilities "delegation" "chain" h) refl

  -- A delegation that is issued with a parent, given or read from a verified envelope, is one link
  -- deeper, adds no violation to those of the parent's chain, and its whole chain allows an operation
  -- exactly if the capabilities asked for allow it and the parent's whole chain does.
  pub issue_delegation-extends :
      (now : ℕ) (id : String) (parent : Option DelegationToken) (request : Request)
      (envelope : Option Envelope) (token p : DelegationToken)
      → parent_of c hash token ≡ some p
      → issue_delegation c hash now id parent request envelope ≡ inl token
      → ((link token).depth ≡ suc (link p).depth)
        × (chain_violations c hash token ≡ chain_violations c hash p)
        × ((operation : CapabilityOperation)
            → AllAllow operation token ↔ (
                (capability_allows request.capabilities operation.resource operation.action ≡ true)
                × AllAllow operation p))
  unfolding issued_link
  issue_delegation-extends now id parent request envelope token p has h =
      let (same, subset) = issue_delegation_child now id parent request envelope token p has h in
      rw same (
        refl,
        chain_violations_issued now id request p subset,
        λ operation. (
          λ (own, above). (
            sym (issued_capabilities_allow request operation.resource operation.action) ∙ own,
            above,
          ),
          λ (asked, above). (
            issued_capabilities_allow request operation.resource operation.action ∙ asked,
            above,
          ),
        ),
      )
