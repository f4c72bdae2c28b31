-- ===== src/Delegation/Issue.antt =====
-- agentauth/core/delegation.py: `issue_delegation`, with the order that it sorts capabilities in.
-- The clock and the fresh identifier are arguments; instants are counted in seconds.
use clayseal_receipts.Prelude.{
  ℕ, suc, ◌+◌, ◌-◌, ℤ, pos, negsuc, String, Option, none, some, Bool, true, false, List, [], ◌∷◌,
  ◌==◌, ◌⊎◌, inl, inr, string_eq, text_eq, nat_eq, Text, ltb, if◌then◌else◌,
}
use clayseal_receipts.Signing.{Crypto}
use clayseal_receipts.Operations.{RawCapability, Excess, or_empty, capability_subset}
use clayseal_receipts.Delegation.{
  Link, DelegationToken, root, child, link, Document, Envelope, DelegationViolation,
  capabilities_from_raw, verify_delegation_envelope, delegation_from_envelope,
}

-- Python's `a < b` on strings, code point by code point
unfoldable pub text_less : Text → Text → Bool
text_less [] [] = false
text_less [] (y ∷ ys) = true
text_less (x ∷ xs) [] = false
text_less (x ∷ xs) (y ∷ ys) = let rest = text_less xs ys in if x == y then rest else ltb x y

-- the comparison of two keys `(cap["resource"], cap["action"])`
unfoldable pub key_less : RawCapability → RawCapability → Bool
unfolding text_less
key_less a b =
    if or_empty a.resource == or_empty b.resource
    then text_less (or_empty a.action) (or_empty b.action)
    else text_less (or_empty a.resource) (or_empty b.resource)

-- before the first one whose key is not smaller, so that equal keys keep their order
unfoldable pub insert_capability : RawCapability → List RawCapability → List RawCapability
unfolding key_less
insert_capability cap [] = cap ∷ []
insert_capability cap (other ∷ rest) =
    let later = insert_capability cap rest in
    if key_less other cap then other ∷ later else cap ∷ (other ∷ rest)

unfoldable pub sorted_capabilities : List RawCapability → List RawCapability
unfolding insert_capability
sorted_capabilities [] = []
sorted_capabilities (cap ∷ rest) = insert_capability cap (sorted_capabilities rest)

-- the principal of the certificate
pub record Principal : Type 0 where
  pub principal_id : Option String
  pub organization : Option String

-- the arguments of `issue_delegation` but for the parent
pub record Request : Type 0 where
  pub delegate_agent_id : String
  pub capabilities : List RawCapability
  pub certificate : Option Principal
  pub ttl_seconds : ℤ
  pub principal_id : Option String
  pub organization : Option String

pub data IssueError : Type 0 where
  parent_rejected : DelegationViolation → IssueError
  parent_unreadable : IssueError
  capabilities_exceed : Excess → IssueError

-- `a or b`, where `None` and `""` are falsy
abbrev or_other : Option String → Option String → Option String
or_other none other = other
or_other (some s) other = if s == "" then other else some s

-- `now + timedelta(seconds=ttl)`, an instant from 0 on
abbrev later_by : ℕ → ℤ → ℕ
later_by now (pos n) = now + n
later_by now (negsuc n) = now - suc n

unfoldable pub issued_link : ℕ → String → ℕ → Request → Link
unfolding sorted_capabilities capabilities_from_raw
issued_link now id depth request = record {
  delegation_id = id;
  delegate_agent_id = request.delegate_agent_id;
  capabilities = sorted_capabilities (capabilities_from_raw request.capabilities);
  depth = depth;
  issued_at = now;
  expires_at = later_by now request.ttl_seconds;
  principal_id =
      or_other request.principal_id
        (elim request.certificate [ none ↦ none | some principal ↦ principal.principal_id ]);
  organization =
      or_other request.organization
        (elim request.certificate [ none ↦ none | some principal ↦ principal.organization ]);
}

-- the first excess is raised
abbrev pub unless_excess : List Excess → DelegationToken → DelegationToken ⊎ IssueError
unless_excess [] token = inl token
unless_excess (e ∷ es) token = inr (capabilities_exceed e)

-- the part after the parent is known
unfoldable pub issue_under :
    ℕ → String → Option DelegationToken → Request → DelegationToken ⊎ IssueError
unfolding issued_link capability_subset
issue_under now id none request = inl (root (issued_link now id 0 request))
issue_under now id (some parent) request =
    let violations =
      capability_subset request.capabilities (link parent).capabilities "delegation" in
    unless_excess violations (child (issued_link now id (suc (link parent).depth) request) parent)

-- the part after the parent's envelope is verified
abbrev pub issue_verified :
    ℕ
    → String
    → List DelegationViolation
    → Option DelegationToken
    → Request
    → DelegationToken ⊎ IssueError
issue_verified now id (v ∷ vs) parent request = inr (parent_rejected v)
issue_verified now id [] none request = inr parent_unreadable
issue_verified now id [] (some parent) request = issue_under now id (some parent) request

module _ (c : Crypto) (hash : Document → String) where
  unfoldable pub issue_delegation :
      ℕ → String → Option DelegationToken → Request → Option Envelope → DelegationToken ⊎ IssueError
  unfolding issue_under verify_delegation_envelope delegation_from_envelope
  issue_delegation now id parent request none = issue_under now id parent request
  issue_delegation now id parent request (some envelope) =
      issue_verified now id (verify_delegation_envelope c hash true envelope)
        (delegation_from_envelope envelope) request
