-- ===== src/Revocation.antt =====
-- agentauth/receipts/revocation.py: keys revoked from a log sequence number on.
pub mod Laws
use clayseal_receipts.Prelude.{
  String, Option, none, some, Bool, true, false, List, [], ◌∷◌, ltb, leb, ◌==◌, string_eq, lookup,
  if◌then◌else◌, ℤ, leℤ, ltℤ, ◌||◌, not, ◌&&◌,
}
use clayseal_receipts.Signing.{Signature}

-- public key -> first invalid sequence number
pub record SignerRevocationRegistry : Type 0 where
  pub entries : List (String × ℤ)

-- `d[k] = v`
abbrev assign : String → ℤ → List (String × ℤ) → List (String × ℤ)
assign k v [] = (k, v) ∷ []
assign k v ((j, w) ∷ m) = if j == k then (k, v) ∷ m else (j, w) ∷ assign k v m

pub revoke : String → ℤ → SignerRevocationRegistry → SignerRevocationRegistry
revoke public_key_hex at_seq r =
    let earlier : Bool = elim (lookup public_key_hex r.entries) [
      | none ↦ true
      | some existing ↦ ltℤ at_seq existing
    ] in
    if earlier then record { entries = assign public_key_hex at_seq r.entries } else r

pub revoked_at_seq : SignerRevocationRegistry → String → Option ℤ
revoked_at_seq r public_key_hex = lookup public_key_hex r.entries

pub is_revoked_at_seq : SignerRevocationRegistry → String → ℤ → Bool
unfolding revoked_at_seq
is_revoked_at_seq r public_key_hex seq = elim (lookup public_key_hex r.entries) [
  | none ↦ false
  | some threshold ↦ leℤ threshold seq
]

pub data RevocationIssue : Type 0 where
  signer_revoked : ℤ → ℤ → RevocationIssue

-- an absent key and an empty one are both falsy
unfoldable pub record_revocation_issues :
    SignerRevocationRegistry → Option String → ℤ → List RevocationIssue
record_revocation_issues r none seq = []
record_revocation_issues r (some public_key_hex) seq =
    if public_key_hex == "" then [] else elim (lookup public_key_hex r.entries) [
      | none ↦ []
      | some threshold ↦ if leℤ threshold seq then signer_revoked threshold seq ∷ [] else []
    ]

-- the signer and the count of a checkpoint; either may be missing
unfoldable pub checkpoint_revocation_issues :
    SignerRevocationRegistry → Option Signature → Option ℤ → List RevocationIssue
unfolding record_revocation_issues
checkpoint_revocation_issues r none count = []
checkpoint_revocation_issues r (some signature) none = []
checkpoint_revocation_issues r (some signature) (some count) =
    record_revocation_issues r signature.public_key count

-- `from_dict`: the later of two equal keys wins, as in a JSON object
pub registry_from_dict : List (String × ℤ) → SignerRevocationRegistry
registry_from_dict raw = go raw (record { entries = [] })
  where
    go : List (String × ℤ) → SignerRevocationRegistry → SignerRevocationRegistry
    go [] r = r
    go ((k, v) ∷ rest) r = go rest (record { entries = assign k v r.entries })

pub registry_to_dict : SignerRevocationRegistry → List (String × ℤ)
registry_to_dict r = r.entries
