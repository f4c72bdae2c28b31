-- ===== src/Audit.antt =====
-- `AuditChain` of agentauth/receipts/audit.py: a hash-chained log with Merkle proofs. The SQLite
-- table is the list of its rows in the order of `seq`; a JSON text is the value that it stands for.
pub mod Checkpoints
pub mod Proofs
pub mod History
pub mod Inclusion
pub mod Signatures
pub mod Roundtrip
pub mod Hexadecimal
pub mod Consistency
use clayseal_receipts.Prelude.{
  ℕ, suc, String, Option, none, some, Bool, false, List, [], ◌∷◌, ◌++◌, map, ◌!=◌, string_eq,
  option_eq, int_eq, ℤ, pos, if◌then◌else◌, length, codes,
}
use clayseal_receipts.C2sp.{Bytes, c2sp_hasher}
use clayseal_receipts.Merkle.{rfc6962_root}
use clayseal_receipts.Signing.{Signature, Crypto, sign, verify}
use clayseal_receipts.Revocation.{
  SignerRevocationRegistry, RevocationIssue, record_revocation_issues,
}

-- what `hash_canonical_json` is applied to for a record
pub record Body (C : Type 0) : Type 0 where
  pub proof_id : String
  pub execution_proof_hash : String
  pub action : String
  pub authorization_context : C
  pub created_at : String
  pub prev_hash : String

-- the `payload` column: the body and its hash (`"seq"` is always null there)
pub record Payload (C : Type 0) : Type 0 where
  pub body : Body C
  pub record_hash : String

-- a row of `audit_records`: its columns repeat what the payload holds
pub record AuditRow (C : Type 0) : Type 0 where
  pub seq : ℕ
  pub columns : Payload C
  pub payload : Payload C
  pub signature : Option Signature

-- `checkpoint_body`; a missing field is `none`
pub record CheckpointBody : Type 0 where
  pub count : Option ℤ
  pub tip_hash : Option String
  pub merkle_root : Option String
  pub genesis : Option String

pub record Checkpoint : Type 0 where
  pub core : CheckpointBody
  pub signature : Option Signature
  pub witness_cosignatures : List Signature

pub data Document : Type 0 where
  record_document : String → Document
  checkpoint_document : CheckpointBody → Document

-- what the log takes from elsewhere; a JSON hash is one function for each type that is hashed
pub record Platform : Type 1 where
  pub crypto : Crypto
  pub Context : Type 0
  pub context_ref : Context → String → Option String
  pub sha256 : Bytes → Bytes
  pub hex : Bytes → String
  pub from_hex : String → Option Bytes
  pub hash_body : Body Context → String
  pub hash_document : Document → String

-- one element after the other; `none` where one raises
abbrev pub traverse : {A B : Type 0} → (A → Option B) → List A → Option (List B)
traverse f [] = some []
traverse f (x ∷ xs) = elim (f x) [
  | none ↦ none
  | some y ↦ elim (traverse f xs) [ none ↦ none | some ys ↦ some (y ∷ ys) ]
]

module _ (p : Platform) where
  open p use {crypto, Context, context_ref, sha256, hex, from_hex, hash_body, hash_document}

  pub record AuditChain : Type 0 where
    pub rows : List (AuditRow Context)
    pub next_seq : ℕ  -- AUTOINCREMENT
    pub signing_key : Option crypto.SigningKey
    pub revocation_registry : Option SignerRevocationRegistry

  pub genesis : String
  genesis = hex (sha256 (codes "agent-receipts-genesis"))

  tip_after : String → List (AuditRow Context) → String
  tip_after tip [] = tip
  tip_after tip (r ∷ rows) = tip_after r.columns.record_hash rows

  -- `_tip_hash`: the column of the last row, or the genesis hash
  pub tip_hash : AuditChain → String
  unfolding tip_after
  tip_hash c = tip_after genesis c.rows

  signature_for : Option crypto.SigningKey → String → Option Signature
  signature_for none record_hash = none
  signature_for (some k) record_hash =
      some (sign crypto hash_document k (record_document record_hash))

  -- the clock and the hash of the proof are arguments
  unfoldable pub append :
      AuditChain → String → String → String → Context → String → AuditChain × AuditRow Context
  unfolding signature_for
  append c proof_id proof_hash action ctx created_at =
      let body : Body Context = record {
        proof_id = proof_id;
        execution_proof_hash = proof_hash;
        action = action;
        authorization_context = ctx;
        created_at = created_at;
        prev_hash = tip_hash c;
      } in
      let stored : Payload Context = record { body = body; record_hash = hash_body body } in
      let row : AuditRow Context = record {
        seq = c.next_seq;
        columns = stored;
        payload = stored;
        signature = signature_for c.signing_key (hash_body body);
      } in
      (record c { rows = c.rows ++ row ∷ []; next_seq = suc c.next_seq }, row)

  pub data ChainError : Type 0 where
    prev_hash_mismatch record_hash_mismatch : ℕ → ChainError

  -- the loop of `verify_chain`; `none` is a return without an exception
  verify_links : String → List (AuditRow Context) → Option ChainError
  verify_links expected_prev [] = none
  verify_links expected_prev (r ∷ rows) =
      let rest = verify_links r.payload.record_hash rows in
      if r.payload.body.prev_hash != expected_prev
      then some (prev_hash_mismatch r.seq)
      else if hash_body r.payload.body != r.payload.record_hash
      then some (record_hash_mismatch r.seq)
      else rest

  unfoldable pub verify_chain : AuditChain → Option ChainError
  unfolding verify_links
  verify_chain c = verify_links genesis c.rows

  pub data SignatureError : Type 0 where
    unsigned unexpected_key invalid_signature : ℕ → SignatureError
    revoked : ℕ → RevocationIssue → SignatureError

  first_issue : ℕ → List RevocationIssue → Option SignatureError
  first_issue seq [] = none
  first_issue seq (issue ∷ rest) = some (revoked seq issue)

  record_issues : Option SignerRevocationRegistry → Signature → ℕ → List RevocationIssue
  record_issues none s seq = []
  record_issues (some registry) s seq = record_revocation_issues registry s.public_key (pos seq)

  check_signature :
      Option String
      → Option SignerRevocationRegistry
      → ℕ
      → String
      → Option Signature
      → Option SignatureError
  unfolding first_issue record_issues
  check_signature expected registry seq record_hash none = some (unsigned seq)
  check_signature expected registry seq record_hash (some s) =
      let unexpected : Bool = elim expected [
        | none ↦ false
        | some key ↦ s.public_key != some key
      ] in
      if unexpected
      then some (unexpected_key seq)
      else elim (first_issue seq (record_issues registry s seq)) [
        | some e ↦ some e
        | none ↦
            if verify crypto hash_document (record_document record_hash) s
            then none
            else some (invalid_signature seq)
      ]

  verify_rows :
      Option String
      → Option SignerRevocationRegistry
      → List (AuditRow Context)
      → Option SignatureError
  unfolding check_signature
  verify_rows expected registry [] = none
  verify_rows expected registry (r ∷ rows) =
      let rest = verify_rows expected registry rows in
      elim (check_signature expected registry r.seq r.columns.record_hash r.signature) [
        | some e ↦ some e
        | none ↦ rest
      ]

  -- `revocation_registry or self.revocation_registry`
  abbrev registry_or :
      Option SignerRevocationRegistry
      → Option SignerRevocationRegistry
      → Option SignerRevocationRegistry
  registry_or none own = own
  registry_or (some r) own = some r

  unfoldable pub verify_signatures :
      AuditChain → Option String → Option SignerRevocationRegistry → Option SignatureError
  unfolding verify_rows
  verify_signatures c expected_public_key registry =
      verify_rows expected_public_key (registry_or registry c.revocation_registry) c.rows

  unfoldable pub record_hashes : AuditChain → List String
  record_hashes c = map (λ (r : AuditRow Context). r.columns.record_hash) c.rows

  -- `unhexlify` raises on a column that is not hexadecimal: `none`
  unfoldable pub rfc6962_entries : AuditChain → Option (List Bytes)
  unfolding record_hashes
  rfc6962_entries c = traverse from_hex (record_hashes c)

  pub merkle_root : AuditChain → Option String
  unfolding rfc6962_entries
  merkle_root c = elim (rfc6962_entries c) [
    | none ↦ none
    | some entries ↦ some (hex (rfc6962_root (c2sp_hasher sha256) entries))
  ]

  -- the core that the chain has now
  pub current_core : AuditChain → Option CheckpointBody
  unfolding merkle_root
  current_core c = elim (merkle_root c) [
    | none ↦ none
    | some root ↦ some (record {
      count = some (pos (length c.rows));
      tip_hash = some (tip_hash c);
      merkle_root = some root;
      genesis = some genesis;
    })
  ]

  checkpoint_signature : Option crypto.SigningKey → CheckpointBody → Option Signature
  checkpoint_signature none core = none
  checkpoint_signature (some k) core = some (sign crypto hash_document k (checkpoint_document core))

  unfoldable pub signed_checkpoint : AuditChain → Option Checkpoint
  unfolding current_core checkpoint_signature
  signed_checkpoint c = elim (current_core c) [
    | none ↦ none
    | some core ↦ some (record {
      core = core;
      signature = checkpoint_signature c.signing_key core;
      witness_cosignatures = [];
    })
  ]
