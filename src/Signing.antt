-- ===== src/Signing.antt =====
-- agentauth/core/signing.py. Ed25519, the canonical JSON hash and the environment are parameters;
-- a document is a value of a type V with its canonical hash.
pub mod Laws
pub mod Bundles
use clayseal_receipts.Prelude.{
  String, ◌≡◌, Option, none, some, Bool, true, false, not, ◌==◌, string_eq, option_eq, contains,
  is_nil, length, eqb, if◌then◌else◌,
}

-- the descriptor that `SigningKey.sign` returns, as it may come in from outside
pub record Signature : Type 0 where
  pub alg : Option String
  pub key_id : Option String
  pub public_key : Option String
  pub signature : Option String
  pub role : Option String

-- key_hash is `hash_canonical_json({"ed25519_pub": _})`; ed25519_verify is false where the library
-- raises, on a malformed key or signature too
pub record Crypto : Type 1 where
  pub SigningKey : Type 0
  pub public_key_hex : SigningKey → String
  pub key_hash : String → String
  pub ed25519_sign : SigningKey → String → String
  pub ed25519_verify : String → String → String → Bool

-- a signature made by a key is accepted under its public key
abbrev pub SignsCorrectly : Crypto → Type 0
SignsCorrectly c =
    (k : c.SigningKey) (payload : String)
    → c.ed25519_verify (c.public_key_hex k) (c.ed25519_sign k payload) payload ≡ true

module _ (c : Crypto) where
  unfoldable pub signature_key_id_matches : Signature → Bool
  signature_key_id_matches s = elim s.public_key [
    | none ↦ false
    | some pk ↦ elim s.key_id [ none ↦ false | some id ↦ id == c.key_hash pk ]
  ]

  module _ {V : Type 0} (hash : V → String) where
    unfoldable pub sign : c.SigningKey → V → Signature
    sign k value = record {
      alg = some "ed25519";
      key_id = some (c.key_hash (c.public_key_hex k));
      public_key = some (c.public_key_hex k);
      signature = some (c.ed25519_sign k (hash value));
      role = none;
    }

    ed25519_check : V → Option String → Option String → Bool
    ed25519_check value none sig = false
    ed25519_check value (some pk) none = false
    ed25519_check value (some pk) (some sig) = c.ed25519_verify pk sig (hash value)

    unfoldable pub verify : V → Signature → Bool
    unfolding signature_key_id_matches ed25519_check
    verify value s =
        if not (s.alg == some "ed25519")
        then false
        else if not (signature_key_id_matches s)
        then false
        else ed25519_check value s.public_key s.signature
