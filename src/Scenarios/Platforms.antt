-- ===== src/Scenarios/Platforms.antt =====
-- A platform of concrete functions: a checksum for SHA-256, unary numbers for hexadecimal digits,
-- and a signature that is the document's hash.
use Prim.Native.Char.{code}
use clayseal_receipts.Prelude.{
  ℕ, zero, suc, ◌+◌, ◌%◌, String, ◌≡◌, refl, Option, none, some, [], ◌∷◌, arith, eqb, if◌then◌else◌,
  length, beq_self, string_eq, ◌==◌,
}
use clayseal_receipts.C2sp.{Bytes}
use clayseal_receipts.Signing.{Crypto, SignsCorrectly}
use clayseal_receipts.Audit.{Document, record_document, checkpoint_document, Platform}

abbrev pub key_pairs : Crypto
key_pairs = record {
  SigningKey = String;
  public_key_hex = λ k. k;
  key_hash = λ pk. pk;
  ed25519_sign = λ k payload. payload;
  ed25519_verify = λ pk sig payload. sig == payload;
}

pub key_pairs-SignsCorrectly : SignsCorrectly key_pairs
key_pairs-SignsCorrectly k payload = beq_self payload

abbrev total : Bytes → ℕ
total [] = 0
total (b ∷ bs) = b + total bs

abbrev zeros : ℕ → Bytes
zeros zero = []
zeros (suc n) = 0 ∷ zeros n

abbrev pub checksum : Bytes → Bytes
checksum bytes = (total bytes % 7) ∷ zeros 31

pub checksum_size : (bytes : Bytes) → length (checksum bytes) ≡ 32
checksum_size bytes = refl

abbrev tally : ℕ → String → String
tally zero s = String.◌∷◌ "0" s
tally (suc n) s = String.◌∷◌ "1" (tally n s)

abbrev pub unary : Bytes → String
unary [] = ""
unary (b ∷ bs) = tally b (unary bs)

abbrev cons : ℕ → Option Bytes → Option Bytes
cons b none = none
cons b (some bs) = some (b ∷ bs)

abbrev read : ℕ → String → Option Bytes
read seen String.[] = some []
read seen (String.◌∷◌ c s) =
    let more = read (suc seen) s in
    let next = cons seen (read 0 s) in if eqb (code c) 49 then more else next

abbrev pub from_unary : String → Option Bytes
from_unary s = read 0 s

read-tally : (seen n : ℕ) (s : String) → read seen (tally n s) ≡ cons (n + seen) (read 0 s)
read-tally seen zero s = ground arith
read-tally seen (suc n) s = ground (arith, read-tally (suc seen) n s)

pub from_unary-unary : (bytes : Bytes) → from_unary (unary bytes) ≡ some bytes
from_unary-unary [] = refl
from_unary-unary (b ∷ bs) = ground (arith, read-tally 0 b (unary bs), from_unary-unary bs)

abbrev string_length : String → ℕ
string_length String.[] = 0
string_length (String.◌∷◌ c s) = suc (string_length s)

abbrev pub hash_document : Document → String
hash_document (record_document h) = h
hash_document (checkpoint_document core) = elim core.tip_hash [
  | none ↦ "checkpoint"
  | some tip ↦ tip
]

abbrev pub toy : Platform
toy = record {
  crypto = key_pairs;
  Context = ℕ;
  context_ref = λ n key. none;
  sha256 = checksum;
  hex = unary;
  from_hex = from_unary;
  hash_body = λ b. unary (string_length b.action ∷ []);
  hash_document = hash_document;
}
