-- ===== src/Scenarios/Trees.antt =====
-- Trees, signatures and revocations at concrete inputs.
use clayseal_receipts.Prelude.{
  ℕ, ◌+◌, ◌*◌, String, ◌≤◌, ◌≡◌, ◌↔◌, none, some, true, false, string_eq, List, [], ◌∷◌, arith,
  length, take, is_nil, all_of, ℤ, pos,
}
use clayseal_receipts.Merkle.{
  root_fuel, Hasher, rfc6962_root, rfc6962_inclusion_path, rfc6962_consistency_path,
  rfc6962_consistency_roots,
}
use clayseal_receipts.Merkle.Root.{root_fuel_enough}
use clayseal_receipts.Merkle.TreeHash.{Mth, rfc6962_root-Mth}
use clayseal_receipts.Merkle.Inclusion.{inclusion_path-none_iff}
use clayseal_receipts.Merkle.Consistency.{consistency_roots-consistency_path}
use clayseal_receipts.Signing.{Signature}
use clayseal_receipts.Signing.Bundles.{
  verify_bundle_signatures, verify_bundle_signatures_valid, is_good,
}
use clayseal_receipts.Revocation.{registry_from_dict, is_revoked_at_seq}
use clayseal_receipts.Revocation.Laws.{revoke_all, revoked_by, is_revoked_at_seq-revoke_all}
use clayseal_receipts.Scenarios.Platforms.{key_pairs}

-- a tree whose hash counts
abbrev counter : Hasher ℕ ℕ
counter = record { empty = 0; leaf = λ n. n; node = λ l r. 2 * l + 3 * r }

abbrev seven : List ℕ
seven = 4 ∷ 1 ∷ 5 ∷ 9 ∷ 2 ∷ 6 ∷ 8 ∷ []

root_fuel_enough_example : root_fuel counter 7 seven ≡ root_fuel counter 9 seven
root_fuel_enough_example = root_fuel_enough counter 7 9 seven (omega arith) (omega arith)

rfc6962_root-Mth_example : Mth counter seven 470 ↔ (470 ≡ rfc6962_root counter seven)
rfc6962_root-Mth_example = rfc6962_root-Mth counter seven 470

inclusion_path-none_iff_example :
    (rfc6962_inclusion_path counter 7 seven ≡ none) ↔ (length seven ≤ 7)
inclusion_path-none_iff_example = inclusion_path-none_iff counter seven 7

consistency_of_six :
    (path : List ℕ) × (rfc6962_consistency_path counter 6 seven ≡ some path)
    × (rfc6962_consistency_roots counter 6 7 path (rfc6962_root counter (take 6 seven))
        ≡ some (rfc6962_root counter (take 6 seven), rfc6962_root counter seven))
consistency_of_six = consistency_roots-consistency_path counter seven 6 (omega arith) (omega arith)

abbrev hash_text : String → String
hash_text s = s

abbrev signature : Signature
signature = record {
  alg = some "ed25519";
  key_id = some "key";
  public_key = some "key";
  signature = some "text";
  role = none;
}

abbrev bundle : List Signature
bundle = signature ∷ record signature { public_key = some "other" } ∷ []

verify_bundle_signatures_valid_example :
    ((verify_bundle_signatures key_pairs hash_text "text" ("key" ∷ []) [] bundle).valid ≡ true) ↔ (
      (is_nil bundle ≡ false)
      × (all_of (is_good key_pairs hash_text "text" ("key" ∷ []) []) bundle ≡ true))
verify_bundle_signatures_valid_example =
    verify_bundle_signatures_valid key_pairs hash_text "text" ("key" ∷ []) [] bundle

abbrev history : List (String × ℤ)
history = ("key", pos 5) ∷ ("key", pos 3) ∷ ("other", pos 1) ∷ []

is_revoked_at_seq-revoke_all_example :
    is_revoked_at_seq (revoke_all history (registry_from_dict [])) "key" (pos 4)
    ≡ revoked_by history "key" (pos 4)
is_revoked_at_seq-revoke_all_example = is_revoked_at_seq-revoke_all history "key" (pos 4)
