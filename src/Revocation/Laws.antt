-- ===== src/Revocation/Laws.antt =====
-- Revocation is by sequence number, and is never undone or moved later (revocation.py).
use clayseal_receipts.Prelude.{
  String, ◌≡◌, refl, ◌∙◌, some, any_of, Bool, true, ◌||◌, ◌&&◌, false, List, [], ◌∷◌, ◌==◌,
  string_eq, lookup, if◌then◌else◌, ℤ, pos, negsuc, leℤ, ltℤ, arith, eq_iff, Option-cases, inl, inr,
}
use clayseal_receipts.Revocation.{
  registry_from_dict, SignerRevocationRegistry, revoke, assign, is_revoked_at_seq,
}

lookup-assign :
    (k j : String) (v : ℤ) (m : List (String × ℤ))
    → lookup j (assign k v m) ≡ (if k == j then some v else lookup j m)
lookup-assign k j v [] = refl
lookup-assign k j v ((i, w) ∷ m) =
    ground (arith, eq_iff k j, eq_iff i k, eq_iff i j, lookup-assign k j v m)

leℤ_of_ltℤ : (a b c : ℤ) → leℤ a b ≡ true → ltℤ c a ≡ true → leℤ c b ≡ true
leℤ_of_ltℤ (pos a) (pos b) (pos c) h k = ground arith
leℤ_of_ltℤ (pos a) (pos b) (negsuc c) h k = refl
leℤ_of_ltℤ (pos a) (negsuc b) c h k = cc
leℤ_of_ltℤ (negsuc a) b (pos c) h k = cc
leℤ_of_ltℤ (negsuc a) (pos b) (negsuc c) h k = refl
leℤ_of_ltℤ (negsuc a) (negsuc b) (negsuc c) h k = ground arith

leℤ_of_not_ltℤ : (a b c : ℤ) → leℤ a b ≡ true → ltℤ a c ≡ false → leℤ c b ≡ true
leℤ_of_not_ltℤ (pos a) (pos b) (pos c) h k = ground arith
leℤ_of_not_ltℤ (pos a) (pos b) (negsuc c) h k = refl
leℤ_of_not_ltℤ (pos a) (negsuc b) c h k = cc
leℤ_of_not_ltℤ (negsuc a) b (pos c) h k = cc
leℤ_of_not_ltℤ (negsuc a) (pos b) (negsuc c) h k = refl
leℤ_of_not_ltℤ (negsuc a) (negsuc b) (negsuc c) h k = ground arith

-- After a key is revoked from a sequence number on, a key is revoked at a number exactly if it was
-- revoked there before, or it is that key and the number is not below the one given: a revocation
-- is never undone, never moved later, and touches no other key.
pub is_revoked_at_seq-revoke :
    (r : SignerRevocationRegistry) (k j : String) (at seq : ℤ)
    → is_revoked_at_seq (revoke k at r) j seq
      ≡ (is_revoked_at_seq r j seq || (k == j && leℤ at seq))
unfolding is_revoked_at_seq revoke
is_revoked_at_seq-revoke r k j at seq = elim (Option-cases (lookup k r.entries)) [
  | inl e ↦ ground (arith, lookup-assign k j at r.entries, eq_iff k j)
  | inr (t, e) ↦ ground (
    arith,
    lookup-assign k j at r.entries,
    eq_iff k j,
    leℤ_of_ltℤ t seq at,
    leℤ_of_not_ltℤ at seq t,
  )
]

-- the registry after a list of revocations, the first one first
abbrev pub revoke_all : List (String × ℤ) → SignerRevocationRegistry → SignerRevocationRegistry
revoke_all [] r = r
revoke_all ((k, at) ∷ rest) r = revoke_all rest (revoke k at r)

-- what a history of revocations says of a key and a number, whatever their order
abbrev pub revoked_by : List (String × ℤ) → String → ℤ → Bool
revoked_by history j seq = any_of (λ (e : String × ℤ). e.0 == j && leℤ e.1 seq) history

revoke_all-revoked_by :
    (history : List (String × ℤ)) (r : SignerRevocationRegistry) (j : String) (seq : ℤ)
    → is_revoked_at_seq (revoke_all history r) j seq
      ≡ (is_revoked_at_seq r j seq || revoked_by history j seq)
revoke_all-revoked_by [] r j seq = ground arith
revoke_all-revoked_by ((k, at) ∷ rest) r j seq =
    ground (
      arith,
      revoke_all-revoked_by rest (revoke k at r) j seq,
      is_revoked_at_seq-revoke r k j at seq,
    )

-- A registry that starts empty and takes any list of revocations answers as that history does: a key
-- is revoked at a number exactly if some revocation of the key is not above the number. The single
-- threshold that is kept for a key stands for all its revocations, in any order.
pub is_revoked_at_seq-revoke_all :
    (history : List (String × ℤ)) (j : String) (seq : ℤ)
    → is_revoked_at_seq (revoke_all history (registry_from_dict [])) j seq
      ≡ revoked_by history j seq
unfolding registry_from_dict is_revoked_at_seq
is_revoked_at_seq-revoke_all history j seq =
    revoke_all-revoked_by history (registry_from_dict []) j seq ∙ refl
