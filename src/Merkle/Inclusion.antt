-- ===== src/Merkle/Inclusion.antt =====
-- Audit paths of c2sp.py: every leaf of a log has one, and it leads back to the log's root.
use clayseal_receipts.Prelude.{
  ℕ, zero, suc, ◌+◌, ◌-◌, ◌≤◌, ◌<◌, ◌≡◌, ◌↔◌, refl, inl, inr, List, [], ◌∷◌, ◌++◌, none, some,
  arith, ltb, length, take, drop, get_elem?, get_elem?-take, get_elem?-drop, unsnoc-append,
  Bool-cases, lt→ltb, ltb→lt, sym, ◌∙◌,
}
use clayseal_receipts.Merkle.Split.{largest_power_of_two_below, largest_power_of_two_below_bounds}
use clayseal_receipts.Merkle.Root.{rfc6962_root_split, length-take_split, length-drop_split}
use clayseal_receipts.Merkle.{
  Hasher, rfc6962_root, inclusion_fuel, rfc6962_inclusion_path, recon, rfc6962_root_from_path,
}

module _ {E H : Type 0} (h : Hasher E H) where
  recon_left :
      (f i n : ℕ) (lh r s : H) (p : List H)
      → 2 ≤ n
      → i < largest_power_of_two_below n
      → recon h f lh i (largest_power_of_two_below n) p ≡ some r
      → recon h (suc f) lh i n (p ++ s ∷ []) ≡ some (h.node r s)
  unfolding recon
  recon_left f i n lh r s p two left e = rw unsnoc-append (ground arith)

  recon_right :
      (f i n : ℕ) (lh r s : H) (p : List H)
      → 2 ≤ n
      → largest_power_of_two_below n ≤ i
      → recon h f lh (i - largest_power_of_two_below n) (n - largest_power_of_two_below n) p
        ≡ some r
      → recon h (suc f) lh i n (p ++ s ∷ []) ≡ some (h.node s r)
  unfolding recon
  recon_right f i n lh r s p two right e = rw unsnoc-append (ground arith)

  inclusion_left :
      (f i : ℕ) (xs : List E) (q : List H)
      → 2 ≤ length xs
      → i < length xs
      → i < largest_power_of_two_below (length xs)
      → inclusion_fuel h f i (take (largest_power_of_two_below (length xs)) xs) ≡ some q
      → inclusion_fuel h (suc f) i xs
        ≡ some (q ++ rfc6962_root h (drop (largest_power_of_two_below (length xs)) xs) ∷ [])
  unfolding inclusion_fuel
  inclusion_left f i xs q two inside left e = ground arith

  inclusion_right :
      (f i : ℕ) (xs : List E) (q : List H)
      → 2 ≤ length xs
      → i < length xs
      → largest_power_of_two_below (length xs) ≤ i
      → inclusion_fuel h f
          (i - largest_power_of_two_below (length xs))
          (drop (largest_power_of_two_below (length xs)) xs)
        ≡ some q
      → inclusion_fuel h (suc f) i xs
        ≡ some (q ++ rfc6962_root h (take (largest_power_of_two_below (length xs)) xs) ∷ [])
  unfolding inclusion_fuel
  inclusion_right f i xs q two inside right e = ground arith

  -- what an audit path for leaf i must do
  abbrev Leads : ℕ → ℕ → List E → Type 0
  Leads f i xs =
      (p : List H) × (e : E) × (inclusion_fuel h f i xs ≡ some p)
      × (get_elem? xs i ≡ some e)
      × (recon h f (h.leaf e) i (length xs) p ≡ some (rfc6962_root h xs))

  module _ (f i : ℕ) (xs : List E) (two : 2 ≤ length xs) (inside : i < length xs) where
    Leads-left :
        i < largest_power_of_two_below (length xs)
        → Leads f i (take (largest_power_of_two_below (length xs)) xs)
        → Leads (suc f) i xs
    Leads-left left (p, e, found, there, back) = (
      p ++ rfc6962_root h (drop (largest_power_of_two_below (length xs)) xs) ∷ [],
      e,
      inclusion_left f i xs p two inside left found,
      sym (get_elem?-take (largest_power_of_two_below (length xs)) i xs left) ∙ there,
      rw (rfc6962_root_split h xs two) (
          recon_left f i (length xs) (h.leaf e) _ _ p two left
            (rw (length-take_split xs two) at back)),
    )

    Leads-right :
        largest_power_of_two_below (length xs) ≤ i
        → Leads f
            (i - largest_power_of_two_below (length xs))
            (drop (largest_power_of_two_below (length xs)) xs)
        → Leads (suc f) i xs
    Leads-right right (p, e, found, there, back) =
        let k = largest_power_of_two_below (length xs) in
        let size : length (drop k xs) ≡ length xs - k = omega (arith, length-drop_split xs two) in
        let place : k + (i - k) ≡ i = omega arith in
        (
          p ++ rfc6962_root h (take k xs) ∷ [],
          e,
          inclusion_right f i xs p two inside right found,
          (rw place at (sym (get_elem?-drop k (i - k) xs))) ∙ there,
          rw (rfc6962_root_split h xs two)
              (recon_right f i (length xs) (h.leaf e) _ _ p two right (rw size at back)),
        )

  leads : (f i : ℕ) (xs : List E) → length xs ≤ f → i < length xs → Leads f i xs
  unfolding inclusion_fuel recon rfc6962_root
  leads zero i xs p q = absurd (omega arith)
  leads (suc f) i [] p q = absurd (omega arith)
  leads (suc f) zero (x ∷ []) p q = ([], x, refl, refl, refl)
  leads (suc f) (suc i) (x ∷ []) p q = absurd (omega arith)
  leads (suc f) i (x ∷ y ∷ xs) p q =
      let k = largest_power_of_two_below (length (x ∷ y ∷ xs)) in
      let b = largest_power_of_two_below_bounds (length (x ∷ y ∷ xs)) (omega arith) in
      let l = length-take_split (x ∷ y ∷ xs) (omega arith) in
      let r = length-drop_split (x ∷ y ∷ xs) (omega arith) in
      elim (Bool-cases (ltb i k)) [
        | inl left ↦
            Leads-left f i (x ∷ y ∷ xs) (omega arith) q (ltb→lt i k left)
              (leads f i (take k (x ∷ y ∷ xs)) (omega arith) (ground (arith, ltb→lt i k left)))
        | inr right ↦
            let past : k ≤ i = ground arith in
            Leads-right f i (x ∷ y ∷ xs) (omega arith) q past
              (leads f (i - k) (drop k (x ∷ y ∷ xs)) (omega arith) (omega arith))
      ]

  -- Every index of a log that holds entries up to it has an audit path, and verification of that
  -- path, from the hash of the entry there and at the log's size, returns the log's root.
  pub root_from_path-inclusion_path :
      (entries : List E) (index : ℕ)
      → index < length entries
      → (path : List H) × (entry : E) × (rfc6962_inclusion_path h index entries ≡ some path)
        × (get_elem? entries index ≡ some entry)
        × (rfc6962_root_from_path h (h.leaf entry) index (length entries) path
            ≡ some (rfc6962_root h entries))
  unfolding rfc6962_inclusion_path rfc6962_root_from_path
  root_from_path-inclusion_path entries index inside =
      let (path, entry, found, there, back) =
        leads (length entries) index entries (omega arith) inside in
      (path, entry, found, there, rw (lt→ltb index (length entries) inside) back)

  inclusion_path_outside :
      (entries : List E) (index : ℕ)
      → length entries ≤ index
      → rfc6962_inclusion_path h index entries ≡ none
  unfolding rfc6962_inclusion_path inclusion_fuel
  inclusion_path_outside [] index h = refl
  inclusion_path_outside (x ∷ xs) index h = ground arith

  -- Exactly an index past the end has no audit path: there alone the source raises `IndexError`.
  pub inclusion_path-none_iff :
      (entries : List E) (index : ℕ)
      → (rfc6962_inclusion_path h index entries ≡ none) ↔ (length entries ≤ index)
  inclusion_path-none_iff entries index = (
    λ missing. elim (Bool-cases (ltb index (length entries))) [
      | inr outside ↦ ground arith
      | inl inside ↦
          let (path, entry, found, there, back) =
            root_from_path-inclusion_path entries index (ltb→lt index (length entries) inside) in
          absurd (ground arith)
    ],
    inclusion_path_outside entries index,
  )
