-- ===== src/Operations/Attenuation.antt =====
-- When `capability_subset` of operations.py finds no excess.
use clayseal_receipts.Prelude.{
  String, ◌≡◌, refl, ◌↔◌, true, List, [], ◌∷◌, map, Text, codes, strip-strip, text_beq_iff, ◌==◌,
  ◌||◌, text_eq, beq_self, Bool-cases, inl, inr, arith,
}
use clayseal_receipts.Operations.{
  RawCapability, Capability, normalize_capabilities, allowed_by, capability_allows, as_raw,
  or_empty, extra_capabilities, capability_subset,
}

-- Normalized capabilities stay as they are when they are normalized again.
normalize_capabilities-as_raw :
    (raw : List RawCapability)
    → normalize_capabilities (map as_raw (normalize_capabilities raw)) ≡ normalize_capabilities raw
unfolding normalize_capabilities
normalize_capabilities-as_raw [] = refl
normalize_capabilities-as_raw (r ∷ rest) = ground (
  arith,
  normalize_capabilities-as_raw rest,
  strip-strip (or_empty r.resource),
  strip-strip (or_empty r.action),
)

-- A wildcard of the parent, or the very action, allows what a capability of the child allows.
allowed_by-single :
    (parent : List Capability) (cap : Capability) (action : Text)
    → allowed_by parent cap.resource cap.action ≡ true
    → (cap.action == codes "*" || cap.action == action) ≡ true
    → allowed_by parent cap.resource action ≡ true
unfolding allowed_by
allowed_by-single [] cap action h covers = cc
allowed_by-single (p ∷ parent) cap action h covers = ground (
  arith,
  allowed_by-single parent cap action,
  text_beq_iff p.action (codes "*"),
  text_beq_iff cap.action (codes "*"),
  text_beq_iff p.action cap.action,
  text_beq_iff cap.action action,
  text_beq_iff p.action action,
)

extra_capabilities-forward :
    (parent child : List Capability) (raw : List RawCapability)
    → normalize_capabilities raw ≡ parent
    → extra_capabilities raw child ≡ []
    → (resource action : Text) → allowed_by child resource action ≡ true
    → allowed_by parent resource action ≡ true
unfolding extra_capabilities capability_allows allowed_by
extra_capabilities-forward parent [] raw same none_extra resource action h = cc
extra_capabilities-forward parent (cap ∷ rest) raw same none_extra resource action h =
    let rest_none : extra_capabilities raw rest ≡ [] = ground arith in
    elim (Bool-cases (allowed_by rest resource action)) [
      | inl q ↦ extra_capabilities-forward parent rest raw same rest_none resource action q
      | inr q ↦
          ground (arith, allowed_by-single parent cap action, text_beq_iff cap.resource resource)
    ]

extra_capabilities-backward :
    (parent child : List Capability) (raw : List RawCapability)
    → normalize_capabilities raw ≡ parent
    → ((resource action : Text)
        → allowed_by child resource action ≡ true
        → allowed_by parent resource action ≡ true)
    → extra_capabilities raw child ≡ []
unfolding extra_capabilities capability_allows allowed_by
extra_capabilities-backward parent [] raw same all = refl
extra_capabilities-backward parent (cap ∷ rest) raw same all =
    let later =
      extra_capabilities-backward parent rest raw same
        (λ resource action h. all resource action (ground arith)) in
    let own =
      all cap.resource cap.action (ground (arith, beq_self cap.resource, beq_self cap.action)) in
    ground arith

-- No excess is found exactly if the parent's capabilities allow every operation that the child's
-- allow.
pub capability_subset_iff :
    (child parent : List RawCapability) (label : String)
    → (capability_subset child parent label ≡ []) ↔ (
        (resource action : Text)
        → capability_allows child resource action ≡ true
        → capability_allows parent resource action ≡ true)
unfolding capability_subset capability_allows
capability_subset_iff child parent label = (
  (λ h.
      extra_capabilities-forward (normalize_capabilities parent) (normalize_capabilities child) _
        (normalize_capabilities-as_raw parent) (none_extra h)),
  backward,
)
  where
    none_extra :
        capability_subset child parent label ≡ []
        → extra_capabilities
            (map as_raw (normalize_capabilities parent))
            (normalize_capabilities child)
          ≡ []
    none_extra h = ground arith

    backward :
        ((resource action : Text)
          → capability_allows child resource action ≡ true
          → capability_allows parent resource action ≡ true)
        → capability_subset child parent label ≡ []
    backward all =
        let e =
          extra_capabilities-backward (normalize_capabilities parent) (normalize_capabilities child)
            (map as_raw (normalize_capabilities parent)) (normalize_capabilities-as_raw parent)
            all in
        ground arith
