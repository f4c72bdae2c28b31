-- ===== src/Policy/Egress/Retention.antt =====
-- No step of the extraction loses a destination that was found (egress.py).
use clayseal_receipts.Prelude.{
  ◌≡◌, refl, Option, none, some, Bool, true, false, ◌&&◌, ◌||◌, List, [], ◌∷◌, ◌++◌, ◌==◌, text_eq,
  nat_eq, beq_self, Text, codes, arith, is_nil, contains, any_of, Bool-cases, Option-cases, inl,
  inr,
}
use clayseal_receipts.Operations.{after_last}
use clayseal_receipts.Policy.{text, object, array, scalar, Fields}
use clayseal_receipts.Policy.Scopes.{contains_text}
use clayseal_receipts.Policy.Arguments.{get}
use clayseal_receipts.Policy.Egress.{
  Url, NetworkDestination, add_destination, is_url, host_from_url, with_found, with_host, add_url,
  add_host, add_value, fold_destinations, host_arg_keys, host_only, normalize_host,
}

-- a destination of the host is there
abbrev pub has_host : Text → List NetworkDestination → Bool
has_host host destinations = any_of (λ (d : NetworkDestination). d.host == host) destinations

has_host-append :
    (h : Text) (xs ys : List NetworkDestination)
    → has_host h (xs ++ ys) ≡ (has_host h xs || has_host h ys)
has_host-append h [] ys = refl
has_host-append h (x ∷ xs) ys = ground (arith, has_host-append h xs ys)

add_destination_keeps :
    (dest : NetworkDestination) (ds : List NetworkDestination) (h : Text)
    → has_host h ds ≡ true
    → has_host h (add_destination dest ds) ≡ true
unfolding add_destination
add_destination_keeps dest ds h there = ground (arith, has_host-append h ds (dest ∷ []))

pub add_destination_adds :
    (dest : NetworkDestination) (ds : List NetworkDestination)
    → is_nil dest.host ≡ false
    → has_host dest.host (add_destination dest ds) ≡ true
unfolding add_destination
add_destination_adds dest ds h =
    ground (arith, has_host-append dest.host ds (dest ∷ []), beq_self dest.host)

-- a step that loses no host
abbrev pub Retains :
    {A : Type 0} → (A → List NetworkDestination → Option (List NetworkDestination)) → Type 0
Retains {A} step =
    (a : A) (ds more : List NetworkDestination) (h : Text)
    → step a ds ≡ some more
    → has_host h ds ≡ true
    → has_host h more ≡ true

with_found_keeps :
    (found : Option (Option NetworkDestination)) (ds more : List NetworkDestination) (h : Text)
    → with_found found ds ≡ some more
    → has_host h ds ≡ true
    → has_host h more ≡ true
with_found_keeps none ds more h e there = absurd (ground arith)
with_found_keeps (some none) ds more h e there = ground arith
with_found_keeps (some (some dest)) ds more h e there =
    ground (arith, add_destination_keeps dest ds h there)

with_host_keeps :
    (source : Text) (found : Option (Option Text)) (ds more : List NetworkDestination) (h : Text)
    → with_host source found ds ≡ some more
    → has_host h ds ≡ true
    → has_host h more ≡ true
with_host_keeps source none ds more h e there = absurd (ground arith)
with_host_keeps source (some none) ds more h e there = ground arith
with_host_keeps source (some (some host)) ds more h e there =
    ground (arith, add_destination_keeps (host_only host source) ds h there)

pub fold_destinations_keeps :
    {A : Type 0} (step : A → List NetworkDestination → Option (List NetworkDestination))
    (keeps : Retains step) (items : List A) (ds more : List NetworkDestination) (h : Text)
    → fold_destinations step items ds ≡ some more
    → has_host h ds ≡ true
    → has_host h more ≡ true
unfolding fold_destinations
fold_destinations_keeps step keeps [] ds more h e there = ground arith
fold_destinations_keeps step keeps (a ∷ rest) ds more h e there = elim (Option-cases (step a ds)) [
  | inl e' ↦ absurd (ground arith)
  | inr (next, e') ↦
      fold_destinations_keeps step keeps rest next more h (ground arith)
        (keeps a ds next h e' there)
]

module _ (urlparse : Text → Option Url) where
  pub add_url-Retains : (args : Fields) → Retains (add_url urlparse args)
  unfolding add_url
  add_url-Retains args key ds more h e there = elim (Option-cases (get key args)) [
    | inl e' ↦ ground arith
    | inr (text raw, e') ↦ elim (Bool-cases (is_url raw || contains_text raw (codes "://"))) [
      | inl q ↦ with_found_keeps (host_from_url urlparse key raw) ds more h (ground arith) there
      | inr q ↦ ground arith
    ]
    | inr (object _, e') ↦ ground arith
    | inr (array _, e') ↦ ground arith
    | inr (scalar, e') ↦ ground arith
  ]

  pub add_host-Retains : (args : Fields) → Retains (add_host urlparse args)
  unfolding add_host
  add_host-Retains args key ds more h e there = elim (Option-cases (get key args)) [
    | inl e' ↦ ground arith
    | inr (text raw, e') ↦
        with_host_keeps key (normalize_host urlparse raw) ds more h (ground arith) there
    | inr (object _, e') ↦ ground arith
    | inr (array _, e') ↦ ground arith
    | inr (scalar, e') ↦ ground arith
  ]

  pub add_value-Retains : Retains (add_value urlparse)
  unfolding add_value
  add_value-Retains (key, raw) ds more h e there =
      elim (Bool-cases (is_url raw || (contains_text raw (codes "://") && contains raw b'.'))) [
        | inl q ↦ with_found_keeps (host_from_url urlparse key raw) ds more h (ground arith) there
        | inr q ↦ elim (Bool-cases (contains host_arg_keys (after_last b'.' key))) [
          | inl q' ↦
              with_host_keeps key (normalize_host urlparse raw) ds more h (ground arith) there
          | inr q' ↦ ground arith
        ]
      ]
