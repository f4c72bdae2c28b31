-- ===== src/Policy/Egress/Destinations.antt =====
-- A tool call that the egress policy lets pass names no URL whose host is not allowed (egress.py).
use clayseal_receipts.Prelude.{
  String, ◌≡◌, refl, sym, ap, ◌∙◌, Option, some, some-inj, Bool, true, false, not, ◌||◌, List, [],
  ◌∷◌, map, ◌==◌, text_eq, nat_eq, text_beq_iff, Text, codes, arith, if◌then◌else◌, is_nil,
  contains, keep, Bool-cases, Option-cases, inl, inr,
}
use clayseal_receipts.Policy.{text, Fields, AuthorityContext, EgressPolicy, egress_denied}
use clayseal_receipts.Policy.Scopes.{contains_text}
use clayseal_receipts.Policy.Hosts.{host_allowed}
use clayseal_receipts.Policy.Arguments.{get, collect_fields}
use clayseal_receipts.Policy.Egress.{
  Url, NetworkDestination, EgressAttestation, add_destination, is_url, host_from_url, with_found,
  add_url, add_host, add_value, fold_destinations, extract_network_destinations, evaluate_egress,
  url_arg_keys, host_arg_keys, is_network_tool,
}
use clayseal_receipts.Policy.Egress.Retention.{
  has_host, add_destination_adds, fold_destinations_keeps, add_url-Retains, add_host-Retains,
  add_value-Retains,
}

module _ (urlparse : Text → Option Url) where
  -- an argument of a URL's name whose text has a host
  pub record HasUrl (args : Fields) (key raw : Text) (dest : NetworkDestination) : Type 0 where
    pub named : contains url_arg_keys key ≡ true
    pub given : get key args ≡ some (text raw)
    pub url : contains_text raw (codes "://") ≡ true
    pub parsed : host_from_url urlparse key raw ≡ some (some dest)
    pub host_there : is_nil dest.host ≡ false

  add_url_lem :
      (args : Fields) (key raw : Text) (ds : List NetworkDestination)
      → get key args ≡ some (text raw)
      → contains_text raw (codes "://") ≡ true
      → add_url urlparse args key ds ≡ with_found (host_from_url urlparse key raw) ds
  unfolding add_url
  add_url_lem args key raw ds given url = rw (add_url, given) (or_true (is_url raw) url)
    where
      or_true :
          (b : Bool)
          → contains_text raw (codes "://") ≡ true
          → (if b || contains_text raw (codes "://")
              then with_found (host_from_url urlparse key raw) ds
              else some ds)
            ≡ with_found (host_from_url urlparse key raw) ds
      or_true true h = refl
      or_true false h = rw h

  add_url_finds :
      (args : Fields) (key raw : Text) (dest : NetworkDestination)
      (ds more : List NetworkDestination)
      → HasUrl args key raw dest
      → add_url urlparse args key ds ≡ some more
      → has_host dest.host more ≡ true
  add_url_finds args key raw dest ds more u e =
      let found : some (add_destination dest ds) ≡ some more =
        ap (λ found. with_found found ds) (sym u.parsed)
        ∙ sym (add_url_lem args key raw ds u.given u.url)
        ∙ e in
      rw (← some-inj found) (add_destination_adds dest ds u.host_there)

  fold_destinations_finds :
      (args : Fields) (key raw : Text) (dest : NetworkDestination) (keys : List Text)
      (ds more : List NetworkDestination)
      → HasUrl args key raw dest
      → contains keys key ≡ true
      → fold_destinations (add_url urlparse args) keys ds ≡ some more
      → has_host dest.host more ≡ true
  unfolding fold_destinations
  fold_destinations_finds args key raw dest [] ds more u listed e = cc
  fold_destinations_finds args key raw dest (k ∷ keys) ds more u listed e =
      elim (Option-cases (add_url urlparse args k ds)) [
        | inl e' ↦ absurd (ground arith)
        | inr (next, e') ↦ elim (Bool-cases (k == key)) [
          | inl q ↦
              fold_destinations_keeps (add_url urlparse args) (add_url-Retains urlparse args) keys
                next more dest.host (ground arith)
                (add_url_finds args key raw dest ds next u (same k next e' q))
          | inr q ↦
              fold_destinations_finds args key raw dest keys next more u (ground arith)
                (ground arith)
        ]
      ]
    where
      same :
          (k : Text) (next : List NetworkDestination)
          → add_url urlparse args k ds ≡ some next
          → (k == key) ≡ true
          → add_url urlparse args key ds ≡ some next
      same k next e' q = rw (← (text_beq_iff k key).0 q) e'

  extract_network_destinations_finds :
      (tool_name : Text) (args : Fields) (policy : EgressPolicy) (key raw : Text)
      (dest : NetworkDestination) (ds : List NetworkDestination)
      → HasUrl args key raw dest
      → extract_network_destinations urlparse tool_name args policy ≡ some ds
      → has_host dest.host ds ≡ true
  unfolding extract_network_destinations
  extract_network_destinations_finds tool_name args policy key raw dest ds u e =
      elim (Option-cases (fold_destinations (add_url urlparse args) url_arg_keys [])) [
        | inl e₁ ↦ absurd (ground arith)
        | inr (by_url, e₁) ↦
            elim (Option-cases (fold_destinations (add_host urlparse args) host_arg_keys by_url)) [
              | inl e₂ ↦ absurd (ground arith)
              | inr (by_host, e₂) ↦
                  let there =
                    fold_destinations_keeps (add_host urlparse args)
                      (add_host-Retains urlparse args) host_arg_keys by_url by_host dest.host e₂
                      (fold_destinations_finds args key raw dest url_arg_keys [] by_url u u.named
                        e₁) in
                  elim (Bool-cases (is_network_tool policy tool_name || is_nil by_host)) [
                    | inl q ↦
                        fold_destinations_keeps (add_value urlparse) (add_value-Retains urlparse)
                          (collect_fields [] args) by_host ds dest.host (ground arith) there
                    | inr q ↦ ground (arith, there)
                  ]
            ]
      ]

-- of hosts none of which is refused
none_refused :
    (allowed : Text → Bool) (ds : List NetworkDestination) (h : Text)
    → map egress_denied
        (keep (λ host. not (allowed host)) (map (λ (d : NetworkDestination). d.host) ds))
      ≡ []
    → has_host h ds ≡ true
    → allowed h ≡ true
none_refused allowed [] h e there = cc
none_refused allowed (d ∷ ds) h e there = elim (Bool-cases (allowed d.host)) [
  | inr q ↦ absurd (ground arith)
  | inl q ↦ elim (Bool-cases (d.host == h)) [
    | inl q' ↦ rw (← (text_beq_iff d.host h).0 q') q
    | inr q' ↦ none_refused allowed ds h (ground arith) (ground arith)
  ]
]

-- If egress is checked and a tool call is found without violations, then the host of a URL that
-- stands in one of the URL arguments is one that the policy's list or the authority allows, or the
-- policy denies nothing by default.
pub evaluate_egress-host_allowed :
    (urlparse : Text → Option Url) (hash_arguments : Fields → String) (tool_name : Text)
    (args : Fields) (policy : EgressPolicy) (authority : AuthorityContext) (key raw : Text)
    (dest : NetworkDestination) (attestation : Option EgressAttestation)
    → policy.enabled ≡ true
    → HasUrl urlparse args key raw dest
    → evaluate_egress urlparse hash_arguments tool_name args policy authority
      ≡ some ([], attestation)
    → host_allowed policy authority tool_name dest.host ≡ true
unfolding evaluate_egress
evaluate_egress-host_allowed urlparse hash_arguments tool_name args policy authority key raw dest
      attestation on u e =
    elim (Option-cases (extract_network_destinations urlparse tool_name args policy)) [
      | inl e' ↦ absurd (ground arith)
      | inr (ds, e') ↦
          none_refused (host_allowed policy authority tool_name) ds dest.host (ground arith)
            (extract_network_destinations_finds urlparse tool_name args policy key raw dest ds u e')
    ]
