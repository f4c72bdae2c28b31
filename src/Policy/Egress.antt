-- ===== src/Policy/Egress.antt =====
-- agentauth/receipts/egress.py: the network destinations of a tool call, and whether they are
-- allowed. `urllib.parse.urlparse` and the hash of the arguments are arguments.
pub mod Retention
pub mod Destinations
use clayseal_receipts.Prelude.{
  ℕ, zero, suc, ◌+◌, ◌/◌, ◌%◌, String, Option, none, some, Bool, true, false, not, ◌&&◌, ◌||◌, List,
  [], ◌∷◌, ◌++◌, map, ◌==◌, text_eq, nat_eq, ltb, Text, codes, strip, lower, if◌then◌else◌, is_nil,
  contains, any_of, all_of, keep, starts_with, remove_prefix, split_at,
}
use clayseal_receipts.Operations.{RawCapability, or_empty, after_last}
use clayseal_receipts.Paths.Patterns.{fnmatchcase}
use clayseal_receipts.Policy.{
  Value, text, object, array, scalar, Fields, no_fields, field_of, Items, no_items, item_of,
  AuthorityContext, EgressPolicy, PolicyViolation, egress_denied,
}
use clayseal_receipts.Policy.Scopes.{contains_text}
use clayseal_receipts.Policy.Arguments.{get, collect_fields}
use clayseal_receipts.Policy.Hosts.{host_allowed}

-- the parts of an URL; a port that is not a number raises when it is read, here `none`
pub record Url : Type 0 where
  pub scheme : Text
  pub hostname : Option Text
  pub port : Option (Option ℕ)
  pub path : Text

pub record NetworkDestination : Type 0 where
  pub host : Text
  pub scheme : Option Text
  pub port : Option ℕ
  pub path : Option Text
  pub source : Text

pub record EgressAttestation : Type 0 where
  pub destinations : List NetworkDestination
  pub arguments_hash : String
  pub authorized : Bool
  pub default_deny : Bool
  pub blocked_hosts : List Text

abbrev pub url_arg_keys : List Text
url_arg_keys =
    codes "url"
    ∷ codes "uri"
    ∷ codes "endpoint"
    ∷ codes "webhook_url"
    ∷ codes "webhook"
    ∷ codes "destination"
    ∷ codes "target_url"
    ∷ codes "callback_url"
    ∷ []

abbrev pub host_arg_keys : List Text
host_arg_keys = codes "host" ∷ codes "hostname" ∷ codes "domain" ∷ []

abbrev network_tool_markers : List Text
network_tool_markers =
    codes "http"
    ∷ codes "fetch"
    ∷ codes "post"
    ∷ codes "webhook"
    ∷ codes "curl"
    ∷ codes "request"
    ∷ codes "egress"
    ∷ codes "exfil"
    ∷ []

abbrev pub filled : Text → Option Text
filled t = if is_nil t then none else some t

unfoldable pub is_network_tool : EgressPolicy → Text → Bool
is_network_tool policy tool_name =
    if is_nil policy.network_tools
    then any_of (contains_text (lower tool_name)) network_tool_markers
    else contains policy.network_tools tool_name

abbrev pub is_url : Text → Bool
is_url raw = starts_with (codes "http://") (lower raw) || starts_with (codes "https://") (lower raw)

-- `add`: the first destination of a host is kept; the hosts seen are those of the destinations
unfoldable pub add_destination :
    NetworkDestination → List NetworkDestination → List NetworkDestination
add_destination dest destinations =
    if not (is_nil dest.host)
      && not (any_of (λ (d : NetworkDestination). d.host == dest.host) destinations)
    then destinations ++ dest ∷ []
    else destinations

abbrev pub host_only : Text → Text → NetworkDestination
host_only host source = record {
  host = host;
  scheme = none;
  port = none;
  path = none;
  source = source;
}

-- a destination or a host that was found, or that raised
abbrev pub with_found :
    Option (Option NetworkDestination) → List NetworkDestination → Option (List NetworkDestination)
with_found none destinations = none
with_found (some none) destinations = some destinations
with_found (some (some dest)) destinations = some (add_destination dest destinations)

abbrev pub with_host :
    Text → Option (Option Text) → List NetworkDestination → Option (List NetworkDestination)
with_host source none destinations = none
with_host source (some none) destinations = some destinations
with_host source (some (some host)) destinations =
    some
      (if is_nil host then destinations else add_destination (host_only host source) destinations)

-- of functions that may raise, here `none`
module _ (urlparse : Text → Option Url) where
  abbrev parsed_hostname : Text → Option (Option Text)
  parsed_hostname t = elim (urlparse t) [
    | none ↦ none
    | some url ↦ elim url.hostname [
      | none ↦ some none
      | some h ↦ some (if is_nil h then none else some (lower h))
    ]
  ]

  unfoldable pub normalize_host : Text → Option (Option Text)
  normalize_host value =
      let t = lower (strip value) in
      let bracketed : Option Text = elim (split_at (codes "]") t) [
        | none ↦ none
        | some (before, after) ↦ elim before [ [] ↦ none | c ∷ inside ↦ some (lower inside) ]
      ] in
      let before_port : Text = elim (split_at (codes ":") t) [
        | none ↦ t
        | some (before, after) ↦ before
      ] in
      if is_nil t
      then some none
      else if contains_text t (codes "://")
      then parsed_hostname t
      else if contains t b'/'
      then some none
      else if starts_with (codes "[") t && contains t b']'
      then some bracketed
      else some (filled before_port)

  -- with the argument's name as the source
  unfoldable pub host_from_url : Text → Text → Option (Option NetworkDestination)
  host_from_url source value =
      let found : Url → Text → Option (Option NetworkDestination) = λ url h. elim url.port [
        | none ↦ none
        | some port ↦ some (
            some (record {
              host = lower h;
              scheme = filled url.scheme;
              port = port;
              path = filled url.path;
              source = source;
            }))
      ] in
      elim (urlparse (strip value)) [
        | none ↦ none
        | some url ↦ elim url.hostname [
          | none ↦ some none
          | some h ↦ if is_nil h then some none else found url h
        ]
      ]

  -- one argument of a URL's name
  unfoldable pub add_url :
      Fields → Text → List NetworkDestination → Option (List NetworkDestination)
  unfolding host_from_url
  add_url args key destinations = elim (get key args) [
    | some (text raw) ↦
        if is_url raw || contains_text raw (codes "://")
        then with_found (host_from_url key raw) destinations
        else some destinations
    | _ ↦ some destinations
  ]

  unfoldable pub add_host :
      Fields → Text → List NetworkDestination → Option (List NetworkDestination)
  unfolding normalize_host
  add_host args key destinations = elim (get key args) [
    | some (text raw) ↦ with_host key (normalize_host raw) destinations
    | _ ↦ some destinations
  ]

  -- one text among the arguments
  unfoldable pub add_value :
      Text × Text → List NetworkDestination → Option (List NetworkDestination)
  unfolding host_from_url normalize_host
  add_value (arg_key, raw) destinations =
      if is_url raw || (contains_text raw (codes "://") && contains raw b'.')
      then with_found (host_from_url arg_key raw) destinations
      else if contains host_arg_keys (after_last b'.' arg_key)
      then with_host arg_key (normalize_host raw) destinations
      else some destinations

-- a loop that may raise
unfoldable pub fold_destinations {ℓ} :
    {A : Type ℓ}
    → (A → List NetworkDestination → Option (List NetworkDestination))
    → List A
    → List NetworkDestination
    → Option (List NetworkDestination)
fold_destinations step [] destinations = some destinations
fold_destinations step (a ∷ rest) destinations = elim (step a destinations) [
  | none ↦ none
  | some more ↦ fold_destinations step rest more
]

module _ (urlparse : Text → Option Url) where
  unfoldable pub extract_network_destinations :
      Text → Fields → EgressPolicy → Option (List NetworkDestination)
  unfolding fold_destinations
  extract_network_destinations tool_name args policy =
      elim (fold_destinations (add_url urlparse args) url_arg_keys []) [
        | none ↦ none
        | some by_url ↦ elim (fold_destinations (add_host urlparse args) host_arg_keys by_url) [
          | none ↦ none
          | some by_host ↦
              let all_values =
                fold_destinations (add_value urlparse) (collect_fields [] args) by_host in
              if is_network_tool policy tool_name || is_nil by_host
              then all_values
              else some by_host
        ]
      ]

module _ (urlparse : Text → Option Url) (hash_arguments : Fields → String) where
  abbrev pub verdict :
      Text
      → Fields
      → EgressPolicy
      → AuthorityContext
      → List NetworkDestination
      → List PolicyViolation × Option EgressAttestation
  verdict tool_name args policy authority destinations =
      let blocked =
        keep (λ host. not (host_allowed policy authority tool_name host))
          (map (λ (d : NetworkDestination). d.host) destinations) in
      (
        map egress_denied blocked,
        some (record {
          destinations = destinations;
          arguments_hash = hash_arguments args;
          authorized = is_nil blocked;
          default_deny = policy.default_deny;
          blocked_hosts = blocked;
        }),
      )

  unfoldable pub evaluate_egress :
      Text
      → Fields
      → EgressPolicy
      → AuthorityContext
      → Option (List PolicyViolation × Option EgressAttestation)
  unfolding extract_network_destinations
  evaluate_egress tool_name args policy authority =
      let found : Option (List PolicyViolation × Option EgressAttestation) =
        elim (extract_network_destinations urlparse tool_name args policy) [
          | none ↦ none
          | some destinations ↦ some (verdict tool_name args policy authority destinations)
        ] in
      if policy.enabled then found else some ([], none)
