-- ===== src/Policy/Credentials.antt =====
-- agentauth/receipts/credential_access.py: the credential paths that a tool call names, and whether
-- they may be read. The hash of a content, where there is one, is an argument.
pub mod Paths
use clayseal_receipts.Prelude.{
  String, Option, none, some, Bool, true, false, not, ◌&&◌, ◌||◌, List, [], ◌∷◌, ◌++◌, map, ◌==◌,
  text_eq, nat_eq, ltb, length, Text, codes, strip, lower, if◌then◌else◌, is_nil, contains, any_of,
  keep, starts_with, remove_prefix, split_at, split_on,
}
use clayseal_receipts.Paths.{leading_slashes, rev_onto}
use clayseal_receipts.Paths.Patterns.{fnmatchcase}
use clayseal_receipts.Policy.{
  text, Fields, no_fields, field_of, Value, AuthorityContext, CredentialAccessPolicy,
  PolicyViolation, credential_denied,
}
use clayseal_receipts.Policy.Scopes.{contains_text}
use clayseal_receipts.Policy.Arguments.{get}

pub record PathEntry : Type 0 where
  pub path : Text
  pub content_hash : Option String

pub record CredentialAccessAttestation : Type 0 where
  pub paths : List PathEntry
  pub authorized : Bool
  pub blocked_paths : List Text

abbrev pub default_denied_patterns : List Text
default_denied_patterns =
    codes "~/.ssh/**"
    ∷ codes "~/.ssh/id_*"
    ∷ codes "~/.aws/credentials"
    ∷ codes "~/.config/gh/hosts.yml"
    ∷ codes "~/.netrc"
    ∷ codes "**/id_rsa"
    ∷ codes "**/id_ed25519"
    ∷ codes "**/.env"
    ∷ codes "**/*credentials*"
    ∷ codes "**/*secret*"
    ∷ codes "/etc/shadow"
    ∷ []

abbrev pub path_arg_keys : List Text
path_arg_keys =
    codes "path"
    ∷ codes "file_path"
    ∷ codes "filepath"
    ∷ codes "filename"
    ∷ codes "target"
    ∷ codes "source"
    ∷ codes "credential_path"
    ∷ codes "key_path"
    ∷ codes "private_key_path"
    ∷ []

abbrev read_tool_markers : List Text
read_tool_markers =
    codes "read"
    ∷ codes "load"
    ∷ codes "open"
    ∷ codes "fetch"
    ∷ codes "cat"
    ∷ codes "file"
    ∷ codes "credential"
    ∷ codes "secret"
    ∷ codes "key"
    ∷ []

unfoldable pub expand_user : Text → Text
expand_user path =
    if starts_with (codes "~/") path
    then codes "/home/user/" ++ remove_prefix (codes "~/") path
    else path

-- what `PurePosixPath` compares: the root and the parts
abbrev pub posix_parts : Text → List Text
posix_parts t =
    leading_slashes t
    ∷ keep (λ part. not (is_nil part) && not (part == codes ".")) (split_on b'/' t)

abbrev same_parts : List Text → List Text → Bool
same_parts [] [] = true
same_parts (x ∷ xs) (y ∷ ys) = x == y && same_parts xs ys
same_parts _ _ = false

abbrev pub ends_with : Text → Text → Bool
ends_with suffix t = starts_with (rev_onto suffix []) (rev_onto t [])

unfoldable pub path_matches_pattern : Text → Text → Bool
unfolding expand_user
path_matches_pattern path pattern =
    let normalized = expand_user (strip path) in
    let pat = expand_user (strip pattern) in
    if contains pat b'*' || contains pat b'?'
    then fnmatchcase normalized pat
    else same_parts (posix_parts normalized) (posix_parts pat) || ends_with pat normalized

unfoldable pub is_credential_read_tool : CredentialAccessPolicy → Text → Bool
is_credential_read_tool policy tool_name =
    if is_nil policy.read_tools
    then any_of (contains_text (lower tool_name)) read_tool_markers
    else contains policy.read_tools tool_name

abbrev pub blank : Text → Bool
blank raw = is_nil (strip raw)

-- the arguments of a path's name that are texts and not blank
unfoldable pub named_paths : Fields → List Text → List Text
named_paths args [] = []
named_paths args (key ∷ keys) =
    let later = named_paths args keys in
    elim (get key args) [
      | some (text raw) ↦ if blank raw then later else strip raw ∷ later
      | _ ↦ later
    ]

-- the other arguments that look like a path
unfoldable pub spelled_paths : Fields → List Text
spelled_paths no_fields = []
spelled_paths (field_of key value rest) =
    let later = spelled_paths rest in
    elim value [
      | text raw ↦
          if (contains raw b'/' || starts_with (codes "~") raw) && ltb (length raw) 512
          then strip raw ∷ later
          else later
      | _ ↦ later
    ]

-- `list(dict.fromkeys(paths))`
unfoldable pub first_of_each : List Text → List Text → List Text
first_of_each seen [] = []
first_of_each seen (path ∷ paths) =
    let without = first_of_each seen paths in
    let with_it = first_of_each (path ∷ seen) paths in
    if contains seen path then without else path ∷ with_it

unfoldable pub extract_path_candidates : Fields → List Text
unfolding named_paths spelled_paths first_of_each
extract_path_candidates args =
    first_of_each [] (named_paths args path_arg_keys ++ spelled_paths args)

abbrev pub is_path_scope : Text → Bool
is_path_scope scope = starts_with (codes "credential:") scope || starts_with (codes "file:") scope

abbrev pub after_colon : Text → Text
after_colon scope = elim (split_at (codes ":") scope) [
  | none ↦ scope
  | some (before, after) ↦ after
]

unfoldable pub authority_allows_path : AuthorityContext → Text → Bool
unfolding path_matches_pattern
authority_allows_path authority path =
    let listed : Text → Bool =
      λ scope. is_path_scope scope && path_matches_pattern (lower path) (after_colon scope) in
    any_of listed authority.resource_scope
    || any_of
        (λ capability.
          listed capability || contains (codes "credential:*" ∷ codes "file:*" ∷ []) capability)
        authority.capabilities

unfoldable pub path_allowed : CredentialAccessPolicy → AuthorityContext → Text → Bool
unfolding path_matches_pattern authority_allows_path
path_allowed policy authority path =
    any_of (path_matches_pattern path) policy.allowed_paths
    || authority_allows_path authority path
    || not policy.default_deny
    || not (any_of (path_matches_pattern path) policy.denied_paths)

unfoldable pub evaluate_credential_access :
    Text
    → Fields
    → CredentialAccessPolicy
    → AuthorityContext
    → Option String
    → List PolicyViolation × Option CredentialAccessAttestation
unfolding extract_path_candidates is_credential_read_tool path_allowed
evaluate_credential_access tool_name args policy authority content_hash =
    let paths = extract_path_candidates args in
    let blocked = keep (λ path. not (path_allowed policy authority path)) paths in
    if not policy.enabled
    then ([], none)
    else if is_nil paths && not (is_credential_read_tool policy tool_name)
    then ([], none)
    else (
      map credential_denied blocked,
      some (record {
        paths = map (λ path. record { path = path; content_hash = content_hash }) paths;
        authorized = is_nil blocked;
        blocked_paths = blocked;
      }),
    )
