-- ===== src/Policy/Credentials/Paths.antt =====
-- A tool call that the credential policy lets pass names no path that is not allowed
-- (credential_access.py).
use clayseal_receipts.Prelude.{
  String, ◌≡◌, refl, Option, none, some, Bool, true, false, not, ◌&&◌, ◌||◌, List, [], ◌∷◌, ◌++◌,
  map, ◌==◌, text_eq, nat_eq, text_beq_iff, beq_self, Text, codes, arith, if◌then◌else◌, is_nil,
  contains, keep, ltb, length, strip, starts_with, Bool-cases, Option-cases, inl, inr,
}
use clayseal_receipts.Policy.{
  Value, text, object, array, scalar, Fields, no_fields, field_of, AuthorityContext,
  CredentialAccessPolicy, PolicyViolation, credential_denied,
}
use clayseal_receipts.Policy.Arguments.{get}
use clayseal_receipts.Policy.Credentials.{
  CredentialAccessAttestation, named_paths, spelled_paths, first_of_each, extract_path_candidates,
  path_arg_keys, blank, is_credential_read_tool, path_allowed, evaluate_credential_access,
}

contains-append :
    (xs ys : List Text) (t : Text) → contains (xs ++ ys) t ≡ (contains xs t || contains ys t)
contains-append [] ys t = refl
contains-append (x ∷ xs) ys t = ground (arith, contains-append xs ys t)

contains-first_of_each :
    (seen paths : List Text) (t : Text)
    → contains (first_of_each seen paths) t ≡ (contains paths t && not (contains seen t))
unfolding first_of_each
contains-first_of_each seen [] t = refl
contains-first_of_each seen (p ∷ paths) t = ground (
  arith,
  contains-first_of_each seen paths t,
  contains-first_of_each (p ∷ seen) paths t,
  text_beq_iff p t,
)

-- an argument that is looked at as a path: one of the names, or a text that looks like one
abbrev pub is_path_argument : Text → Text → Bool
is_path_argument key raw =
    (contains path_arg_keys key && not (blank raw))
    || ((contains raw b'/' || starts_with (codes "~") raw) && ltb (length raw) 512)

named_paths_lem :
    (args : Fields) (key raw : Text) (keys : List Text)
    → get key args ≡ some (text raw)
    → blank raw ≡ false
    → contains keys key ≡ true
    → contains (named_paths args keys) (strip raw) ≡ true
unfolding named_paths
named_paths_lem args key raw [] given there listed = cc
named_paths_lem args key raw (k ∷ keys) given there listed =
    let later : contains keys key ≡ true → contains (named_paths args keys) (strip raw) ≡ true =
      named_paths_lem args key raw keys given there in
    elim (Bool-cases (k == key)) [
      | inl q ↦ found (some (text raw)) (rw ((text_beq_iff k key).0 q) given)
      | inr q ↦ elim (Option-cases (get k args)) [
        | inl e ↦ ground (arith, later)
        | inr (text t, e) ↦ ground (arith, later)
        | inr (object _, e) ↦ ground (arith, later)
        | inr (array _, e) ↦ ground (arith, later)
        | inr (scalar, e) ↦ ground (arith, later)
      ]
    ]
  where
    found :
        (value : Option Value)
        → get k args ≡ some (text raw)
        → contains (named_paths args (k ∷ keys)) (strip raw) ≡ true
    found value e = ground (arith, beq_self (strip raw))

spelled_paths_lem :
    (args : Fields) (key raw : Text)
    → get key args ≡ some (text raw)
    → (contains raw b'/' || starts_with (codes "~") raw) && ltb (length raw) 512 ≡ true
    → contains (spelled_paths args) (strip raw) ≡ true
unfolding spelled_paths
spelled_paths_lem no_fields key raw given looks = cc
spelled_paths_lem (field_of k (text t) rest) key raw given looks = elim (Bool-cases (k == key)) [
  | inl q ↦ ground (arith, beq_self (strip raw))
  | inr q ↦ ground (arith, spelled_paths_lem rest key raw)
]
spelled_paths_lem (field_of k (object _) rest) key raw given looks =
    spelled_paths_lem rest key raw (ground arith) looks
spelled_paths_lem (field_of k (array _) rest) key raw given looks =
    spelled_paths_lem rest key raw (ground arith) looks
spelled_paths_lem (field_of k scalar rest) key raw given looks =
    spelled_paths_lem rest key raw (ground arith) looks

none_refused :
    (allowed : Text → Bool) (paths : List Text) (t : Text)
    → map credential_denied (keep (λ path. not (allowed path)) paths) ≡ []
    → contains paths t ≡ true
    → allowed t ≡ true
none_refused allowed [] t e there = cc
none_refused allowed (p ∷ paths) t e there = elim (Bool-cases (allowed p)) [
  | inr q ↦ absurd (ground arith)
  | inl q ↦ elim (Bool-cases (p == t)) [
    | inl q' ↦ rw (← (text_beq_iff p t).0 q') q
    | inr q' ↦ none_refused allowed paths t (ground arith) (ground arith)
  ]
]

first_of_each-append :
    (xs ys : List Text) (t : Text)
    → contains xs t || contains ys t ≡ true
    → contains (first_of_each [] (xs ++ ys)) t ≡ true
first_of_each-append xs ys t h =
    ground (arith, contains-first_of_each [] (xs ++ ys) t, contains-append xs ys t)

and_left : (a b : Bool) → a && b ≡ true → a ≡ true
and_left a b h = ground arith

and_right : (a b : Bool) → a && b ≡ true → b ≡ true
and_right a b h = ground arith

false_of_not : (a : Bool) → not a ≡ true → a ≡ false
false_of_not a h = ground arith

or_left : (a b : Bool) → a ≡ true → a || b ≡ true
or_left a b h = ground arith

or_right : (a b : Bool) → b ≡ true → a || b ≡ true
or_right a b h = ground arith

or_false : (a b : Bool) → a ≡ false → a || b ≡ true → b ≡ true
or_false a b h k = ground arith

abbrev first : List PolicyViolation × Option CredentialAccessAttestation → List PolicyViolation
first (violations, attestation) = violations

no_violations :
    (enabled quiet : Bool) (xs : List PolicyViolation) (a : CredentialAccessAttestation)
    → enabled ≡ true
    → quiet ≡ false
    → first (if not enabled then ([], none) else if quiet then ([], none) else (xs, some a)) ≡ []
    → xs ≡ []
no_violations true false xs a on loud e = e
no_violations false quiet xs a on loud e = cc
no_violations true true xs a on loud e = cc

not_nil : (xs : List Text) (t : Text) (b : Bool) → contains xs t ≡ true → is_nil xs && b ≡ false
not_nil [] t b h = cc
not_nil (x ∷ xs) t b h = refl

candidates_contain :
    (args : Fields) (key raw : Text)
    → get key args ≡ some (text raw)
    → is_path_argument key raw ≡ true
    → contains (extract_path_candidates args) (strip raw) ≡ true
unfolding extract_path_candidates
candidates_contain args key raw given looks =
    elim (Bool-cases (contains path_arg_keys key && not (blank raw))) [
      | inl q ↦
          first_of_each-append (named_paths args path_arg_keys) (spelled_paths args) (strip raw) (
            or_left _ _ (
              named_paths_lem args key raw path_arg_keys given
                (false_of_not (blank raw) (and_right _ _ q)) (and_left _ _ q)))
      | inr q ↦
          first_of_each-append (named_paths args path_arg_keys) (spelled_paths args) (strip raw)
            (or_right _ _ (spelled_paths_lem args key raw given (or_false _ _ q looks)))
    ]

-- If credential access is checked and a tool call is found without violations, then a text among
-- its arguments that stands under one of the names for a path, or that looks like a path and is
-- shorter than 512 characters, is a path that is allowed: by the policy's list, by the authority,
-- because nothing is denied by default, or because no denied pattern matches it.
pub evaluate_credential_access-path_allowed :
    (tool_name : Text) (args : Fields) (policy : CredentialAccessPolicy)
    (authority : AuthorityContext) (content_hash : Option String) (key raw : Text)
    → policy.enabled ≡ true
    → get key args ≡ some (text raw)
    → is_path_argument key raw ≡ true
    → (evaluate_credential_access tool_name args policy authority content_hash).0 ≡ []
    → path_allowed policy authority (strip raw) ≡ true
unfolding evaluate_credential_access
evaluate_credential_access-path_allowed tool_name args policy authority content_hash key raw on
      given looks e =
    none_refused (path_allowed policy authority) (extract_path_candidates args) (strip raw)
      (no_violations policy.enabled
        (is_nil (extract_path_candidates args) && not (is_credential_read_tool policy tool_name)) _
        _ on
        (not_nil (extract_path_candidates args) (strip raw) _
          (candidates_contain args key raw given looks))
        e)
      (candidates_contain args key raw given looks)
