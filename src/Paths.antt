-- ===== src/Paths.antt =====
-- agentauth/core/path_matching.py: paths are put into one spelling and matched against patterns.
-- `posixpath.normpath` and `fnmatch.fnmatchcase` are written out as the standard library has them.
pub mod Patterns
pub mod Components
pub mod Scope
use clayseal_receipts.Prelude.{
  ℕ, Bool, true, false, not, ◌&&◌, ◌||◌, List, [], ◌∷◌, ◌++◌, map, ◌==◌, text_eq, Text, codes,
  strip, starts_with, Option, none, some, eqb, if◌then◌else◌, is_nil, split_on, join_with,
}
use clayseal_receipts.Paths.Patterns.{fnmatchcase}

-- one round of the loop of `normpath`; the components so far stand last first
unfoldable pub push_component : Bool → List Text → Text → List Text
push_component absolute comps comp =
    let up : List Text = elim comps [
      | [] ↦ if absolute then [] else comp ∷ []
      | top ∷ rest ↦ if top == codes ".." then comp ∷ top ∷ rest else rest
    ] in
    if is_nil comp || comp == codes "."
    then comps
    else if comp == codes ".."
    then up
    else comp ∷ comps

unfoldable pub push_components : Bool → List Text → List Text → List Text
unfolding push_component
push_components absolute comps [] = comps
push_components absolute comps (comp ∷ rest) =
    push_components absolute (push_component absolute comps comp) rest

abbrev pub rev_onto {ℓ} : {A : Type ℓ} → List A → List A → List A
rev_onto [] acc = acc
rev_onto (x ∷ xs) acc = rev_onto xs (x ∷ acc)

-- two leading slashes are kept, three or more are one
abbrev pub leading_slashes : Text → Text
leading_slashes path =
    if starts_with (codes "//") path && not (starts_with (codes "///") path)
    then codes "//"
    else if starts_with (codes "/") path
    then codes "/"
    else []

abbrev pub or_dot : Text → Text
or_dot [] = codes "."
or_dot (c ∷ cs) = c ∷ cs

-- the components that are left, in order
unfoldable pub components : Text → List Text
unfolding push_components
components path =
    rev_onto (push_components (starts_with (codes "/") path) [] (split_on b'/' path)) []

unfoldable pub normpath : Text → Text
unfolding components
normpath path =
    if is_nil path
    then codes "."
    else or_dot (leading_slashes path ++ join_with b'/' (components path))

-- `path.strip().replace("\\", "/")`
abbrev pub unified : Text → Text
unified path = map (λ c. if eqb c 92 then b'/' else c) (strip path)

unfoldable pub normalize_path : Text → Text
unfolding normpath
normalize_path path = normpath (unified path)

unfoldable pub path_escapes_root : Text → Bool
unfolding normalize_path
path_escapes_root path =
    let norm = normalize_path path in
    starts_with (codes "/") norm || norm == codes ".." || starts_with (codes "../") norm

unfoldable pub matches_pattern : Text → List Text → Bool
matches_pattern normalized [] = false
matches_pattern normalized (pattern ∷ patterns) =
    let later = matches_pattern normalized patterns in
    if fnmatchcase normalized (strip pattern) then true else later

unfoldable pub path_matches_any : Text → List Text → Bool
unfolding normalize_path matches_pattern
path_matches_any path patterns = matches_pattern (normalize_path path) patterns

pub data ScopeVerdict : Type 0 where
  no_file_path scope_satisfied escapes_root denied_path outside_allowed : ScopeVerdict

-- the Boolean of the pair that `evaluate_path_scope` returns
abbrev pub is_allowed : ScopeVerdict → Bool
is_allowed no_file_path = true
is_allowed scope_satisfied = true
is_allowed _ = false

unfoldable pub evaluate_path_scope : Option Text → List Text → List Text → ScopeVerdict
unfolding path_escapes_root path_matches_any
evaluate_path_scope none allowed_paths denied_paths = no_file_path
evaluate_path_scope (some file_path) allowed_paths denied_paths =
    if path_escapes_root file_path
    then escapes_root
    else if not (is_nil denied_paths) && path_matches_any file_path denied_paths
    then denied_path
    else if not (is_nil allowed_paths) && not (path_matches_any file_path allowed_paths)
    then outside_allowed
    else scope_satisfied
