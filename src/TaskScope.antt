-- ===== src/TaskScope.antt =====
-- agentauth/core/task_scope.py: mandates and authorizations compiled to a scope of paths, actions
-- and resources. A document is the fields that the code reads.
pub mod References
pub mod Paths
use clayseal_receipts.Prelude.{
  ℕ, String, Option, none, some, Bool, true, false, not, ◌&&◌, ◌||◌, List, [], ◌∷◌, ◌++◌, map, ◌==◌,
  text_eq, string_eq, nat_eq, contains, Text, codes, if◌then◌else◌, is_nil, starts_with,
  remove_prefix, lstrip_of, any_of, keep,
}
use clayseal_receipts.Mandate.{Mandate, MandateDocument, mandate_schema}
use clayseal_receipts.Resources.{is_resource_ref}
use clayseal_receipts.Paths.Patterns.{fnmatchcase}

pub record TaskScope : Type 0 where
  pub allowed_paths : List Text
  pub denied_paths : List Text
  pub allowed_actions : List Text
  pub allowed_resources : List Text
  pub task_summary : Option String
  pub mandate_id : Option String
  pub source_schema : Option String

pub record HumanAuthorization : Type 0 where
  pub allowed_paths : List Text
  pub denied_paths : List Text
  pub allowed_operations : List Text
  pub summary : Option String
  pub mandate_id : Option String
  pub grant_id : Option String

-- a document with a schema that is missing or not, read as a mandate (`none` where `from_dict`
-- raises) and as an authorization
pub record ScopeDocument (N : Type 0) : Type 0 where
  pub schema : Option String
  pub mandate : Option (Mandate N)
  pub human : HumanAuthorization
  pub has_allowed_resources : Bool
  pub has_grant_id : Bool
  pub has_scope : Bool

pub data ScopeSource (N : Type 0) : Type 0 where
  mandate_source : Mandate N → ScopeSource N
  document_source : ScopeDocument N → ScopeSource N

abbrev pub human_schema : String
human_schema = "agentauth.human_authorization.v1"

-- `a or b` of texts that may be missing
abbrev pub or_string : Option String → String → String
or_string none other = other
or_string (some s) other = if s == "" then other else s

abbrev pub truthy : Option String → Option String
truthy none = none
truthy (some s) = if s == "" then none else some s

module _ {N : Type 0} where
  unfoldable pub compile_mandate_scope : Mandate N → TaskScope
  compile_mandate_scope m = record {
    allowed_paths = [];
    denied_paths = [];
    allowed_actions = m.allowed_actions;
    allowed_resources = m.allowed_resources;
    task_summary = none;
    mandate_id = some m.grant_id;
    source_schema = some mandate_schema;
  }

  unfoldable pub compile_human_authorization : ScopeDocument N → TaskScope
  compile_human_authorization d = record {
    allowed_paths = d.human.allowed_paths;
    denied_paths = d.human.denied_paths;
    allowed_actions = d.human.allowed_operations;
    allowed_resources = [];
    task_summary = truthy d.human.summary;
    mandate_id = some (or_string d.human.mandate_id (or_string d.human.grant_id ""));
    source_schema = some (or_string d.schema human_schema);
  }

  abbrev pub mandate_scope : Option (Mandate N) → Option TaskScope
  mandate_scope none = none
  mandate_scope (some m) = some (compile_mandate_scope m)

  -- `none` is an exception
  unfoldable pub compile_task_scope : ScopeSource N → Option TaskScope
  unfolding compile_mandate_scope compile_human_authorization
  compile_task_scope (mandate_source m) = some (compile_mandate_scope m)
  compile_task_scope (document_source d) =
      let schema = or_string d.schema "" in
      if schema == mandate_schema
      then mandate_scope d.mandate
      else if schema == human_schema
      then some (compile_human_authorization d)
      else if d.has_allowed_resources || d.has_grant_id
      then mandate_scope d.mandate
      else if d.has_scope
      then some (compile_human_authorization d)
      else none

  -- an envelope without a document raises
  unfoldable pub compile_task_scope_envelope : Option (ScopeDocument N) → Option TaskScope
  unfolding compile_task_scope
  compile_task_scope_envelope none = none
  compile_task_scope_envelope (some d) = compile_task_scope (document_source d)

abbrev pub resource_entry : Text → Text
resource_entry resource =
    if is_resource_ref resource then resource else codes "resource:" ++ resource

unfoldable pub resource_scope_entries : TaskScope → List Text
resource_scope_entries scope =
    map (λ (path : Text). codes "file:" ++ path) scope.allowed_paths
    ++ map resource_entry scope.allowed_resources

-- the path as it is written, unlike that of path_matching.py
unfoldable pub raw_path_matches_any : Text → List Text → Bool
raw_path_matches_any path patterns = any_of (fnmatchcase path) patterns

-- the path that a reference with a known scheme names
unfoldable pub scheme_path : Text → Option Text
scheme_path ref =
    if starts_with (codes "file:") ref
    then some (remove_prefix (codes "file:") ref)
    else if starts_with (codes "repo_write://") ref
    then some (lstrip_of b'/' (remove_prefix (codes "repo_write://") ref))
    else if starts_with (codes "repo_read://") ref
    then some (lstrip_of b'/' (remove_prefix (codes "repo_read://") ref))
    else if starts_with (codes "repo://") ref
    then some (lstrip_of b'/' (remove_prefix (codes "repo://") ref))
    else if starts_with (codes "repo:") ref
    then some (lstrip_of b'/' (remove_prefix (codes "repo:") ref))
    else none

abbrev pub as_list : Option Text → List Text
as_list none = []
as_list (some t) = t ∷ []

-- the action's own reference may also be a bare path
unfoldable pub reference_path : Option Text → List Text
unfolding scheme_path
reference_path none = []
reference_path (some ref) =
    let bare : List Text = if contains ref b'/' && not (contains ref b':') then ref ∷ [] else [] in
    elim (scheme_path ref) [ some path ↦ path ∷ [] | none ↦ bare ]

unfoldable pub touched_paths : List Text → List Text
unfolding scheme_path
touched_paths [] = []
touched_paths (item ∷ items) = as_list (scheme_path item) ++ touched_paths items

-- the paths that are there, each once
unfoldable pub dedupe : List Text → List Text → List Text
dedupe seen [] = []
dedupe seen (path ∷ paths) =
    let without = dedupe seen paths in
    let with_it = dedupe (path ∷ seen) paths in
    if not (is_nil path) && not (contains seen path) then path ∷ with_it else without

unfoldable pub action_path_candidates : Option Text → List Text → List Text
unfolding reference_path touched_paths dedupe
action_path_candidates resource_ref touched_resources =
    dedupe [] (reference_path resource_ref ++ touched_paths touched_resources)

unfoldable pub task_scope_allows_path : TaskScope → Text → Bool
unfolding raw_path_matches_any
task_scope_allows_path scope path =
    if not (is_nil scope.denied_paths) && raw_path_matches_any path scope.denied_paths
    then false
    else if is_nil scope.allowed_paths
    then true
    else raw_path_matches_any path scope.allowed_paths
