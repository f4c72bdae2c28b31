-- ===== src/Scenarios/Policies.antt =====
-- Paths, references, assurance and task scopes at concrete inputs.
use clayseal_receipts.Prelude.{
  ◌≡◌, ◌↔◌, ◌⊎◌, refl, some, true, false, ◌||◌, List, [], ◌∷◌, Text, codes, is_nil, contains,
  text_eq, nat_eq, strip, starts_with, split_on,
}
use clayseal_receipts.Paths.{evaluate_path_scope, normalize_path, path_matches_any}
use clayseal_receipts.Paths.Patterns.{fnmatchcase}
use clayseal_receipts.Paths.Scope.{evaluate_path_scope-in_root}
use clayseal_receipts.TaskScope.{action_path_candidates}
use clayseal_receipts.TaskScope.Paths.{
  distinct, ReferenceNames, TouchedNames, action_path_candidates_exact,
}

abbrev sources : List Text
sources = codes "src/*" ∷ []

abbrev secrets : List Text
secrets = codes "src/secret*" ∷ []

evaluate_path_scope-in_root_example :
    (starts_with (codes "/") (normalize_path (codes "lib/../src//a")) ≡ false)
    × (contains (split_on b'/' (normalize_path (codes "lib/../src//a"))) (codes "..") ≡ false)
    × (path_matches_any (codes "lib/../src//a") secrets ≡ false)
    × ((is_nil sources || path_matches_any (codes "lib/../src//a") sources) ≡ true)
evaluate_path_scope-in_root_example =
    evaluate_path_scope-in_root (codes "lib/../src//a") sources secrets
      (unfold evaluate_path_scope strip fnmatchcase in refl)

abbrev touched : List Text
touched = codes "file:src/a" ∷ codes "repo:/src/b" ∷ []

action_path_candidates_exact_example :
    (distinct (action_path_candidates (some (codes "src/a")) touched) ≡ true)
    × ((t : Text)
        → (contains (action_path_candidates (some (codes "src/a")) touched) t ≡ true) ↔ (
            (is_nil t ≡ false)
            × (ReferenceNames (some (codes "src/a")) t ⊎ TouchedNames touched t)))
action_path_candidates_exact_example = action_path_candidates_exact (some (codes "src/a")) touched
