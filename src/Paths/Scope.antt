-- ===== src/Paths/Scope.antt =====
-- What a path in scope is (path_matching.py).
use clayseal_receipts.Prelude.{
  ◌≡◌, refl, Bool, true, false, not, ◌&&◌, ◌||◌, List, [], ◌∷◌, ◌==◌, text_eq, Text, codes, arith,
  all_of, contains, is_nil, lacks, Bool-cases, inl, inr, split_on, join_with, split_on-lacks,
  split_on-join_with, starts_with, some,
}
use clayseal_receipts.Paths.{
  components, push_components, normpath, or_dot, leading_slashes, normalize_path, unified,
  path_escapes_root, path_matches_any, matches_pattern, is_allowed, evaluate_path_scope,
}
use clayseal_receipts.Paths.Components.{
  dots, is_word, push_components-words, settled-push_components, all_of-rev_onto, rev_onto-climbs,
}

components-words : (path : Text) → all_of is_word (components path) ≡ true
unfolding components
components-words path =
    all_of-rev_onto is_word (push_components (starts_with (codes "/") path) [] (split_on b'/' path))
      [] (push_components-words _ (split_on b'/' path) [] refl (split_on-lacks b'/' path)) refl

all_of-words : (ws : List Text) → all_of is_word ws ≡ true → all_of (lacks b'/') ws ≡ true
all_of-words [] h = refl
all_of-words (w ∷ ws) h = ground (arith, all_of-words ws)

components_climb :
    (path : Text)
    → starts_with (codes "/") path ≡ false
    → contains (components path) dots ≡ true
    → (rest : List Text) × (components path ≡ dots ∷ rest)
unfolding components
components_climb path relative = rw relative (
    rev_onto-climbs (push_components false [] (split_on b'/' path))
      (settled-push_components (split_on b'/' path) [] refl))

-- the path that the components of a relative path make
abbrev InRoot : Text → Type 0
InRoot norm = (starts_with (codes "/") norm ≡ false) × (contains (split_on b'/' norm) dots ≡ false)

abbrev escapes : Text → Bool
escapes norm = starts_with (codes "/") norm || norm == codes ".." || starts_with (codes "../") norm

dots_escape : (rest : List Text) → escapes (or_dot (join_with b'/' (dots ∷ rest))) ≡ true
dots_escape [] = refl
dots_escape (v ∷ rest) = refl

split_on-or_dot :
    (w : Text) (ws : List Text)
    → all_of is_word (w ∷ ws) ≡ true
    → split_on b'/' (or_dot (join_with b'/' (w ∷ ws))) ≡ w ∷ ws
split_on-or_dot [] ws words = cc
split_on-or_dot (c ∷ w) [] words =
    split_on-join_with b'/' (c ∷ w) [] (all_of-words ((c ∷ w) ∷ []) words)
split_on-or_dot (c ∷ w) (v ∷ ws) words =
    split_on-join_with b'/' (c ∷ w) (v ∷ ws) (all_of-words ((c ∷ w) ∷ v ∷ ws) words)

join-InRoot :
    (ws : List Text)
    → all_of is_word ws ≡ true
    → (contains ws dots ≡ true → (rest : List Text) × (ws ≡ dots ∷ rest))
    → escapes (or_dot (join_with b'/' ws)) ≡ false
    → InRoot (or_dot (join_with b'/' ws))
join-InRoot [] words climbs inside = (refl, refl)
join-InRoot (w ∷ ws) words climbs inside = elim (Bool-cases (contains (w ∷ ws) dots)) [
  | inr q ↦ (ground arith, rw (split_on-or_dot w ws words) q)
  | inl q ↦ let (rest, same) = climbs q in absurd (cc (inside, dots_escape rest, same))
]

no_slashes : (path : Text) → starts_with (codes "/") path ≡ false → leading_slashes path ≡ []
no_slashes [] h = refl
no_slashes (c ∷ cs) h = ground arith

normpath-InRoot : (path : Text) → escapes (normpath path) ≡ false → InRoot (normpath path)
unfolding normpath
normpath-InRoot [] inside = (refl, refl)
normpath-InRoot (c ∷ cs) inside = elim (Bool-cases (starts_with (codes "/") (c ∷ cs))) [
  | inl q ↦ absurd (ground arith)
  | inr q ↦ rw (no_slashes (c ∷ cs) q) (
      join-InRoot (components (c ∷ cs)) (components-words (c ∷ cs)) (components_climb (c ∷ cs) q)
        (rw (no_slashes (c ∷ cs) q) at inside))
]

not_denied :
    (name : Text) (denied_paths : List Text)
    → (not (is_nil denied_paths) && matches_pattern name denied_paths) ≡ false
    → matches_pattern name denied_paths ≡ false
unfolding matches_pattern
not_denied name [] h = refl
not_denied name (d ∷ ds) h = h

-- A file path that is in scope, once its separators and its dots are resolved, is relative, has no
-- component that climbs, matches no denied pattern, and matches an allowed one where there are any.
pub evaluate_path_scope-in_root :
    (file_path : Text) (allowed_paths denied_paths : List Text)
    → is_allowed (evaluate_path_scope (some file_path) allowed_paths denied_paths) ≡ true
    → (starts_with (codes "/") (normalize_path file_path) ≡ false)
      × (contains (split_on b'/' (normalize_path file_path)) (codes "..") ≡ false)
      × (path_matches_any file_path denied_paths ≡ false)
      × ((is_nil allowed_paths || path_matches_any file_path allowed_paths) ≡ true)
unfolding evaluate_path_scope path_escapes_root normalize_path path_matches_any
evaluate_path_scope-in_root file_path allowed_paths denied_paths h =
    let (relative, climbless) = normpath-InRoot (unified file_path) (ground arith) in
    (
      relative,
      climbless,
      not_denied (normalize_path file_path) denied_paths (ground arith),
      ground arith,
    )
