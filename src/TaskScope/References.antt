-- ===== src/TaskScope/References.antt =====
-- The path that a resource reference names (task_scope.py).
use clayseal_receipts.Prelude.{
  ℕ, ◌≡◌, refl, ap, ap₂, ◌∙◌, some, Bool, true, false, [], ◌∷◌, ◌++◌, Text, codes, text_eq, nat_eq,
  starts_with, drop_prefix, remove_prefix, lstrip_of, eqb, all_of, arith, Bool-cases, inl, inr,
  eqb_iff,
}
use clayseal_receipts.TaskScope.{scheme_path}

pub data RepoScheme : Text → Type 0 where
  write : RepoScheme (codes "repo_write://")
  read : RepoScheme (codes "repo_read://")
  repo : RepoScheme (codes "repo:")

abbrev slash : ℕ → Bool
slash c = eqb c b'/'

-- A reference names what follows `file:`, or what follows the slashes after a scheme of the repository.
pub data Names : Text → Text → Type 0 where
  in_file : (path : Text) → Names (codes "file:" ++ path) path
  in_repo :
      (scheme slashes path : Text)
      → RepoScheme scheme
      → all_of slash slashes ≡ true
      → starts_with (codes "/") path ≡ false
      → Names (scheme ++ (slashes ++ path)) path

starts_with-drop_prefix :
    (prefix t : Text)
    → starts_with prefix t ≡ true
    → (rest : Text) × (drop_prefix prefix t ≡ some rest) × (t ≡ prefix ++ rest)
starts_with-drop_prefix [] t h = (t, refl, refl)
starts_with-drop_prefix (p ∷ ps) [] h = cc
starts_with-drop_prefix (p ∷ ps) (c ∷ cs) h =
    let (rest, dropped, whole) = starts_with-drop_prefix ps cs (ground arith) in
    (rest, ground arith, ap₂ ◌∷◌ (ground (arith, eqb_iff p c)) whole)

starts_with-append :
    (prefix t : Text) → starts_with prefix t ≡ true → t ≡ prefix ++ remove_prefix prefix t
starts_with-append prefix t h =
    let (rest, dropped, whole) = starts_with-drop_prefix prefix t h in
    rw (remove_prefix, dropped) whole

lstrip_of-append :
    (slashes path : Text)
    → all_of slash slashes ≡ true
    → starts_with (codes "/") path ≡ false
    → lstrip_of b'/' (slashes ++ path) ≡ path
lstrip_of-append [] [] h clean = refl
lstrip_of-append [] (c ∷ cs) h clean = ground (arith, eqb_iff c b'/', eqb_iff b'/' c)
lstrip_of-append (s ∷ slashes) path h clean = ground (arith, lstrip_of-append slashes path)

lstrip_of-parts :
    (t : Text)
    → (slashes : Text) × (all_of slash slashes ≡ true)
      × (starts_with (codes "/") (lstrip_of b'/' t) ≡ false)
      × (t ≡ slashes ++ lstrip_of b'/' t)
lstrip_of-parts [] = ([], refl, refl, refl)
lstrip_of-parts (c ∷ cs) = elim (Bool-cases (eqb c b'/')) [
  | inl q ↦
      let (slashes, all, clean, parts) = lstrip_of-parts cs in
      rw q (c ∷ slashes, ground arith, clean, ap (λ t. c ∷ t) parts)
  | inr q ↦ rw q ([], refl, ground (arith, eqb_iff c b'/', eqb_iff b'/' c), refl)
]

renamed : {a b p : Text} → a ≡ b → Names b p → Names a p
renamed e named = rw e named

repo-Names :
    (scheme ref : Text)
    → RepoScheme scheme
    → starts_with scheme ref ≡ true
    → Names ref (lstrip_of b'/' (remove_prefix scheme ref))
repo-Names scheme ref known h =
    let (slashes, all, clean, parts) = lstrip_of-parts (remove_prefix scheme ref) in
    renamed (starts_with-append scheme ref h ∙ ap (λ t. scheme ++ t) parts)
      (in_repo scheme slashes _ known all clean)

file-Names :
    (ref : Text)
    → starts_with (codes "file:") ref ≡ true
    → Names ref (remove_prefix (codes "file:") ref)
file-Names ref h = renamed (starts_with-append (codes "file:") ref h) (in_file _)

-- Slashes after `repo:` are left out, two of them or not.
scheme_path-repo : (u : Text) → scheme_path (codes "repo:" ++ u) ≡ some (lstrip_of b'/' u)
unfolding scheme_path
scheme_path-repo u = elim (Bool-cases (starts_with (codes "//") u)) [
  | inr q ↦ ground arith
  | inl q ↦ let (rest, dropped, whole) = starts_with-drop_prefix (codes "//") u q in rw whole refl
]

pub Names-scheme_path : (ref path : Text) → Names ref path → scheme_path ref ≡ some path
unfolding scheme_path
Names-scheme_path ref path (in_file p) = refl
Names-scheme_path ref path (in_repo scheme slashes p write all clean) =
    ap some (lstrip_of-append slashes p all clean)
Names-scheme_path ref path (in_repo scheme slashes p read all clean) =
    ap some (lstrip_of-append slashes p all clean)
Names-scheme_path ref path (in_repo scheme slashes p repo all clean) =
    scheme_path-repo (slashes ++ p) ∙ ap some (lstrip_of-append slashes p all clean)

named_as : {a p q : Text} → Names a p → p ≡ q → Names a q
named_as named e = rw (← e) named

repo_path-Names :
    (ref path : Text)
    → starts_with (codes "repo:") ref ≡ true
    → scheme_path ref ≡ some path
    → Names ref path
repo_path-Names ref path h e =
    let (rest, dropped, whole) = starts_with-drop_prefix (codes "repo:") ref h in
    let kept : remove_prefix (codes "repo:") ref ≡ rest = rw (remove_prefix, dropped) refl in
    let same : lstrip_of b'/' rest ≡ path = cc (scheme_path-repo rest, whole, e) in
    named_as (repo-Names _ ref repo h) (ap (lstrip_of b'/') kept ∙ same)

-- A text that starts with a longer prefix starts with its beginning.
starts_with-shorter : (a b t : Text) → starts_with a t ≡ false → starts_with (a ++ b) t ≡ false
starts_with-shorter [] b t h = cc
starts_with-shorter (x ∷ a) b [] h = refl
starts_with-shorter (x ∷ a) b (c ∷ t) h = ground (arith, starts_with-shorter a b t)

pub scheme_path-Names : (ref path : Text) → scheme_path ref ≡ some path → Names ref path
unfolding scheme_path
scheme_path-Names ref path h = elim (Bool-cases (starts_with (codes "file:") ref)) [
  | inl q ↦ named_as (file-Names ref q) (ground arith)
  | inr q ↦ elim (Bool-cases (starts_with (codes "repo_write://") ref)) [
    | inl q1 ↦ named_as (repo-Names _ ref write q1) (ground arith)
    | inr q1 ↦ elim (Bool-cases (starts_with (codes "repo_read://") ref)) [
      | inl q2 ↦ named_as (repo-Names _ ref read q2) (ground arith)
      | inr q2 ↦ elim (Bool-cases (starts_with (codes "repo:") ref)) [
        | inl q3 ↦ repo_path-Names ref path q3 h
        | inr q3 ↦
            let q4 = starts_with-shorter (codes "repo:") (codes "//") ref q3 in
            absurd (ground arith)
      ]
    ]
  ]
]
