-- ===== src/TaskScope/Paths.antt =====
-- The candidate paths of an action (task_scope.py).
use clayseal_receipts.Prelude.{
  ◌↔◌, ◌⊎◌, ◌||◌, if◌then◌else◌, inl, inr, none, some, ap, ◌∙◌, ◌==◌, false, Bool-cases,
  Option-cases, nat_eq, ◌≡◌, refl, beq_self, ◌++◌, Option, Bool, true, not, ◌&&◌, List, [], ◌∷◌,
  Text, text_eq, text_beq_iff, contains, is_nil, arith,
}
use clayseal_receipts.TaskScope.{
  dedupe, action_path_candidates, reference_path, touched_paths, scheme_path,
}
use clayseal_receipts.TaskScope.References.{
  Names, in_file, in_repo, write, read, repo, Names-scheme_path, scheme_path-Names,
}

-- no element is among those after it
abbrev pub distinct : List Text → Bool
distinct [] = true
distinct (x ∷ xs) = not (contains xs x) && distinct xs

-- A path is kept exactly if it is there, is not empty and was not seen before.
contains-dedupe :
    (seen paths : List Text) (t : Text)
    → contains (dedupe seen paths) t ≡ (contains paths t && not (is_nil t) && not (contains seen t))
unfolding dedupe
contains-dedupe seen [] t = refl
contains-dedupe seen (p ∷ paths) t =
    ground
      (arith, contains-dedupe seen paths t, contains-dedupe (p ∷ seen) paths t, text_beq_iff p t)

distinct-dedupe : (seen paths : List Text) → distinct (dedupe seen paths) ≡ true
unfolding dedupe
distinct-dedupe seen [] = refl
distinct-dedupe seen (p ∷ paths) = ground (
  arith,
  distinct-dedupe seen paths,
  distinct-dedupe (p ∷ seen) paths,
  contains-dedupe (p ∷ seen) paths p,
  beq_self p,
)

-- a bare path, which the action's own reference may be: with a slash and without a colon
abbrev pub IsBare : Text → Type 0
IsBare ref = (contains ref b'/' ≡ true) × (contains ref b':' ≡ false)

abbrev pub ReferenceNames : Option Text → Text → Type 0
ReferenceNames none path = ⊥
ReferenceNames (some ref) path = Names ref path ⊎ (IsBare ref × (ref ≡ path))

-- a path that one of the touched resources names
abbrev pub TouchedNames : List Text → Text → Type 0
TouchedNames [] path = ⊥
TouchedNames (item ∷ items) path = Names item path ⊎ TouchedNames items path

Names-colon : (ref path : Text) → Names ref path → contains ref b':' ≡ true
Names-colon ref path (in_file p) = refl
Names-colon ref path (in_repo scheme slashes p write all clean) = refl
Names-colon ref path (in_repo scheme slashes p read all clean) = refl
Names-colon ref path (in_repo scheme slashes p repo all clean) = refl

touched_names :
    (items : List Text) (path : Text)
    → (contains (touched_paths items) path ≡ true) ↔ TouchedNames items path
unfolding touched_paths
touched_names [] path = (λ h. cc, λ n. absurd n)
touched_names (item ∷ items) path = elim (Option-cases (scheme_path item)) [
  | inl e ↦
      let (down, up) = touched_names items path in
      rw e (
        λ h. inr (down h),
        λ n. elim n [
          | inr later ↦ up later
          | inl named ↦ absurd (ground (arith, Names-scheme_path item path named))
        ],
      )
  | inr (p, e) ↦
      let (down, up) = touched_names items path in
      rw e (
        λ h. elim (Bool-cases (p == path)) [
          | inl q ↦ inl (scheme_path-Names item path (e ∙ ap some ((text_beq_iff p path).0 q)))
          | inr q ↦ inr (down (ground arith))
        ],
        λ n. elim n [
          | inr later ↦ ground (arith, up later)
          | inl named ↦ ground (arith, Names-scheme_path item path named, text_beq_iff p path)
        ],
      )
]

reference_path-some :
    (ref path : Text) → scheme_path ref ≡ some path → reference_path (some ref) ≡ path ∷ []
unfolding reference_path
reference_path-some ref path e = unfold scheme_path in rw e refl

reference_path-bare :
    (ref : Text)
    → scheme_path ref ≡ none
    → reference_path (some ref)
      ≡ (if contains ref b'/' && not (contains ref b':') then ref ∷ [] else [])
unfolding reference_path
reference_path-bare ref e = unfold scheme_path in rw e refl

reference_names :
    (ref : Option Text) (path : Text)
    → (contains (reference_path ref) path ≡ true) ↔ ReferenceNames ref path
reference_names none path = unfold reference_path in (λ h. cc, λ n. absurd n)
reference_names (some ref) path = elim (Option-cases (scheme_path ref)) [
  | inr (p, e) ↦ rw (reference_path-some ref p e) (
    λ h. inl (scheme_path-Names ref path (e ∙ ap some ((text_beq_iff p path).0 (ground arith)))),
    λ n. elim n [
      | inl named ↦ ground (arith, Names-scheme_path ref path named, text_beq_iff p path)
      | inr (bare, same) ↦
          absurd (ground (arith, Names-colon ref p (scheme_path-Names ref p e), bare))
    ],
  )
  | inl e ↦ rw (reference_path-bare ref e) (
    λ h. elim (Bool-cases (contains ref b'/' && not (contains ref b':'))) [
      | inr q ↦ absurd (ground arith)
      | inl q ↦ inr ((ground arith, ground arith), (text_beq_iff ref path).0 (ground arith))
    ],
    λ n. elim n [
      | inl named ↦ absurd (ground (arith, Names-scheme_path ref path named))
      | inr (bare, same) ↦ ground (arith, bare, same, text_beq_iff ref path)
    ],
  )
]

contains-append :
    (xs ys : List Text) (t : Text) → contains (xs ++ ys) t ≡ (contains xs t || contains ys t)
contains-append [] ys t = refl
contains-append (x ∷ xs) ys t = ground (arith, contains-append xs ys t)

exactly :
    (own other empty : Bool) {kept : Bool} {P Q : Type 0}
    → kept ≡ ((own || other) && not empty && true)
    → (own ≡ true) ↔ P
    → (other ≡ true) ↔ Q
    → (kept ≡ true) ↔ ((empty ≡ false) × (P ⊎ Q))
exactly own other true e p q = (λ h. absurd (ground (arith, h, e)), λ (here, n). cc)
exactly true other false e p q = (λ h. (refl, inl (p.0 refl)), λ n. e)
exactly false true false e p q = (λ h. (refl, inr (q.0 refl)), λ n. e)
exactly false false false e p q = (
  λ h. cc (h, e),
  λ (here, n). elim n [ inl named ↦ cc (p.1 named) | inr named ↦ cc (q.1 named) ],
)

-- The candidate paths of an action stand once each, and they are exactly the paths, not empty, that
-- its reference or one of its touched resources names: what follows `file:`, what follows the
-- slashes after `repo_write://`, `repo_read://` or `repo:`, and a bare reference with a slash and
-- without a colon itself.
pub action_path_candidates_exact :
    (resource_ref : Option Text) (touched : List Text)
    → (distinct (action_path_candidates resource_ref touched) ≡ true)
      × ((t : Text)
          → (contains (action_path_candidates resource_ref touched) t ≡ true)
            ↔ ((is_nil t ≡ false) × (ReferenceNames resource_ref t ⊎ TouchedNames touched t)))
unfolding action_path_candidates
action_path_candidates_exact resource_ref touched =
    let own = reference_path resource_ref in
    let other = touched_paths touched in
    (
      distinct-dedupe [] (own ++ other),
      λ t.
          let kept =
            contains-dedupe [] (own ++ other) t
            ∙ ap (λ b. b && not (is_nil t) && true) (contains-append own other t) in
          exactly (contains own t) (contains other t) (is_nil t) kept
            (reference_names resource_ref t) (touched_names touched t),
    )
