-- ===== src/Paths/Components.antt =====
-- The components of a path in one spelling (path_matching.py).
use clayseal_receipts.Prelude.{
  ◌≡◌, refl, Bool, true, false, not, ◌&&◌, ◌||◌, List, [], ◌∷◌, ◌==◌, text_eq, text_beq_iff, Text,
  codes, arith, all_of, contains, is_nil, lacks, Bool-cases, inl, inr, if◌then◌else◌,
}
use clayseal_receipts.Paths.{push_component, push_components, rev_onto}

abbrev pub dots : Text
dots = codes ".."

abbrev all_dots : List Text → Bool
all_dots comps = all_of (λ c. c == dots) comps

-- last first, every component that climbs stands below those that do not
abbrev pub settled : List Text → Bool
settled [] = true
settled (c ∷ rest) = let below = settled rest in if c == dots then all_dots rest else below

settled-all_dots : (comps : List Text) → all_dots comps ≡ true → settled comps ≡ true
settled-all_dots [] h = refl
settled-all_dots (c ∷ rest) h = ground arith

settled-push_component :
    (comps : List Text) (comp : Text)
    → settled comps ≡ true
    → settled (push_component false comps comp) ≡ true
unfolding push_component
settled-push_component [] comp h = ground (arith, text_beq_iff comp dots)
settled-push_component (top ∷ rest) comp h =
    ground (arith, settled-all_dots rest, text_beq_iff comp dots)

pub settled-push_components :
    (words comps : List Text)
    → settled comps ≡ true
    → settled (push_components false comps words) ≡ true
unfolding push_components
settled-push_components [] comps h = h
settled-push_components (w ∷ words) comps h =
    settled-push_components words (push_component false comps w) (settled-push_component comps w h)

-- a component that has a character, and no slash
abbrev pub is_word : Text → Bool
is_word c = not (is_nil c) && lacks b'/' c

push_component-words :
    (absolute : Bool) (comps : List Text) (comp : Text)
    → all_of is_word comps ≡ true
    → lacks b'/' comp ≡ true
    → all_of is_word (push_component absolute comps comp) ≡ true
unfolding push_component
push_component-words absolute [] comp h clean = ground arith
push_component-words absolute (top ∷ rest) comp h clean = ground arith

pub push_components-words :
    (absolute : Bool) (words comps : List Text)
    → all_of is_word comps ≡ true
    → all_of (lacks b'/') words ≡ true
    → all_of is_word (push_components absolute comps words) ≡ true
unfolding push_components
push_components-words absolute [] comps h clean = h
push_components-words absolute (w ∷ words) comps h clean =
    push_components-words absolute words (push_component absolute comps w)
      (push_component-words absolute comps w h (ground arith)) (ground arith)

pub all_of-rev_onto :
    {A : Type 0} (p : A → Bool) (xs acc : List A)
    → all_of p xs ≡ true
    → all_of p acc ≡ true
    → all_of p (rev_onto xs acc) ≡ true
all_of-rev_onto p [] acc h k = k
all_of-rev_onto p (x ∷ xs) acc h k = all_of-rev_onto p xs (x ∷ acc) (ground arith) (ground arith)

contains-rev_onto :
    (xs acc : List Text) (t : Text)
    → contains (rev_onto xs acc) t ≡ true
    → (contains xs t || contains acc t) ≡ true
contains-rev_onto [] acc t h = h
contains-rev_onto (x ∷ xs) acc t h = ground (arith, contains-rev_onto xs (x ∷ acc) t h)

rev_onto-all_dots :
    (comps acc : List Text)
    → all_dots comps ≡ true
    → (rest : List Text) × (rev_onto comps (dots ∷ acc) ≡ dots ∷ rest)
rev_onto-all_dots [] acc h = (acc, refl)
rev_onto-all_dots (c ∷ comps) acc h =
    let same : c ≡ dots = (text_beq_iff c dots).0 (ground arith) in
    rw same (rev_onto-all_dots comps (dots ∷ acc) (ground arith))

rev_onto-settled :
    (comps acc : List Text)
    → settled comps ≡ true
    → contains comps dots ≡ true
    → (rest : List Text) × (rev_onto comps acc ≡ dots ∷ rest)
rev_onto-settled [] acc h climbs = cc
rev_onto-settled (c ∷ comps) acc h climbs = elim (Bool-cases (c == dots)) [
  | inl q ↦
      let same : c ≡ dots = (text_beq_iff c dots).0 q in
      rw same (rev_onto-all_dots comps acc (ground arith))
  | inr q ↦ rev_onto-settled comps (c ∷ acc) (ground arith) (ground arith)
]

-- Settled components among which one climbs begin with one that does.
pub rev_onto-climbs :
    (comps : List Text)
    → settled comps ≡ true
    → contains (rev_onto comps []) dots ≡ true
    → (rest : List Text) × (rev_onto comps [] ≡ dots ∷ rest)
rev_onto-climbs comps h climbs =
    rev_onto-settled comps [] h (ground (arith, contains-rev_onto comps [] dots climbs))
