-- ===== src/Paths/Patterns.antt =====
-- `fnmatch.fnmatchcase`: a pattern is taken apart into items, and the items are matched.
use clayseal_receipts.Prelude.{
  ℕ, zero, suc, Bool, true, false, not, ◌&&◌, ◌||◌, List, [], ◌∷◌, Text, Option, none, some, eqb,
  leb, if◌then◌else◌, any_of, nat_eq, length,
}

pub data Item : Type 0 where
  any_run any_one : Item
  one_of : Bool → List (ℕ × ℕ) → Item
  literal : ℕ → Item

-- the text of a class: a hyphen between two characters makes a range
abbrev pub ranges : Text → List (ℕ × ℕ)
ranges [] = []
ranges (a ∷ []) = (a, a) ∷ []
ranges (a ∷ b ∷ []) = (a, a) ∷ (b, b) ∷ []
ranges (a ∷ b ∷ c ∷ rest) =
    let range = ranges rest in
    let single = ranges (b ∷ c ∷ rest) in if eqb b b'-' then (a, c) ∷ range else (a, a) ∷ single

-- the text up to the closing bracket, and what follows it
abbrev pub to_bracket : Text → Option (Text × Text)
to_bracket [] = none
to_bracket (c ∷ cs) =
    let later : Option (Text × Text) = elim (to_bracket cs) [
      | none ↦ none
      | some (inside, after) ↦ some (c ∷ inside, after)
    ] in
    if eqb c b']' then some ([], cs) else later

-- a closing bracket that stands first is a member of the class
abbrev pub class_body : Text → Option (Text × Text)
class_body [] = none
class_body (c ∷ cs) =
    if eqb c b']'
    then elim (to_bracket cs) [ none ↦ none | some (inside, after) ↦ some (c ∷ inside, after) ]
    else to_bracket (c ∷ cs)

-- what follows an opening bracket; without a closing one the bracket is a literal
abbrev pub bracketed : Text → Item × Text
bracketed [] = (literal b'[', [])
bracketed (c ∷ cs) =
    if eqb c b'!'
    then elim (class_body cs) [
      | none ↦ (literal b'[', c ∷ cs)
      | some (inside, after) ↦ (one_of true (ranges inside), after)
    ]
    else elim (class_body (c ∷ cs)) [
      | none ↦ (literal b'[', c ∷ cs)
      | some (inside, after) ↦ (one_of false (ranges inside), after)
    ]

-- a round takes at least one character, so the length is fuel enough
unfoldable pub compile_from : ℕ → Text → List Item
compile_from fuel [] = []
compile_from zero (c ∷ cs) = []
compile_from (suc fuel) (c ∷ cs) =
    let (item, after) = bracketed cs in
    let rest = compile_from fuel cs in
    let past = compile_from fuel after in
    if eqb c b'*'
    then any_run ∷ rest
    else if eqb c b'?'
    then any_one ∷ rest
    else if eqb c b'['
    then item ∷ past
    else literal c ∷ rest

-- `fnmatch.translate`
unfoldable pub compile : Text → List Item
unfolding compile_from
compile pattern = compile_from (length pattern) pattern

abbrev pub in_class : Bool → List (ℕ × ℕ) → ℕ → Bool
in_class negated spans c =
    let found = any_of (λ (s : ℕ × ℕ). leb s.0 c && leb c s.1) spans in
    if negated then not found else found

unfoldable pub matches : List Item → Text → Bool
matches [] [] = true
matches [] (c ∷ cs) = false
matches (any_run ∷ items) [] = matches items []
matches (any_run ∷ items) (c ∷ cs) = matches items (c ∷ cs) || matches (any_run ∷ items) cs
matches (any_one ∷ items) [] = false
matches (any_one ∷ items) (c ∷ cs) = matches items cs
matches (one_of negated spans ∷ items) [] = false
matches (one_of negated spans ∷ items) (c ∷ cs) = in_class negated spans c && matches items cs
matches (literal l ∷ items) [] = false
matches (literal l ∷ items) (c ∷ cs) = eqb l c && matches items cs

unfoldable pub fnmatchcase : Text → Text → Bool
unfolding compile matches
fnmatchcase name pattern = matches (compile pattern) name
