-- ===== src/Prelude/Parts.antt =====
-- Parts of a text: `split`, `join`, prefixes, and the first occurrence of a separator.
use Prim.Native.Nat.{ℕ}
use mathlib.Core.Path.{◌≡◌, refl}
use mathlib.Core.Bool.{Bool, true, not}
use mathlib.Core.Option.{Option, none, some}
use mathlib.Core.List.{List, [], ◌∷◌, ◌++◌}
use native.Mathlib.Omega.{arith}
use clayseal_receipts.Prelude.Tests.{eqb, eqb_iff, if◌then◌else◌}
use clayseal_receipts.Prelude.Lists.{all_of}
use clayseal_receipts.Prelude.Equality.{contains, nat_eq}
use clayseal_receipts.Prelude.Chars.{Text}

abbrev pub onto_first : ℕ → List Text → List Text
onto_first c [] = (c ∷ []) ∷ []
onto_first c (w ∷ ws) = (c ∷ w) ∷ ws

-- `t.split(separator)` of one character
abbrev pub split_on : ℕ → Text → List Text
split_on separator [] = [] ∷ []
split_on separator (c ∷ cs) =
    let rest = split_on separator cs in if eqb c separator then [] ∷ rest else onto_first c rest

-- `separator.join(words)`
abbrev pub join_with : ℕ → List Text → Text
join_with separator [] = []
join_with separator (w ∷ []) = w
join_with separator (w ∷ v ∷ ws) = w ++ separator ∷ join_with separator (v ∷ ws)

abbrev pub drop_prefix : Text → Text → Option Text
drop_prefix [] t = some t
drop_prefix (p ∷ ps) [] = none
drop_prefix (p ∷ ps) (c ∷ cs) = let rest = drop_prefix ps cs in if eqb p c then rest else none

-- `t.removeprefix(prefix)`
abbrev pub remove_prefix : Text → Text → Text
remove_prefix prefix t = elim (drop_prefix prefix t) [ none ↦ t | some rest ↦ rest ]

-- `t.split(separator, 1)`, which is `none` where the separator does not occur
abbrev pub split_at : Text → Text → Option (Text × Text)
split_at separator [] = elim (drop_prefix separator []) [
  | none ↦ none
  | some rest ↦ some ([], rest)
]
split_at separator (c ∷ cs) =
    let later : Option (Text × Text) = elim (split_at separator cs) [
      | none ↦ none
      | some (before, after) ↦ some (c ∷ before, after)
    ] in
    elim (drop_prefix separator (c ∷ cs)) [ none ↦ later | some rest ↦ some ([], rest) ]

-- `t.lstrip(character)`
abbrev pub lstrip_of : ℕ → Text → Text
lstrip_of character [] = []
lstrip_of character (c ∷ cs) =
    let rest = lstrip_of character cs in if eqb c character then rest else c ∷ cs

-- a word without the separator
abbrev pub lacks : ℕ → Text → Bool
lacks separator w = not (contains w separator)

-- The words of a split are without the separator.
pub split_on-lacks :
    (separator : ℕ) (t : Text) → all_of (lacks separator) (split_on separator t) ≡ true
split_on-lacks separator [] = refl
split_on-lacks separator (c ∷ cs) = lem (split_on separator cs) (split_on-lacks separator cs)
  where
    lem :
        (ws : List Text)
        → all_of (lacks separator) ws ≡ true
        → all_of (lacks separator) (if eqb c separator then [] ∷ ws else onto_first c ws) ≡ true
    lem [] h = ground arith
    lem (w ∷ ws) h = ground arith

split_on-word :
    (separator : ℕ) (w : Text) → lacks separator w ≡ true → split_on separator w ≡ w ∷ []
split_on-word separator [] h = refl
split_on-word separator (c ∷ cs) h = ground (arith, split_on-word separator cs)

split_on-join :
    (separator : ℕ) (w t : Text)
    → lacks separator w ≡ true
    → split_on separator (w ++ separator ∷ t) ≡ w ∷ split_on separator t
split_on-join separator [] t h = ground (arith, eqb_iff separator separator)
split_on-join separator (c ∷ cs) t h = ground (arith, split_on-join separator cs t)

-- Words without the separator are what the split of their join gives.
pub split_on-join_with :
    (separator : ℕ) (w : Text) (ws : List Text)
    → all_of (lacks separator) (w ∷ ws) ≡ true
    → split_on separator (join_with separator (w ∷ ws)) ≡ w ∷ ws
split_on-join_with separator w [] h = split_on-word separator w (ground arith)
split_on-join_with separator w (v ∷ ws) h = ground (
  arith,
  split_on-join separator w (join_with separator (v ∷ ws)),
  split_on-join_with separator v ws,
)

drop_prefix-append : (prefix t : Text) → drop_prefix prefix (prefix ++ t) ≡ some t
drop_prefix-append [] t = refl
drop_prefix-append (p ∷ ps) t = ground (arith, eqb_iff p p, drop_prefix-append ps t)

-- A text is split where the separator was put, if its first character is not before it.
pub split_at-append :
    (s : ℕ) (separator before after : Text)
    → lacks s before ≡ true
    → split_at (s ∷ separator) (before ++ ((s ∷ separator) ++ after)) ≡ some (before, after)
split_at-append s separator [] after h =
    ground (arith, eqb_iff s s, drop_prefix-append separator after)
split_at-append s separator (c ∷ before) after h =
    ground (arith, split_at-append s separator before after, eqb_iff s c, eqb_iff c s)
