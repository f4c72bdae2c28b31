-- ===== src/Prelude/Chars.antt =====
-- Text that the code takes apart: its code points. Space and case are those of ASCII.
use Prim.Native.Nat.{ℕ, ◌+◌}
use Prim.Native.Char.{code}
use Prim.Native.String.{String}
use mathlib.Core.Path.{◌≡◌, refl, ap₂}
use mathlib.Core.Logic.{◌↔◌}
use mathlib.Core.Bool.{Bool, true, false, ◌&&◌, ◌||◌}
use mathlib.Core.List.{List, [], ◌∷◌, ◌++◌, map}
use native.Mathlib.Omega.{arith}
use clayseal_receipts.Prelude.Tests.{leb, eqb, eqb_iff, if◌then◌else◌}
use clayseal_receipts.Prelude.Lists.{is_nil}
use clayseal_receipts.Prelude.Equality.{Eq}

abbrev pub Text : Type 0
Text = List ℕ

-- the code points of a literal
abbrev pub codes : String → Text
codes String.[] = []
codes (String.◌∷◌ c s) = code c ∷ codes s

abbrev pub text_beq : Text → Text → Bool
text_beq [] [] = true
text_beq [] (y ∷ ys) = false
text_beq (x ∷ xs) [] = false
text_beq (x ∷ xs) (y ∷ ys) = eqb x y && text_beq xs ys

text_beq-true : (a b : Text) → text_beq a b ≡ true → a ≡ b
text_beq-true [] [] h = refl
text_beq-true [] (y ∷ ys) h = cc
text_beq-true (x ∷ xs) [] h = cc
text_beq-true (x ∷ xs) (y ∷ ys) h =
    ap₂ ◌∷◌ ((eqb_iff x y).0 (ground arith)) (text_beq-true xs ys (ground arith))

text_beq_self : (a : Text) → text_beq a a ≡ true
text_beq_self [] = refl
text_beq_self (x ∷ xs) = ground (arith, eqb_iff x x, text_beq_self xs)

pub text_beq_iff : (a b : Text) → (text_beq a b ≡ true) ↔ (a ≡ b)
text_beq_iff a b = (text_beq-true a b, λ e. rw e (text_beq_self b))

instance abbrev pub text_eq : Eq Text
text_eq = record { beq = text_beq; beq_iff = text_beq_iff }

-- `str.isspace` of one ASCII character
abbrev pub is_space : ℕ → Bool
is_space c = leb 9 c && leb c 13 || leb 28 c && leb c 32

unfoldable pub lstrip : Text → Text
lstrip [] = []
lstrip (c ∷ cs) = let rest = lstrip cs in if is_space c then rest else c ∷ cs

unfoldable pub rstrip : Text → Text
rstrip [] = []
rstrip (c ∷ cs) = let rest = rstrip cs in if is_nil rest && is_space c then [] else c ∷ rest

-- `s.strip()`
unfoldable pub strip : Text → Text
unfolding lstrip rstrip
strip t = lstrip (rstrip t)

-- `s.lower()`
unfoldable pub lower : Text → Text
lower t = map (λ c. if leb b'A' c && leb c b'Z' then c + 32 else c) t

-- `s.startswith(prefix)`
abbrev pub starts_with : Text → Text → Bool
starts_with [] t = true
starts_with (p ∷ ps) [] = false
starts_with (p ∷ ps) (c ∷ cs) = eqb p c && starts_with ps cs

rstrip-rstrip : (t : Text) → rstrip (rstrip t) ≡ rstrip t
unfolding rstrip
rstrip-rstrip [] = refl
rstrip-rstrip (c ∷ cs) = ground (arith, rstrip-rstrip cs)

-- stripping on the left keeps a text without space on the right as it is there
rstrip-lstrip : (t : Text) → rstrip t ≡ t → rstrip (lstrip t) ≡ lstrip t
unfolding rstrip lstrip
rstrip-lstrip [] h = refl
rstrip-lstrip (c ∷ cs) h = ground (arith, rstrip-lstrip cs)

lstrip-lstrip : (t : Text) → lstrip (lstrip t) ≡ lstrip t
unfolding lstrip
lstrip-lstrip [] = refl
lstrip-lstrip (c ∷ cs) = ground (arith, lstrip-lstrip cs)

-- Stripping twice is stripping once.
pub strip-strip : (t : Text) → strip (strip t) ≡ strip t
unfolding strip
strip-strip t = rw (rstrip-lstrip (rstrip t) (rstrip-rstrip t)) (lstrip-lstrip (rstrip t))

-- no space stands first
abbrev starts_clean : Text → Bool
starts_clean [] = true
starts_clean (c ∷ cs) = if is_space c then false else true

lstrip-starts_clean : (t : Text) → starts_clean (lstrip t) ≡ true
unfolding lstrip
lstrip-starts_clean [] = refl
lstrip-starts_clean (c ∷ cs) = ground (arith, lstrip-starts_clean cs)

lstrip-append : (t u : Text) → starts_clean t ≡ true → is_nil t ≡ false → lstrip (t ++ u) ≡ t ++ u
unfolding lstrip
lstrip-append [] u h full = cc
lstrip-append (c ∷ cs) u h full = ground arith

rstrip-append :
    (t u : Text)
    → rstrip u ≡ u
    → is_nil u ≡ false
    → (rstrip (t ++ u) ≡ t ++ u) × (is_nil (t ++ u) ≡ false)
unfolding rstrip
rstrip-append [] u h full = (h, full)
rstrip-append (c ∷ cs) u h full = ground (arith, rstrip-append cs u h full)

-- A text between two stripped ones is as it is stripped.
pub strip-between :
    (t between u : Text)
    → is_nil (strip t) ≡ false
    → is_nil (strip u) ≡ false
    → strip (strip t ++ (between ++ strip u)) ≡ strip t ++ (between ++ strip u)
unfolding strip
strip-between t between u left right =
    let right_end =
      rstrip-append between (strip u) (unfold strip in rstrip-lstrip (rstrip u) (rstrip-rstrip u))
        right in
    let whole = rstrip-append (strip t) (between ++ strip u) right_end.0 right_end.1 in
    rw whole.0 (
      lstrip-append (strip t) (between ++ strip u) (unfold strip in lstrip-starts_clean (rstrip t))
        left)
