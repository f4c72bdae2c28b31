-- ===== src/Resources/Roundtrip.antt =====
-- A reference that is formatted is parsed again (resource_refs.py).
use clayseal_receipts.Prelude.{
  ◌≡◌, refl, true, false, [], ◌∷◌, ◌++◌, Text, codes, strip, strip-strip, strip-between, none, some,
  is_nil, split_at, split_at-append, lstrip_of, lacks, arith,
}
use clayseal_receipts.Resources.{
  ResourceRefStyle, scoped, uri, separator_of, ref_to_string, format_resource_ref,
  parse_resource_ref,
}

-- what a style asks of a formatted text and its value: a scoped one does not look like a URI, and
-- the value of a URI has no slash before it
abbrev pub Fits : ResourceRefStyle → Text → Text → Type 0
Fits scoped raw value = split_at (codes "://") raw ≡ none
Fits uri raw value = lstrip_of b'/' (strip value) ≡ strip value

nonempty_append : (t u : Text) → is_nil t ≡ false → is_nil (t ++ u) ≡ false
nonempty_append [] u h = cc
nonempty_append (c ∷ cs) u h = refl

parse_resource_ref-parts :
    (kind value : Text) (style : ResourceRefStyle)
    → is_nil (strip kind) ≡ false
    → is_nil (strip value) ≡ false
    → lacks b':' (strip kind) ≡ true
    → Fits style (strip kind ++ (separator_of style ++ strip value)) value
    → parse_resource_ref (strip kind ++ (separator_of style ++ strip value))
      ≡ some (record { kind = strip kind; value = strip value; style = style })
unfolding parse_resource_ref
parse_resource_ref-parts kind value scoped left right clean fits = ground (
  arith,
  strip-between kind (codes ":") value left right,
  split_at-append b':' [] (strip kind) (strip value) clean,
  strip-strip kind,
  strip-strip value,
  nonempty_append (strip kind) (codes ":" ++ strip value) left,
)
parse_resource_ref-parts kind value uri left right clean fits = ground (
  arith,
  strip-between kind (codes "://") value left right,
  split_at-append b':' (codes "//") (strip kind) (strip value) clean,
  strip-strip kind,
  strip-strip value,
  nonempty_append (strip kind) (codes "://" ++ strip value) left,
)

-- A reference that is formatted from a kind without a colon is parsed to the same kind, value and
-- style, without the space around them, if its text fits its style.
pub parse_resource_ref-format_resource_ref :
    (kind value raw : Text) (style : ResourceRefStyle)
    → lacks b':' (strip kind) ≡ true
    → format_resource_ref kind value style ≡ some raw
    → Fits style raw value
    → parse_resource_ref raw
      ≡ some (record { kind = strip kind; value = strip value; style = style })
unfolding format_resource_ref ref_to_string
parse_resource_ref-format_resource_ref kind value raw style clean made fits =
    let left : is_nil (strip kind) ≡ false = ground arith in
    let right : is_nil (strip value) ≡ false = ground arith in
    let same : strip kind ++ (separator_of style ++ strip value) ≡ raw = ground arith in
    rw (← same) (parse_resource_ref-parts kind value style left right clean (rw same fits))
