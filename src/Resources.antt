-- ===== src/Resources.antt =====
-- agentauth/core/resource_refs.py: references to resources, `<kind>:<value>` or `<kind>://<value>`.
pub mod Roundtrip
use clayseal_receipts.Prelude.{
  Bool, true, false, ◌||◌, List, [], ◌∷◌, ◌++◌, Text, codes, strip, Option, none, some,
  if◌then◌else◌, is_nil, split_at, lstrip_of,
}

pub data ResourceRefStyle : Type 0 where
  scoped uri : ResourceRefStyle

pub record ResourceRef : Type 0 where
  pub kind : Text
  pub value : Text
  pub style : ResourceRefStyle

abbrev pub separator_of : ResourceRefStyle → Text
separator_of scoped = codes ":"
separator_of uri = codes "://"

unfoldable pub ref_to_string : ResourceRef → Text
ref_to_string r = r.kind ++ (separator_of r.style ++ r.value)

-- `none` is the `ValueError`
unfoldable pub format_resource_ref : Text → Text → ResourceRefStyle → Option Text
unfolding ref_to_string
format_resource_ref kind value style =
    if is_nil (strip kind) || is_nil (strip value)
    then none
    else some (ref_to_string (record { kind = strip kind; value = strip value; style = style }))

-- a kind and a value that must both be there
abbrev pub checked_ref : Text → Text → ResourceRefStyle → Option ResourceRef
checked_ref kind value style =
    if is_nil kind || is_nil value
    then none
    else some (record { kind = kind; value = value; style = style })

-- `none` is the `ValueError`
unfoldable pub parse_resource_ref : Text → Option ResourceRef
parse_resource_ref raw =
    let value = strip raw in
    let scoped_ref : Option ResourceRef = elim (split_at (codes ":") value) [
      | none ↦ none
      | some (kind, rest) ↦ checked_ref (strip kind) (strip rest) scoped
    ] in
    if is_nil value then none else elim (split_at (codes "://") value) [
      | some (kind, rest) ↦ checked_ref (strip kind) (lstrip_of b'/' (strip rest)) uri
      | none ↦ scoped_ref
    ]

unfoldable pub is_resource_ref : Text → Bool
unfolding parse_resource_ref
is_resource_ref raw = elim (parse_resource_ref raw) [ none ↦ false | some r ↦ true ]
