-- ===== src/Policy/Arguments.antt =====
-- The arguments of a tool call and the texts in them (egress.py).
use clayseal_receipts.Prelude.{
  ℕ, zero, suc, ◌+◌, ◌/◌, ◌%◌, Option, none, some, List, [], ◌∷◌, ◌++◌, ◌==◌, text_eq, ltb, Text,
  codes, if◌then◌else◌, is_nil,
}
use clayseal_receipts.Policy.{
  Value, text, object, array, scalar, Fields, no_fields, field_of, Items, no_items, item_of,
}

-- `args.get(key)`
abbrev pub get : Text → Fields → Option Value
get key no_fields = none
get key (field_of k value rest) = let later = get key rest in if k == key then some value else later

abbrev decimal_from : ℕ → ℕ → Text
decimal_from zero n = []
decimal_from (suc fuel) n =
    let higher = decimal_from fuel (n / 10) in
    if ltb n 10 then (48 + n) ∷ [] else higher ++ (48 + n % 10) ∷ []

-- `str(n)`
abbrev decimal : ℕ → Text
decimal n = decimal_from (suc n) n

-- the texts in a value, each with its path
unfoldable mutual
  pub collect_string_values : Text → Value → List (Text × Text)
  collect_string_values prefix (text t) =
      ((if is_nil prefix then codes "value" else prefix), t) ∷ []
  collect_string_values prefix (object fields) = collect_fields prefix fields
  collect_string_values prefix (array items) = collect_items prefix 0 items
  collect_string_values prefix scalar = []

  pub collect_fields : Text → Fields → List (Text × Text)
  collect_fields prefix no_fields = []
  collect_fields prefix (field_of key value rest) =
      collect_string_values (if is_nil prefix then key else prefix ++ codes "." ++ key) value
      ++ collect_fields prefix rest

  pub collect_items : Text → ℕ → Items → List (Text × Text)
  collect_items prefix index no_items = []
  collect_items prefix index (item_of value rest) =
      collect_string_values (prefix ++ codes "[" ++ decimal index ++ codes "]") value
      ++ collect_items prefix (index + 1) rest
