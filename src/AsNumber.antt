-- ===== src/AsNumber.antt =====
-- irrd/utils/validators.py: AS numbers as users and objects write them.
use irrd.Base.{
  ℕ, ◌+◌, ◌*◌, String, Bool, not, ◌&&◌, Option, none, some, List, [], ◌∷◌, is_some, leb,
  if◌then◌else◌,
}
use irrd.Text.{upper, strip_prefix, split, has_char, int, str, append}

pub data AsValue : Type 0 where
  text : String → AsValue
  number : ℕ → AsValue

abbrev pub max_asn : ℕ
max_asn = 4294967295

-- `ValidationError` is `none`.
abbrev pub asdot_parts : List String → Option ℕ
asdot_parts (high_str ∷ low_str ∷ []) = elim (int high_str) [
  | none ↦ none
  | some high ↦ elim (int low_str) [
    | none ↦ none
    | some low ↦ if leb high 65535 && leb low 65535 then some (high * 65536 + low) else none
  ]
]
asdot_parts _ = none

-- The part after an optional `AS`
abbrev pub number_part : String → String
number_part value = elim (strip_prefix "AS" value) [ none ↦ value | some rest ↦ rest ]

unfoldable pub as_value_int : Bool → Bool → AsValue → Option ℕ
as_value_int permit_plain asdot (number n) = some n
as_value_int permit_plain asdot (text s) =
    let value = upper s in
    let part = number_part value in
    if not permit_plain && not (is_some (strip_prefix "AS" value))
    then none
    else if asdot && has_char b'.' part
    then asdot_parts (split b'.' part)
    else int part

abbrev pub in_as_range : Option ℕ → Option (String × ℕ)
in_as_range none = none
in_as_range (some n) = if leb n max_asn then some (append "AS" (str n), n) else none

-- The second flag is `asdot_permitted` together with the setting `compatibility.asdot_queries`.
unfoldable pub parse_as_number : Bool → Bool → AsValue → Option (String × ℕ)
parse_as_number permit_plain asdot value = in_as_range (as_value_int permit_plain asdot value)
