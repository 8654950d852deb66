-- ===== src/WhoisResponse.antt =====
-- irrd/server/whois/query_response.py: the bytes of the response to a whois query.
pub mod Laws
mod Examples
use Prim.Native.Char.{code}
use irrd.Base.{
  ℕ, zero, suc, ◌+◌, ◌/◌, ◌%◌, String, Bool, true, false, Option, none, some, List, [], ◌∷◌, ◌++◌,
  is_nil, ltb, length, if◌then◌else◌,
}

pub data ResponseType : Type 0 where
  success error_internal error_user key_not_found no_response : ResponseType

pub data ResponseMode : Type 0 where
  irrd_mode ripe_mode : ResponseMode

-- A text that is written in the source, as its bytes
abbrev pub ascii : String → List ℕ
ascii String.[] = []
ascii (String.◌∷◌ c s) = code c ∷ ascii s

-- The decimal digits of a number before `acc`
unfoldable pub decimal : ℕ → ℕ → List ℕ → List ℕ
decimal zero n acc = acc
decimal (suc fuel) n acc =
    let shown = (b'0' + n % 10) ∷ acc in
    let rest = decimal fuel (n / 10) shown in if ltb n 10 then shown else rest

abbrev pub newline : List ℕ
newline = 10 ∷ []

-- The result is given as its UTF-8 bytes; `None` is formatted by its name.
abbrev pub formatted : Option (List ℕ) → List ℕ
formatted none = ascii "None"
formatted (some bytes) = bytes

-- `f"A{result_len}\n"`, the result, and the end
abbrev pub irrd_data : List ℕ → List ℕ
irrd_data [] = ascii "C" ++ newline
irrd_data (b ∷ bytes) =
    let result_len = suc (length (b ∷ bytes)) in
    ascii "A"
    ++ (decimal (suc result_len) result_len
        (newline ++ ((b ∷ bytes) ++ (newline ++ (ascii "C" ++ newline)))))

abbrev pub or_nil : Option (List ℕ) → List ℕ
or_nil none = []
or_nil (some bytes) = bytes

unfoldable pub generate_response_irrd : ResponseType → Option (List ℕ) → Option (List ℕ)
generate_response_irrd success result = some (irrd_data (or_nil result))
generate_response_irrd error_internal result = some (ascii "F " ++ (formatted result ++ newline))
generate_response_irrd error_user result = some (ascii "F " ++ (formatted result ++ newline))
generate_response_irrd key_not_found result = some (ascii "D" ++ newline)
generate_response_irrd no_response result = some []

abbrev pub ripe_end : List ℕ
ripe_end = newline ++ (newline ++ newline)

abbrev pub no_entries : List ℕ
no_entries = ascii "%  No entries found for the selected source(s)." ++ ripe_end

abbrev pub ripe_data : List ℕ → List ℕ
ripe_data [] = no_entries
ripe_data (b ∷ bytes) = (b ∷ bytes) ++ ripe_end

unfoldable pub generate_response_ripe : ResponseType → Option (List ℕ) → Option (List ℕ)
generate_response_ripe success result = some (ripe_data (or_nil result))
generate_response_ripe error_internal result =
    some (ascii "%% ERROR: " ++ (formatted result ++ ripe_end))
generate_response_ripe error_user result =
    some (ascii "%% ERROR: " ++ (formatted result ++ ripe_end))
generate_response_ripe key_not_found result = some no_entries
generate_response_ripe no_response result = none

-- `remove_auth_hashes` is the function of irrd/utils/text.py; `none` stands for the `RuntimeError`.
unfoldable pub generate_response :
    (Option (List ℕ) → Option (List ℕ))
    → Bool
    → ResponseMode
    → ResponseType
    → Option (List ℕ)
    → Option (List ℕ)
generate_response remove_auth_hashes remove irrd_mode response_type result =
    generate_response_irrd response_type (if remove then remove_auth_hashes result else result)
generate_response remove_auth_hashes remove ripe_mode response_type result =
    generate_response_ripe response_type (if remove then remove_auth_hashes result else result)
