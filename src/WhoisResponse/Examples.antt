-- ===== src/WhoisResponse/Examples.antt =====
-- Tests of the whois responses, and the reading back at concrete data.
use irrd.Base.{ℕ, ◌≡◌, refl, true, Option, none, some, List, ◌++◌}
use irrd.WhoisResponse.{
  success, error_user, no_response, irrd_mode, ripe_mode, ascii, decimal, newline,
  generate_response_irrd, generate_response_ripe, generate_response,
}
use irrd.WhoisResponse.Laws.{read_response, irrd_end, generate_response-read_response}

abbrev keep : Option (List ℕ) → Option (List ℕ)
keep result = result

ten_bytes :
    generate_response keep true irrd_mode success (some (ascii "AS64496 x"))
    ≡ some (ascii "A10" ++ (newline ++ (ascii "AS64496 x" ++ (newline ++ (ascii "C" ++ newline)))))
unfolding generate_response generate_response_irrd generate_response_ripe decimal
ten_bytes = refl

wrong_query :
    generate_response keep true irrd_mode error_user (some (ascii "no"))
    ≡ some (ascii "F no" ++ newline)
unfolding ten_bytes
wrong_query = refl

nothing_to_send : generate_response keep true ripe_mode no_response none ≡ none
unfolding ten_bytes
nothing_to_send = refl

generate_response-read_response_example :
    (response : List ℕ) × (generate_response keep true irrd_mode success (some (ascii "AS1"))
      ≡ some response)
    × (read_response (response ++ ascii "rest")
        ≡ some (ascii "AS1" ++ newline, irrd_end ++ ascii "rest"))
generate_response-read_response_example =
    generate_response-read_response keep true (some (ascii "AS1")) b'A' (ascii "S1") (ascii "rest")
      refl
