-- ===== src/WhoisResponse/Laws.antt =====
-- A client that follows the length of an IRRd-style response reads the data back.
use irrd.Base.{
  inl, inr, ℕ, zero, suc, ◌+◌, ◌-◌, ◌*◌, ◌/◌, ◌%◌, ◌<◌, ◌≡◌, refl, sym, ap, ◌∙◌, subst, Bool, ◌&&◌,
  Option, none, some, List, [], ◌∷◌, ◌++◌, length, take, drop, leb, ltb, eqb, append_assoc, arith,
  Bool-cases, if◌then◌else◌, length-append,
}
use irrd.WhoisResponse.{
  success, irrd_mode, ascii, decimal, newline, irrd_data, generate_response_irrd, generate_response,
}

-- A client's reading of a decimal number up to the end of its line
abbrev pub read_number : ℕ → List ℕ → Option (ℕ × List ℕ)
read_number acc [] = none
read_number acc (b ∷ bytes) =
    let rest = read_number (acc * 10 + (b - b'0')) bytes in
    if eqb b 10 then some (acc, bytes) else if leb b'0' b && leb b b'9' then rest else none

-- The data that has the announced length, and what follows it
abbrev pub read_data : Option (ℕ × List ℕ) → Option (List ℕ × List ℕ)
read_data none = none
read_data (some (n, bytes)) = some (take n bytes, drop n bytes)

-- `A`, a length, and as many bytes
abbrev pub read_response : List ℕ → Option (List ℕ × List ℕ)
read_response [] = none
read_response (b ∷ bytes) = if eqb b b'A' then read_data (read_number 0 bytes) else none

read_number-digit :
    (acc d : ℕ) (bytes : List ℕ)
    → d < 10
    → read_number acc ((b'0' + d) ∷ bytes) ≡ read_number (acc * 10 + d) bytes
read_number-digit acc d bytes h =
    let value : (b'0' + d) - b'0' ≡ d = omega arith in
    ground (arith, h, ap (λ v. read_number (acc * 10 + v) bytes) value)

read_number-decimal :
    (fuel n : ℕ) (acc : List ℕ) → n < fuel → read_number 0 (decimal fuel n acc) ≡ read_number n acc
unfolding decimal
read_number-decimal zero n acc h = absurd (omega arith)
read_number-decimal (suc fuel) n acc h = elim (Bool-cases (ltb n 10)) [
  | inl e ↦
      let same : 0 * 10 + n % 10 ≡ n = ground arith in
      let small : n % 10 < 10 = omega arith in
      ground (arith, e, read_number-digit 0 (n % 10) acc small, ap (λ v. read_number v acc) same)
  | inr e ↦
      let less : n / 10 < fuel = ground arith in
      let small : n % 10 < 10 = omega arith in
      let same : n / 10 * 10 + n % 10 ≡ n = omega arith in
      ground (
        arith,
        e,
        read_number-decimal fuel (n / 10) ((b'0' + n % 10) ∷ acc) less,
        read_number-digit (n / 10) (n % 10) acc small,
        ap (λ v. read_number v acc) same,
      )
]

take-append : (xs ys : List ℕ) → take (length xs) (xs ++ ys) ≡ xs
take-append [] ys = refl
take-append (x ∷ xs) ys = ap (λ zs. x ∷ zs) (take-append xs ys)

drop-append : (xs ys : List ℕ) → drop (length xs) (xs ++ ys) ≡ ys
drop-append [] ys = refl
drop-append (x ∷ xs) ys = drop-append xs ys

read_data-append :
    (xs ys : List ℕ) (n : ℕ) → length xs ≡ n → read_data (some (n, xs ++ ys)) ≡ some (xs, ys)
read_data-append xs ys n h =
    subst (λ m. read_data (some (m, xs ++ ys)) ≡ some (xs, ys)) h
      (rw (take-append xs ys, drop-append xs ys) refl)

decimal-append :
    (fuel n : ℕ) (acc rest : List ℕ) → decimal fuel n acc ++ rest ≡ decimal fuel n (acc ++ rest)
unfolding decimal
decimal-append zero n acc rest = refl
decimal-append (suc fuel) n acc rest = elim (Bool-cases (ltb n 10)) [
  | inl e ↦ rw (e) refl
  | inr e ↦ rw (e) (decimal-append fuel (n / 10) ((b'0' + n % 10) ∷ acc) rest)
]

length_line : (body : List ℕ) → length (body ++ newline) ≡ suc (length body)
length_line body = length-append body newline ∙ omega arith

read_number-line :
    (n : ℕ) (tail rest : List ℕ)
    → read_number 0 (decimal (suc n) n (newline ++ tail) ++ rest) ≡ some (n, tail ++ rest)
read_number-line n tail rest =
    ap (read_number 0) (decimal-append (suc n) n (newline ++ tail) rest)
    ∙ read_number-decimal (suc n) n ((newline ++ tail) ++ rest) (omega arith)

-- The end of an IRRd-style response
abbrev pub irrd_end : List ℕ
irrd_end = ascii "C" ++ newline

framed :
    (body rest : List ℕ)
    → (body ++ (newline ++ irrd_end)) ++ rest ≡ (body ++ newline) ++ (irrd_end ++ rest)
framed body rest =
    append_assoc body (newline ++ irrd_end) rest
    ∙ sym (append_assoc body newline (irrd_end ++ rest))

-- In the IRRd mode, a successful response whose result, once cleaned if that is asked for, is not empty is read
-- back by a client that takes as many bytes as the response announces: the client gets the result with a newline, and
-- goes on with the end of the response and whatever follows it.
pub generate_response-read_response :
    (remove_auth_hashes : Option (List ℕ) → Option (List ℕ)) (remove : Bool)
    (result : Option (List ℕ)) (b : ℕ) (bytes rest : List ℕ)
    → (if remove then remove_auth_hashes result else result) ≡ some (b ∷ bytes)
    → (response : List ℕ) × (generate_response remove_auth_hashes remove irrd_mode success result
        ≡ some response)
      × (read_response (response ++ rest) ≡ some ((b ∷ bytes) ++ newline, irrd_end ++ rest))
unfolding generate_response generate_response_irrd
generate_response-read_response remove_auth_hashes remove result b bytes rest h =
    let body : List ℕ = b ∷ bytes in
    let n : ℕ = suc (length body) in
    (
      irrd_data body,
      rw (h) refl,
      ap read_data (read_number-line n (body ++ (newline ++ irrd_end)) rest)
          ∙ ap (λ t. read_data (some (n, t))) (framed body rest)
          ∙ read_data-append (body ++ newline) (irrd_end ++ rest) n (length_line body),
    )
