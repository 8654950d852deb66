-- ===== src/Jsonseq/Examples.antt =====
-- Tests of the JSON streams, and the round trip at concrete data. The texts here are tallies: a number is as
-- many ones.
use irrd.Base.{
  ℕ, zero, suc, ◌≡◌, refl, false, Option, none, some, List, [], ◌∷◌, ◌++◌, contains, nat_eq, eqb,
  if◌then◌else◌,
}
use irrd.Jsonseq.{JsonLib, IsJson, split_rs, yield_buffer, jsonseq_decode, jsonseq_encode}
use irrd.Jsonseq.Laws.{jsonseq_decode-jsonseq_encode}

abbrev ones : ℕ → List ℕ
ones zero = []
ones (suc n) = 49 ∷ ones n

abbrev succ : Option ℕ → Option ℕ
succ none = none
succ (some n) = some (suc n)

abbrev tally : List ℕ → Option ℕ
tally [] = none
tally (b ∷ bs) = if eqb b 10 then some 0 else succ (tally bs)

ones-no_rs : (n : ℕ) → contains (ones n) 30 ≡ false
ones-no_rs zero = refl
ones-no_rs (suc n) = ones-no_rs n

tally-ones : (n : ℕ) → tally (ones n ++ 10 ∷ []) ≡ some n
tally-ones zero = refl
tally-ones (suc n) = rw (tally-ones n) refl

abbrev tallies : JsonLib
tallies = record { Json = ℕ; dumps = ones; loads = tally }

tallies-IsJson : IsJson tallies
tallies-IsJson = record { dumps-no_rs = ones-no_rs; loads-dumps = tally-ones }

abbrev chunks : List (List ℕ)
chunks = (30 ∷ 49 ∷ []) ∷ (49 ∷ 10 ∷ 30 ∷ []) ∷ (49 ∷ 10 ∷ []) ∷ []

two_items : jsonseq_decode tallies chunks [] ≡ some (2 ∷ 1 ∷ [])
unfolding jsonseq_decode yield_buffer split_rs
two_items = refl

jsonseq_decode-jsonseq_encode_example : jsonseq_decode tallies chunks [] ≡ some (2 ∷ 1 ∷ [])
unfolding jsonseq_encode
jsonseq_decode-jsonseq_encode_example =
    jsonseq_decode-jsonseq_encode tallies tallies-IsJson (2 ∷ 1 ∷ []) chunks refl refl
