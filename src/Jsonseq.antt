-- ===== src/Jsonseq.antt =====
-- irrd/mirroring/nrtm4/jsonseq.py: streams of JSON objects (RFC 7464). ujson is a parameter.
pub mod Laws
mod Examples
use irrd.Base.{
  ℕ, Bool, true, false, Option, none, some, List, [], ◌∷◌, ◌++◌, is_nil, eqb, if◌then◌else◌, ◌≡◌,
  contains, nat_eq,
}

pub record JsonLib : Type 1 where
  pub Json : Type 0
  -- `ujson.dumps(item).encode("utf-8")`
  pub dumps : Json → List ℕ
  -- `none` stands for the `ValueError`.
  pub loads : List ℕ → Option Json

-- What ujson documents: control characters are escaped, so that no text holds the byte 0x1E, and
-- a dumped text is read back, also with white space after it.
pub record IsJson (J : JsonLib) : Type 0 where
  pub dumps-no_rs : (x : J.Json) → contains (J.dumps x) 30 ≡ false
  pub loads-dumps : (x : J.Json) → J.loads (J.dumps x ++ 10 ∷ []) ≡ some x

abbrev pub rs : ℕ
rs = 30

abbrev pub push_first : ℕ → List (List ℕ) → List (List ℕ)
push_first b [] = []
push_first b (s ∷ ss) = (b ∷ s) ∷ ss

-- `buffer.split(RS)`
unfoldable pub split_rs : List ℕ → List (List ℕ)
split_rs [] = [] ∷ []
split_rs (b ∷ bs) = let rest = split_rs bs in if eqb b rs then [] ∷ rest else push_first b rest

module _ (J : JsonLib) where
  abbrev pub and_then : Option J.Json → Option (List J.Json) → Option (List J.Json)
  and_then none ys = none
  and_then (some x) none = none
  and_then (some x) (some ys) = some (x ∷ ys)

  -- The objects of the complete sequences, and the buffer, which is what the last split leaves
  unfoldable pub yield_buffer : List (List ℕ) → Option (List J.Json) × List ℕ
  yield_buffer [] = (some [], [])
  yield_buffer (buffer ∷ []) = (some [], buffer)
  yield_buffer (sequence ∷ s ∷ ss) =
      let (items, buffer) = yield_buffer (s ∷ ss) in
      if is_nil sequence then (items, buffer) else (and_then (J.loads sequence) items, buffer)

  abbrev pub both : Option (List J.Json) → Option (List J.Json) → Option (List J.Json)
  both none ys = none
  both (some xs) none = none
  both (some xs) (some ys) = some (xs ++ ys)

  abbrev pub last_item : List ℕ → Option (List J.Json)
  last_item [] = some []
  last_item (b ∷ bs) = and_then (J.loads (b ∷ bs)) (some [])

  abbrev pub yield_all : List ℕ → Option (List J.Json)
  yield_all bytes =
      let (items, buffer) = yield_buffer (split_rs bytes) in both items (last_item buffer)

  -- The chunks are what `read` returns; an empty one, or none any more, is the end of the stream.
  -- `none` as the result stands for the `ValueError`: the items that the generator yields before it are not kept.
  unfoldable pub jsonseq_decode : List (List ℕ) → List ℕ → Option (List J.Json)
  jsonseq_decode [] buffer = yield_all buffer
  jsonseq_decode (chunk ∷ chunks) buffer =
      let (items, rest) = yield_buffer (split_rs (buffer ++ chunk)) in
      let more = jsonseq_decode chunks rest in
      if is_nil chunk then yield_all buffer else both items more

  abbrev pub jsonseq_encode_one : J.Json → List ℕ
  jsonseq_encode_one item = rs ∷ (J.dumps item ++ 10 ∷ [])

  unfoldable pub jsonseq_encode : List J.Json → List ℕ
  jsonseq_encode [] = []
  jsonseq_encode (item ∷ items) = jsonseq_encode_one item ++ jsonseq_encode items
