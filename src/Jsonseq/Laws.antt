-- ===== src/Jsonseq/Laws.antt =====
-- The stream that `jsonseq_encode` writes is read back by `jsonseq_decode`, in whatever chunks the
-- bytes arrive.
use irrd.Base.{
  ℕ, ◌≡◌, refl, sym, ap, ◌∙◌, inl, inr, true, false, not, Option, none, some, List, [], ◌∷◌, ◌++◌,
  all, is_nil, eqb, contains, nat_eq, arith, append-nil, append_assoc, Bool-cases, if◌then◌else◌,
}
use irrd.Jsonseq.{
  JsonLib, IsJson, rs, push_first, split_rs, and_then, yield_buffer, both, last_item, yield_all,
  jsonseq_decode, jsonseq_encode,
}

abbrev pub concat : List (List ℕ) → List ℕ
concat [] = []
concat (xs ∷ xss) = xs ++ concat xss

-- The split of a longer text: the last part goes on.
abbrev extend : List (List ℕ) → List ℕ → List (List ℕ)
extend [] d = split_rs d
extend (buffer ∷ []) d = split_rs (buffer ++ d)
extend (s ∷ t ∷ ss) d = s ∷ extend (t ∷ ss) d

is_nil-push_first : (b : ℕ) (ss : List (List ℕ)) → is_nil (push_first b ss) ≡ is_nil ss
is_nil-push_first b [] = refl
is_nil-push_first b (s ∷ ss) = refl

is_nil-split_rs : (bs : List ℕ) → is_nil (split_rs bs) ≡ false
unfolding split_rs
is_nil-split_rs [] = refl
is_nil-split_rs (b ∷ bs) = ground (arith, is_nil-push_first b (split_rs bs), is_nil-split_rs bs)

is_nil-extend : (ss : List (List ℕ)) (d : List ℕ) → is_nil (extend ss d) ≡ false
is_nil-extend [] d = is_nil-split_rs d
is_nil-extend (s ∷ []) d = is_nil-split_rs (s ++ d)
is_nil-extend (s ∷ t ∷ ss) d = refl

extend_cons :
    (ss : List (List ℕ)) (d : List ℕ) → is_nil ss ≡ false → extend ([] ∷ ss) d ≡ [] ∷ extend ss d
extend_cons [] d h = cc
extend_cons (s ∷ ss) d h = refl

extend-push_first :
    (b : ℕ) (ss : List (List ℕ)) (d : List ℕ)
    → eqb b rs ≡ false
    → is_nil ss ≡ false
    → extend (push_first b ss) d ≡ push_first b (extend ss d)
unfolding split_rs
extend-push_first b [] d h k = cc
extend-push_first b (s ∷ []) d h k = ground arith
extend-push_first b (s ∷ t ∷ ss) d h k = refl

split_rs-append : (x d : List ℕ) → split_rs (x ++ d) ≡ extend (split_rs x) d
unfolding split_rs
split_rs-append [] d = refl
split_rs-append (b ∷ bs) d = elim (Bool-cases (eqb b rs)) [
  | inl e ↦ rw (e, split_rs-append bs d) (sym (extend_cons (split_rs bs) d (is_nil-split_rs bs)))
  | inr e ↦
      rw (e, split_rs-append bs d)
        (sym (extend-push_first b (split_rs bs) d e (is_nil-split_rs bs)))
]

split_rs-no_rs : (w z : List ℕ) → contains w rs ≡ false → split_rs (w ++ rs ∷ z) ≡ w ∷ split_rs z
unfolding split_rs
split_rs-no_rs [] z h = refl
split_rs-no_rs (b ∷ w) z h = ground (arith, split_rs-no_rs w z)

split_rs-alone : (w : List ℕ) → contains w rs ≡ false → split_rs w ≡ w ∷ []
unfolding split_rs
split_rs-alone [] h = refl
split_rs-alone (b ∷ w) h = ground (arith, split_rs-alone w)

module _ (J : JsonLib) where
  abbrev total : List (List ℕ) → Option (List J.Json)
  total ss = both J (yield_buffer J ss).0 (last_item J (yield_buffer J ss).1)

  both_none : (x : Option (List J.Json)) → both J (some []) x ≡ x
  both_none none = refl
  both_none (some x) = refl

  both-and_then :
      (o : Option J.Json) (xs ys : Option (List J.Json))
      → both J (and_then J o xs) ys ≡ and_then J o (both J xs ys)
  both-and_then none xs ys = refl
  both-and_then (some x) none ys = refl
  both-and_then (some x) (some xs) none = refl
  both-and_then (some x) (some xs) (some ys) = refl

  abbrev begun : List ℕ → Option (List J.Json) → Option (List J.Json)
  begun s xs = if is_nil s then xs else and_then J (J.loads s) xs

  both-begun :
      (s : List ℕ) (xs ys : Option (List J.Json)) → both J (begun s xs) ys ≡ begun s (both J xs ys)
  both-begun [] xs ys = refl
  both-begun (b ∷ s) xs ys = both-and_then (J.loads (b ∷ s)) xs ys

  yield_buffer_cons :
      (s : List ℕ) (ss : List (List ℕ))
      → is_nil ss ≡ false
      → yield_buffer J (s ∷ ss) ≡ (begun s (yield_buffer J ss).0, (yield_buffer J ss).1)
  unfolding yield_buffer
  yield_buffer_cons s [] h = cc
  yield_buffer_cons [] (t ∷ ss) h = refl
  yield_buffer_cons (b ∷ s) (t ∷ ss) h = refl

  total_cons :
      (s : List ℕ) (ss : List (List ℕ)) → is_nil ss ≡ false → total (s ∷ ss) ≡ begun s (total ss)
  total_cons s ss h =
      rw (yield_buffer_cons s ss h)
        (both-begun s (yield_buffer J ss).0 (last_item J (yield_buffer J ss).1))

  total-extend :
      (ss : List (List ℕ)) (d : List ℕ)
      → total (extend ss d)
        ≡ both J (yield_buffer J ss).0 (yield_all J ((yield_buffer J ss).1 ++ d))
  unfolding yield_buffer
  total-extend [] d = sym (both_none (yield_all J d))
  total-extend (s ∷ []) d = sym (both_none (yield_all J (s ++ d)))
  total-extend (s ∷ t ∷ ss) d =
      total_cons s (extend (t ∷ ss) d) (is_nil-extend (t ∷ ss) d)
      ∙ ap (begun s) (total-extend (t ∷ ss) d)
      ∙ sym (
          both-begun s (yield_buffer J (t ∷ ss)).0 (yield_all J ((yield_buffer J (t ∷ ss)).1 ++ d)))
      ∙ ap (λ p. both J p.0 (yield_all J (p.1 ++ d))) (sym (yield_buffer_cons s (t ∷ ss) refl))

  -- What is read does not depend on how the bytes are cut into chunks, none of which is empty.
  pub jsonseq_decode-chunks :
      (chunks : List (List ℕ)) (buffer : List ℕ)
      → all (λ c. not (is_nil c)) chunks ≡ true
      → jsonseq_decode J chunks buffer ≡ yield_all J (buffer ++ concat chunks)
  unfolding jsonseq_decode
  jsonseq_decode-chunks [] buffer h = ap (yield_all J) (sym (append-nil buffer))
  jsonseq_decode-chunks ([] ∷ chunks) buffer h = cc
  jsonseq_decode-chunks ((b ∷ chunk) ∷ chunks) buffer h =
      ap (both J (yield_buffer J (split_rs (buffer ++ (b ∷ chunk)))).0)
        (jsonseq_decode-chunks chunks (yield_buffer J (split_rs (buffer ++ (b ∷ chunk)))).1 h)
      ∙ sym (total-extend (split_rs (buffer ++ (b ∷ chunk))) (concat chunks))
      ∙ ap total (sym (split_rs-append (buffer ++ (b ∷ chunk)) (concat chunks)))
      ∙ ap (yield_all J) (append_assoc buffer (b ∷ chunk) (concat chunks))

module _ (J : JsonLib) (laws : IsJson J) where
  contains-line : (w : List ℕ) → contains w 30 ≡ false → contains (w ++ 10 ∷ []) 30 ≡ false
  contains-line [] h = refl
  contains-line (b ∷ w) h = ground (arith, contains-line w)

  is_nil-line : (w : List ℕ) → is_nil (w ++ 10 ∷ []) ≡ false
  is_nil-line [] = refl
  is_nil-line (b ∷ w) = refl

  begun-line :
      (x : J.Json) (xs : List J.Json) → begun J (J.dumps x ++ 10 ∷ []) (some xs) ≡ some (x ∷ xs)
  begun-line x xs = rw (is_nil-line (J.dumps x), laws.loads-dumps x) refl

  last_item-begun : (w : List ℕ) → last_item J w ≡ begun J w (some [])
  last_item-begun [] = refl
  last_item-begun (b ∷ w) = refl

  yield_all-line :
      (x : J.Json) (items : List J.Json)
      → yield_all J ((J.dumps x ++ 10 ∷ []) ++ jsonseq_encode J items) ≡ some (x ∷ items)
  unfolding jsonseq_encode yield_buffer
  yield_all-line x [] =
      rw
        (
          append-nil (J.dumps x ++ 10 ∷ []),
          split_rs-alone (J.dumps x ++ 10 ∷ []) (contains-line (J.dumps x) (laws.dumps-no_rs x)),
        )
        (both_none J (last_item J (J.dumps x ++ 10 ∷ []))
          ∙ last_item-begun (J.dumps x ++ 10 ∷ [])
          ∙ begun-line x [])
  yield_all-line x (y ∷ items) =
      ap (total J) (
        split_rs-no_rs (J.dumps x ++ 10 ∷ []) ((J.dumps y ++ 10 ∷ []) ++ jsonseq_encode J items)
          (contains-line (J.dumps x) (laws.dumps-no_rs x)))
      ∙ total_cons J (J.dumps x ++ 10 ∷ []) _
          (is_nil-split_rs ((J.dumps y ++ 10 ∷ []) ++ jsonseq_encode J items))
      ∙ ap (begun J (J.dumps x ++ 10 ∷ [])) (yield_all-line y items)
      ∙ begun-line x (y ∷ items)

  yield_all-encode : (items : List J.Json) → yield_all J (jsonseq_encode J items) ≡ some items
  unfolding jsonseq_encode yield_buffer split_rs
  yield_all-encode [] = refl
  yield_all-encode (x ∷ items) =
      total_cons J [] _ (is_nil-split_rs ((J.dumps x ++ 10 ∷ []) ++ jsonseq_encode J items))
      ∙ yield_all-line x items

  -- Decoding gives back the objects that were encoded, for every way to cut the stream into chunks
  -- that are not empty.
  pub jsonseq_decode-jsonseq_encode :
      (items : List J.Json) (chunks : List (List ℕ))
      → all (λ c. not (is_nil c)) chunks ≡ true
      → concat chunks ≡ jsonseq_encode J items
      → jsonseq_decode J chunks [] ≡ some items
  jsonseq_decode-jsonseq_encode items chunks h e =
      jsonseq_decode-chunks J chunks [] h ∙ ap (yield_all J) e ∙ yield_all-encode items
