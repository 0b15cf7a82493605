-- ===== src/Heartbeat/Wire/Laws.antt =====
-- A heartbeat is read back as it was written, where its binary fields hold no separator.
use smartedge.Base.{ℕ, ◌≡◌, refl, ap, ◌∙◌, Bool, false, [], ◌∷◌, ◌++◌}
use smartedge.Base.{◌==◌, ◌&&◌, inl, inr, Bool-cases, List, true, Text, =?_refl, arith, is_empty}
use mathlib.Core.List.{append_assoc}
use smartedge.Base.Bytes.{
  Bytes, bar, prepend, split, split_pair, has_pair, has_char, split_pair-append, split_pair-whole,
  split-append, split-whole, has_pair-append,
}
use smartedge.Base.Decimal.{
  pos, dec, int-dec, dec-AllDigits, AllDigits, has_char-AllDigits, dec-nonempty,
}
use smartedge.Base.Utf8.{IsAscii, decode-IsAscii, encode-IsAscii}
use smartedge.Base.Exec.{ok, raised, value_error}
use smartedge.Heartbeat.Wire.{encode_heartbeat, check_payload, check_parts, parse_datagram}

-- A field of the payload: ASCII, and without the separator.
pub record IsField (t : Text) : Type 0 where
  pub ascii : IsAscii t
  pub no_bar : has_char bar t ≡ false

-- The binary fields can be told from the separators: no "||" inside, and none that a byte of the
-- preimage would form with the separator after it.
pub record IsSeparable (w_i authenticator : Bytes) : Type 0 where
  pub preimage : has_pair (w_i ++ bar ∷ []) ≡ false
  pub digest : has_pair authenticator ≡ false

abbrev pub payload_of : Text → Text → ℕ → Bytes
payload_of client_id timestamp i = client_id ++ bar ∷ (timestamp ++ bar ∷ dec i)

AllDigits-IsAscii : (t : Text) → AllDigits t → IsAscii t
AllDigits-IsAscii [] h = tt
AllDigits-IsAscii (c ∷ t) (d, h) = (omega arith, AllDigits-IsAscii t h)

dec-no_bar : (i : ℕ) → has_char bar (dec i) ≡ false
dec-no_bar i = has_char-AllDigits bar (dec i) (omega arith) (dec-AllDigits i)

-- A field that is not empty keeps the separators on its two sides apart.
has_pair_between :
    (t rest : Bytes)
    → is_empty t ≡ false
    → has_char bar t ≡ false
    → has_pair (bar ∷ (t ++ rest)) ≡ has_pair rest
unfolding has_pair has_char
has_pair_between [] rest e h = cc
has_pair_between (x ∷ t) rest e h = ground (arith, has_pair-append (x ∷ t) rest h)

split-payload :
    (client_id timestamp : Text) (i : ℕ)
    → IsField client_id
    → IsField timestamp
    → split bar (payload_of client_id timestamp i) ≡ client_id ∷ timestamp ∷ dec i ∷ []
split-payload c t i fc ft =
    split-append bar c (t ++ bar ∷ dec i) fc.no_bar
    ∙ ap (◌∷◌ c)
        (split-append bar t (dec i) ft.no_bar ∙ ap (◌∷◌ t) (split-whole bar (dec i) (dec-no_bar i)))

payload-separable :
    (client_id timestamp : Text) (i : ℕ)
    → IsField client_id
    → IsField timestamp
    → is_empty timestamp ≡ false
    → has_pair (payload_of client_id timestamp i ++ bar ∷ []) ≡ false
unfolding has_pair
payload-separable c t i fc ft e = simp append_assoc (
    has_pair-append c (bar ∷ (t ++ bar ∷ (dec i ++ bar ∷ []))) fc.no_bar
    ∙ has_pair_between t (bar ∷ (dec i ++ bar ∷ [])) e ft.no_bar
    ∙ has_pair_between (dec i) (bar ∷ []) (dec-nonempty i) (dec-no_bar i)
    ∙ refl)

abbrev one_or_more : List Bytes → Bool
one_or_more [] = false
one_or_more (p ∷ ps) = true

abbrev two_or_more : List Bytes → Bool
two_or_more [] = false
two_or_more (p ∷ ps) = one_or_more ps

one_or_more-prepend : (x : ℕ) (ps : List Bytes) → one_or_more (prepend x ps) ≡ true
one_or_more-prepend x [] = refl
one_or_more-prepend x (p ∷ ps) = refl

split_pair-one_or_more : (p : Bytes) → one_or_more (split_pair p) ≡ true
unfolding split_pair
split_pair-one_or_more [] = refl
split_pair-one_or_more (x ∷ []) = refl
split_pair-one_or_more (x ∷ y ∷ p) = elim (Bool-cases (x == bar && y == bar)) [
  | inl both ↦ rw (both, split_pair)
  | inr other ↦ rw (other, split_pair) (one_or_more-prepend x (split_pair (y ∷ p)))
]

split_pair-two_or_more : (p : Bytes) → has_pair p ≡ true → two_or_more (split_pair p) ≡ true
unfolding split_pair has_pair
split_pair-two_or_more [] h = h
split_pair-two_or_more (x ∷ []) h = h
split_pair-two_or_more (x ∷ y ∷ p) h =
    ground (arith, split_pair-two_or_more (y ∷ p), split_pair-one_or_more p)

module _ (hash : Bytes → Bytes) where
  too_many :
      (a b : Bytes) (ps : List Bytes)
      → two_or_more ps ≡ true
      → check_parts hash (a ∷ b ∷ ps) ≡ raised value_error
  unfolding check_parts
  too_many a b [] h = cc
  too_many a b (c ∷ []) h = cc
  too_many a b (c ∷ d ∷ ps) h = refl

  read_back :
      (c t : Text) (i : ℕ) (w p : Bytes)
      → IsField c
      → IsField t
      → check_payload hash p w (hash (p ++ w)) (c ∷ t ∷ dec i ∷ [])
        ≡ ok (record { client_id = c; ts_str = t; index = pos i; w_i = w })
  unfolding check_payload
  read_back c t i w p fc ft = ground (
    arith,
    decode-IsAscii c fc.ascii,
    decode-IsAscii t ft.ascii,
    decode-IsAscii (dec i) (AllDigits-IsAscii (dec i) (dec-AllDigits i)),
    int-dec i,
    =?_refl (hash (p ++ w)),
  )

  -- A heartbeat whose text fields are ASCII without '|', whose time is not empty and whose binary
  -- fields cannot be mistaken for a separator is read back as it was sent.
  pub parse-encode :
      (client_id timestamp : Text) (i : ℕ) (w_i : Bytes)
      → IsField client_id
      → IsField timestamp
      → is_empty timestamp ≡ false
      → IsSeparable w_i (hash (payload_of client_id timestamp i ++ w_i))
      → parse_datagram hash (encode_heartbeat hash client_id timestamp i w_i)
        ≡ ok (record { client_id = client_id; ts_str = timestamp; index = pos i; w_i = w_i })
  unfolding encode_heartbeat parse_datagram
  parse-encode c t i w fc ft e sep =
      let p = payload_of c t i in
      let digest = hash (p ++ w) in
      rw
        (
          encode-IsAscii c fc.ascii,
          split_pair-append p (w ++ bar ∷ bar ∷ digest) (payload-separable c t i fc ft e),
          split_pair-append w digest sep.preimage,
          split_pair-whole digest sep.digest,
          split-payload c t i fc ft,
        )
        (read_back c t i w p fc ft)

  -- A heartbeat whose preimage cannot be mistaken for a separator but whose digest holds "||" is
  -- refused, however honest it is.
  pub parse-encode_lost :
      (client_id timestamp : Text) (i : ℕ) (w_i : Bytes)
      → IsField client_id
      → IsField timestamp
      → is_empty timestamp ≡ false
      → has_pair (w_i ++ bar ∷ []) ≡ false
      → has_pair (hash (payload_of client_id timestamp i ++ w_i)) ≡ true
      → parse_datagram hash (encode_heartbeat hash client_id timestamp i w_i) ≡ raised value_error
  unfolding encode_heartbeat parse_datagram
  parse-encode_lost c t i w fc ft e clean pair =
      let p = payload_of c t i in
      let digest = hash (p ++ w) in
      rw
        (
          encode-IsAscii c fc.ascii,
          split_pair-append p (w ++ bar ∷ bar ∷ digest) (payload-separable c t i fc ft e),
          split_pair-append w digest clean,
        )
        (too_many p w (split_pair digest) (split_pair-two_or_more digest pair))
