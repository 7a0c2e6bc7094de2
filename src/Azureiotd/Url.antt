-- ===== src/Azureiotd/Url.antt =====
-- package/azureiotd/src/azure_conn.c: the percent encoding of a string.
use python2c.Base.{
  ◌-◌, ℕ, ◌+◌, ◌*◌, ◌/◌, ◌%◌, ◌<◌, ◌≡◌, refl, ap, ◌∙◌, Bool, true, false, ◌||◌, ◌&&◌, [], ◌∷◌,
  Option, none, some, Bytes, IsByte, All, length, if◌then◌else◌, ◌==◌, ==_iff, leb, ltb, arith,
  Bool-cases, inl, inr,
}
use python2c.Base.Bits.{all_below, all_below→pass}
use python2c.Base.Scan.{hex_val}

-- The bytes that stand for themselves.
unfoldable pub is_plain : ℕ → Bool
is_plain c =
    leb b'A' c && leb c b'Z'
    || leb b'a' c && leb c b'z'
    || leb b'0' c && leb c b'9'
    || c == b'-'
    || c == b'_'
    || c == b'.'
    || c == b'~'

unfoldable pub hex_upper : ℕ → ℕ
hex_upper v = if ltb (v % 16) 10 then b'0' + v % 16 else b'A' + (v % 16 - 10)

-- The first pass: the size that is allocated, without the terminating zero.
unfoldable pub encoded_size : Bytes → ℕ
encoded_size [] = 0
encoded_size (c ∷ cs) = let n = encoded_size cs in if is_plain c then 1 + n else 3 + n

-- The second pass, for a `malloc` that succeeds.
unfoldable pub url_encode : Bytes → Bytes
url_encode [] = []
url_encode (c ∷ cs) =
    let rest = url_encode cs in
    if is_plain c then c ∷ rest else b'%' ∷ hex_upper (c / 16) ∷ hex_upper (c % 16) ∷ rest

-- The second pass fills the allocated bytes exactly: neither runs over nor leaves a gap.
pub length-url_encode : (s : Bytes) → length (url_encode s) ≡ encoded_size s
unfolding url_encode encoded_size
length-url_encode [] = refl
length-url_encode (c ∷ cs) = ground (arith, length-url_encode cs)

-- A reader of percent encodings, as RFC 3986 describes it: between two characters, behind a percent
-- sign, or behind its first digit.
pub data Pending : Type 0 where
  idle : Pending
  percent : Pending
  digit : ℕ → Pending

unfoldable pub prepend : ℕ → Option Bytes → Option Bytes
prepend c none = none
prepend c (some cs) = some (c ∷ cs)

unfoldable pub decode_from : Pending → Bytes → Option Bytes
decode_from idle [] = some []
decode_from percent [] = none
decode_from (digit h) [] = none
decode_from idle (c ∷ cs) =
    let coded = decode_from percent cs in
    let plain = prepend c (decode_from idle cs) in if c == b'%' then coded else plain
decode_from percent (c ∷ cs) = elim (hex_val c) [ none ↦ none | some h ↦ decode_from (digit h) cs ]
decode_from (digit h) (c ∷ cs) = elim (hex_val c) [
  | none ↦ none
  | some l ↦ prepend (h * 16 + l) (decode_from idle cs)
]

digit_ok : ℕ → Bool
digit_ok d = elim (hex_val (hex_upper d)) [ none ↦ false | some v ↦ v == d ]

digit_table : all_below 16 digit_ok ≡ true
unfolding all_below digit_ok hex_upper
digit_table = refl

some_of : (o : Option ℕ) (d : ℕ) → elim o [ none ↦ false | some v ↦ v == d ] ≡ true → o ≡ some d
some_of none d h = ground (arith, h)
some_of (some v) d h = ap some ((==_iff v d).0 h)

hex_val-hex_upper : (d : ℕ) → d < 16 → hex_val (hex_upper d) ≡ some d
unfolding digit_ok
hex_val-hex_upper d h = some_of _ d (all_below→pass 16 digit_ok d digit_table h)

plain-not_percent : (c : ℕ) → is_plain c ≡ true → (c == b'%') ≡ false
unfolding is_plain
plain-not_percent c h = ground arith

pub encode-coded :
    (c : ℕ) (cs : Bytes)
    → is_plain c ≡ false
    → url_encode (c ∷ cs) ≡ b'%' ∷ hex_upper (c / 16) ∷ hex_upper (c % 16) ∷ url_encode cs
unfolding url_encode
encode-coded c cs h = rw h refl

decode-coded :
    (h l : ℕ) (rest : Bytes)
    → h < 16
    → l < 16
    → decode_from idle (b'%' ∷ hex_upper h ∷ hex_upper l ∷ rest)
      ≡ prepend (h * 16 + l) (decode_from idle rest)
unfolding decode_from
decode-coded h l rest bh bl =
    ap
      (λ o. elim o as (λ _. Option Bytes) [
        | none ↦ none
        | some d ↦ decode_from (digit d) (hex_upper l ∷ rest)
      ])
      (hex_val-hex_upper h bh)
    ∙ ap
        (λ o. elim o as (λ _. Option Bytes) [
          | none ↦ none
          | some d ↦ prepend (h * 16 + d) (decode_from idle rest)
        ])
        (hex_val-hex_upper l bl)

-- What is encoded is decoded again: percent-decoding the encoding of any string of bytes gives it
-- back.
pub decode-url_encode : (s : Bytes) → All IsByte s → decode_from idle (url_encode s) ≡ some s
unfolding url_encode decode_from prepend
decode-url_encode [] b = refl
decode-url_encode (c ∷ cs) b = elim (Bool-cases (is_plain c)) [
  | inl plain ↦ rw (plain, plain-not_percent c plain, decode-url_encode cs b.1) refl
  | inr coded ↦
      ap (decode_from idle) (encode-coded c cs coded)
      ∙ decode-coded (c / 16) (c % 16) (url_encode cs) (omega (arith, b.0)) (omega arith)
      ∙ rw (decode-url_encode cs b.1) (ap (λ x. some (x ∷ cs)) (omega arith))
]
