-- ===== src/Azureiotd/Base64.antt =====
-- package/azureiotd/src/azure_conn.c: b64_decode and b64_encode over the BIOs of OpenSSL, which are
-- a parameter. What is made and freed is a list of events.
use python2c.Base.{
  ℕ, suc, ◌+◌, ◌*◌, ◌/◌, ◌≤◌, ◌≡◌, Bool, true, not, ◌&&◌, List, [], ◌∷◌, ◌++◌, Option, none, some,
  Bytes, take, length, take-eq_of_le, arith, if◌then◌else◌, ℤ, pos, is_pos,
}

pub data BioEvent : Type 0 where
  bio_new bio_free : BioEvent
  bio_free_all : BioEvent  -- of the two that are pushed together
  malloc free : BioEvent

-- What OpenSSL and malloc give: whether each of the two BIOs is made, what BIO_read returns and
-- gives for a text and a length, what the memory holds after BIO_write and BIO_flush, and whether
-- there is room.
pub record Bio : Type 0 where
  pub filter_made : Bool
  pub other_made : Bool
  pub room : Bool
  pub bio_read : Bytes → ℕ → ℤ × Bytes
  pub bio_text : Bytes → Bytes

-- `if(!b64||!bio){ … return NULL; }`: the BIOs made, and freed again if one is missing.
unfoldable pub made : Bio → List BioEvent
made bio =
    (if bio.filter_made then bio_new ∷ [] else []) ++ (if bio.other_made then bio_new ∷ [] else [])

unfoldable pub freed_again : Bio → List BioEvent
freed_again bio =
    (if bio.filter_made then bio_free ∷ [] else [])
    ++ (if bio.other_made then bio_free ∷ [] else [])

-- `strlen(in)*3/4+4`
abbrev pub buflen : Bytes → ℕ
buflen s = length s * 3 / 4 + 4

unfoldable pub b64_decode : Bio → Bytes → Option Bytes × List BioEvent
unfolding made freed_again
b64_decode bio s =
    let (n, bytes) = bio.bio_read s (buflen s) in
    if not (bio.filter_made && bio.other_made)
    then (none, made bio ++ freed_again bio)
    else if not bio.room
    then (none, made bio ++ (bio_free_all ∷ []))
    else if not (is_pos n)
    then (none, made bio ++ (malloc ∷ bio_free_all ∷ free ∷ []))
    else (some bytes, made bio ++ (malloc ∷ bio_free_all ∷ []))

-- The caller gets a string: what stands before a zero byte, of which base64 has none.
unfoldable pub b64_encode : Bio → Bytes → Option Bytes × List BioEvent
unfolding made freed_again
b64_encode bio bytes =
    if not (bio.filter_made && bio.other_made)
    then (none, made bio ++ freed_again bio)
    else if not bio.room
    then (none, made bio ++ (bio_free_all ∷ []))
    else (some (bio.bio_text bytes), made bio ++ (malloc ∷ bio_free_all ∷ []))

-- How many BIOs and how many buffers are held after some events; `none` when one is freed that is
-- not held.
unfoldable pub held : List BioEvent → ℕ → ℕ → Option (ℕ × ℕ)
held [] bios bufs = some (bios, bufs)
held (bio_new ∷ es) bios bufs = held es (suc bios) bufs
held (bio_free ∷ es) (suc bios) bufs = held es bios bufs
held (bio_free_all ∷ es) (suc (suc bios)) bufs = held es bios bufs
held (malloc ∷ es) bios bufs = held es bios (suc bufs)
held (free ∷ es) bios (suc bufs) = held es bios bufs
held (e ∷ es) bios bufs = none

-- The buffer that the caller is given, and nothing else, is held at the end.
abbrev pub given : Option Bytes → Option (ℕ × ℕ)
given none = some (0, 0)
given (some s) = some (0, 1)

-- On every path of both functions, each BIO that is made is freed, and each buffer but the one that
-- is returned.
pub base64-held :
    (bio : Bio) (s : Bytes)
    → (held (b64_decode bio s).1 0 0 ≡ given (b64_decode bio s).0)
      × (held (b64_encode bio s).1 0 0 ≡ given (b64_encode bio s).0)
unfolding held b64_decode b64_encode
base64-held bio s = ground arith

-- OpenSSL decodes by `decode`: it gives three bytes for four characters at most, all that it
-- decodes if there is room, and how many it gives.
pub record Decodes (bio : Bio) (decode : Bytes → Option Bytes) : Type 0 where
  pub small : (s t : Bytes) → decode s ≡ some t → length t ≤ length s * 3 / 4
  pub reads :
      (s t : Bytes) (n : ℕ)
      → decode s ≡ some t
      → bio.bio_read s n ≡ (pos (length (take n t)), take n t)

-- With a BIO that decodes, both BIOs made and room for the buffer, a text that decodes to one byte
-- or more is decoded whole: the buffer is never too short.
pub b64_decode-whole :
    (bio : Bio) (decode : Bytes → Option Bytes) (s : Bytes) (c : ℕ) (t : Bytes)
    → Decodes bio decode
    → (bio.filter_made ≡ true) × (bio.other_made ≡ true) × (bio.room ≡ true)
    → decode s ≡ some (c ∷ t)
    → (b64_decode bio s).0 ≡ some (c ∷ t)
unfolding b64_decode
b64_decode-whole bio decode s c t d (f, o, r) e =
    rw
      (
        f,
        o,
        r,
        d.reads s (c ∷ t) (buflen s) e,
        take-eq_of_le (buflen s) (c ∷ t) (omega (arith, d.small s (c ∷ t) e)),
      )
      (ground arith)
