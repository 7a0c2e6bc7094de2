-- ===== src/Lcdsvc/Service/Lines.antt =====
-- How package/evi-lcdsvc/src/lcdsvc.c cuts what it receives into lines.
use python2c.Base.{
  ℕ, zero, suc, ◌≤◌, ◌≡◌, ◌≢◌, refl, sym, ap, ◌∙◌, false, List, [], ◌∷◌, ◌++◌, append-nil,
  append_assoc, Option, none, some, Bytes, All, length, length-append, arith, if◌then◌else◌, ◌==◌,
  Bool-cases, inl, inr, ◌⊎◌, ==_iff,
}
use python2c.Lcdsvc.Service
use python2c.Lcdsvc.Service.{Action, cut_line}
use python2c.Base.{until_zero}

-- The lines that a newline ends, after the `acc` of the one begun; the rest is no line.
unfoldable pub lines_from : Bytes → Bytes → List Bytes
lines_from acc [] = []
lines_from acc (c ∷ cs) =
    let ended = acc ∷ lines_from [] cs in
    let goes_on = lines_from (acc ++ (c ∷ [])) cs in if c == b'\n' then ended else goes_on

abbrev pub lines : Bytes → List Bytes
lines = lines_from []

abbrev pub NoNewline : Bytes → Type 0
NoNewline = All (λ c. (c == b'\n') ≡ false)

pub lines_from-line :
    (acc line more : Bytes)
    → NoNewline line
    → lines_from acc (line ++ (b'\n' ∷ more)) ≡ (acc ++ line) ∷ lines more
unfolding lines_from
lines_from-line acc [] more h = rw append-nil
lines_from-line acc (c ∷ cs) more h =
    rw h.0 (lines_from-line (acc ++ (c ∷ [])) cs more h.1 ∙ rw append_assoc)

lines_from-none : (acc p : Bytes) → NoNewline p → lines_from acc p ≡ []
unfolding lines_from
lines_from-none acc [] h = refl
lines_from-none acc (c ∷ cs) h = rw h.0 (lines_from-none (acc ++ (c ∷ [])) cs h.1)

pub cut_line-line :
    (line more : Bytes) → NoNewline line → cut_line (line ++ (b'\n' ∷ more)) ≡ some (line, more)
unfolding cut_line
cut_line-line [] more h = refl
cut_line-line (c ∷ cs) more h = rw (h.0, cut_line-line cs more h.1)

pub cut_line-none : (p : Bytes) → NoNewline p → cut_line p ≡ none
unfolding cut_line
cut_line-none [] h = refl
cut_line-none (c ∷ cs) h = rw (h.0, cut_line-none cs h.1)

-- A text has no newline, or a first line and what follows it.
abbrev Split : Bytes → Type 0
Split p =
    NoNewline p ⊎ ((line : Bytes) × (more : Bytes) × (p ≡ line ++ (b'\n' ∷ more)) × NoNewline line)

first_newline : (p : Bytes) → Split p
first_newline [] = inl tt
first_newline (c ∷ cs) = elim (Bool-cases (c == b'\n')) [
  | inl nl ↦ inr ([], cs, ap (λ (x : ℕ). x ∷ cs) ((==_iff c b'\n').0 nl), tt)
  | inr on ↦ longer on (first_newline cs)
]
  where
    longer : (c == b'\n') ≡ false → Split cs → Split (c ∷ cs)
    longer on (inl h) = inl (on, h)
    longer on (inr (line, more, e, h)) = inr (c ∷ line, more, ap (◌∷◌ c) e, (on, h))

abbrev pub flat {ℓ κ} : {A : Type ℓ} {B : Type κ} → (A → List B) → List A → List B
flat f [] = []
flat f (x ∷ xs) = f x ++ flat f xs

pub flat-append {ℓ κ} :
    {A : Type ℓ} {B : Type κ} (f : A → List B) (xs ys : List A)
    → flat f (xs ++ ys) ≡ flat f xs ++ flat f ys
flat-append f [] ys = refl
flat-append f (x ∷ xs) ys = rw (flat-append f xs ys, append_assoc)

module _ (uci : Bytes → Option Bytes) where
  -- Whatever the buffer holds, the loop over it ends by its own test and answers each line that a
  -- newline ends, in order, and nothing else.
  pub line_loop-lines :
      (f : ℕ) (p : Bytes)
      → length p ≤ f
      → Service.line_loop uci f p ≡ flat (Service.dispatch uci) (lines p)
  unfolding Service.line_loop
  line_loop-lines zero [] h = unfold lines_from in refl
  line_loop-lines zero (c ∷ cs) h = absurd (omega arith)
  line_loop-lines (suc f) p h = elim (first_newline p) [
    | inl none_left ↦
        rw (cut_line-none p none_left, Service.line_loop, lines_from-none [] p none_left)
    | inr (line, more, e, one) ↦
        rw (e, cut_line-line line more one, Service.line_loop, lines_from-line [] line more one)
          (ap (λ out. Service.dispatch uci line ++ out)
            (line_loop-lines f more
              (omega (arith, ap length e, length-append line (b'\n' ∷ more)))))
  ]

abbrev pub NoZero : Bytes → Type 0
NoZero = All (λ c. (c == 0) ≡ false)

until_zero-all : (p : Bytes) → NoZero p → until_zero p ≡ p
unfolding until_zero
until_zero-all [] h = refl
until_zero-all (c ∷ cs) h = rw (h.0, until_zero-all cs h.1)

lines_from-ended :
    (acc q ys : Bytes)
    → lines_from acc (q ++ (b'\n' ∷ ys)) ≡ lines_from acc (q ++ (b'\n' ∷ [])) ++ lines ys
unfolding lines_from
lines_from-ended acc [] ys = refl
lines_from-ended acc (c ∷ cs) ys = elim (Bool-cases (c == b'\n')) [
  | inl nl ↦ rw (nl, lines_from-ended [] cs ys)
  | inr on ↦ rw (on, lines_from-ended (acc ++ (c ∷ [])) cs ys)
]

-- What one `recv` may give for this theorem: whole lines, and no zero byte.
pub record IsWhole (chunk : Bytes) : Type 0 where
  pub lines_before : Bytes
  pub ended : chunk ≡ lines_before ++ (b'\n' ∷ [])
  pub no_zero : NoZero chunk

abbrev pub joined : List Bytes → Bytes
joined [] = []
joined (c ∷ cs) = c ++ joined cs

module _ (uci : Bytes → Option Bytes) where
  pub handle_chunk-lines :
      (p : Bytes) → NoZero p → Service.handle_chunk uci p ≡ flat (Service.dispatch uci) (lines p)
  unfolding Service.handle_chunk
  handle_chunk-lines p h = rw (until_zero-all p h) (line_loop-lines uci (length p) p (omega arith))

  lines-chunk :
      (chunk rest : Bytes) → IsWhole chunk → lines (chunk ++ rest) ≡ lines chunk ++ lines rest
  lines-chunk chunk rest w = rw (w.ended, append_assoc) (lines_from-ended [] w.lines_before rest)

  handle_client-cons :
      (chunk : Bytes) (chunks : List Bytes)
      → chunk ≢ []
      → Service.handle_client uci (chunk ∷ chunks)
        ≡ Service.handle_chunk uci chunk ++ Service.handle_client uci chunks
  unfolding Service.handle_client
  handle_client-cons [] chunks ne = absurd (ne refl)
  handle_client-cons (c ∷ cs) chunks ne = refl

  IsWhole-ne-nil : (chunk : Bytes) → IsWhole chunk → chunk ≢ []
  IsWhole-ne-nil chunk w e =
      absurd (omega (arith, ap length (sym w.ended ∙ e), length-append w.lines_before (b'\n' ∷ [])))

  -- When every `recv` gives whole lines without a zero byte, the daemon answers the lines of all
  -- that was sent, one by one in order, however they were spread over the calls.
  pub handle_client-lines :
      (chunks : List Bytes)
      → All IsWhole chunks
      → Service.handle_client uci chunks ≡ flat (Service.dispatch uci) (lines (joined chunks))
  handle_client-lines [] h = unfold Service.handle_client lines_from in refl
  handle_client-lines (p ∷ ps) h =
      handle_client-cons p ps (IsWhole-ne-nil p h.0)
      ∙ rw (
        handle_chunk-lines p h.0.no_zero,
        handle_client-lines ps h.1,
        lines-chunk p (joined ps) h.0,
        flat-append (Service.dispatch uci),
      )

  -- What one `recv` gives, if it is not empty and has no newline and no zero byte in it, is
  -- dropped: it gets no reply, and its bytes do not join those of the next `recv`.
  pub handle_client-partial :
      (chunk : Bytes) (chunks : List Bytes)
      → chunk ≢ []
      → NoZero chunk
      → NoNewline chunk
      → Service.handle_client uci (chunk ∷ chunks) ≡ Service.handle_client uci chunks
  handle_client-partial chunk chunks ne z n =
      handle_client-cons chunk chunks ne
      ∙ rw (handle_chunk-lines chunk z, lines_from-none [] chunk n)
