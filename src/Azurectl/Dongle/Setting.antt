-- ===== src/Azurectl/Dongle/Setting.antt =====
-- What a call of `usb_set_port` does with the board.
use python2c.Base.{
  append_assoc, Bool-cases, ℕ, ◌≤◌, ◌≡◌, refl, sym, true, ◌++◌, ◌∷◌, [], List, Option, none, some,
  Bytes, length, ==_iff, ap, ◌⊎◌, inl, inr, pos, arith,
}
use python2c.Azurectl.Dongle.{
  Board, BoardEvent, opened, flushed_both, flushed_input, written, slept, closed, set_message,
  query, set_and_query, usb_set_port, read_loop, took,
}

-- All that a call that gets through does, from opening the board to closing it.
abbrev pub full_run : Bytes → List BoardEvent
full_run msg =
    opened
    ∷ flushed_both
    ∷ written msg
    ∷ slept 500000
    ∷ written (0xFF ∷ [])
    ∷ flushed_input
    ∷ closed
    ∷ []

took-some : (o : Option ℕ) (n : ℕ) → took o n ≡ true → o ≡ some n
unfolding took
took-some none n h = ground arith
took-some (some m) n h = ap some ((==_iff m n).0 h)

query-success :
    (board : Board) (done : List BoardEvent)
    → (query board done).0 ≡ pos 0
    → (board.write (0xFF ∷ []) ≡ some 1)
      × (40 ≤ length (read_loop board.read 20 0 [] 0))
      × ((query board done).1
          ≡ done ++ (slept 500000 ∷ written (0xFF ∷ []) ∷ flushed_input ∷ closed ∷ []))
unfolding query
query-success board done h = ground (arith, took-some (board.write (0xFF ∷ [])) 1)

set_and_query-success :
    (board : Board) (act : Bytes) (port : ℕ)
    → (set_and_query board act port).0 ≡ pos 0
    → (board.write (set_message act port) ≡ some 4)
      × (board.write (0xFF ∷ []) ≡ some 1)
      × (40 ≤ length (read_loop board.read 20 0 [] 0))
      × ((set_and_query board act port).1 ≡ full_run (set_message act port))
unfolding set_and_query
set_and_query-success board act port h = ground (
  arith,
  took-some (board.write (set_message act port)) 4,
  query-success board (opened ∷ flushed_both ∷ written (set_message act port) ∷ []),
)

-- A call that returns 0 was given one of the four ports, sent the setting and the query, both taken
-- whole by the board, and read 40 bytes of answer at least before it closed the line.
pub usb_set_port-success :
    (board : Board) (act : Bytes) (port : ℕ)
    → (usb_set_port board act port).0 ≡ pos 0
    → (1 ≤ port)
      × (port ≤ 4)
      × (board.write (set_message act port) ≡ some 4)
      × (board.write (0xFF ∷ []) ≡ some 1)
      × (40 ≤ length (read_loop board.read 20 0 [] 0))
      × ((usb_set_port board act port).1 ≡ full_run (set_message act port))
unfolding usb_set_port
usb_set_port-success board act port h = ground (arith, set_and_query-success board act port)

abbrev Closes : List BoardEvent → Type 0
Closes evs = (es : List BoardEvent) × (evs ≡ opened ∷ (es ++ (closed ∷ [])))

query-Closes : (board : Board) (es : List BoardEvent) → Closes (query board (opened ∷ es)).1
unfolding query
query-Closes board es = elim (Bool-cases (took (board.write (0xFF ∷ [])) 1)) [
  | inl whole ↦ rw whole (
    es ++ (slept 500000 ∷ written (0xFF ∷ []) ∷ flushed_input ∷ []),
    ap (λ r. opened ∷ r) (sym (append_assoc es _ _)),
  )
  | inr short ↦ rw short (
    es ++ (slept 500000 ∷ written (0xFF ∷ []) ∷ []),
    ap (λ r. opened ∷ r) (sym (append_assoc es _ _)),
  )
]

set_and_query-Closes :
    (board : Board) (act : Bytes) (port : ℕ) → Closes (set_and_query board act port).1
unfolding set_and_query
set_and_query-Closes board act port =
    elim (Bool-cases (took (board.write (set_message act port)) 4)) [
      | inl whole ↦
          rw whole (query-Closes board (flushed_both ∷ written (set_message act port) ∷ []))
      | inr short ↦ rw short (flushed_both ∷ written (set_message act port) ∷ [], refl)
    ]

-- On every path, errors included, a call leaves the line as it was found: never opened, or opened
-- first and closed last.
pub usb_set_port-ends :
    (board : Board) (act : Bytes) (port : ℕ)
    → ((usb_set_port board act port).1 ≡ [])
      ⊎ ((es : List BoardEvent) × ((usb_set_port board act port).1
            ≡ opened ∷ (es ++ (closed ∷ []))))
unfolding usb_set_port
usb_set_port-ends board act port = ground (arith, set_and_query-Closes board act port)
