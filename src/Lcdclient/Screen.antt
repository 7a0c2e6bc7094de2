-- ===== src/Lcdclient/Screen.antt =====
-- The display behind package/evi-lcdsvc/src, as its controller reads bytes in the 8-bit interface
-- by the data sheet of the HD44780, to which package/libevi/src/initlcm.c refers. An
-- instruction that shifts the display, chooses the 4-bit interface or addresses the memory of the
-- character generator is not followed: behind it nothing is said of the display.
use python2c.Base.{
  ℕ, ◌/◌, ◌%◌, ◌≡◌, refl, Bool, true, List, [], ◌∷◌, ◌++◌, Option, none, some, if◌then◌else◌, ◌==◌,
}
use python2c.Base.Family.{update}

-- The characters by address, the address of the next one, whether it moves forwards, whether the
-- display is on, and whether its memory is two lines.
pub record Screen : Type 0 where
  pub cells : ℕ → ℕ
  pub at : ℕ
  pub forwards : Bool
  pub on : Bool
  pub two_lines : Bool

abbrev pub space : ℕ
space = 0x20

-- The order of the addresses, with one line or two: it ends at the last and goes on with the first.
pub record Memory : Type 0 where
  pub next : Bool → ℕ → ℕ
  pub prev : Bool → ℕ → ℕ

unfoldable pub instruct : ℕ → Screen → Option Screen
instruct v s =
    if v == 0
    then some s
    else if v == 1
    then some (record s { cells = λ _. space; at = 0; forwards = true })
    else if v / 2 == 1
    then some (record s { at = 0 })
    else if v / 4 == 1
    then if v % 2 == 0 then some (record s { forwards = v / 2 % 2 == 1 }) else none
    else if v / 8 == 1
    then some (record s { on = v / 4 % 2 == 1 })
    else if v / 32 == 1
    then if v / 16 % 2 == 1 then some (record s { two_lines = v / 8 % 2 == 1 }) else none
    else if v / 128 == 1
    then some (record s { at = v % 128 })
    else none

module _ (m : Memory) where
  -- A character moves the address.
  unfoldable pub store : ℕ → Screen → Screen
  store c s = record s {
    cells = update s.cells s.at c;
    at = if s.forwards then m.next s.two_lines s.at else m.prev s.two_lines s.at;
  }

  -- A byte with its register select: 0 an instruction, 1 a character.
  unfoldable pub feed : ℕ × ℕ → Screen → Option Screen
  unfolding instruct store
  feed (rs, v) s = if rs == 0 then instruct v s else some (store v s)

  unfoldable pub feed_all : List (ℕ × ℕ) → Option Screen → Option Screen
  unfolding feed
  feed_all bs none = none
  feed_all [] (some s) = some s
  feed_all (b ∷ bs) (some s) = feed_all bs (feed b s)

  pub feed_all-append :
      (xs ys : List (ℕ × ℕ)) (o : Option Screen)
      → feed_all (xs ++ ys) o ≡ feed_all ys (feed_all xs o)
  unfolding feed_all
  feed_all-append xs ys none = refl
  feed_all-append [] ys (some s) = refl
  feed_all-append (x ∷ xs) ys (some s) = feed_all-append xs ys (feed x s)
