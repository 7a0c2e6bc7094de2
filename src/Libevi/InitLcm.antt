-- ===== src/Libevi/InitLcm.antt =====
-- package/libevi/src/initlcm.c: the program that brings the display up over its 8-bit bus.
-- The results of the GPIO calls only decide what `perror` prints. `gpio_export` of gpio_sysfs.c
-- returns 0 always; whether `gpio_set_dir` fails is a parameter.
pub mod Bus
pub mod Commands
pub mod Directions
pub mod Taken
use python2c.Base.{
  ℕ, ◌/◌, ◌%◌, ◌^◌, ◌≡◌, refl, Bool, true, false, List, [], ◌∷◌, ◌++◌, Bytes, codes, if◌then◌else◌,
}

pub data LcmOp : Type 0 where
  write : ℕ → ℕ → LcmOp
  export : ℕ → LcmOp
  set_dir : ℕ → ℕ → LcmOp
  usleep : ℕ → LcmOp
  perror : Bytes → LcmOp

abbrev pub gpio_rs : ℕ
gpio_rs = 18

abbrev pub gpio_rw : ℕ
gpio_rw = 17

abbrev pub gpio_en : ℕ
gpio_en = 37

abbrev pub gpio_db7 : ℕ
gpio_db7 = 5

abbrev pub gpio_db6 : ℕ
gpio_db6 = 4

abbrev pub gpio_db5 : ℕ
gpio_db5 = 3

abbrev pub gpio_db4 : ℕ
gpio_db4 = 2

abbrev pub gpio_db3 : ℕ
gpio_db3 = 1

abbrev pub gpio_db2 : ℕ
gpio_db2 = 0

abbrev pub gpio_db1 : ℕ
gpio_db1 = 46

abbrev pub gpio_db0 : ℕ
gpio_db0 = 45

abbrev pub all_pins : List ℕ
all_pins =
    gpio_rs ∷ gpio_rw ∷ gpio_en ∷ gpio_db7 ∷ gpio_db6 ∷ gpio_db5 ∷ gpio_db4 ∷ gpio_db3 ∷ gpio_db2
    ∷ gpio_db1 ∷ gpio_db0 ∷ []

unfoldable pub delay_100us : List LcmOp
delay_100us = usleep 100 ∷ []

unfoldable pub delay_10ms : List LcmOp
delay_10ms = usleep 10000 ∷ []

unfoldable pub set_data_bus : ℕ → List LcmOp
set_data_bus v =
    write gpio_db7 (v / 2 ^ 7 % 2)
    ∷ write gpio_db6 (v / 2 ^ 6 % 2)
    ∷ write gpio_db5 (v / 2 ^ 5 % 2)
    ∷ write gpio_db4 (v / 2 ^ 4 % 2)
    ∷ write gpio_db3 (v / 2 ^ 3 % 2)
    ∷ write gpio_db2 (v / 2 ^ 2 % 2)
    ∷ write gpio_db1 (v / 2 ^ 1 % 2)
    ∷ write gpio_db0 (v / 2 ^ 0 % 2)
    ∷ []

unfoldable pub write_cmd : ℕ → List LcmOp
unfolding set_data_bus
write_cmd v =
    write gpio_rs 0 ∷ write gpio_rw 0 ∷ write gpio_en 1 ∷ (set_data_bus v ++ (write gpio_en 0 ∷ []))

module _ (set_dir_fails : ℕ → Bool) where
  unfoldable pub setup_loop : List ℕ → List LcmOp
  setup_loop [] = []
  setup_loop (p ∷ ps) =
      export p
      ∷ usleep 1000
      ∷ set_dir p 1
      ∷ ((if set_dir_fails p then perror (codes "direction") ∷ [] else [])
          ++ (write p 0 ∷ setup_loop ps))

  -- `setup_pins` returns 0 always, so `main` never takes its first `return 1`.
  unfoldable pub setup_pins : List LcmOp
  unfolding setup_loop
  setup_pins = setup_loop all_pins

  unfoldable pub main : List LcmOp
  unfolding setup_pins write_cmd delay_100us delay_10ms
  main =
      setup_pins
      ++ (write_cmd 0x30
          ++ (delay_100us
              ++ (write_cmd 0x30
                  ++ (delay_100us
                      ++ (write_cmd 0x0C
                          ++ (delay_100us
                              ++ (write_cmd 0x01 ++ (delay_10ms ++ write_cmd 0x06))))))))
