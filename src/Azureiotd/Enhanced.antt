-- ===== src/Azureiotd/Enhanced.antt =====
-- package/azureiotd/src/enhanced_main.c and package/azureiotd/src/modbus_rtu.c: a trial of the
-- certificates and of a Modbus that answers by itself. A message is a constructor of Report, not
-- its text.
pub mod Trial
use python2c.Base.{
  ℕ, zero, suc, ◌+◌, ◌%◌, Bool, true, false, not, List, [], ◌∷◌, ◌++◌, Option, none, some, Bytes,
  codes, take, if◌then◌else◌, ◌==ℤ◌, ℤ, pos, negsuc,
}
use python2c.Azureiotd.Dps
use python2c.Azureiotd.Dps.{Host, Made}

pub record ModbusRtu : Type 0 where
  pub slave_id : ℕ
  pub device_path : Bytes
  pub baud_rate : ℕ
  pub initialized : Bool

pub data Report : Type 0 where
  serial : Bytes → Report
  no_serial present absent generated not_generated : Report
  modbus_ready modbus_failed : Report
  registers : Bytes → Report
  ended goodbye : Report

-- The struct after `memset`.
abbrev pub cleared : ModbusRtu
cleared = record { slave_id = 0; device_path = []; baud_rate = 0; initialized = false }

-- The result is what is returned, and the struct; a `none` is a null pointer.
unfoldable pub modbus_rtu_init : Option ModbusRtu → Option Bytes → ℕ → ℤ × Option ModbusRtu
modbus_rtu_init none device baud_rate = (negsuc 0, none)
modbus_rtu_init (some modbus) none baud_rate = (negsuc 0, some modbus)
modbus_rtu_init (some modbus) (some device) baud_rate = (
  pos 0,
  some (record {
    slave_id = 0x33;
    device_path = take 63 device;
    baud_rate = baud_rate;
    initialized = true;
  }),
)

-- The bytes that the loop puts into the buffer, from the address on.
unfoldable pub simulated : ℕ → ℕ → Bytes
simulated address zero = []
simulated address (suc n) = address % 256 ∷ simulated (address + 1) n

-- For a buffer that is no null pointer.
unfoldable pub modbus_read_register : Option ModbusRtu → ℕ → ℕ → Option Bytes
modbus_read_register none address byte_count = none
modbus_read_register (some modbus) address byte_count =
    if modbus.initialized then some (simulated address byte_count) else none

unfoldable pub modbus_write_register : Option ModbusRtu → ℕ → ℕ → ℤ
modbus_write_register none address value = negsuc 0
modbus_write_register (some modbus) address value = if modbus.initialized then pos 0 else negsuc 0

unfoldable pub modbus_rtu_cleanup : Option ModbusRtu → Option ModbusRtu
modbus_rtu_cleanup none = none
modbus_rtu_cleanup (some modbus) = some (record modbus { initialized = false })

-- The registers read are those of 0x3000 on; what is written is not seen.
unfoldable pub test_modbus_rtu : List Report
test_modbus_rtu =
    let (code, modbus) = modbus_rtu_init (some cleared) (some (codes "/dev/ttyS0")) 115200 in
    if code ==ℤ pos 0
    then modbus_ready ∷ elim (modbus_read_register modbus 0x3000 4) [
      | none ↦ []
      | some buffer ↦ registers buffer ∷ []
    ]
    else modbus_failed ∷ []

module _ (host : Host) where
  unfoldable pub test_dps_certificate : host.State → List Report × host.State
  test_dps_certificate s = elim (Dps.dps_get_serial_number host s) [
    | none ↦ (no_serial ∷ [], s)
    | some serial_no ↦
        let made = Dps.dps_generate_certificates host s in
        if Dps.dps_check_certificates_exist host (some serial_no) s
        then (serial serial_no ∷ present ∷ [], s)
        else (
          serial serial_no
              ∷ absent
              ∷ (if made.code ==ℤ pos 0 then generated else not_generated)
              ∷ [],
          made.after,
        )
  ]

  -- The loop: whether a signal came before each test of `g_running`; `none` while it goes on.
  unfoldable pub wait_loop : List Bool → Option (List Report)
  wait_loop [] = none
  wait_loop (signalled ∷ rounds) =
      let rest = wait_loop rounds in if signalled then some (goodbye ∷ []) else rest

  -- What is reported until the loop, and in it.
  unfoldable pub main : host.State → List Bool → List Report × Option (List Report)
  main s rounds =
      ((test_dps_certificate s).0 ++ (test_modbus_rtu ++ (ended ∷ [])), wait_loop rounds)
