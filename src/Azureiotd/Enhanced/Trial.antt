-- ===== src/Azureiotd/Enhanced/Trial.antt =====
-- The simulated Modbus from its start to its end.
use python2c.Base.{ℕ, zero, suc, ◌+◌, ◌≡◌, refl, ap, none, some, Bytes, length, pos, negsuc}
use python2c.Azureiotd.Enhanced.{
  ModbusRtu, simulated, modbus_rtu_init, modbus_read_register, modbus_write_register,
  modbus_rtu_cleanup,
}

length-simulated : (address n : ℕ) → length (simulated address n) ≡ n
unfolding simulated
length-simulated address zero = refl
length-simulated address (suc n) = ap suc (length-simulated (address + 1) n)

-- From its start to its end each read gives as many bytes as asked for and each write succeeds;
-- after its end both fail.
pub modbus_life :
    (m : ModbusRtu) (device : Bytes) (baud_rate address count value : ℕ)
    → (let m1 = (modbus_rtu_init (some m) (some device) baud_rate).1 in
        ((buffer : Bytes) × (modbus_read_register m1 address count ≡ some buffer)
          × (length buffer ≡ count))
        × (modbus_write_register m1 address value ≡ pos 0)
        × (modbus_read_register (modbus_rtu_cleanup m1) address count ≡ none)
        × (modbus_write_register (modbus_rtu_cleanup m1) address value ≡ negsuc 0))
unfolding modbus_rtu_init modbus_read_register modbus_write_register modbus_rtu_cleanup
modbus_life m device baud_rate address count value =
    ((simulated address count, refl, length-simulated address count), refl, refl, refl)
