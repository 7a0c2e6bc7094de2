-- ===== src/Libevi/Charge.antt =====
-- package/libevi/src/evi_charge.c: the charging screens, as the calls of evi_hal.h that each makes.
-- The Chinese text is written as Big5 pairs.
use python2c.Base.{List, [], ◌∷◌, some, codes}
use python2c.Libevi.Hal.{HalCall, write_letters, write_graphic, delay_us, move_ddram}

unfoldable pub evi_charge_preparing : List HalCall
evi_charge_preparing =
    move_ddram 2
    ∷ write_letters (some (codes "Charger Preparing"))
    ∷ move_ddram 15
    ∷ write_graphic 0xA5
    ∷ write_graphic 0x52
    ∷ delay_us 72
    ∷ write_graphic 0xB9
    ∷ write_graphic 0x71
    ∷ delay_us 72
    ∷ write_graphic 0xBE
    ∷ write_graphic 0xB9
    ∷ delay_us 72
    ∷ write_graphic 0xB7
    ∷ write_graphic 0xC7
    ∷ delay_us 72
    ∷ write_graphic 0xB3
    ∷ write_graphic 0xC6
    ∷ delay_us 72
    ∷ write_graphic 0xA4
    ∷ write_graphic 0xA4
    ∷ delay_us 72
    ∷ []

unfoldable pub evi_charge_auth_wait_char : List HalCall
evi_charge_auth_wait_char =
    move_ddram 3
    ∷ write_graphic 0xB5
    ∷ write_graphic 0xA5
    ∷ delay_us 72
    ∷ write_graphic 0xAB
    ∷ write_graphic 0xDD
    ∷ delay_us 72
    ∷ write_graphic 0xA8
    ∷ write_graphic 0xAE
    ∷ delay_us 72
    ∷ write_graphic 0xBA
    ∷ write_graphic 0xDD
    ∷ delay_us 72
    ∷ write_graphic 0xB3
    ∷ write_graphic 0x73
    ∷ delay_us 72
    ∷ write_graphic 0xB1
    ∷ write_graphic 0xB5
    ∷ delay_us 72
    ∷ move_ddram 14
    ∷ write_graphic 0xB5
    ∷ write_graphic 0xA5
    ∷ delay_us 72
    ∷ write_graphic 0xAB
    ∷ write_graphic 0xDD
    ∷ delay_us 72
    ∷ write_graphic 0xAE
    ∷ write_graphic 0xC9
    ∷ delay_us 72
    ∷ write_graphic 0xB6
    ∷ write_graphic 0xA1
    ∷ delay_us 72
    ∷ write_graphic 0xA9
    ∷ write_graphic 0x7C
    ∷ delay_us 72
    ∷ write_graphic 0xBE
    ∷ write_graphic 0x6C
    ∷ delay_us 72
    ∷ move_ddram 20
    ∷ move_ddram 22
    ∷ write_graphic 0xAC
    ∷ write_graphic 0xED
    ∷ delay_us 72
    ∷ []

unfoldable pub evi_charge_auth_wait_eng : List HalCall
evi_charge_auth_wait_eng =
    move_ddram 0 ∷ write_letters (some (codes "Wait Connect. to The Car")) ∷ move_ddram 13 ∷ []

unfoldable pub evi_charge_plugin_wait_char : List HalCall
evi_charge_plugin_wait_char =
    move_ddram 3
    ∷ write_graphic 0xB5
    ∷ write_graphic 0xA5
    ∷ delay_us 72
    ∷ write_graphic 0xAB
    ∷ write_graphic 0xDD
    ∷ delay_us 72
    ∷ write_graphic 0xA5
    ∷ write_graphic 0x52
    ∷ delay_us 72
    ∷ write_graphic 0xB9
    ∷ write_graphic 0x71
    ∷ delay_us 72
    ∷ write_graphic 0xB1
    ∷ write_graphic 0xD2
    ∷ delay_us 72
    ∷ write_graphic 0xB0
    ∷ write_graphic 0xCA
    ∷ delay_us 72
    ∷ move_ddram 14
    ∷ write_graphic 0xB5
    ∷ write_graphic 0xA5
    ∷ delay_us 72
    ∷ write_graphic 0xAB
    ∷ write_graphic 0xDD
    ∷ delay_us 72
    ∷ write_graphic 0xAE
    ∷ write_graphic 0xC9
    ∷ delay_us 72
    ∷ write_graphic 0xB6
    ∷ write_graphic 0xA1
    ∷ delay_us 72
    ∷ write_graphic 0xA9
    ∷ write_graphic 0x7C
    ∷ delay_us 72
    ∷ write_graphic 0xBE
    ∷ write_graphic 0x6C
    ∷ delay_us 72
    ∷ move_ddram 20
    ∷ move_ddram 22
    ∷ write_graphic 0xAC
    ∷ write_graphic 0xED
    ∷ delay_us 72
    ∷ []

unfoldable pub evi_charge_plugin_wait_eng : List HalCall
evi_charge_plugin_wait_eng =
    move_ddram 1 ∷ write_letters (some (codes " Wait Starting-up")) ∷ move_ddram 13 ∷ []

unfoldable pub evi_charge_get_mvalue : List HalCall
evi_charge_get_mvalue = []

unfoldable pub evi_charge_disp_complete : List HalCall
evi_charge_disp_complete = []

unfoldable pub evi_charge_server_conn : List HalCall
evi_charge_server_conn =
    move_ddram 0
    ∷ write_letters (some (codes "Connecting to the Server"))
    ∷ move_ddram 15
    ∷ write_graphic 0xA6
    ∷ write_graphic 0xF8
    ∷ delay_us 72
    ∷ write_graphic 0xAA
    ∷ write_graphic 0x41
    ∷ delay_us 72
    ∷ write_graphic 0xBE
    ∷ write_graphic 0xB9
    ∷ delay_us 72
    ∷ write_graphic 0xB3
    ∷ write_graphic 0x73
    ∷ delay_us 72
    ∷ write_graphic 0xBD
    ∷ write_graphic 0x75
    ∷ delay_us 72
    ∷ write_graphic 0xA4
    ∷ write_graphic 0xA4
    ∷ delay_us 72
    ∷ []

unfoldable pub evi_charge_server_conn_failed : List HalCall
evi_charge_server_conn_failed =
    move_ddram 2
    ∷ write_letters (some (codes "Connection Failed"))
    ∷ move_ddram 14
    ∷ write_graphic 0xA1
    ∷ write_graphic 0x40
    ∷ delay_us 72
    ∷ write_graphic 0xA6
    ∷ write_graphic 0xF8
    ∷ delay_us 72
    ∷ write_graphic 0xAA
    ∷ write_graphic 0x41
    ∷ delay_us 72
    ∷ write_graphic 0xBE
    ∷ write_graphic 0xB9
    ∷ delay_us 72
    ∷ write_graphic 0xB3
    ∷ write_graphic 0x73
    ∷ delay_us 72
    ∷ write_graphic 0xBD
    ∷ write_graphic 0x75
    ∷ delay_us 72
    ∷ write_graphic 0xA5
    ∷ write_graphic 0xA2
    ∷ delay_us 72
    ∷ write_graphic 0xB1
    ∷ write_graphic 0xD1
    ∷ delay_us 72
    ∷ []

unfoldable pub evi_charge_server_conn_lost : List HalCall
evi_charge_server_conn_lost =
    move_ddram 2
    ∷ write_letters (some (codes "Connection Lost"))
    ∷ move_ddram 14
    ∷ write_graphic 0xBB
    ∷ write_graphic 0x50
    ∷ delay_us 72
    ∷ write_graphic 0xA6
    ∷ write_graphic 0xF8
    ∷ delay_us 72
    ∷ write_graphic 0xAA
    ∷ write_graphic 0x41
    ∷ delay_us 72
    ∷ write_graphic 0xBE
    ∷ write_graphic 0xB9
    ∷ delay_us 72
    ∷ write_graphic 0xA5
    ∷ write_graphic 0xA2
    ∷ delay_us 72
    ∷ write_graphic 0xA5
    ∷ write_graphic 0x68
    ∷ delay_us 72
    ∷ write_graphic 0xB3
    ∷ write_graphic 0x73
    ∷ delay_us 72
    ∷ write_graphic 0xBD
    ∷ write_graphic 0x75
    ∷ delay_us 72
    ∷ []
