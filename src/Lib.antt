-- ===== src/Lib.antt =====
-- The embedded software of an EV charger for OpenWrt on the MT7688: its character display, the
-- daemon and the client library that share the display, the tool that drives a meter and a relay
-- board over serial lines, and the agent that connects the charger to Azure IoT.
--
-- The parts and the files that model them:
--
-- - Base: shared names, list lemmas, byte strings, C's int, the numbers of sscanf and printf, and
--   facts on the native bit operations. A char pointer is the list of the bytes before the
--   terminating zero, an Option where it may be null.
-- - Libevi.Hal: package/libevi/src/evi_hal_mt7688_gpio.c and evi_hal_gpio_conf.h. A function of
--   evi_hal.h is a step on the driver's state: the flag `inited` and the GPIO calls made so far.
--   Hal.Bus is the display controller, an independent reader of the lines: in 4-bit mode it takes
--   D7..D4 and RS when EN falls. Hal.Traffic joins the two. Hal.Mode is a controller that follows
--   the bit DL of function set, with D3..D0 open, and Libevi.Begin what it makes of `begin`.
-- - Libevi.Charge, Libevi.Caption, Libevi.Router: evi_charge.c, evi_caption.c and
--   evi_charge_router.c of the same folder. A drawing is the list of its calls of evi_hal.h; a
--   caption is a step on Libevi.Screen.Lib: the caches `ui` and `u2`, the lock of evi_mutex.c and
--   the calls made. A second evi_lock without evi_unlock does not return: the step gives none.
-- - Libevi.Version: the texts of evi_version.c and evi_caption_version.
-- - Libevi.Threads: threads that call captions at the same time. A system is the library and what
--   each thread is at; a step is one call of one thread: evi_lock, need, a call of evi_hal.h,
--   keep, evi_unlock. Run is a sequence of steps, with the captions that take the lock in it;
--   Threads.Rest is what a thread inside has still to do, and Threads.Schedule runs a given order
--   of threads.
-- - Libevi.Display: the captions through the driver, as the nibbles that EN latches.
-- - Libevi.InitLcm: package/libevi/src/initlcm.c, with a controller in 8-bit mode whose lines have
--   the levels of those pins only that are outputs.
-- - Libevi.Sysfs: package/libevi/src/gpio_sysfs.c, with the system calls and the record World of
--   Lcdsvc.Gpio; run_ops makes the calls of Libevi.Hal through it, and Libevi.OnPins has the
--   captions, the driver and the files in one.
-- - Lcdsvc.Service: package/evi-lcdsvc/src/lcdsvc.c. What a connection makes the daemon do is a
--   list of calls of lcd_hw.h and replies. line_loop runs on fuel, the length of the buffer,
--   which is enough because each line takes its newline at least. The bytes of each recv, 511 at
--   most, and what uci prints are arguments.
-- - Lcdsvc.Gpio, Lcdsvc.Hw: gpio_sysfs.c and lcd_hw.c of the same folder. A function is the list
--   of the system calls made so far before and after it, and a record, World, answers each call
--   by that list. Hw.Wires is the display behind the files, an independent reader: it follows the
--   open files and takes the eight data lines, RS and RW when EN falls. Hw.Calls, Hw.Shown,
--   Hw.Start, Hw.Init and Hw.Run join the two, Hw.Leak counts the open files, and Hw.Steady is a
--   system that meets the hypotheses on the answers.
-- - Lcdsvc.Daemon: the main function of lcdsvc.c over the display; the rounds of its endless loop
--   are a list of what accept and recv give.
-- - Lcdclient: package/evi-lcdclient/src/evi_lcd.c. Lcdclient.Link runs it against
--   Lcdsvc.Service, and Lcdclient.OnDisplay against the whole daemon down to the display. What
--   the system answers on the socket is a record, Peer. Lcdclient.TextScreen is the text screen
--   that the library promises, Lcdclient.Screen the controller that keeps the promise, with the
--   order of its memory as a parameter, and Lcdclient.Threads has threads that call it at the same
--   time.
-- - Lcdclient.Ctl: package/evi-lcdsvc/src/lcdctl.c, the command line over the same socket.
-- - Azurectl.Modbus, Azurectl.Uci, Azurectl.Dongle, Azurectl.Control: modbus_rtu.c, uci_shim.c,
--   usb_dongle.c and main.c of package/evi-azurectl/src. The serial lines are the records
--   SerialLine and Board, the shell is the record Shell with a state of its own; UciWorks states
--   what uci keeps. The loop over the board's answer has the 20 rounds of the source.
-- - Azurectl.Files: netinfo.c, procctl.c and utils.c of the same folder, over the files, a record
--   Disk.
-- - Azurectl.Serial: serial_posix.c of the same folder, over the C library's functions on a
--   struct termios, a record Libc. Azurectl.Modbus.Arrival looks at answers that come in pieces
--   over such a line.
-- - Azureiotd.SafeStr, Azureiotd.Dps, Azureiotd.Url, Azureiotd.Mqtt, Azureiotd.Conn,
--   Azureiotd.Sas: safe_str.c, dps_certificate.c and, of azure_conn.c, url_encode, the MQTT
--   packets, a run that logs in with a certificate, the token of a shared key and the choice
--   between the two, in package/azureiotd/src. What base64 and HMAC give is a parameter of Sas;
--   Azureiotd.Base64 has the two base64 functions over the BIOs of OpenSSL, a record Bio. The
--   system of Dps is the record Host; the sockets and OpenSSL are the record Net, one packet's
--   connection the record Tls. The rounds of mqtt_read_exact are bounded by the bytes asked for,
--   since each read that succeeds gives one; the Remaining Length has the four bytes of its
--   array. Conn.Answers and Conn.Success say what a run needs of the server and the network.
-- - Azureiotd.Setup: azureiotd.c of the same folder, up to its call of azure_conn_run; what
--   libuci finds for an option is an argument. Azureiotd.Main is main as a whole, with
--   azure_conn_run.
-- - Azureiotd.Enhanced: enhanced_main.c and the simulated modbus_rtu.c of the same folder.
-- - AzureClient: package/libevi-azure/src/libevi_azure.c, with the record Peer of Lcdclient.
-- - Python2c: package/evi-python2c/src/main.c, the event loop; its rounds are a list of what
--   epoll_wait gives and of whether a signal came.
--
-- An int has 32 bits, and so has a long; decimal digits are printed on fuel n + 1 for the number
-- n, which has that many digits at most. Each part has a module Tests with its theorems at
-- concrete inputs.
--
-- Not modelled: the backup copy of azureiotd, whose files are the same; scripts and Python code.
-- The messages that programs print on the error stream are left out, and so are pauses, but for
-- those of the display's drivers.
pub mod Base
pub mod Libevi
pub mod AzureClient
pub mod Python2c
pub mod Lcdsvc
pub mod Lcdclient
pub mod Azurectl
pub mod Azureiotd
