-- ===== src/Lib.antt =====
-- MemType: a USB key with four buttons that keeps encrypted credentials and types them as a keyboard.
-- The firmware (C, for an ATtiny85) is a loop over tasks that share global variables. This library
-- models it as functions on one record, `Device`, which holds the flash, the EEPROM and the variables
-- of every file.
--
-- The parts, and the files that model them:
--   ucp.c, ucp.h                 Ucp and its modules: the protocol that reads and writes the memories
--                                over HID feature reports (Task, Decode, Write are UCP_Task, UCP_Decode
--                                and UCP_WriteTask; Lock has UCP_Init, UCP_Lock and UCP_Unlock)
--   fls.c                        Fls: FLS_write, the flash writer that UCP_WriteTask calls
--   print.c, print.h             Print and Print/Update: the ring of strings to type and printUpdate,
--                                which makes the next keyboard report
--   hid_defines.c, hid_defines.h Hid and Hid/Keys: the Spanish layout, which lies in EEPROM, and the
--                                key codes
--   crd.c, crd.h                 Crd: the menu of credentials (Fsm, Start, Menu), their loading (Load),
--                                decryption and typing (Apply)
--   usi.c                        Usi: the entry of the PIN (Fsm) and its check and reset (Pin)
--   opt.c, uif.c, uif.h          Opt and Uif: the menu of options, and which menu gets a button
--   uib.c, uib.h, adm.c          Uib and Adm: the buttons on one analogue input, and the converter
--   led.c, led.h, sch.c          Led and Sch: the two LEDs (in Led/Port on the register of their port),
--                                and the tasks of each 10 ms
--   osccal.c                     Osccal: OSCCAL_Init, which the start calls, and in Osccal/Start the
--                                search for a calibration, which the driver's reset hook calls
--   main.c, usbconfig.h          Main: the callbacks of the USB driver, the start, a round of the loop;
--                                Main/Descriptor has the report descriptor and reads its items
--   the whole                    Main/Unlock and Main/Bounds: relations of the states that rounds, resets
--                                and power cuts reach, without the right PIN and with it;
--                                Main/Ports, the set-up and a task of the converter and the LEDs;
--                                Main/Erase, the erasing PIN up to the restart
-- State declares the variables of the files, Reset their initial values, and Base what all share.
-- A button goes from Adm to Uib to Uif, and from there to Usi, Crd or Opt, which put strings into the
-- ring of Print; printUpdate types them and calls back into Crd for the next piece of a credential. The
-- host's packets go from Main to Ucp, which writes through Fls and has Crd load the credentials anew.
--
-- How the state corresponds: a record field has the name of its variable in snake_case, and a function
-- that of its C function. uint8_t and uint16_t sums are `add8` and `add16`, with the wrap-around. An
-- int of osccal.c is its bit pattern below 65536, compared as a signed number by `below`. A
-- memory is a function from address to byte; reads at an address use `from`, which wraps at 16 bits.
-- A pointer to a string is a value of `Ptr`, which names the object and the offset. Code that does not
-- come back (the loop after the erasing PIN, a call through a missing function, a search without an
-- end) is `hang` with the state that it spins in; a value with the next state is `done`.
--
-- Board holds what is not in these files: the addresses that the linker gives to the constants, the
-- RAM's layout, the two routines of noekeon.S, and the record Spm, the page operations of avr/boot.h
-- with the laws of the controller's data sheet; `osccal_apart` says that the calibration's byte in EEPROM
-- is none of those of the hash. Main takes from the USB driver (usbdrv) the events
-- of one usbPoll, which are calls of the firmware and of the reset hook of usbconfig.h, and whether the
-- interrupt endpoint is free, as the inputs of a round, and Sch and Adm take the timer and the
-- converter likewise.
--
-- Fuel and bounds: crd_findEOS runs on 65536 rounds, the number of addresses, after which it has read
-- every one; crd_previous on 65536 loads, the number of different links, after which it goes in a
-- circle. OSCCAL_Start's binary search has eight rounds, in which 128 halves to 0, and the search of
-- the neighbours 257, more than the register has values, so that a search still running goes in a
-- circle. FLS_write has one more round than bytes, and each round writes at least one byte while the
-- size is at most 192. `print` runs its 25 rounds, sizeof(strBuf). Other loops have the bound of the
-- source.
--
-- Not modelled: usbdrv (a copy of V-USB), noekeon.S and osccalASM.S (assembler), the driver's
-- and the watchdog's set-up in main, interrupts in the middle of a task, and the image of the default
-- credentials.

pub mod Adm
pub mod Base
pub mod Board
pub mod Crd
pub mod Fls
pub mod Hid
pub mod Led
pub mod Main
pub mod Opt
pub mod Osccal
pub mod Print
pub mod Reset
pub mod Sch
pub mod State
pub mod Ucp
pub mod Uib
pub mod Uif
pub mod Usi
pub mod Tests
