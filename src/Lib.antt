-- ===== src/Lib.antt =====
-- Verification of drivers of this repository: the core of the PS/2 mouse driver psmouse
-- (trackpoint-lost/psmouse-base.c with psmouse.h), the drivers of that directory for the TrackPoint,
-- the FocalTech and BYD touchpads, Logitech's PS2++ mice, the LifeBook and the TouchKit touchscreens
-- and serial mice, and the fan of thinkpad-acpi/thinkpad_acpi.c.
--
-- The programs. The port driver calls psmouse_pre_receive_byte and psmouse_receive_byte for each byte
-- of a mouse. These collect the bytes of a packet in struct psmouse, call the protocol handler
-- through psmouse_handle_byte, and ask for a resync or a reconnect where the stream is broken.
-- psmouse_process_byte is the handler of the standard protocols and of the TrackPoint; each other
-- driver has its own. psmouse_resync polls the mouse to see if the protocol still holds.
-- psmouse_extensions finds the protocol by the detect and init functions of the drivers. The fan
-- driver reads and writes registers of the embedded controller (EC) or calls ACPI methods, at the
-- request of files in sysfs and procfs, of a watchdog, and around a suspend.
--
-- The files, by the code they are about:
--   Kernel, with Api and Observe: what the drivers use of the kernel's headers, libps2 and the input
--     layer. libps2 is the record Ps2, an argument; `IsLinux` states what jiffies and the bit
--     helpers do. What a driver does to the kernel is a list of effects in the state of the mouse.
--   Psmouse: struct psmouse and the enumerations of psmouse.h. The function pointers are arguments
--     of the functions that call them, and the protocol's private data a type parameter.
--   Psmouse/Report and Psmouse/Process: psmouse_report_standard_* and psmouse_process_byte.
--   Psmouse/Receive: psmouse_set_state, psmouse_handle_byte, psmouse_handle_oob_data,
--     psmouse_pre_receive_byte and psmouse_receive_byte. The time of a byte is an argument.
--   Psmouse/Command: psmouse_reset, _probe, _set_rate, _set_resolution, _set_scale, _poll, _activate
--     and _deactivate.
--   Psmouse/Resync: psmouse_resync.
--   Psmouse/Reconnect: psmouse_initialize, psmouse_cleanup and __psmouse_reconnect, over the record
--     `Hooks` of the function pointers.
--   Psmouse/Connect and Psmouse/Switch: psmouse_connect, psmouse_disconnect and
--     psmouse_switch_protocol.
--   Psmouse/Table and Psmouse/Attributes: the table psmouse_protocols with its searches,
--     psmouse_set_maxproto, psmouse_attr_set_helper and psmouse_attr_set_protocol.
--   Psmouse/Detect: psmouse_do_detect, psmouse_try_protocol and psmouse_extensions, over the
--     interface `Probes` of the drivers.
--   Psmouse/Standard: genius_detect, intellimouse_detect, im_explorer_detect, thinking_detect,
--     ps2bare_detect and cortron_detect.
--   Trackpoint, with Io, Sync and Detect: the attributes, trackpoint_read to trackpoint_update_bit,
--     the show and set functions, trackpoint_sync, trackpoint_defaults, trackpoint_reconnect and
--     trackpoint_detect. Trackpoint/Device states what a documented TrackPoint does.
--     Trackpoint/Revival joins trackpoint_reconnect to the core.
--   Focaltech, with Setup: the packets and the report of focaltech.c, and its commands.
--   Psmouse/Receive/Framed: a handler that collects packets whose size shows in their bytes and turns
--     each into a step of the driver's data and a report, and the stream of bytes for such a handler.
--     Focaltech, Byd and Lifebook give it their handlers.
--   Byd, with Setup: byd_process_byte, byd_clear_touch, and the commands of byd.c.
--   Logips2pp, with Models and Detect: ps2pp_process_byte, the table of models, and ps2pp_detect with
--     what it calls; the smartscroll attribute.
--   Lifebook, with Setup: lifebook_process_byte and the set-up of lifebook.c.
--   Touchkit: touchkit_ps2_process_byte and touchkit_ps2_detect.
--   Sermouse: sermouse_process_msc, sermouse_process_ms and sermouse_interrupt of
--     trackpoint-lost/sermouse.c.
--   Thinkpad, with Ec, Fan and the children of Fan: the driver as actions, which take the state of
--     the driver and of the firmware and end with a value or a code, over the interface `Firmware`:
--     acpi_ec_read and acpi_ec_write; Fan has the status and the speeds, Fan/Control fan_set_level to
--     fan_watchdog_fire, Fan/Commands the files and fan_write, Fan/Start fan_init, Fan/Power
--     fan_suspend, fan_resume and fan_exit. `Keeps` and `Gives` are the rules for what an action keeps
--     and what it makes true, and Fan/Register states what a firmware with a plain status register
--     does.
--   The other modules below these hold the proofs, and those named Examples the runs.
--   Common: numbers, lists, bits and integers that the parts share.
--
-- Machine integers. A counter wraps where the source's type does (`u8`, `u32`, `u64`); the bytes of a
-- packet are numbers below 256 where a theorem depends on it. An error -n of a function is its code
-- n. A signed word of 32 bits is the number below 2^32 of its bits, read by `s32`; an int of the fan
-- commands likewise.
--
-- Bounds. The loop over a polled packet in psmouse_resync runs on 256 rounds; a packet's size is
-- a byte, and Psmouse/Resync/Rounds is about the rounds that are needed. The attempts to enable a
-- mouse are five, and those of byd_reconnect three, as in the source. The searches in the tables of
-- rates and of models, the sequence of byd_reset_touchpad and the commands of fan_write are by
-- recursion on the list.
--
-- Not modelled: locks and the pausing of the port, since each function is one step here (that the
-- fan's lock is not got is an answer of the firmware); the messages to the log; the pauses between
-- attempts; the capabilities announced to the input layer; the files of psmouse that print or set a
-- number; the other drivers of the directory; what the tables of machines match, which is an
-- argument; the rest of thinkpad_acpi.c, and the programs and scripts of the other directories.
pub mod Common
pub mod Kernel
pub mod Psmouse
pub mod Trackpoint
pub mod Focaltech
pub mod Byd
pub mod Logips2pp
pub mod Lifebook
pub mod Touchkit
pub mod Sermouse
pub mod Thinkpad
