-- ===== src/Lib.antt =====
-- A model of the parts of ndctl that decide: the checker of BTT (sector mode) namespaces,
-- ndctl/check.c, with the bitmaps (util/bitmap.c) and the checksum (util/fletcher.h) that it uses; the
-- label area of a DIMM, ndctl/lib/dimm.c, which uses the same checksum; the commands that create,
-- destroy and reconfigure namespaces, ndctl/namespace.c; the commands on the label area and the
-- firmware of a DIMM, ndctl/dimm.c, with those of ndctl/lib/libndctl.c that move the area in parts;
-- and the sizes that options give, util/size.c.
--
-- Prelude has the shared names; Prelude/Bits the laws of `&`, `|` and `^` on machine words;
-- Prelude/Pigeons a counting argument.
-- Util/Bitmap is util/bitmap.c: a bitmap is a list of 64-bit words, and `none` is an access outside
-- it. Util/Fletcher is util/fletcher.h, over the `u32` words of a buffer; Util/Size is util/size.c.
-- Check is ndctl/check.c: Check/Defs has its structures (those of ndctl/namespace.h too), Check/Log
-- the log groups, Check/Map the map entries, Check/Info the info blocks, Check/Meta the arena that an
-- info block describes, Check/Indices the slots of the log in use, Check/Arena the checks of log and
-- map, Check/Blocks `btt_check_bitmap`, Check/Arenas the rest of `btt_check_arenas`. Check/Media reads
-- and writes info blocks, Check/Recover looks for a lost first one, Check/Discover follows the chain
-- of arenas, Check/Mappings maps them, and Check/Namespace is `namespace_check`, which calls all of
-- these.
-- Command is a part of ndctl/lib/libndctl.c: the commands that read and write the label area of a DIMM
-- in parts, with Command/Access the accesses to their buffer; Command/Extent has the functions of
-- ndctl/lib/dimm.c that read and zero an extent of the area, Command/Binary write-labels and
-- read-labels of ndctl/dimm.c, between the area and a file, and Prelude/Buffers what copying and
-- writing do to lists.
-- Firmware is the firmware update of ndctl/dimm.c: in Firmware the commands and the sending of the
-- file, in Firmware/Update the wait for its end, the arming and `update_firmware`, in Firmware/Action
-- the checks in front of it.
-- Label has the index blocks of ndctl/lib/dimm.c: the sequence numbers and sizes of index blocks, in
-- Label/Validate the choice of the current one of the two, and in Label/Write the writing of both,
-- with init-labels in Label/Write/Action, and in Label/Guess the label size before a validation. The label area is the list of its `u32` words, and `none` is
-- a read behind it; where it goes to the device it is the list of its bytes, which `Encoders` relates
-- to the words.
-- Namespace is ndctl/namespace.c: Namespace/Params has the options, Namespace/Defaults `set_defaults`,
-- Namespace/Attributes what libndctl says of regions and namespaces, Namespace/Checks and
-- Namespace/Validate `validate_namespace_options`; Namespace/Control has the calls of libndctl that
-- change something, Namespace/Setup `setup_namespace`, Namespace/Labels `enable_labels`,
-- Namespace/Reconfig creation, destruction and reconfiguration, which compose these, and
-- Namespace/Walk the part of `do_xaction_namespace` that creates namespaces.
-- A function of the code that changes an arena takes it and returns the arena after the call beside
-- its return code; `none` stands for a fault, an access outside a mapping, where the code gets a
-- signal.
--
-- What the code calls and the repository does not hold, or holds as a copy of another project (ccan),
-- is a parameter: `Host` has the byte order conversions and the layout of 16-bit and 64-bit fields in
-- memory, `Fields` and `Encoders` the same for the label area, `Firmware` the firmware commands, the
-- clock and the activation state, `ConfigDevice` and `Dimm` the `ioctl` calls and what the host says
-- of a DIMM, `strtoull` and `Libc` the C library's and libuuid's functions on strings and uuids, `Env`
-- the options, the success of memory allocation and the answers of `msync`, `Device`, `Memory` and
-- `Limits` the block device, `mmap` and the memory of `namespace_check`. The calls of libndctl
-- (ndctl/lib/libndctl.c), each of which reads or writes files of sysfs, are parameters too: the
-- interfaces `Library`, `Control` and `Labels`, on states of any type. Numbers are natural numbers;
-- the arithmetic of `u32` and `u64` has its `% 2 ^ w` written out where a sum or a difference can
-- leave the range.
-- The loop of `do_cmd` runs on `total_xfer + 1` rounds of fuel, since a round that goes on moves at
-- least a byte where `max_xfer` is above 0; where it is 0, the loop of the code does not end. The loop
-- of `rw_bin` runs on one for each 4096 bytes and two more. That of `send_firmware` runs on as many as
-- there are bytes and one more, and that of `query_fw_finish_status` on the nanoseconds of
-- `max_query` and of two seconds more, where a round takes one at least if the interval of the
-- firmware is 1000 or more, by which the code asks `nanosleep` for one at least.
-- The loop of `bitmap_set` and `bitmap_clear` runs on `len + 1` rounds of fuel, since a round that
-- goes on takes at least one bit off `len`; that of `_find_next_bit` on one round for each word up to
-- `nbits`; the loop that estimates the arenas on one round for each `ARENA_MAX_SIZE` and two more;
-- that of `btt_discover_arenas` on `rawsize + 2`, since each arena takes at least a byte. The `goto
-- retry` of `enable_labels` is taken once at most, and needs no fuel. The theorems about them give a
-- result, so that the fuel is enough.
-- Not modelled are the other commands of ndctl/lib/libndctl.c and of ndctl/dimm.c, the rest of
-- ndctl/namespace.c (info blocks, bad blocks, the walk of the other actions), and the rest of ndctl,
-- daxctl and cxl, most of which passes on what sysfs and the kernel's ioctl calls say.
-- Messages are not modelled: the log and print calls of the code change no state.
pub mod Prelude
pub mod Util
pub mod Check
pub mod Command
pub mod Firmware
pub mod Label
pub mod Namespace
mod Tests
