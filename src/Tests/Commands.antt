-- ===== src/Tests/Commands.antt =====
-- ndctl/lib/libndctl.c and ndctl/lib/dimm.c at small label areas, with a DIMM whose state is its
-- area.
use utils_kernel_ndctl_ndctl.Prelude.{
  ℕ, ◌+◌, ◌^◌, ◌≡◌, refl, true, false, some, none, List, [], ◌∷◌, length, min, get_elem?, leb, ltb,
  ◌&&◌, ◌||◌, ◌-◌, if◌then◌else◌, arith, replicate,
}
use utils_kernel_ndctl_ndctl.Prelude.Buffers.{take, drop, overwrite, read_at, write_at}
use utils_kernel_ndctl_ndctl.Check.Defs.{einval}
use utils_kernel_ndctl_ndctl.Namespace.Control.{done, failed, positive}
use utils_kernel_ndctl_ndctl.Command.{
  Cmd, ConfigDevice, answered, reading, ret_of, do_cmd, transfers, transfer, settled, int_of,
}
use utils_kernel_ndctl_ndctl.Command.Access.{cfg_read_get_data, cfg_read_get_data_lem}
use utils_kernel_ndctl_ndctl.Command.Transfer.{IsFaithful, moved, do_cmd-moved}
use utils_kernel_ndctl_ndctl.Command.Binary.{action_write}
use utils_kernel_ndctl_ndctl.Command.Binary.Stored.{action_write-stored}
use utils_kernel_ndctl_ndctl.Command.Extent.{Dimm, zero_label_extent}
use utils_kernel_ndctl_ndctl.Command.Extent.Zeroed.{Serves, meant, zero_label_extent_lem}

abbrev pub plain_device : ConfigDevice (List ℕ)
plain_device = record {
  get_data = λ s offset len. (answered 0 0, take len (drop offset s), s);
  set_data = λ s offset bytes. (answered 0 0, overwrite offset bytes s);
}

abbrev pub area_of : List ℕ → List ℕ
area_of s = s

abbrev pub stored : List ℕ → List ℕ → List ℕ
stored s l = l

pub plain_device-IsFaithful : IsFaithful plain_device area_of stored
plain_device-IsFaithful = record {
  area-put = λ s l. refl;
  put-put = λ s l l'. refl;
  put-area = λ s. refl;
  reads = λ s offset len h. refl;
  writes = λ s offset bytes h. refl;
}

abbrev pub plain_dimm : ℕ → ℕ → Dimm (List ℕ)
plain_dimm config_size max_xfer = record {
  device = plain_device;
  wait_probe = λ s. (done, s);
  cfg_size = λ s. some (config_size, max_xfer);
  get_supported = true;
  set_supported = true;
  node = λ s. none;
  xlat = λ s. none;
  is_active = λ s. false;
  is_enabled = λ s. false;
  disable = λ s. (done, s);
  enable = λ s. (done, s);
}

abbrev six_bytes : List ℕ
six_bytes = 10 ∷ 11 ∷ 12 ∷ 13 ∷ 14 ∷ 15 ∷ []

abbrev read_all : Cmd
read_all = record {
  status = positive 1;
  in_offset = 0;
  in_length = 4;
  iter = record { init_offset = 0; max_xfer = 4; total_xfer = 6; dir = reading };
}

do_cmd-moved_example :
    do_cmd plain_device read_all (replicate 6 0) six_bytes
    ≡ some (
      done,
      (moved reading 6 (replicate 6 0) six_bytes).0,
      (moved reading 6 (replicate 6 0) six_bytes).1,
    )
do_cmd-moved_example =
    do_cmd-moved plain_device area_of stored plain_device-IsFaithful read_all (replicate 6 0)
      six_bytes (omega arith) (omega arith) (omega arith) (omega arith) (omega arith)

-- Two rounds of the loop.
all_read :
    do_cmd plain_device read_all (replicate 6 0) six_bytes ≡ some (done, six_bytes, six_bytes)
unfolding do_cmd transfers transfer settled int_of read_at write_at
all_read = refl

cfg_read_get_data_lem_example :
    cfg_read_get_data (record read_all { status = done }) six_bytes 4 3
    ≡ some (
        if ltb (length six_bytes) 3 || ltb (2 ^ 32 - 1) (4 + 3) then (failed einval, []) else (
          ret_of (min 4 (length six_bytes - 3)),
          take (min 4 (length six_bytes - 3)) (drop 3 six_bytes),
        ))
cfg_read_get_data_lem_example =
    cfg_read_get_data_lem (record read_all { status = done }) six_bytes 4 3 refl refl refl
      (omega arith) (omega arith) (omega arith)

six_bytes-Serves : Serves (plain_dimm 6 4) area_of stored six_bytes 6 4
six_bytes-Serves = record {
  answers = record {
    faithful = plain_device-IsFaithful;
    whole = refl;
    some_area = omega arith;
    some_part = omega arith;
    below = omega arith;
    node = λ t. refl;
    xlat = λ t. refl;
  };
  probed = refl;
  sized = refl;
  reads = refl;
  writes = refl;
  inactive = refl;
  disabled = λ t. refl;
}

zero_label_extent_lem_example :
    (l : List ℕ) × (zero_label_extent (plain_dimm 6 4) 3 2 six_bytes ≡ some (done, l))
    × (length l ≡ 6)
    × ((i : ℕ)
        → get_elem? l i ≡ (if leb 2 i && ltb i (meant 6 3) then some 0 else get_elem? six_bytes i))
zero_label_extent_lem_example =
    zero_label_extent_lem (plain_dimm 6 4) area_of stored six_bytes 6 4 six_bytes-Serves 3 2
      (omega arith)

abbrev eight_bytes : List ℕ
eight_bytes = 1 ∷ 2 ∷ 3 ∷ 4 ∷ 5 ∷ 6 ∷ 7 ∷ 8 ∷ []

action_write-stored_example :
    action_write (plain_dimm 6 4) 0 0 eight_bytes six_bytes ≡ some (done, take 6 eight_bytes)
action_write-stored_example =
    action_write-stored (plain_dimm 6 4) area_of stored six_bytes 6 4 six_bytes-Serves eight_bytes
      (omega arith)
