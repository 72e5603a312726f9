-- ===== src/Label/Write/Action.antt =====
-- ndctl/dimm.c: init-labels and check-labels, and the reading of the index blocks alone.
use utils_kernel_ndctl_ndctl.Prelude.{
  ℕ, ◌*◌, ◌%◌, ◌^◌, Bool, not, ◌&&◌, ◌||◌, ◌==◌, Option, some, none, List, ◌>>=◌, if◌then◌else◌,
}
use utils_kernel_ndctl_ndctl.Check.Defs.{einval, enxio, ebusy}
use utils_kernel_ndctl_ndctl.Namespace.Control.{Ret, done, failed}
use utils_kernel_ndctl_ndctl.Command.{Cmd, is_negative, ret_of, new_cfg_read, cfg_set_extent}
use utils_kernel_ndctl_ndctl.Command.Binary.{revalidate_labels}
use utils_kernel_ndctl_ndctl.Command.Extent.{Dimm, submitted}
use utils_kernel_ndctl_ndctl.Label.{sizeof_namespace_index}
use utils_kernel_ndctl_ndctl.Label.Validate.{Fields, label_validate}
use utils_kernel_ndctl_ndctl.Label.Write.{Encoders, NamespaceVersion, ndctl_dimm_init_labels}

-- What the library keeps of the area: its size, the command that read it, and the buffer.
pub record Ndd : Type 0 where
  pub config_size : ℕ
  pub cmd_read : Cmd
  pub bytes : List ℕ

-- The number of slots, or `-EINVAL`.
abbrev pub slots_or_error : ℕ × Option ℕ → Ret
slots_or_error (label_size, none) = failed einval
slots_or_error (label_size, some n) = ret_of n

-- `rc >= 0 ? 0 : rc`
abbrev pub at_end {ℓ} : {S : Type ℓ} → Ret × S → Ret × S
at_end (rc, s) = (if is_negative rc then rc else done, s)

module _ {S : Type 0} (dimm : Dimm S) where
  abbrev pub read_blocks : ℕ → ℕ → S → Option (Option Ndd × S)
  read_blocks config_size max_xfer s =
      if config_size == 0 || not dimm.get_supported
      then some (none, s)
      else let (cmd, buf) = new_cfg_read config_size max_xfer in
        elim (cfg_set_extent cmd config_size (sizeof_namespace_index config_size 128 * 2 % 2 ^ 32)
          0) [
            | none ↦ some (none, s)
            | some cmd ↦ (do
              ((rc, buf', s'), cmd') ← submitted dimm cmd buf s
              some (
                if is_negative rc
                    then none
                    else some record { config_size = config_size; cmd_read = cmd'; bytes = buf' },
                s',
              ))
          ]

  -- `ndctl_dimm_read_label_index`; `none` is the null pointer.
  unfoldable pub read_label_index : S → Option (Option Ndd × S)
  read_label_index s =
      let (rc, s) = dimm.wait_probe s in
      if is_negative rc then some (none, s) else elim (dimm.cfg_size s) [
        | none ↦ some (none, s)
        | some (config_size, max_xfer) ↦ read_blocks config_size max_xfer s
      ]

  module _ (f : Fields) (e : Encoders) (signature : List ℕ) where
    -- Behind the writing of the blocks: an enabled DIMM is made to read them anew.
    abbrev pub reloaded : Ret × List ℕ × S → Ret × S
    reloaded (rc, bytes, s) =
        if is_negative rc || not (dimm.is_enabled s) then (rc, s) else revalidate_labels dimm s

    abbrev pub init_read : NamespaceVersion → Bool → Bool → Ndd → S → Option (Ret × S)
    init_read version chk_only force ndd s = do
      found ← label_validate f signature (e.words_of ndd.bytes) ndd.config_size
      if chk_only
          then some (at_end (slots_or_error found, s))
          else if not (is_negative (slots_or_error found)) && not force
          then some (failed ebusy, s)
          else do
            r ←
                ndctl_dimm_init_labels dimm f e signature ndd.config_size (some ndd.cmd_read)
                  version ndd.bytes s
            some (at_end (reloaded r))

    abbrev pub init_or_busy : NamespaceVersion → Bool → Bool → Option Ndd × S → Option (Ret × S)
    init_or_busy version chk_only force (none, s) = some (failed enxio, s)
    init_or_busy version chk_only force (some ndd, s) =
        if not chk_only && dimm.is_active s
        then some (failed ebusy, s)
        else init_read version chk_only force ndd s

    -- `__action_init`
    unfoldable pub action_init : NamespaceVersion → Bool → Bool → S → Option (Ret × S)
    unfolding read_label_index
    action_init version chk_only force s = do
      r ← read_label_index s
      init_or_busy version chk_only force r
