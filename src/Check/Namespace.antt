-- ===== src/Check/Namespace.antt =====
-- `namespace_check`: the namespace is put into raw mode, checked, and put back.
pub mod Cleanup
use mathlib.Core.Option
use utils_kernel_ndctl_ndctl.Prelude.{
  ℕ, ◌==◌, Bool, true, false, not, ◌&&◌, Option, some, none, List, [], ◌∷◌, ◌>>=◌, if◌then◌else◌,
}
use utils_kernel_ndctl_ndctl.Check.Defs.{
  Errno, Rc, ok, errno, btt, einval, ebusy, efault, enomem, CheckOpts, BttSb, ArenaInfo,
}
use utils_kernel_ndctl_ndctl.Check.Map.{Env}
use utils_kernel_ndctl_ndctl.Check.Arenas.{btt_check_arenas}
use utils_kernel_ndctl_ndctl.Check.Indices.{log_set_indices}
use utils_kernel_ndctl_ndctl.Check.Media.{Result, err, got, Device, BttChk, btt_info_read_verify}
use utils_kernel_ndctl_ndctl.Check.Recover.{
  btt1_start_offset, btt2_start_offset, btt_recover_first_sb,
}
use utils_kernel_ndctl_ndctl.Check.Discover.{btt_discover_arenas}
use utils_kernel_ndctl_ndctl.Check.Mappings.{Memory, Areas, btt_create_mappings}

-- What the calls of libndctl answer: 0, a negated error number, or a number above 0.
pub data Answer : Type 0 where
  done : Answer
  failure : Rc → Answer
  positive : ℕ → Answer

-- The namespace and its block device, as libndctl and the system show them, in a state of a type `S`.
-- `mapped` is the memory behind the descriptor; `unmapped` is what the device is left with once the
-- arenas were checked in it, and `faulted` once an access to it has faulted.
pub record Library (S : Type 0) : Type 0 where
  pub is_active : S → Bool
  pub get_raw_mode : S → ℕ
  pub disable_safe : S → Answer × S
  pub set_raw_mode : ℕ → S → Answer × S
  pub enable : S → Answer × S
  pub disable_invalidate : S → S
  pub open_device : Bool → S → Option Errno
  pub device : Device S
  pub mapped : S → Memory
  pub unmapped : List ArenaInfo → S → S
  pub faulted : S → S

-- The memory that `calloc`, `malloc` and `realloc` have, by the function that asks for it, and the
-- answer of `sigaction`.
pub record Limits : Type 0 where
  pub bttc : Bool
  pub sb : Bool
  pub recover : Bool
  pub discover : Bool
  pub arena : ℕ → Bool
  pub sigaction : Option Errno

abbrev pub answer : Rc → Answer
answer ok = done
answer (errno e) = failure (errno e)
answer (btt c) = failure (btt c)

-- The loop of `log_set_indices`, up to the first return code that is not 0. `none` is a fault.
abbrev pub or_give_up :
    List ArenaInfo → Rc × ArenaInfo → Option (Rc × List ArenaInfo) → Option (Rc × List ArenaInfo)
or_give_up arenas (ok, a) rest = do (rc, arenas') ← rest; some (rc, a ∷ arenas')
or_give_up arenas (errno e, a) rest = some (errno e, a ∷ arenas)
or_give_up arenas (btt c, a) rest = some (btt c, a ∷ arenas)

unfoldable pub set_all_indices : List ArenaInfo → Option (Rc × List ArenaInfo)
set_all_indices [] = some (ok, [])
set_all_indices (a ∷ arenas) =
    let rest = set_all_indices arenas in do r ← log_set_indices a; or_give_up arenas r rest

-- The checks of the mapped arenas.
unfoldable pub check_indexed : Env → Rc × List ArenaInfo → Option (Rc × List ArenaInfo)
check_indexed env (ok, arenas) = btt_check_arenas env arenas
check_indexed env (errno e, arenas) = some (errno e, arenas)
check_indexed env (btt c, arenas) = some (btt c, arenas)

unfoldable pub check_mapped : Env → List ArenaInfo → Option (Rc × List ArenaInfo)
unfolding set_all_indices check_indexed
check_mapped env arenas = do r ← set_all_indices arenas; check_indexed env r

module _ {S : Type 0} (lib : Library S) (limits : Limits) (env : Env) where
  -- A fault jumps to `sigsetjmp`.
  abbrev pub landed : S → Option (Rc × List ArenaInfo) → Answer × S
  landed s none = (failure (errno efault), lib.faulted s)
  landed s (some (rc, arenas)) = (answer rc, lib.unmapped arenas s)

  abbrev pub mapped_stage : S → Result (List Areas × List ArenaInfo) → Answer × S
  mapped_stage s (err rc) = (answer rc, s)
  mapped_stage s (got (areas, arenas)) = landed s (check_mapped env arenas)

  abbrev pub discovered_stage : Rc × BttChk × S → Answer × S
  discovered_stage (ok, bttc, s) =
      mapped_stage s (btt_create_mappings (lib.mapped s) bttc bttc.arena)
  discovered_stage (errno e, bttc, s) = (failure (errno e), s)
  discovered_stage (btt c, bttc, s) = (failure (btt c), s)

  unfoldable pub check_from : BttChk → ℕ → S → Option (Answer × S)
  check_from bttc start_off s = Option.map discovered_stage (
      btt_discover_arenas lib.device (record bttc { start_off = start_off }) limits.arena
        limits.discover s)

  abbrev pub reread : BttChk → ℕ → S → Result BttSb → Option (Answer × S)
  reread bttc start_off s (err rc) = some (answer rc, s)
  reread bttc start_off s (got sb) = check_from bttc start_off s

  abbrev pub recovered : BttChk → Rc × ℕ × S → Option (Answer × S)
  recovered bttc (ok, start_off, s) =
      reread bttc start_off s (btt_info_read_verify lib.device bttc s start_off)
  recovered bttc (errno e, start_off, s) = some (failure (errno e), s)
  recovered bttc (btt c, start_off, s) = some (failure (btt c), s)

  abbrev pub second_start : BttChk → S → Result BttSb → Option (Answer × S)
  second_start bttc s (got sb) = check_from bttc btt2_start_offset s
  second_start bttc s (err rc) = do
    found ← btt_recover_first_sb lib.device bttc limits.recover s
    recovered bttc found

  abbrev pub first_start : BttChk → S → Result BttSb → Option (Answer × S)
  first_start bttc s (got sb) = check_from bttc btt1_start_offset s
  first_start bttc s (err rc) =
      second_start bttc s (btt_info_read_verify lib.device bttc s btt2_start_offset)

  -- From `open` to `close`.
  abbrev pub opened : BttChk → S → Option Errno → Option (Answer × S)
  opened bttc s (some e) = some (failure (errno e), s)
  opened bttc s none = first_start bttc s (btt_info_read_verify lib.device bttc s btt1_start_offset)

  abbrev pub enabled : BttChk → Answer × S → Option (Answer × S)
  enabled bttc (failure rc, s) = some (failure rc, s)
  enabled bttc (positive n, s) = some (positive n, s)
  enabled bttc (done, s) =
      if limits.sb
      then opened bttc s (lib.open_device bttc.opts.repair s)
      else some (failure (errno enomem), s)

  abbrev pub in_raw_mode : BttChk → Answer × S → Option (Answer × S)
  in_raw_mode bttc (failure rc, s) = some (failure rc, s)
  in_raw_mode bttc (positive n, s) = enabled bttc (lib.enable s)
  in_raw_mode bttc (done, s) = enabled bttc (lib.enable s)

  -- `out_ns:`
  unfoldable pub put_back : ℕ → Bool → S → S
  put_back raw_mode disabled_flag s =
      let s' = lib.disable_invalidate (lib.set_raw_mode raw_mode s).1 in
      if disabled_flag then (lib.enable s').1 else s'

  unfoldable pub with_raw_mode : BttChk → Bool → S → Option (Answer × S)
  unfolding put_back
  with_raw_mode bttc disabled_flag s =
      let raw_mode = lib.get_raw_mode s in
      do
        (rc, s') ← in_raw_mode bttc (lib.set_raw_mode 1 s)
        some (rc, put_back raw_mode disabled_flag s')

  abbrev pub disabled : BttChk → Answer × S → Option (Answer × S)
  disabled bttc (done, s) = with_raw_mode bttc true s
  disabled bttc (failure rc, s) = some (failure rc, s)
  disabled bttc (positive n, s) = some (positive n, s)

  abbrev pub signalled : BttChk → S → Option Errno → Option (Answer × S)
  signalled bttc s (some e) = some (failure (errno e), s)
  signalled bttc s none =
      if bttc.opts.logfix && not bttc.opts.repair
      then some (failure (errno einval), s)
      else if not (lib.is_active s)
      then with_raw_mode bttc false s
      else if bttc.opts.force
      then disabled bttc (lib.disable_safe s)
      else some (failure (errno ebusy), s)

  -- `bttc` has the size and the uuid of the namespace, the options and the size of a page.
  unfoldable pub namespace_check : BttChk → S → Option (Answer × S)
  unfolding with_raw_mode
  namespace_check bttc s =
      if limits.bttc then signalled bttc s limits.sigaction else some (failure (errno enomem), s)
