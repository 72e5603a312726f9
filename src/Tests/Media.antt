-- ===== src/Tests/Media.antt =====
-- A small device: a namespace whose first info block is lost, with a backup at its end.
use utils_kernel_ndctl_ndctl.Prelude.{
  ℕ, zero, suc, ◌+◌, ◌-◌, ◌*◌, ◌/◌, ◌%◌, ◌^◌, ◌<◌, ◌≡◌, ◌≢◌, ◌⊎◌, inl, refl, ap, Bool, true, false,
  ◌&&◌, Option, some, none, [], ◌∷◌, leb, ltb, ◌==◌, if◌then◌else◌, arith, length, ==_iff,
}
use utils_kernel_ndctl_ndctl.Util.Fletcher.{fletcher64}
use utils_kernel_ndctl_ndctl.Check.Defs.{Rc, ok, system, CheckOpts, BttSb}
use utils_kernel_ndctl_ndctl.Check.Info.{
  image, btt_info_verify, verify_infoblock_checksum, same_words, uuid_is_null,
}
use utils_kernel_ndctl_ndctl.Check.Media.{
  Pread, Pwrite, got, Device, BttChk, btt_read_info, btt_write_info, btt_info_read_verify,
  rounddown,
}
use utils_kernel_ndctl_ndctl.Check.Recover.{
  btt1_start_offset, btt2_start_offset, estimate, btt_recover_first_sb, recover_at, attempt1,
  btt_sb_get_expected_offset,
}
use utils_kernel_ndctl_ndctl.Check.Recover.Estimate.{estimate_of, estimate_lem}
use utils_kernel_ndctl_ndctl.Check.Recover.Answers.{Verified}
use utils_kernel_ndctl_ndctl.Check.Recover.Restored.{Keeps, btt_recover_first_sb-Found}
use utils_kernel_ndctl_ndctl.Check.Discover.{no_block, btt_discover_arenas}
use utils_kernel_ndctl_ndctl.Check.Discover.Usable.{Bounded}
use utils_kernel_ndctl_ndctl.Check.Discover.Chain.{Chained, btt_discover_arenas-Chained}
use utils_kernel_ndctl_ndctl.Check.Mappings.{
  Memory, mapped, map_failed, off_page_offset, btt_mmap, btt_unmap, page_offset,
}
use utils_kernel_ndctl_ndctl.Check.Mappings.Pages.{btt_unmap-btt_mmap}
use utils_kernel_ndctl_ndctl.Check.Namespace.{Answer, done, Library, Limits, namespace_check}
use utils_kernel_ndctl_ndctl.Check.Namespace.Cleanup.{
  truth, Restored, KeepsMode, namespace_check-raw_mode,
}
use utils_kernel_ndctl_ndctl.Tests.Sample.{little, repairing, reading, env_of, block}

-- The raw mode of the namespace, and the info block at each offset.
abbrev State : Type 0
State = ℕ × (ℕ → BttSb)

-- 16 MiB and two info blocks
abbrev size : ℕ
size = 2 ^ 24 + 8192

abbrev within : ℕ → BttSb → Bool
within off sb = leb (off + 4096) size && ltb sb.nextoff (2 ^ 63)

abbrev stored_at : (ℕ → BttSb) → ℕ → BttSb → ℕ → BttSb
stored_at blocks off sb o = if off == o then sb else blocks o

abbrev device : Device State
device = record {
  pread = λ s off. if within off (s.1 off) then Pread.whole (s.1 off) else Pread.short;
  pwrite = λ s off sb.
      if within off sb then (Pwrite.whole, (s.0, stored_at s.1 off sb)) else (Pwrite.short, s);
  fsync = λ s. (none, s);
}

-- The sample block with its checksum.
abbrev valid : BttSb
valid = record block {
  checksum = fletcher64 little.le32_to_cpu (image little (record block { checksum = 0 })) true;
}

abbrev chk_of : CheckOpts → BttChk
chk_of opts = record {
  host = little;
  signature = block.signature;
  parent_uuid = block.parent_uuid;
  rawsize = size;
  nlba = 0;
  start_off = 0;
  num_arenas = 0;
  sys_page_size = 4096;
  arena = [];
  opts = opts;
}

abbrev lost : State
lost = (0, λ off. if off == 2 ^ 24 + 4096 then valid else no_block)

read_whole :
    (c : Bool) (b sb : BttSb)
    → (if c then Pread.whole b else Pread.short) ≡ Pread.whole sb
    → (c ≡ true) × (b ≡ sb)
read_whole true b sb e = (refl, cc)
read_whole false b sb e = cc

wrote_whole :
    (c : Bool) (s s' m : State)
    → ◌≡◌ {A = Pwrite × State}
        (if c then (Pwrite.whole, s) else (Pwrite.short, m))
        (Pwrite.whole, s')
    → (c ≡ true) × (s ≡ s')
wrote_whole true s s' m e = (refl, ap (λ r. r.1) e)
wrote_whole false s s' m e = let short : Pwrite.short ≡ Pwrite.whole = ap (λ r. r.0) e in cc

device-stored :
    (m m' : State) (off : ℕ) (sb : BttSb)
    → device.pwrite m off sb ≡ (Pwrite.whole, m')
    → device.pread m' off ≡ Pread.whole sb
device-stored m m' off sb e =
    let (inside, s) = wrote_whole (within off sb) (m.0, stored_at m.1 off sb) m' m e in
    let self : (off == off) ≡ true = (==_iff off off).1 refl in rw (← s, self, inside) refl

device-Keeps : Keeps device
device-Keeps = record { stored = device-stored; synced = λ s off. refl }

device-Bounded : (opts : CheckOpts) → Bounded device (chk_of opts)
device-Bounded opts = record {
  fits = λ s off sb e.
      let (inside, same) = read_whole (within off (s.1 off)) (s.1 off) sb e in ground arith;
  near = λ s off sb e.
      let (inside, same) = read_whole (within off (s.1 off)) (s.1 off) sb e in
      rw (← same) (ground arith);
  small = omega arith;
  zero_only = λ v e. e;
}

estimate_lem_example : estimate 4 (2 ^ 40 + 7) 0 ≡ some (estimate_of (2 ^ 40 + 7) 0)
estimate_lem_example = estimate_lem 4 (2 ^ 40 + 7) 0 (omega arith)

estimate_two : estimate_of (2 ^ 40 + 7) 0 ≡ got (2, 7)
estimate_two = refl

btt_recover_first_sb-Found_example :
    (r : Rc × ℕ × State) × (btt_recover_first_sb device (chk_of repairing) true lost ≡ some r)
    × ((r.0 ≢ ok)
        ⊎ (((r.1 ≡ btt1_start_offset) ⊎ (r.1 ≡ btt2_start_offset))
            × ((sb : BttSb) × (device.pread r.2 r.1 ≡ Pread.whole sb)
                × Verified (chk_of repairing) sb)))
btt_recover_first_sb-Found_example =
    btt_recover_first_sb-Found device (chk_of repairing) device-Keeps true lost

abbrev start_of : Option (Rc × ℕ × State) → Option (Rc × ℕ)
start_of none = none
start_of (some (rc, start_off, s)) = some (rc, start_off)

restored : start_of (btt_recover_first_sb device (chk_of repairing) true lost) ≡ some (ok, 4096)
unfolding btt_recover_first_sb recover_at estimate btt_read_info attempt1 btt_info_read_verify
    btt_write_info btt_info_verify verify_infoblock_checksum same_words uuid_is_null image
    fletcher64 rounddown btt_sb_get_expected_offset
restored = refl

abbrev found_state : State
found_state = (0, stored_at lost.1 4096 valid)

abbrev started : BttChk
started = record (chk_of reading) { start_off = 4096 }

started-Bounded : Bounded device started
started-Bounded = record {
  fits = (device-Bounded reading).fits;
  near = (device-Bounded reading).near;
  small = (device-Bounded reading).small;
  zero_only = λ v e. e;
}

btt_discover_arenas-Chained_example :
    (r : Rc × BttChk × State) × (btt_discover_arenas device started (λ i. true) true found_state
      ≡ some r)
    × ((r.0 ≢ ok) ⊎ (Chained 4096 0 0 r.1.arena r.1.nlba × (r.1.num_arenas ≡ length r.1.arena)))
btt_discover_arenas-Chained_example =
    btt_discover_arenas-Chained device started (λ i. true) started-Bounded true found_state

abbrev memory : Memory
memory = record {
  mmap = λ l o writable.
      if ltb (o + l) (2 ^ 63) then mapped (o / 4096 * 4096) else map_failed (system 22);
  info_at = λ addr. valid;
  map_at = λ addr len. 0xc000_0000 ∷ 0xc000_0001 ∷ [];
  log_at = λ addr len. [];
}

mmap_at_6144 : btt_mmap memory (chk_of reading) 2048 6144 ≡ got 6144
unfolding btt_mmap off_page_offset page_offset rounddown
mmap_at_6144 = refl

btt_unmap-btt_mmap_example :
    (base l o : ℕ) × (memory.mmap l o false ≡ mapped base)
    × (o % 4096 ≡ 0)
    × (o + (6144 - base) ≡ 6144)
    × (o + l ≡ 6144 + 2048)
    × (btt_unmap (chk_of reading) 6144 2048 ≡ (base, l))
btt_unmap-btt_mmap_example =
    btt_unmap-btt_mmap (chk_of reading) memory 2048 6144 6144 (omega arith) (omega arith)
      (omega arith) starts mmap_at_6144
  where
    starts :
        (l o base : ℕ)
        → memory.mmap l o false ≡ mapped base
        → (base % 4096 ≡ 0) × (base + l < 2 ^ 64)
    starts l o base e = ground arith

abbrev library : Library State
library = record {
  is_active = λ s. false;
  get_raw_mode = λ s. truth s.0;
  disable_safe = λ s. (done, s);
  set_raw_mode = λ n s. (done, (n, s.1));
  enable = λ s. (done, s);
  disable_invalidate = λ s. s;
  open_device = λ writable s. none;
  device = device;
  mapped = λ s. memory;
  unmapped = λ arenas s. s;
  faulted = λ s. s;
}

truth-truth : (n : ℕ) → truth (truth n) ≡ truth n
truth-truth zero = refl
truth-truth (suc n) = refl

library-KeepsMode : KeepsMode library
library-KeepsMode = record {
  is_flag = λ s. truth-truth s.0;
  sets = λ n s. inl refl;
  enable_keeps = λ s. refl;
  invalidate_keeps = λ s. refl;
  disable_keeps = λ s. refl;
}

abbrev limits : Limits
limits = record {
  bttc = true;
  sb = true;
  recover = true;
  discover = true;
  arena = λ i. true;
  sigaction = none;
}

namespace_check-raw_mode_example :
    (r : Answer × State) × (namespace_check library limits (env_of reading) (chk_of reading) lost
      ≡ some r)
    × Restored library 0 r.1
namespace_check-raw_mode_example =
    namespace_check-raw_mode library limits (env_of reading) (chk_of reading)
      (device-Bounded reading) library-KeepsMode lost
