-- ===== src/Check/Mappings/Pages.antt =====
-- Whole pages are mapped and unmapped.
use native.Mathlib.Nat.{mod-le, mod-lt, add-mod, mod-mod, div-add-mod, mul-mod_right}
use utils_kernel_ndctl_ndctl.Prelude.{
  ℕ, ◌+◌, ◌-◌, ◌*◌, ◌/◌, ◌%◌, ◌^◌, ◌≤◌, ◌<◌, ◌≡◌, refl, sym, ◌∙◌, arith,
}
use utils_kernel_ndctl_ndctl.Check.Media.{got, BttChk, rounddown}
use utils_kernel_ndctl_ndctl.Check.Mappings.{
  Memory, Mmap, map_failed, mapped, page_offset, off_page_offset, fixed_up, btt_mmap, btt_unmap,
}

module _ (bttc : BttChk) where
  page_offset_lem : (x : ℕ) → page_offset bttc x ≡ x % bttc.sys_page_size
  unfolding page_offset rounddown
  page_offset_lem x = omega (arith, mod-le x bttc.sys_page_size)

  aligned_start : (x : ℕ) → (x - page_offset bttc x) % bttc.sys_page_size ≡ 0
  aligned_start x =
      let parts = div-add-mod x bttc.sys_page_size in
      let start : x - page_offset bttc x ≡ bttc.sys_page_size * (x / bttc.sys_page_size) =
        omega (arith, page_offset_lem x) in
      rw start (mul-mod_right bttc.sys_page_size (x / bttc.sys_page_size))

  -- The part of a page in front of an offset, behind the start of a page.
  part_again :
      (base x : ℕ)
      → 0 < bttc.sys_page_size
      → base % bttc.sys_page_size ≡ 0
      → page_offset bttc (base + page_offset bttc x) ≡ page_offset bttc x
  part_again base x pos start = rw page_offset_lem (
      rw (page_offset_lem x) (
        rw (add-mod base (x % bttc.sys_page_size) bttc.sys_page_size, start)
          (rw (mod-mod x bttc.sys_page_size) (
            let none : 0 + x % bttc.sys_page_size ≡ x % bttc.sys_page_size = omega arith in
            rw none (mod-mod x bttc.sys_page_size)))))

  off_page_offset_lem : (x : ℕ) → x < 2 ^ 63 → off_page_offset bttc x ≡ x % bttc.sys_page_size
  unfolding off_page_offset
  off_page_offset_lem x small = let unsigned = page_offset_lem x in ground arith

  -- For an offset below 2 ^ 63 and a length that with the size of a page is below 2 ^ 64, where
  -- `mmap` answers with the start of a page, from which the request is in the address space of 2 ^
  -- 64 bytes, and the page size is not 0: the pointer that `btt_mmap` gives comes from a request
  -- from the start of a page on, in which the pointer is at the byte asked for and the last byte
  -- asked for is the last; and `btt_unmap` of the pointer gives back the address and the length of
  -- that request.
  pub btt_unmap-btt_mmap :
      (mem : Memory) (length offset ptr : ℕ)
      → 0 < bttc.sys_page_size
      → offset < 2 ^ 63
      → length + bttc.sys_page_size < 2 ^ 64
      → ((l o base : ℕ)
          → mem.mmap l o bttc.opts.repair ≡ mapped base
          → (base % bttc.sys_page_size ≡ 0) × (base + l < 2 ^ 64))
      → btt_mmap mem bttc length offset ≡ got ptr
      → (base l o : ℕ) × (mem.mmap l o bttc.opts.repair ≡ mapped base)
        × (o % bttc.sys_page_size ≡ 0)
        × (o + (ptr - base) ≡ offset)
        × (o + l ≡ offset + length)
        × (btt_unmap bttc ptr length ≡ (base, l))
  unfolding btt_mmap btt_unmap
  btt_unmap-btt_mmap mem length offset ptr pos small fits starts found =
      let whole : (length + offset % bttc.sys_page_size) % 2 ^ 64
          ≡ length + offset % bttc.sys_page_size =
        omega (arith, part_lt) in
      let start : (offset + (2 ^ 64 - offset % bttc.sys_page_size)) % 2 ^ 64
          ≡ offset - offset % bttc.sys_page_size =
        omega (arith, part_le) in
      go
        (mem.mmap (length + offset % bttc.sys_page_size) (offset - offset % bttc.sys_page_size)
          bttc.opts.repair)
        refl (rw (off_page_offset_lem offset small, whole, start) at found)
    where
      part_lt : offset % bttc.sys_page_size < bttc.sys_page_size
      part_lt = mod-lt offset pos

      part_le : offset % bttc.sys_page_size ≤ offset
      part_le = mod-le offset bttc.sys_page_size

      go :
          (r : Mmap)
          → mem.mmap
              (length + offset % bttc.sys_page_size)
              (offset - offset % bttc.sys_page_size)
              bttc.opts.repair
            ≡ r
          → fixed_up (offset % bttc.sys_page_size) r ≡ got ptr
          → (base l o : ℕ) × (mem.mmap l o bttc.opts.repair ≡ mapped base)
            × (o % bttc.sys_page_size ≡ 0)
            × (o + (ptr - base) ≡ offset)
            × (o + l ≡ offset + length)
            × (btt_unmap bttc ptr length ≡ (base, l))
      go (map_failed e) eq h = cc
      go (mapped base) eq h =
          let (aligned, spaced) = starts _ _ base eq in
          let is = page_offset_lem offset in
          let wrapped : (base + offset % bttc.sys_page_size) % 2 ^ 64 ≡ ptr = cc in
          let at : base + offset % bttc.sys_page_size ≡ ptr = sym ((omega arith)) ∙ wrapped in
          let part : page_offset bttc (base + offset % bttc.sys_page_size)
              ≡ offset % bttc.sys_page_size =
            rw is at (part_again base offset pos aligned) in
          (
            base,
            length + offset % bttc.sys_page_size,
            offset - offset % bttc.sys_page_size,
            eq,
            rw is at (aligned_start offset),
            omega (arith, part_le),
            omega (arith, part_le),
            rw (← at, part)
                (let back : base + offset % bttc.sys_page_size - offset % bttc.sys_page_size
                      ≡ base =
                    omega arith in
                  let same : (length + offset % bttc.sys_page_size) % 2 ^ 64
                      ≡ length + offset % bttc.sys_page_size =
                    omega (arith, part_lt) in
                  rw (back, same) refl),
          )
