-- ===== src/Namespace/Validate/Hint.antt =====
-- The size that is proposed where --size is not aligned.
use native.Mathlib.Nat.{
  mul-le-mul_left, mul-le-mul_right, mul_assoc, div-add-mod', lt-div-mul-add, div-mul-le_self,
  le-div_iff_mul-le, mul-div_cancel, mul-mod_left,
}
use utils_kernel_ndctl_ndctl.Prelude.{
  ℕ, ◌+◌, ◌*◌, ◌/◌, ◌%◌, ◌^◌, max, ◌≤◌, ◌<◌, ◌≡◌, ◌≢◌, ◌⊎◌, inl, inr, refl, sym, some, zero, suc,
  arith,
}
use utils_kernel_ndctl_ndctl.Util.Size.{ullong_max}
use utils_kernel_ndctl_ndctl.Namespace.Checks.{hinted_size, check_size_align}
use utils_kernel_ndctl_ndctl.Check.Defs.{Errno}
use utils_kernel_ndctl_ndctl.Namespace.Attributes.{retry_with}

-- The count of steps does not wrap, since a size that is not aligned has less than itself.
count_fits : (size step : ℕ) → 0 < step → size % step ≢ 0 → size / step < size
count_fits size step pos off =
    let whole = div-add-mod' size step in
    let grows : size / step * 1 ≤ size / step * step = mul-le-mul_left (size / step) pos in
    omega arith

-- `units` divides a step; the hint counts in units what the count counts in steps.
in_units :
    (count k units : ℕ) → 0 < units → count * (k * units) / units * units ≡ count * (k * units)
in_units count k units pos = rw (sym (mul_assoc count k units), mul-div_cancel (count * k) pos) refl

hinted_size-step :
    (size step units n k : ℕ)
    → size < 2 ^ 64
    → 0 < units
    → 0 < step
    → step ≡ k * units
    → size % step ≢ 0
    → hinted_size size step units ≡ some n
    → (n * units ≡ (size / step + 1) * step) × (n * units < 2 ^ 64)
unfolding hinted_size
hinted_size-step size step units n k small pos pos_step whole off h =
    let fits = count_fits size step pos_step off in
    let exact : (size / step + 1) % 2 ^ 64 ≡ size / step + 1 = omega arith in
    let within : size / step + 1 ≤ ullong_max / step = ground arith in
    let n_is : n ≡ (size / step + 1) * step / units = ground arith in
    let product = (le-div_iff_mul-le {x = size / step + 1} {y = ullong_max} pos_step).0 within in
    let same : n * units ≡ (size / step + 1) * step =
      rw (n_is, whole) (in_units (size / (k * units) + 1) k units pos) in
    (same, omega arith)

-- Where `check_size_align` proposes a size.
retry_facts :
    (size align ways units n : ℕ) (e : Errno)
    → align * ways < 2 ^ 64
    → max units align * ways < 2 ^ 64
    → check_size_align size align ways units ≡ retry_with e n
    → (0 < align * ways)
      × (size % (align * ways) ≢ 0)
      × (0 < max units align * ways)
      × (hinted_size size (max units align * ways) units ≡ some n)
unfolding check_size_align
retry_facts size align ways units n e fits fits' h =
    let exact : align * ways % 2 ^ 64 ≡ align * ways = omega arith in
    let exact' : max units align * ways % 2 ^ 64 ≡ max units align * ways = omega arith in
    ground arith

-- A multiple of a multiple of what does not divide the size does not divide it either.
coarser : (size m fine : ℕ) → size % fine ≢ 0 → size % (m * fine) ≢ 0
coarser size m fine off h =
    let whole : size / (m * fine) * (m * fine) ≡ size =
      omega (arith, div-add-mod' size (m * fine)) in
    let multiple = mul-mod_left (size / (m * fine) * m) fine in
    off (rw (mul_assoc (size / (m * fine)) m fine, whole) at multiple)

hint_of :
    (size fine step units n k m : ℕ)
    → size < 2 ^ 64
    → 0 < units
    → 0 < step
    → size % fine ≢ 0
    → step ≡ k * units
    → step ≡ m * fine
    → hinted_size size step units ≡ some n
    → (n * units % fine ≡ 0) × (size < n * units) × (n * units ≤ size + step) × (n * units < 2 ^ 64)
hint_of size fine step units n k m small pos pos_step off whole multiple h =
    let off' : size % step ≢ 0 = rw multiple (coarser size m fine off) in
    let (same, fits) = hinted_size-step size step units n k small pos pos_step whole off' h in
    let aligned : (size / step + 1) * step % fine ≡ 0 =
      rw (multiple, sym (mul_assoc (size / (m * fine) + 1) m fine)) (mul-mod_left _ fine) in
    let above = lt-div-mul-add {a = size} pos_step in
    let below = div-mul-le_self size step in (rw same aligned, omega arith, omega arith, fits)

pos_left : (a b : ℕ) → 0 < a * b → 0 < a
pos_left zero b h = absurd (omega arith)
pos_left (suc a) b h = omega arith

times_grows : (k b : ℕ) → 0 < k → b ≤ k * b
times_grows k b h = let more : 1 * b ≤ k * b = mul-le-mul_right b h in omega arith

-- Where --size is not aligned and `validate_namespace_options` proposes another size, that size,
-- in the units of --size, is a multiple of the alignment times the interleave ways, is above the
-- size that was given by at most one step (the larger of unit and alignment, times the ways), and
-- fits 64 bits, if the alignment is a multiple of the unit or the unit one of the alignment, and a
-- step fits 64 bits.
pub check_size_align-retry_with :
    (size align ways units n k : ℕ) (e : Errno)
    → size < 2 ^ 64
    → 0 < units
    → max units align * ways < 2 ^ 64
    → (align ≡ k * units) ⊎ (units ≡ k * align)
    → check_size_align size align ways units ≡ retry_with e n
    → (n * units % (align * ways) ≡ 0)
      × (size < n * units)
      × (n * units ≤ size + max units align * ways)
      × (n * units < 2 ^ 64)
check_size_align-retry_with size align ways units n k e small pos fits ratio h =
    let smaller : align * ways ≤ max units align * ways = mul-le-mul_right ways (omega arith) in
    let (some_step, off, pos_step, hint) =
      retry_facts size align ways units n e (omega arith) fits h in
    elim ratio [
      | inl whole ↦
          let some_align = pos_left align ways some_step in
          let some_k : 0 < k = pos_left k units (rw whole at some_align) in
          let larger : max units align ≡ align =
            let g = times_grows k units some_k in omega arith in
          let in_step : max units align * ways ≡ k * ways * units =
            rw (larger, whole) (omega arith) in
          hint_of size (align * ways) (max units align * ways) units n (k * ways) 1 small pos
            pos_step off in_step (rw larger (omega arith)) hint
      | inr whole ↦
          let some_k : 0 < k = pos_left k align (rw whole at pos) in
          let larger : max units align ≡ units =
            let g = times_grows k align some_k in omega arith in
          let in_step : max units align * ways ≡ ways * units = rw larger (omega arith) in
          let in_fine : max units align * ways ≡ k * (align * ways) =
            rw (larger, whole) (mul_assoc k align ways) in
          hint_of size (align * ways) (max units align * ways) units n ways k small pos pos_step off
            in_step in_fine hint
    ]
