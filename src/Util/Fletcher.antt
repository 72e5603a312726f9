-- ===== src/Util/Fletcher.antt =====
-- util/fletcher.h: the checksum of info blocks and of label index blocks.
pub mod Sums
use utils_kernel_ndctl_ndctl.Prelude.{
  ℕ, ◌+◌, ◌*◌, ◌%◌, ◌^◌, Bool, List, [], ◌∷◌, if◌then◌else◌, bit_or,
}

-- The loop over the words of the buffer: `lo32` is a `u32` and `hi32` a `u64`.
unfoldable pub fletcher64_loop : (ℕ → ℕ) → Bool → List ℕ → ℕ → ℕ → ℕ × ℕ
fletcher64_loop le32_to_cpu le [] lo32 hi32 = (lo32, hi32)
fletcher64_loop le32_to_cpu le (w ∷ buf) lo32 hi32 =
    let lo = (lo32 + (if le then le32_to_cpu w else w)) % 2 ^ 32 in
    fletcher64_loop le32_to_cpu le buf lo ((hi32 + lo) % 2 ^ 64)

unfoldable pub fletcher64 : (ℕ → ℕ) → List ℕ → Bool → ℕ
unfolding fletcher64_loop
fletcher64 le32_to_cpu buf le =
    let (lo32, hi32) = fletcher64_loop le32_to_cpu le buf 0 0 in
    bit_or (hi32 * 2 ^ 32 % 2 ^ 64) lo32
