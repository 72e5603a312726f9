-- ===== src/Label/Write/Init.antt =====
-- ndctl/lib/dimm.c: the label area behind `ndctl_dimm_init_labels`.
use mathlib.Core.Path.{subst}
use utils_kernel_ndctl_ndctl.Prelude.{
  ℕ, ◌+◌, ◌-◌, ◌*◌, ◌/◌, ◌%◌, ◌^◌, ◌≤◌, ◌<◌, ◌≡◌, ◌≢◌, ◌⊎◌, inl, inr, refl, sym, ap, ◌∙◌, true,
  List, [], ◌∷◌, ◌++◌, some, length, length-replicate, arith,
}
use utils_kernel_ndctl_ndctl.Prelude.Buffers.{take, drop, read_at_lem, take-append-drop}
use utils_kernel_ndctl_ndctl.Namespace.Control.{done}
use utils_kernel_ndctl_ndctl.Command.Extent.{Dimm}
use utils_kernel_ndctl_ndctl.Command.Extent.Answers.{Answers}
use utils_kernel_ndctl_ndctl.Command.Extent.Zeroed.{read_cmd}
use utils_kernel_ndctl_ndctl.Label.{
  align, index_size, inc_seq, next_seq, num_label_slots, sizeof_namespace_index,
}
use utils_kernel_ndctl_ndctl.Label.Layout.{sizeof_namespace_index-fits}
use utils_kernel_ndctl_ndctl.Label.Validate.{Fields, NamespaceIndex, valid_index, current_index}
use utils_kernel_ndctl_ndctl.Label.Validate.Newest.{pick_index-newer}
use utils_kernel_ndctl_ndctl.Label.Write.{Encoders, free_words, fill_index, write_index}
use utils_kernel_ndctl_ndctl.Label.Write.Blocks.{block, checksum, length-block, fill_index-block}
use utils_kernel_ndctl_ndctl.Label.Write.Fresh.{RoundTrips, valid_index-block}
use utils_kernel_ndctl_ndctl.Label.Write.Device.{nvdimm_set_config_data-stored}

size_index :
    (config_size label_size : ℕ)
    → num_label_slots config_size label_size < 2 ^ 31
    → sizeof_namespace_index config_size label_size ≢ 0
    → sizeof_namespace_index config_size label_size
      ≡ index_size (num_label_slots config_size label_size)
unfolding sizeof_namespace_index index_size align
size_index config_size label_size h ne = ground arith

bits_fit : (nslot : ℕ) → nslot < 2 ^ 31 → 18 + align nslot 64 / 8 / 4 ≤ index_size nslot / 4
unfolding index_size align
bits_fit nslot h = omega arith

-- The bits of all the labels have room in an index block.
room :
    (config_size label_size : ℕ)
    → num_label_slots config_size label_size < 2 ^ 31
    → sizeof_namespace_index config_size label_size ≢ 0
    → 18 + length (free_words (num_label_slots config_size label_size))
      ≤ sizeof_namespace_index config_size label_size / 4
unfolding free_words
room config_size label_size h ne =
    let many =
      length-replicate (align (num_label_slots config_size label_size) 64 / 8 / 4) (2 ^ 32 - 1) in
    let size = size_index config_size label_size h ne in
    rw (many, size) (bits_fit (num_label_slots config_size label_size) h)

-- The two blocks of an area, and the labels behind them.
blocks_of : (w : ℕ) (ws : List ℕ) → ws ≡ take w ws ++ (take w (drop w ws) ++ drop w (drop w ws))
blocks_of w ws =
    sym (ap (λ l. take w ws ++ l) (take-append-drop w (drop w ws)) ∙ take-append-drop w ws)

module _ (f : Fields) (e : Encoders) (trips : RoundTrips f e)
    (s0 s1 s2 s3 config_size label_size : ℕ) (least : 512 ≤ config_size)
    (below : config_size < 2 ^ 32) (known : (label_size ≡ 128) ⊎ (label_size ≡ 256))
    (sized : sizeof_namespace_index config_size label_size ≢ 0) where
  abbrev size : ℕ
  size = sizeof_namespace_index config_size label_size

  abbrev signature : List ℕ
  signature = s0 ∷ s1 ∷ s2 ∷ s3 ∷ []

  pub size-Fits :
      (16 ≤ size / 4)
      × (8 * (size / 4) ≤ config_size)
      × (num_label_slots config_size label_size < 2 ^ 31)
      × (size ≡ 4 * (size / 4))
      × (18 + length (free_words (num_label_slots config_size label_size)) ≤ size / 4)
  size-Fits =
      let (fit, aligned, holds, two) =
        sizeof_namespace_index-fits config_size label_size least below known sized in
      let few : num_label_slots config_size label_size < 2 ^ 31 = elim known [
        | inl e1 ↦ omega (
          arith,
          subst (λ l. 2 * size + num_label_slots config_size label_size * l ≤ config_size) e1 fit,
        )
        | inr e2 ↦ omega (
          arith,
          subst (λ l. 2 * size + num_label_slots config_size label_size * l ≤ config_size) e2 fit,
        )
      ] in
      (omega arith, omega arith, few, omega arith, room config_size label_size few sized)

  -- The block 0 with the sequence number 3 is newer than the block 1 with 2.
  first_is_current :
      (area : List ℕ) (x0 x1 : NamespaceIndex)
      → valid_index f signature area config_size label_size 0 ≡ some (true, x0)
      → valid_index f signature area config_size label_size 1 ≡ some (true, x1)
      → f.le32_to_cpu x0.seq ≡ 3
      → f.le32_to_cpu x1.seq ≡ 2
      → current_index f signature area config_size label_size ≡ some (some 0)
  unfolding current_index inc_seq next_seq
  first_is_current area x0 x1 v0 v1 three two =
      let next : f.le32_to_cpu x0.seq % 4 ≡ inc_seq (f.le32_to_cpu x1.seq) = rw (three, two) refl in
      let (lost, won) = pick_index-newer f x1 x0 (omega arith) (omega arith) (omega arith) next in
      rw (v0, v1) (ap some won)

  -- The words after both rounds, of which each leaves a valid block.
  pub blocks_written :
      (old0 old1 labels : List ℕ)
      → length old0 ≡ size / 4
      → length old1 ≡ size / 4
      → (b0 : List ℕ) × (b1 : List ℕ) × (fill_index f e signature config_size label_size 0 3
            (old0 ++ (old1 ++ labels))
          ≡ some (b0 ++ (old1 ++ labels)))
        × (fill_index f e signature config_size label_size 1 2 (b0 ++ (old1 ++ labels))
            ≡ some (b0 ++ (b1 ++ labels)))
        × (length b0 ≡ size / 4)
        × (length b1 ≡ size / 4)
        × (current_index f signature (b0 ++ (b1 ++ labels)) config_size label_size ≡ some (some 0))
  blocks_written old0 old1 labels l0 l1 =
      let (least_words, both, few, whole, fits) = size-Fits in
      let sum0 = checksum f e s0 s1 s2 s3 config_size label_size 0 3 old0 in
      let sum1 = checksum f e s0 s1 s2 s3 config_size label_size 1 2 old1 in
      let b0 = block f e s0 s1 s2 s3 config_size label_size 0 3 old0 sum0 in
      let b1 = block f e s0 s1 s2 s3 config_size label_size 1 2 old1 sum1 in
      let lb0 = length-block f e s0 s1 s2 s3 config_size label_size 0 3 old0 sum0 (omega arith) in
      let lb1 = length-block f e s0 s1 s2 s3 config_size label_size 1 2 old1 sum1 (omega arith) in
      let fill0 =
        fill_index-block f e s0 s1 s2 s3 config_size label_size 0 3 [] old0 (old1 ++ labels)
          (omega arith) (sym l0) (omega arith) in
      let fill1 =
        fill_index-block f e s0 s1 s2 s3 config_size label_size 1 2 b0 old1 labels (omega arith)
          (sym l1) (omega arith) in
      let (x0, valid0, seq0) =
        valid_index-block f e trips s0 s1 s2 s3 config_size label_size 0 3 least below known sized
          (omega arith) (omega arith) (omega arith) [] old0 (b1 ++ labels) (omega arith) (sym l0)
          (omega arith) in
      let (x1, valid1, seq1) =
        valid_index-block f e trips s0 s1 s2 s3 config_size label_size 1 2 least below known sized
          (omega arith) (omega arith) (omega arith) b0 old1 labels (omega arith) (sym l1)
          (omega arith) in
      (
        b0,
        b1,
        fill0,
        fill1,
        lb0 ∙ l0,
        lb1 ∙ l1,
        first_is_current (b0 ++ (b1 ++ labels)) x0 x1 valid0 valid1 seq0 seq1,
      )

module _ {S : Type 0} (dimm : Dimm S) (area : S → List ℕ) (put : S → List ℕ → S) (f : Fields)
    (e : Encoders) (trips : RoundTrips f e) (signature : List ℕ)
    (config_size label_size max_xfer : ℕ) (supported : dimm.set_supported ≡ true) where
  -- A round: the words that are filled in are stored in the device.
  pub write_index-stored :
      (s : S) (index seq : ℕ) (bytes ws : List ℕ)
      → Answers dimm area put s config_size max_xfer
      → 0 < sizeof_namespace_index config_size label_size
      → sizeof_namespace_index config_size label_size * index
          + sizeof_namespace_index config_size label_size
        ≤ config_size
      → config_size < 2 ^ 32
      → 4 * length ws ≡ config_size
      → fill_index f e signature config_size label_size index seq (e.words_of bytes) ≡ some ws
      → write_index dimm f e signature config_size
          (read_cmd max_xfer config_size 0)
          label_size
          index
          seq
          bytes
          s
        ≡ some (done, e.bytes_of ws, put s (e.bytes_of ws))
  unfolding write_index
  write_index-stored s index seq bytes ws answers pos fits below len filled =
      let size = sizeof_namespace_index config_size label_size in
      let n = trips.bytes ws in
      let block = read_at_lem (size * index) size (e.bytes_of ws) (omega arith) in
      let offset = trips.le64 (size * index) (omega arith) in
      let stored =
        nvdimm_set_config_data-stored dimm area put s config_size max_xfer answers supported
          (e.bytes_of ws) (size * index) size (omega arith) pos (omega arith) in
      rw (filled, block, offset) stored
