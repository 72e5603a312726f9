-- ===== src/Label/Write/Restored.antt =====
-- ndctl/lib/dimm.c: after `ndctl_dimm_init_labels`, `__label_validate` finds what was written.
use mathlib.Core.Option.{some-injective, none-ne-some}
use utils_kernel_ndctl_ndctl.Prelude.{
  ℕ, ◌*◌, ◌/◌, ◌^◌, ◌≤◌, ◌<◌, ◌≡◌, ◌≢◌, ◌⊎◌, inl, inr, refl, sym, ap, ◌∙◌, true, List, [], ◌∷◌,
  ◌++◌, some, length, length-append, arith,
}
use utils_kernel_ndctl_ndctl.Prelude.Buffers.{
  take, drop, take-append-drop, length-take, length-drop,
}
use utils_kernel_ndctl_ndctl.Prelude.Buffers.Between.{drop-append}
use utils_kernel_ndctl_ndctl.Namespace.Control.{done}
use utils_kernel_ndctl_ndctl.Command.{Cmd, ret_of}
use utils_kernel_ndctl_ndctl.Command.Extent.{Dimm}
use utils_kernel_ndctl_ndctl.Command.Extent.Answers.{Answers, answers-put}
use utils_kernel_ndctl_ndctl.Command.Extent.Zeroed.{read_cmd}
use utils_kernel_ndctl_ndctl.Label.{num_label_slots, sizeof_namespace_index}
use utils_kernel_ndctl_ndctl.Label.Validate.{Fields, current_index}
use utils_kernel_ndctl_ndctl.Label.Write.{
  Encoders, fill_index, NamespaceVersion, v1_1, v1_2, other, label_size_of, slots_of, write_index,
  write_label_index, init_both, ndctl_dimm_init_labels,
}
use utils_kernel_ndctl_ndctl.Label.Write.Fresh.{RoundTrips}
use utils_kernel_ndctl_ndctl.Label.Write.Init.{blocks_written, write_index-stored, size-Fits}

label_size_of_known :
    (v : NamespaceVersion) (label_size : ℕ)
    → label_size_of v ≡ some label_size
    → (label_size ≡ 128) ⊎ (label_size ≡ 256)
label_size_of_known v1_1 label_size h = inl (sym (some-injective _ _ h))
label_size_of_known v1_2 label_size h = inr (sym (some-injective _ _ h))
label_size_of_known other label_size h = absurd (none-ne-some _ h)

-- Two blocks in front of the same labels.
behind_blocks :
    (w : ℕ) (b0 b1 labels : List ℕ)
    → length b0 ≡ w
    → length b1 ≡ w
    → drop w (drop w (b0 ++ (b1 ++ labels))) ≡ labels
behind_blocks w b0 b1 labels p q =
    let first : drop w (b0 ++ (b1 ++ labels)) ≡ b1 ++ labels =
      rw (sym p) (drop-append b0 (b1 ++ labels)) in
    let second : drop w (b1 ++ labels) ≡ labels = rw (sym q) (drop-append b1 labels) in
    rw (first, second) refl

two_rounds :
    {S : Type 0} (dimm : Dimm S) (f : Fields) (e : Encoders) (signature : List ℕ) (config_size : ℕ)
    (cmd : Cmd) (v : NamespaceVersion) (label_size : ℕ) (bytes first second : List ℕ) (s s1 s2 : S)
    → label_size_of v ≡ some label_size
    → write_index dimm f e signature config_size cmd label_size 0 3 bytes s ≡ some (done, first, s1)
    → write_index dimm f e signature config_size cmd label_size 1 2 first s1
      ≡ some (done, second, s2)
    → init_both dimm f e signature config_size cmd v bytes s
      ≡ some (ret_of (num_label_slots config_size label_size), second, s2)
unfolding init_both write_label_index
two_rounds dimm f e signature config_size cmd v label_size bytes first second s s1 s2 ver round0
      round1 =
    rw (write_label_index, ver, round0, round1, slots_of) refl

module _ {S : Type 0} (dimm : Dimm S) (area : S → List ℕ) (put : S → List ℕ → S) (f : Fields)
    (e : Encoders) (trips : RoundTrips f e) (s0 s1 s2 s3 config_size label_size max_xfer : ℕ) where
  -- On a DIMM that serves each request, with a label area of at least 512 bytes that was read as a
  -- whole and has room for two labels of the version's size: `ndctl_dimm_init_labels` returns the
  -- number of the label slots, and what it has stored in the DIMM is an area in which
  -- `__label_validate` finds, with the version's label size, the index block 0 to be the current one,
  -- and whose words behind the two index blocks are those from before.
  pub ndctl_dimm_init_labels-current_index :
      (v : NamespaceVersion) (bytes : List ℕ) (s : S)
      → label_size_of v ≡ some label_size
      → Answers dimm area put s config_size max_xfer
      → dimm.set_supported ≡ true
      → 512 ≤ config_size
      → sizeof_namespace_index config_size label_size ≢ 0
      → 4 * length (e.words_of bytes) ≡ config_size
      → (ws : List ℕ) × (ndctl_dimm_init_labels dimm f e
            (s0 ∷ s1 ∷ s2 ∷ s3 ∷ [])
            config_size
            (some (read_cmd max_xfer config_size 0))
            v
            bytes
            s
          ≡ some (
            ret_of (num_label_slots config_size label_size),
            e.bytes_of ws,
            put s (e.bytes_of ws),
          ))
        × (current_index f (s0 ∷ s1 ∷ s2 ∷ s3 ∷ []) ws config_size label_size ≡ some (some 0))
        × (drop
              (sizeof_namespace_index config_size label_size / 4)
              (drop (sizeof_namespace_index config_size label_size / 4) ws)
            ≡ drop
                (sizeof_namespace_index config_size label_size / 4)
                (drop (sizeof_namespace_index config_size label_size / 4) (e.words_of bytes)))
  unfolding ndctl_dimm_init_labels
  ndctl_dimm_init_labels-current_index v bytes s ver answers supported least sized len =
      let below = answers.below in
      let some_part = answers.some_part in
      let small : config_size < 2 ^ 32 = omega arith in
      let known = label_size_of_known v label_size ver in
      let signature = s0 ∷ s1 ∷ s2 ∷ s3 ∷ [] in
      let size = sizeof_namespace_index config_size label_size in
      let w = size / 4 in
      let ws = e.words_of bytes in
      let (least_words, both, few, whole, fits) =
        size-Fits f e trips s0 s1 s2 s3 config_size label_size least small known sized in
      let old0 = take w ws in
      let old1 = take w (drop w ws) in
      let labels = drop w (drop w ws) in
      let l0 = length-take w ws (omega arith) in
      let ld = length-drop w ws in
      let l1 = length-take w (drop w ws) (omega arith) in
      let l2 = length-drop w (drop w ws) in
      let parts : ws ≡ old0 ++ (old1 ++ labels) =
        sym (ap (λ l. old0 ++ l) (take-append-drop w (drop w ws)) ∙ take-append-drop w ws) in
      let (b0, b1, fill0, fill1, n0, n1, current) =
        blocks_written f e trips s0 s1 s2 s3 config_size label_size least small known sized old0
          old1 labels l0 l1 in
      let first = b0 ++ (old1 ++ labels) in
      let second = b0 ++ (b1 ++ labels) in
      let len0 : 4 * length first ≡ config_size =
        omega (arith, length-append b0 (old1 ++ labels), length-append old1 labels) in
      let len1 : 4 * length second ≡ config_size =
        omega (arith, length-append b0 (b1 ++ labels), length-append b1 labels) in
      let round0 =
        write_index-stored dimm area put f e trips signature config_size label_size max_xfer
          supported s 0 3 bytes first answers (omega arith) (omega arith) small len0
          (ap (λ l. fill_index f e signature config_size label_size 0 3 l) parts ∙ fill0) in
      let round1 =
        write_index-stored dimm area put f e trips signature config_size label_size max_xfer
          supported (put s (e.bytes_of first)) 1 2 (e.bytes_of first) second
          (answers-put dimm area put s config_size max_xfer answers (e.bytes_of first)
            (trips.bytes first ∙ len0))
          (omega arith) (omega arith) small len1
          (ap (λ l. fill_index f e signature config_size label_size 1 2 l) (trips.words first)
            ∙ fill1) in
      let again = answers.faithful.put-put s (e.bytes_of first) (e.bytes_of second) in
      (
        second,
        rw (sym again) (
            two_rounds dimm f e signature config_size (read_cmd max_xfer config_size 0) v label_size
              bytes (e.bytes_of first) (e.bytes_of second) s _ _ ver round0 round1),
        current,
        behind_blocks w b0 b1 labels n0 n1,
      )
