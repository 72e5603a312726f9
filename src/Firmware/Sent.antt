-- ===== src/Firmware/Sent.antt =====
-- ndctl/dimm.c: the parts that `send_firmware` sends are the file.
use mathlib.Core.Path.{subst}
use utils_kernel_ndctl_ndctl.Prelude.{
  ℕ, zero, suc, ◌+◌, ◌-◌, ◌%◌, ◌^◌, ◌≤◌, ◌<◌, ◌≡◌, ◌∙◌, refl, sym, ap, min, ltb, ◌==◌, ◌||◌, true,
  false, not, List, [], ◌∷◌, ◌++◌, some, length, arith, Bool-cases, inl, inr,
}
use utils_kernel_ndctl_ndctl.Prelude.Buffers.{take, drop, length-take, length-drop}
use utils_kernel_ndctl_ndctl.Prelude.Buffers.Between.{drop-drop}
use utils_kernel_ndctl_ndctl.Check.Defs.{enxio}
use utils_kernel_ndctl_ndctl.Namespace.Control.{Ret, done, failed}
use utils_kernel_ndctl_ndctl.Firmware.{
  fw_success, FwInfo, Firmware, UpdateOptions, get_fw_data_from_file, send_rounds, send_firmware,
}

-- A DIMM that takes each part that comes right behind those before; `received` is what it has.
pub record Receives {S : Type 0} (dev : Firmware S) (received : S → List ℕ) : Type 0 where
  pub takes :
      (s : S) (bytes : List ℕ)
      → (t : S) × (dev.send (length (received s)) bytes s ≡ (some (done, fw_success), t))
        × (received t ≡ received s ++ bytes)

nothing_taken : (k : ℕ) → take {A = ℕ} k [] ≡ []
nothing_taken zero = refl
nothing_taken (suc k) = refl

take-append-take : (n k : ℕ) (xs : List ℕ) → take n xs ++ take k (drop n xs) ≡ take (n + k) xs
take-append-take zero k xs = let e : 0 + k ≡ k = omega arith in rw e refl
take-append-take (suc n) k [] =
    let e : suc n + k ≡ suc (n + k) = omega arith in rw e (nothing_taken k)
take-append-take (suc n) k (x ∷ xs) =
    let e : suc n + k ≡ suc (n + k) = omega arith in
    rw e (ap (λ l. x ∷ l) (take-append-take n k xs))

module _ {S : Type 0} (dev : Firmware S) (options : UpdateOptions) (received : S → List ℕ)
    (receives : Receives dev received) where
  send_rounds-take :
      (fuel update_size n c : ℕ) (file : List ℕ) (rc : Ret) (s : S)
      → 0 < update_size
      → n ≤ length file
      → n < 2 ^ 32
      → c ≤ n
      → n < c + fuel
      → received s ≡ take c file
      → length (received s) ≡ c
      → ((n ≡ c) → rc ≡ done)
      → (t : S) × (send_rounds dev options fuel update_size (drop c file) c (n - c) rc s
          ≡ some (done, t))
        × (received t ≡ take n file)
  unfolding send_rounds get_fw_data_from_file
  send_rounds-take zero update_size n c file rc s pos long small le fuel had len last =
      absurd (omega arith)
  send_rounds-take (suc fuel) update_size n c file rc s pos long small le more had len last =
      let k = min update_size (n - c) in
      elim (Bool-cases (n - c == 0)) [
        | inl all ↦
            (let same : n ≡ c = ground arith in
              rw (all, last same) (s, refl, had ∙ ap (λ m. take m file) (sym same)))
        | inr rest ↦
            (let bytes = take k (drop c file) in
              let (t, took, now) = receives.takes s bytes in
              let took' = subst (λ m. dev.send m bytes s ≡ (some (done, fw_success), t)) len took in
              let n_left = length-drop c file in
              let read : (k == 0 || ltb (length (drop c file)) k) ≡ false = ground arith in
              let have = now ∙ ap (λ l. l ++ bytes) had ∙ take-append-take c k file in
              let (u, returned, all) =
                send_rounds-take fuel update_size n (c + k) file done t pos long small (omega arith)
                  (ground arith) have (ap length have ∙ length-take (c + k) file (omega arith))
                  (λ e. refl) in
              let offset : (c + k) % 2 ^ 32 ≡ c + k = omega arith in
              let left : n - c - k ≡ n - (c + k) = omega arith in
              rw (rest, read, took', drop-drop c k file, offset, left) (u, returned, all))
      ]

  -- With a DIMM that takes each part that comes right behind those before and has none yet, memory
  -- for a part, and a file of at least `fw_size` bytes, a size above 0 of 32 bits: `send_firmware`
  -- returns 0, and the DIMM has received the first `fw_size` bytes of the file, whatever the size
  -- of a part, if it is above 0.
  pub send_firmware-received :
      (fw : FwInfo) (fw_size : ℕ) (file : List ℕ) (s : S)
      → dev.buffer ≡ true
      → 0 < fw.update_size
      → 0 < fw_size
      → fw_size < 2 ^ 32
      → fw_size ≤ length file
      → received s ≡ []
      → (t : S) × (send_firmware dev options fw fw_size file s ≡ some (done, t))
        × (received t ≡ take fw_size file)
  unfolding send_firmware
  send_firmware-received fw fw_size file s there pos some_bytes small long empty =
      let same : fw_size % 2 ^ 32 ≡ fw_size = omega arith in
      let all : fw_size - 0 ≡ fw_size = omega arith in
      let stays : not dev.buffer ≡ false = ap not there in
      let sent =
        send_rounds-take (fw_size + 1) fw.update_size fw_size 0 file (failed enxio) s pos long small
          (omega arith) (omega arith) empty (ap length empty) (λ e. absurd (omega arith)) in
      rw (stays, same)
        (subst
          (λ m.
            (t : S) × (send_rounds dev options (fw_size + 1) fw.update_size file 0 m (failed enxio)
                s
              ≡ some (done, t))
            × (received t ≡ take fw_size file))
          all sent)
