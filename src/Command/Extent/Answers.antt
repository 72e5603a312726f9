-- ===== src/Command/Extent/Answers.antt =====
-- ndctl/lib/libndctl.c: a DIMM that serves each request for config data, and what a submitted command
-- does to it.
use utils_kernel_ndctl_ndctl.Prelude.{
  ℕ, ◌+◌, ◌^◌, ◌≤◌, ◌<◌, ◌≡◌, refl, List, some, none, length, arith,
}
use utils_kernel_ndctl_ndctl.Namespace.Control.{done}
use utils_kernel_ndctl_ndctl.Command.{Cmd, submit_xlat}
use utils_kernel_ndctl_ndctl.Command.Transfer.{IsFaithful, moved, do_cmd-moved}
use utils_kernel_ndctl_ndctl.Command.Extent.{Dimm, submitted}

-- The area is not empty, and does not wrap around with a part more.
pub record Answers {S : Type 0} (dimm : Dimm S) (area : S → List ℕ) (put : S → List ℕ → S) (s : S)
    (config_size max_xfer : ℕ) : Type 0 where
  pub faithful : IsFaithful dimm.device area put
  pub whole : length (area s) ≡ config_size
  pub some_area : 0 < config_size
  pub some_part : 0 < max_xfer
  pub below : config_size + max_xfer ≤ 2 ^ 32
  pub node : (t : S) → dimm.node t ≡ none
  pub xlat : (t : S) → dimm.xlat t ≡ none

module _ {S : Type 0} (dimm : Dimm S) (area : S → List ℕ) (put : S → List ℕ → S) (s : S)
    (config_size max_xfer : ℕ) (answers : Answers dimm area put s config_size max_xfer) where
  -- Another area of the same size leaves it so.
  pub answers-put :
      (l : List ℕ) → length l ≡ config_size → Answers dimm area put (put s l) config_size max_xfer
  answers-put l h =
      let here = answers.faithful.area-put s l in
      record {
        faithful = answers.faithful;
        whole = rw here h;
        some_area = answers.some_area;
        some_part = answers.some_part;
        below = answers.below;
        node = answers.node;
        xlat = answers.xlat;
      }

  pub submitted-moved :
      (cmd : Cmd) (buf : List ℕ)
      → cmd.iter.max_xfer ≡ max_xfer
      → 0 < cmd.iter.total_xfer
      → cmd.iter.total_xfer ≤ config_size
      → length buf ≡ config_size
      → submitted dimm cmd buf s
        ≡ some (
          (
            done,
            (moved cmd.iter.dir cmd.iter.total_xfer buf (area s)).0,
            put s (moved cmd.iter.dir cmd.iter.total_xfer buf (area s)).1,
          ),
          record cmd { status = done },
        )
  unfolding submit_xlat
  submitted-moved cmd buf part pos fits len =
      let some_part = answers.some_part in
      let below = answers.below in
      let whole = answers.whole in
      let all =
        do_cmd-moved dimm.device area put answers.faithful cmd buf s (omega arith) pos (omega arith)
          (omega arith) (omega arith) in
      let after = answers.xlat (put s (moved cmd.iter.dir cmd.iter.total_xfer buf (area s)).1) in
      rw (answers.node s, all, after) refl
