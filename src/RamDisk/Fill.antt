-- ===== src/RamDisk/Fill.antt =====
-- The inner loop of `write`: a run of bytes in one block of a node.
use mathlib.Core.Path.{subst}
use native.Mathlib.Decide.{ℕ_discrete}
use dim_os.Common.{
  ℕ, ◌+◌, ◌-◌, ◌*◌, ◌/◌, ◌%◌, ◌≤◌, ◌<◌, ◌≡◌, refl, ap, ◌∙◌, ◌≢◌, ◌⊎◌, true, false, ◌&&◌, ltb, leb,
  if◌then◌else◌, update_self, update_ne, arith, min,
}
use dim_os.RamDisk.{RamDisk, fill}
use dim_os.RamDisk.Valid.{Owns, IsValid, byte}
use dim_os.RamDisk.Written.{IsWritten}
use dim_os.RamDisk.Copy.{write_block_lem}

-- The block at place `i` of node `k`, and what is written to it.
module _ (d : RamDisk) (k i j done size : ℕ) (buffer : ℕ → ℕ) (v : IsValid d) (owns : Owns d k i)
    (in_block : j ≤ 512) (more : done ≤ size) where
  abbrev count : ℕ
  count = min (512 - j) (size - done)

  abbrev block : ℕ
  block = (d.nodes k).blocks i

  abbrev filled : RamDisk
  filled = (fill d k i j done size buffer).1

  filled-bytes :
      (q : ℕ)
      → filled.data_blocks block q
        ≡ (if leb j q && ltb q (j + count) then buffer (done + (q - j)) else d.data_blocks block q)
  unfolding fill
  filled-bytes q =
      ap (λ (f : ℕ → ℕ). f q) (update_self d.data_blocks block _)
      ∙ (write_block_lem (512 - j) j done size buffer (d.data_blocks block) more).1 q

  filled-elsewhere : (c q : ℕ) → block ≢ c → filled.data_blocks c q ≡ d.data_blocks c q
  unfolding fill
  filled-elsewhere c q ne = ap (λ (f : ℕ → ℕ). f q) (update_ne d.data_blocks block c _ ne)

  filled-nodes : filled.nodes ≡ d.nodes
  unfolding fill
  filled-nodes = refl

  -- A position of the node lies in this block, or the block there is another one.
  filled-written :
      (p : ℕ)
      → i * 512 + j ≤ p
      → p < i * 512 + j + count
      → byte filled k p ≡ buffer (done + (p - (i * 512 + j)))
  unfolding fill
  filled-written p lo hi =
      let here : p / 512 ≡ i = omega arith in
      let inner : (leb j (p % 512) && ltb (p % 512) (j + count)) ≡ true = ground (arith, here) in
      let index : done + (p % 512 - j) ≡ done + (p - (i * 512 + j)) = omega (arith, here) in
      ap (λ c. filled.data_blocks ((d.nodes k).blocks c) (p % 512)) here
      ∙ filled-bytes (p % 512)
      ∙ rw inner (ap buffer index)

  filled-kept :
      (p : ℕ)
      → p < (d.nodes k).blocks_in_use * 512
      → (p < i * 512 + j) ⊎ (i * 512 + j + count ≤ p)
      → byte filled k p ≡ byte d k p
  unfolding fill
  filled-kept p within outside = elim (ℕ_discrete i (p / 512)) [
    | yes here ↦
        let outer : (leb j (p % 512) && ltb (p % 512) (j + count)) ≡ false =
          ground (arith, here, outside) in
        subst
          (λ c.
            filled.data_blocks ((d.nodes k).blocks c) (p % 512)
            ≡ d.data_blocks ((d.nodes k).blocks c) (p % 512))
          here (filled-bytes (p % 512) ∙ rw outer refl)
    | no ne ↦ filled-elsewhere ((d.nodes k).blocks (p / 512)) (p % 512) (λ e.
        ne (v.apart k i k (p / 512) owns (record { live = owns.live; used = omega arith }) e).1)
  ]

  filled-IsValid : IsValid filled
  unfolding fill
  filled-IsValid = record {
    few = v.few;
    covered = v.covered;
    on_disk = λ m a o. v.on_disk m a (record { live = o.live; used = o.used });
    marked = λ m a o. v.marked m a (record { live = o.live; used = o.used });
    apart = λ m a n b o o' e.
        v.apart m a n b (record { live = o.live; used = o.used })
          (record { live = o'.live; used = o'.used }) e;
  }

  pub fill-IsWritten :
      ((fill d k i j done size buffer).0 ≡ done + count)
      × IsWritten d k (i * 512 + j) count buffer done filled
  unfolding fill
  fill-IsWritten = (
    (write_block_lem (512 - j) j done size buffer (d.data_blocks block) more).0,
    record {
      valid = filled-IsValid;
      same_block_cnt = refl;
      same_i_node_cnt = refl;
      others = λ m ne. refl;
      same_inode = refl;
      same_type = refl;
      same_size = refl;
      grown = omega arith;
      no_growth = λ same. refl;
      fits = omega (arith, owns.used);
      written = filled-written;
      kept = filled-kept;
      other_bytes = λ m a q ne o.
          filled-elsewhere ((d.nodes m).blocks a) q (λ e. ne (v.apart k i m a owns o e).0);
    },
  )
