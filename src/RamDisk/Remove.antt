-- ===== src/RamDisk/Remove.antt =====
-- `remove`: the blocks of a node are free again.
use mathlib.Core.Path.{subst}
use native.Mathlib.Decide.{ℕ_discrete}
use dim_os.Common.{
  ℕ, zero, suc, ◌+◌, ◌*◌, ◌≤◌, ◌<◌, ◌≡◌, refl, sym, ap, ◌∙◌, ◌≢◌, true, false, update_self,
  update_ne, arith,
}
use dim_os.RamDisk.{RamDisk, Node, is_invalid, set_node, free_blocks, remove}
use dim_os.RamDisk.Valid.{IsLive, Owns, IsValid, Owns-same}
use dim_os.Bitset.{Bitset, test, assign}
use dim_os.Bitset.Laws.{test-assign}

-- A block that is not marked stays so.
free_blocks_stay :
    (rounds i : ℕ) (blocks : ℕ → ℕ) (bits : Bitset) (b : ℕ)
    → test bits b ≡ false
    → test (free_blocks rounds i blocks bits) b ≡ false
unfolding free_blocks
free_blocks_stay zero i blocks bits b off = off
free_blocks_stay (suc rounds) i blocks bits b off =
    free_blocks_stay rounds (i + 1) blocks (assign bits (blocks i) 0) b
      (ground (arith, test-assign bits (blocks i) 0 b, off))

free_blocks_in :
    (rounds i : ℕ) (blocks : ℕ → ℕ) (bits : Bitset) (j : ℕ)
    → i ≤ j
    → j < i + rounds
    → test (free_blocks rounds i blocks bits) (blocks j) ≡ false
unfolding free_blocks
free_blocks_in zero i blocks bits j lo hi = absurd (omega arith)
free_blocks_in (suc rounds) i blocks bits j lo hi = elim (ℕ_discrete i j) [
  | yes here ↦
      free_blocks_stay rounds (i + 1) blocks (assign bits (blocks i) 0) (blocks j)
        (ground (arith, test-assign bits (blocks i) 0 (blocks j), ap blocks here))
  | no ne ↦
      free_blocks_in rounds (i + 1) blocks (assign bits (blocks i) 0) j (omega arith) (omega arith)
]

free_blocks_out :
    (rounds i : ℕ) (blocks : ℕ → ℕ) (bits : Bitset) (b : ℕ)
    → ((j : ℕ) → i ≤ j → j < i + rounds → blocks j ≢ b)
    → test (free_blocks rounds i blocks bits) b ≡ test bits b
unfolding free_blocks
free_blocks_out zero i blocks bits b apart = refl
free_blocks_out (suc rounds) i blocks bits b apart =
    free_blocks_out rounds (i + 1) blocks (assign bits (blocks i) 0) b
      (λ j lo hi. apart j (omega arith) (omega arith))
    ∙ ground (arith, test-assign bits (blocks i) 0 b, apart i (omega arith) (omega arith))

-- What `remove` of node `k` leaves.
pub record IsRemoved (d : RamDisk) (k : ℕ) (e : RamDisk) : Type 0 where
  pub valid : IsValid e
  pub gone : is_invalid (e.nodes k).type ≡ true
  pub freed :
      (i : ℕ) → i < (d.nodes k).blocks_in_use → test e.data_bitset ((d.nodes k).blocks i) ≡ false
  pub kept :
      (b : ℕ)
      → ((i : ℕ) → i < (d.nodes k).blocks_in_use → (d.nodes k).blocks i ≢ b)
      → test e.data_bitset b ≡ test d.data_bitset b
  pub others : (m : ℕ) → k ≢ m → e.nodes m ≡ d.nodes m
  pub same_bytes : e.data_blocks ≡ d.data_blocks

-- On a valid disk and a live node, `remove` leaves a valid disk without the node: the blocks that the
-- node used are free, the marks of all other blocks, the other nodes and all bytes are as before.
pub remove-IsRemoved : (d : RamDisk) (k : ℕ) → IsValid d → IsLive d k → IsRemoved d k (remove d k)
unfolding remove set_node
remove-IsRemoved d k v live = record {
  valid = record {
    few = λ m l. subst (λ (n : Node). n.blocks_in_use ≤ 10) (sym (other m l)) (v.few m (was m l));
    covered = λ m l.
        subst (λ (n : Node). n.size ≤ n.blocks_in_use * 512) (sym (other m l))
          (v.covered m (was m l));
    on_disk = λ m i o.
        subst (λ (n : Node). n.blocks i < d.block_cnt) (sym (other m o.live))
          (v.on_disk m i (owned m i o));
    marked = λ m i o.
        subst (λ (n : Node). test (remove d k).data_bitset (n.blocks i) ≡ true)
          (sym (other m o.live))
          (free_blocks_out (d.nodes k).blocks_in_use 0 (d.nodes k).blocks d.data_bitset
              ((d.nodes m).blocks i)
              (λ j lo hi e.
                apart m o.live
                  (v.apart k j m i (record { live = live; used = omega (arith, hi) }) (owned m i o)
                    e).0)
            ∙ v.marked m i (owned m i o));
    apart = λ m i n j o o' e. v.apart m i n j (owned m i o) (owned n j o') (
        sym (ap (λ (x : Node). x.blocks i) (other m o.live))
        ∙ e
        ∙ ap (λ (x : Node). x.blocks j) (other n o'.live));
  };
  gone = unused;
  freed = λ i h.
      free_blocks_in (d.nodes k).blocks_in_use 0 (d.nodes k).blocks d.data_bitset i (omega arith)
        (omega arith);
  kept = λ b h.
      free_blocks_out (d.nodes k).blocks_in_use 0 (d.nodes k).blocks d.data_bitset b
        (λ j lo hi. h j (omega arith));
  others = λ m ne. update_ne d.nodes k m _ ne;
  same_bytes = refl;
}
  where
    unused : is_invalid ((remove d k).nodes k).type ≡ true
    unused = ap (λ (n : Node). is_invalid n.type) (update_self d.nodes k _)

    apart : (m : ℕ) → IsLive (remove d k) m → k ≢ m
    apart m l same = subst (λ z. IsLive (remove d k) z → ⊥) same (λ l'. cc (unused, l')) l

    other : (m : ℕ) → IsLive (remove d k) m → (remove d k).nodes m ≡ d.nodes m
    other m l = update_ne d.nodes k m _ (apart m l)

    was : (m : ℕ) → IsLive (remove d k) m → IsLive d m
    was m l = ap (λ (n : Node). is_invalid n.type) (sym (other m l)) ∙ l

    owned : (m i : ℕ) → Owns (remove d k) m i → Owns d m i
    owned m i o = Owns-same (remove d k) d m i (sym (other m o.live)) o
