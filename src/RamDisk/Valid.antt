-- ===== src/RamDisk/Valid.antt =====
-- The invariant of the disk: which blocks belong to which node.
use dim_os.Common.{ℕ, ◌*◌, ◌/◌, ◌%◌, ◌≤◌, ◌<◌, ◌≡◌, true, false, arith, ap, ◌∙◌}
use dim_os.RamDisk.{RamDisk, Node, is_invalid}
use dim_os.Bitset.{test}

-- A node that a file or a directory has.
abbrev pub IsLive : RamDisk → ℕ → Type 0
IsLive d k = is_invalid (d.nodes k).type ≡ false

-- Node `k` has a block at place `i`.
pub record Owns (d : RamDisk) (k i : ℕ) : Type 0 where
  pub live : IsLive d k
  pub used : i < (d.nodes k).blocks_in_use

-- A live node has at most ten blocks, and its size lies in them; its blocks are on the disk and marked,
-- and no block belongs to two places.
pub record IsValid (d : RamDisk) : Type 0 where
  pub few : (k : ℕ) → IsLive d k → (d.nodes k).blocks_in_use ≤ 10
  pub covered : (k : ℕ) → IsLive d k → (d.nodes k).size ≤ (d.nodes k).blocks_in_use * 512
  pub on_disk : (k i : ℕ) → Owns d k i → (d.nodes k).blocks i < d.block_cnt
  pub marked : (k i : ℕ) → Owns d k i → test d.data_bitset ((d.nodes k).blocks i) ≡ true
  pub apart :
      (k i m j : ℕ)
      → Owns d k i
      → Owns d m j
      → (d.nodes k).blocks i ≡ (d.nodes m).blocks j
      → (k ≡ m) × (i ≡ j)

-- The byte at position `p` of node `k`.
abbrev pub byte : RamDisk → ℕ → ℕ → ℕ
byte d k p = d.data_blocks ((d.nodes k).blocks (p / 512)) (p % 512)

-- A node that did not change owns what it owned.
pub Owns-same : (d e : RamDisk) (m i : ℕ) → e.nodes m ≡ d.nodes m → Owns d m i → Owns e m i
Owns-same d e m i same owns = record {
  live = ap (λ (n : Node). is_invalid n.type) same ∙ owns.live;
  used = omega (arith, owns.used, ap (λ (n : Node). n.blocks_in_use) same);
}
