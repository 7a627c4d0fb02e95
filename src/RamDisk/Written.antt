-- ===== src/RamDisk/Written.antt =====
-- A run of bytes written to one node, as a relation between the disk before and after.
use mathlib.Core.Path.{subst}
use dim_os.Common.{
  ℕ, ◌+◌, ◌-◌, ◌*◌, ◌≤◌, ◌<◌, ◌≡◌, ap, ◌∙◌, ◌≢◌, ◌⊎◌, inl, inr, ltb, arith, Bool-cases,
}
use dim_os.RamDisk.{RamDisk, Node}
use dim_os.RamDisk.Valid.{Owns, IsValid, byte, Owns-same}

-- `d'` differs from `d` in that `n` bytes of node `k` from position `pos` on are those of `src` from
-- `from` on, and that the node may have more blocks.
pub record IsWritten (d : RamDisk) (k pos n : ℕ) (src : ℕ → ℕ) (from : ℕ) (d' : RamDisk)
    : Type 0 where
  pub valid : IsValid d'
  pub same_block_cnt : d'.block_cnt ≡ d.block_cnt
  pub same_i_node_cnt : d'.i_node_cnt ≡ d.i_node_cnt
  pub others : (m : ℕ) → k ≢ m → d'.nodes m ≡ d.nodes m
  pub same_inode : (d'.nodes k).inode ≡ (d.nodes k).inode
  pub same_type : (d'.nodes k).type ≡ (d.nodes k).type
  pub same_size : (d'.nodes k).size ≡ (d.nodes k).size
  pub grown : (d.nodes k).blocks_in_use ≤ (d'.nodes k).blocks_in_use
  pub no_growth :
      (d'.nodes k).blocks_in_use ≡ (d.nodes k).blocks_in_use → d'.data_bitset ≡ d.data_bitset
  pub fits : pos + n ≤ (d'.nodes k).blocks_in_use * 512
  pub written : (p : ℕ) → pos ≤ p → p < pos + n → byte d' k p ≡ src (from + (p - pos))
  pub kept :
      (p : ℕ)
      → p < (d.nodes k).blocks_in_use * 512
      → (p < pos) ⊎ (pos + n ≤ p)
      → byte d' k p ≡ byte d k p
  pub other_bytes :
      (m i q : ℕ)
      → k ≢ m
      → Owns d m i
      → d'.data_blocks ((d.nodes m).blocks i) q ≡ d.data_blocks ((d.nodes m).blocks i) q

-- One run behind another.
pub IsWritten-append :
    (d e f : RamDisk) (k pos n n' : ℕ) (src : ℕ → ℕ) (from : ℕ)
    → IsWritten d k pos n src from e
    → IsWritten e k (pos + n) n' src (from + n) f
    → IsWritten d k pos (n + n') src from f
IsWritten-append d e f k pos n n' src from a b = record {
  valid = b.valid;
  same_block_cnt = b.same_block_cnt ∙ a.same_block_cnt;
  same_i_node_cnt = b.same_i_node_cnt ∙ a.same_i_node_cnt;
  others = λ m ne. b.others m ne ∙ a.others m ne;
  same_inode = b.same_inode ∙ a.same_inode;
  same_type = b.same_type ∙ a.same_type;
  same_size = b.same_size ∙ a.same_size;
  grown = omega (arith, a.grown, b.grown);
  no_growth = λ same.
      b.no_growth (omega (arith, same, a.grown, b.grown))
      ∙ a.no_growth (omega (arith, same, a.grown, b.grown));
  fits = omega (arith, b.fits);
  written = λ p lo hi. elim (Bool-cases (ltb p (pos + n))) [
    | inl first ↦
        b.kept p (ground (arith, a.fits, first)) (inl (ground (arith, first)))
        ∙ a.written p lo (ground (arith, first))
    | inr second ↦
        let past : from + n + (p - (pos + n)) ≡ from + (p - pos) = ground (arith, second) in
        b.written p (ground (arith, second)) (omega arith) ∙ ap src past
  ];
  kept = λ p within outside.
      b.kept p (omega (arith, a.grown))
        (elim outside [ inl lo ↦ inl (omega arith) | inr hi ↦ inr (omega arith) ])
      ∙ a.kept p within (elim outside [ inl lo ↦ inl lo | inr hi ↦ inr (omega arith) ]);
  other_bytes = λ m i q ne owns.
      let same = a.others m ne in
      let owns' : Owns e m i = Owns-same d e m i same owns in
      subst (λ (x : Node). f.data_blocks (x.blocks i) q ≡ e.data_blocks (x.blocks i) q) same
        (b.other_bytes m i q ne owns')
      ∙ a.other_bytes m i q ne owns;
}

-- A run behind growth alone.
pub IsWritten_behind :
    (d e f : RamDisk) (k pos n : ℕ) (src : ℕ → ℕ) (from : ℕ)
    → IsWritten d k pos 0 src from e
    → IsWritten e k pos n src from f
    → IsWritten d k pos n src from f
IsWritten_behind d e f k pos n src from a b =
    let stay : pos + 0 ≡ pos = omega arith in
    let start : from + 0 ≡ from = omega arith in
    let all : 0 + n ≡ n = omega arith in
    let b' : IsWritten e k (pos + 0) n src (from + 0) f = rw (stay, start) b in
    rw all at (IsWritten-append d e f k pos 0 n src from a b')
