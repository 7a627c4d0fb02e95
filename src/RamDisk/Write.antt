-- ===== src/RamDisk/Write.antt =====
-- `write`: what a node holds afterwards.
use mathlib.Core.Path.{subst}
use dim_os.Common.{
  ℕ, zero, suc, ◌+◌, ◌-◌, ◌*◌, ◌/◌, ◌%◌, ◌≤◌, ◌<◌, ◌≡◌, refl, ap, ◌∙◌, ◌≢◌, ◌⊎◌, inl, inr, false,
  ◌==◌, ltb, arith, Bool-cases, min, max,
}
use dim_os.RamDisk.{RamDisk, Node, is_invalid, fill, set_node, write_loop, write}
use dim_os.RamDisk.Valid.{IsLive, Owns, IsValid, byte}
use dim_os.RamDisk.Written.{IsWritten, IsWritten-append, IsWritten_behind}
use dim_os.RamDisk.Grow.{grow-cases, IsWritten_none, IsFull}
use dim_os.RamDisk.Sized.{
  sized, sized_self, sized-type, sized-used, sized-others, byte-sized, sized-IsValid,
}
use dim_os.RamDisk.Fill.{fill-IsWritten}

-- How far the loop of `write` came: to the end of the request, unless the disk is full.
pub record IsLooped (d : RamDisk) (k pos done size : ℕ) (buffer : ℕ → ℕ) (out : ℕ × RamDisk)
    : Type 0 where
  pub n : ℕ
  pub count : out.0 ≡ done + n
  pub bounded : done + n ≤ size
  pub run : IsWritten d k pos n buffer done out.1
  pub end : (done + n ≡ size) ⊎ (IsFull out.1 × (pos + n ≡ (out.1.nodes k).blocks_in_use * 512))

-- One run, and the loop behind it.
IsLooped-append :
    (d f : RamDisk) (k pos pos' c done size : ℕ) (buffer : ℕ → ℕ) (out : ℕ × RamDisk)
    → pos' ≡ pos + c
    → IsWritten d k pos c buffer done f
    → IsLooped f k pos' (done + c) size buffer out
    → IsLooped d k pos done size buffer out
IsLooped-append d f k pos pos' c done size buffer out on first r = record {
  n = c + r.n;
  count = omega (arith, r.count);
  bounded = omega (arith, r.bounded);
  run =
      IsWritten-append d f out.1 k pos c r.n buffer done first
        (subst (λ z. IsWritten f k z r.n buffer (done + c) out.1) on r.run);
  end = elim r.end [
    | inl e ↦ inl (omega (arith, e))
    | inr (full, at_end) ↦ inr (full, omega (arith, at_end, on))
  ];
}

write_loop_end :
    (rounds k i j done size : ℕ) (buffer : ℕ → ℕ) (d : RamDisk)
    → size ≤ done
    → write_loop rounds k i j done size buffer d ≡ (done, d)
unfolding write_loop
write_loop_end zero k i j done size buffer d h = refl
write_loop_end (suc rounds) k i j done size buffer d h =
    let over : ltb done size ≡ false = ground arith in rw over refl

write_loop-IsLooped :
    (rounds k i j done size : ℕ) (buffer : ℕ → ℕ) (d : RamDisk)
    → IsValid d
    → IsLive d k
    → i + rounds ≡ 10
    → j < 512
    → done ≤ size
    → i * 512 + j ≤ (d.nodes k).blocks_in_use * 512
    → i * 512 + j + (size - done) ≤ 5120
    → IsLooped d k (i * 512 + j) done size buffer (write_loop rounds k i j done size buffer d)
unfolding write_loop
write_loop-IsLooped zero k i j done size buffer d v live left inner le within room = record {
  n = 0;
  count = omega arith;
  bounded = omega arith;
  run = IsWritten_none d k (i * 512 + j) buffer done v within;
  end = inl (omega arith);
}
write_loop-IsLooped (suc rounds) k i j done size buffer d v live left inner le within room =
    elim (Bool-cases (ltb done size)) [
      | inr over ↦ rw over (record {
        n = 0;
        count = omega arith;
        bounded = omega arith;
        run = IsWritten_none d k (i * 512 + j) buffer done v within;
        end = inl (ground (arith, over));
      })
      | inl more ↦
          elim (grow-cases d k i (i * 512 + j) buffer done v live (omega arith) (omega arith)
            (omega arith) within (omega arith)) [
              | inl (failed, at_end, full) ↦
                  rw (more, failed)
                    (record {
                      n = 0;
                      count = omega arith;
                      bounded = omega arith;
                      run = IsWritten_none d k (i * 512 + j) buffer done v within;
                      end = inr (full, omega (arith, at_end, within));
                    })
              | inr (e, grew, w, used) ↦
                  let live_e : IsLive e k = ap is_invalid w.same_type ∙ live in
                  let c = min (512 - j) (size - done) in
                  let f = (fill e k i j done size buffer).1 in
                  let (count, filled) =
                    fill-IsWritten e k i j done size buffer w.valid
                      (record { live = live_e; used = used }) (omega arith) le in
                  let first : IsWritten d k (i * 512 + j) c buffer done f =
                    IsWritten_behind d e f k (i * 512 + j) c buffer done w filled in
                  rw (more, grew, count)
                    (elim (Bool-cases (done + c == size)) [
                      | inl whole ↦
                          rw
                            (write_loop_end rounds k (i + 1) 0 (done + c) size buffer f
                              (ground (arith, whole)))
                            (record {
                              n = c;
                              count = refl;
                              bounded = ground arith;
                              run = first;
                              end = inl (ground (arith, whole));
                            })
                      | inr part ↦
                          let block_full : c ≡ 512 - j = ground (arith, part, more) in
                          let r =
                            write_loop-IsLooped rounds k (i + 1) 0 (done + c) size buffer f
                              filled.valid (ap is_invalid filled.same_type ∙ live_e) (omega arith)
                              (omega arith) (omega arith) (omega (arith, filled.fits, block_full))
                              (omega (arith, room, block_full)) in
                          IsLooped-append d f k (i * 512 + j) ((i + 1) * 512 + 0) c done size buffer
                            _ (omega (arith, block_full)) first r
                    ])
            ]
    ]

-- What `write` of `size` bytes at `offset` does.
pub record IsStored (d : RamDisk) (k offset size : ℕ) (buffer : ℕ → ℕ) (out : ℕ × RamDisk)
    : Type 0 where
  pub valid : IsValid out.1
  pub same_block_cnt : out.1.block_cnt ≡ d.block_cnt
  pub written : (p : ℕ) → offset ≤ p → p < offset + out.0 → byte out.1 k p ≡ buffer (p - offset)
  pub kept :
      (p : ℕ)
      → p < (d.nodes k).blocks_in_use * 512
      → (p < offset) ⊎ (offset + out.0 ≤ p)
      → byte out.1 k p ≡ byte d k p
  pub new_size : (out.1.nodes k).size ≡ max (d.nodes k).size (offset + out.0)
  pub same_type : (out.1.nodes k).type ≡ (d.nodes k).type
  pub others : (m : ℕ) → k ≢ m → out.1.nodes m ≡ d.nodes m
  pub other_bytes : (m p : ℕ) → k ≢ m → Owns d m (p / 512) → byte out.1 m p ≡ byte d m p
  pub bounded : out.0 ≤ min size (5120 - offset)
  pub complete :
      (out.0 ≡ min size (5120 - offset))
      ⊎ (IsFull out.1 × (offset + out.0 ≡ (out.1.nodes k).blocks_in_use * 512))
  pub grown : (d.nodes k).blocks_in_use ≤ (out.1.nodes k).blocks_in_use
  pub no_growth :
      (out.1.nodes k).blocks_in_use ≡ (d.nodes k).blocks_in_use → out.1.data_bitset ≡ d.data_bitset
  pub fits : offset + out.0 ≤ (out.1.nodes k).blocks_in_use * 512

-- The loop's run, and the size set behind it.
IsLooped-IsStored :
    (d : RamDisk) (k offset size : ℕ) (buffer : ℕ → ℕ) (out : ℕ × RamDisk)
    → IsValid d
    → IsLive d k
    → IsLooped d k offset 0 (min size (5120 - offset)) buffer out
    → IsStored d k offset size buffer
        (out.0, sized out.1 k (max (out.1.nodes k).size (offset + out.0)))
unfolding set_node
IsLooped-IsStored d k offset size buffer out v live r =
    let e = out.1 in
    let s = max (e.nodes k).size (offset + out.0) in
    let w = r.run in
    let from_start : (p : ℕ) → 0 + (p - offset) ≡ p - offset = λ p. omega arith in
    record {
      valid =
          sized-IsValid e k s w.valid
            (λ live'. omega (arith, w.fits, r.count, w.valid.covered k live'));
      same_block_cnt = w.same_block_cnt;
      written = λ p lo hi.
          byte-sized e k s k p
          ∙ w.written p lo (omega (arith, hi, r.count))
          ∙ ap buffer (from_start p);
      kept = λ p inner outside.
          byte-sized e k s k p
          ∙ w.kept p inner
              (elim outside [ inl lo ↦ inl lo | inr hi ↦ inr (omega (arith, hi, r.count)) ]);
      new_size = omega (arith, ap (λ (n : Node). n.size) (sized_self e k s), w.same_size);
      same_type = sized-type e k s k ∙ w.same_type;
      others = λ m ne. sized-others e k s m ne ∙ w.others m ne;
      other_bytes = λ m p ne o.
          byte-sized e k s m p
          ∙ ap (λ (n : Node). e.data_blocks (n.blocks (p / 512)) (p % 512)) (w.others m ne)
          ∙ w.other_bytes m (p / 512) (p % 512) ne o;
      bounded = omega (arith, r.bounded, r.count);
      complete = elim r.end [
        | inl all ↦ inl (omega (arith, r.count, all))
        | inr (full, at_end) ↦ inr (full, omega (arith, at_end, r.count, sized-used e k s k))
      ];
      grown = omega (arith, w.grown, sized-used e k s k);
      no_growth = λ same. w.no_growth (omega (arith, same, sized-used e k s k));
      fits = omega (arith, w.fits, r.count, sized-used e k s k);
    }

-- With the disk valid and `offset` not past the end of a live node, `write` keeps the disk valid; the
-- bytes that it counts are those of the buffer, and it counts all that fit into ten blocks unless the
-- disk is full then and the blocks of the node with it; the other bytes of the node, and the other nodes
-- with theirs, stay; and the size grows to the end of what was written, where that is behind it.
pub write-IsStored :
    (d : RamDisk) (k offset size : ℕ) (buffer : ℕ → ℕ)
    → IsValid d
    → IsLive d k
    → offset ≤ (d.nodes k).size
    → IsStored d k offset size buffer (write d k offset size buffer)
unfolding write
write-IsStored d k offset size buffer v live at =
    let bound : offset ≤ 5120 = omega (arith, v.few k live, v.covered k live) in
    let within : ltb 5120 offset ≡ false = ground (arith, bound) in
    let start : offset / 512 * 512 + offset % 512 ≡ offset = omega arith in
    let out =
      write_loop (10 - offset / 512) k (offset / 512) (offset % 512) 0 (min size (5120 - offset))
        buffer d in
    let r : IsLooped d k (offset / 512 * 512 + offset % 512) 0 (min size (5120 - offset)) buffer
        out =
      write_loop-IsLooped (10 - offset / 512) k (offset / 512) (offset % 512) 0
        (min size (5120 - offset)) buffer d v live (omega (arith, bound)) (omega arith)
        (omega arith) (omega (arith, v.covered k live)) (omega (arith, bound)) in
    rw within (
      IsLooped-IsStored d k offset size buffer out v live
        (subst (λ z. IsLooped d k z 0 (min size (5120 - offset)) buffer out) start r))
