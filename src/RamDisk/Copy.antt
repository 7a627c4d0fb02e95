-- ===== src/RamDisk/Copy.antt =====
-- What the loops over one block copy.
use dim_os.Common.{
  ℕ, zero, suc, ◌+◌, ◌-◌, ◌≤◌, ◌≡◌, ◌&&◌, ltb, leb, if◌then◌else◌, update, min, arith, Bool-cases,
  inl, inr,
}
use dim_os.RamDisk.{read_block, write_block}

-- `read` goes on until the block or the request ends, and copies to the buffer in order.
pub read_block_lem :
    (rounds j done size : ℕ) (src buffer : ℕ → ℕ)
    → done ≤ size
    → ((read_block rounds j done size src buffer).0 ≡ done + min rounds (size - done))
      × ((q : ℕ)
          → (read_block rounds j done size src buffer).1 q ≡ (
              if leb done q && ltb q (done + min rounds (size - done))
              then src (j + (q - done))
              else buffer q))
unfolding read_block
read_block_lem zero j done size src buffer le = (omega arith, λ q. ground arith)
read_block_lem (suc rounds) j done size src buffer le = elim (Bool-cases (ltb done size)) [
  | inl more ↦
      let (count, cells) =
        read_block_lem rounds (j + 1) (done + 1) size src (update buffer done (src j))
          (ground (arith, more)) in
      rw more (
        ground (arith, count, more),
        λ q. elim (Bool-cases (ltb done q)) [
          | inl past ↦
              let same : j + 1 + (q - (done + 1)) ≡ j + (q - done) = ground (arith, past) in
              ground (arith, rw same at (cells q), past, more)
          | inr not_past ↦
              let first : j + (q - done) ≡ j = ground (arith, not_past) in
              rw first (ground (arith, cells q, not_past, more))
        ],
      )
  | inr over ↦ rw over (ground (arith, over), λ q. ground (arith, over))
]

-- `write` likewise, with the roles of the two sides exchanged.
pub write_block_lem :
    (rounds j done size : ℕ) (buffer block : ℕ → ℕ)
    → done ≤ size
    → ((write_block rounds j done size buffer block).0 ≡ done + min rounds (size - done))
      × ((q : ℕ)
          → (write_block rounds j done size buffer block).1 q ≡ (
              if leb j q && ltb q (j + min rounds (size - done))
              then buffer (done + (q - j))
              else block q))
unfolding write_block
write_block_lem zero j done size buffer block le = (omega arith, λ q. ground arith)
write_block_lem (suc rounds) j done size buffer block le = elim (Bool-cases (ltb done size)) [
  | inl more ↦
      let (count, cells) =
        write_block_lem rounds (j + 1) (done + 1) size buffer (update block j (buffer done))
          (ground (arith, more)) in
      rw more (
        ground (arith, count, more),
        λ q. elim (Bool-cases (ltb j q)) [
          | inl past ↦
              let same : done + 1 + (q - (j + 1)) ≡ done + (q - j) = ground (arith, past) in
              ground (arith, rw same at (cells q), past, more)
          | inr not_past ↦
              let first : done + (q - j) ≡ done = ground (arith, not_past) in
              rw first (ground (arith, cells q, not_past, more))
        ],
      )
  | inr over ↦ rw over (ground (arith, over), λ q. ground (arith, over))
]
