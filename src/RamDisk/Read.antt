-- ===== src/RamDisk/Read.antt =====
-- `read`, and what it finds behind `write`.
use dim_os.Common.{
  ℕ, zero, suc, ◌+◌, ◌-◌, ◌*◌, ◌/◌, ◌%◌, ◌≤◌, ◌<◌, ◌≡◌, refl, sym, ap, ap₂, ◌∙◌, inl, inr, true,
  false, ◌&&◌, ltb, leb, if◌then◌else◌, arith, Bool-cases, min,
}
use dim_os.RamDisk.{RamDisk, Node, is_invalid, read_block, read_loop, read, write}
use dim_os.RamDisk.Valid.{IsLive, IsValid, byte}
use dim_os.RamDisk.Copy.{read_block_lem}
use dim_os.RamDisk.Write.{write-IsStored}

abbrev byte_of : RamDisk → Node → ℕ → ℕ
byte_of d node p = d.data_blocks (node.blocks (p / 512)) (p % 512)

-- The bytes of one block, and those of the blocks behind it, are one run.
join_runs :
    (d : RamDisk) (node : Node) (i j done size q : ℕ) (buffer : ℕ → ℕ) {first : ℕ}
    → j < 512
    → let c = min (512 - j) (size - done) in
      first ≡ (
        if leb done q && ltb q (done + c)
        then d.data_blocks (node.blocks i) (j + (q - done))
        else buffer q)
      → (if leb (done + c) q && ltb q size
          then byte_of d node ((i + 1) * 512 + 0 + (q - (done + c)))
          else first)
        ≡ (if leb done q && ltb q size then byte_of d node (i * 512 + j + (q - done)) else buffer q)
join_runs d node i j done size q buffer inner cells =
    let c = min (512 - j) (size - done) in
    elim (Bool-cases (leb (done + c) q && ltb q size)) [
      | inl behind ↦
          let both : (leb done q && ltb q size) ≡ true = ground (arith, behind) in
          let index : (i + 1) * 512 + 0 + (q - (done + c)) ≡ i * 512 + j + (q - done) =
            ground (arith, behind) in
          rw (behind, both) (ap (byte_of d node) index)
      | inr not_behind ↦ rw not_behind (elim (Bool-cases (leb done q && ltb q (done + c))) [
        | inl within ↦
            let both : (leb done q && ltb q size) ≡ true = ground (arith, within) in
            let block : (i * 512 + j + (q - done)) / 512 ≡ i = ground (arith, within) in
            let place : (i * 512 + j + (q - done)) % 512 ≡ j + (q - done) =
              ground (arith, within) in
            rw both
              (rw within at cells ∙ sym (ap₂ (λ b p. d.data_blocks (node.blocks b) p) block place))
        | inr without ↦
            let neither : (leb done q && ltb q size) ≡ false =
              ground (arith, without, not_behind) in
            rw neither (rw without at cells)
      ])
    ]

-- The loop of `read` copies all of the request that lies in the blocks of the node.
read_loop_lem :
    (rounds : ℕ) (d : RamDisk) (node : Node) (i j done size : ℕ) (buffer : ℕ → ℕ)
    → j < 512
    → done ≤ size
    → i * 512 + j + (size - done) ≤ (i + rounds) * 512
    → ((read_loop d node rounds i j done size buffer).0 ≡ size)
      × ((q : ℕ)
          → (read_loop d node rounds i j done size buffer).1 q ≡ (
              if leb done q && ltb q size
              then byte_of d node (i * 512 + j + (q - done))
              else buffer q))
unfolding read_loop
read_loop_lem zero d node i j done size buffer inner le within = (omega arith, λ q. ground arith)
read_loop_lem (suc rounds) d node i j done size buffer inner le within =
    elim (Bool-cases (ltb done size)) [
      | inr over ↦ rw over (ground (arith, over), λ q. ground (arith, over))
      | inl more ↦
          let c = min (512 - j) (size - done) in
          let src = d.data_blocks (node.blocks i) in
          let (count, cells) = read_block_lem (512 - j) j done size src buffer le in
          let (count', cells') =
            read_loop_lem rounds d node (i + 1) 0 (done + c) size
              (read_block (512 - j) j done size src buffer).1 (omega arith) (omega arith)
              (omega arith) in
          rw (more, count)
            (count', λ q. cells' q ∙ join_runs d node i j done size q buffer inner (cells q))
    ]

-- On a valid disk and a live node, `read` at an offset that is not past the end fills the buffer with
-- the bytes of the node from there on, as many as were asked for or are left, and no more.
pub read_lem :
    (d : RamDisk) (k offset size : ℕ) (buffer : ℕ → ℕ)
    → IsValid d
    → IsLive d k
    → offset ≤ (d.nodes k).size
    → ((read d k offset size buffer).0 ≡ min size ((d.nodes k).size - offset))
      × ((q : ℕ)
          → (read d k offset size buffer).1 q
            ≡ (if ltb q (read d k offset size buffer).0 then byte d k (offset + q) else buffer q))
unfolding read
read_lem d k offset size buffer v live at =
    let node = d.nodes k in
    let within : ltb node.size offset ≡ false = ground arith in
    let want = min size (node.size - offset) in
    let start : offset / 512 * 512 + offset % 512 ≡ offset = omega arith in
    let (count, cells) =
      read_loop_lem (node.blocks_in_use - offset / 512) d node (offset / 512) (offset % 512) 0 want
        buffer (omega arith) (omega arith) (omega (arith, v.covered k live)) in
    rw (within, count)
      (
        refl,
        λ q.
            let index : offset / 512 * 512 + offset % 512 + (q - 0) ≡ offset + q = omega arith in
            let low : (leb 0 q && ltb q want) ≡ ltb q want = ground arith in
            rw (index, low) at (cells q),
      )

-- On a valid disk, for a node in use and an offset that is not behind the end of the node: a `read` at the offset of
-- as many bytes as `write` counted there counts as many, and gives these bytes of the buffer back.
pub read-write :
    (d : RamDisk) (k offset size : ℕ) (buffer into : ℕ → ℕ)
    → IsValid d
    → IsLive d k
    → offset ≤ (d.nodes k).size
    → let (n, e) = write d k offset size buffer in
      ((read e k offset n into).0 ≡ n) × ((q : ℕ) → q < n → (read e k offset n into).1 q ≡ buffer q)
read-write d k offset size buffer into v live at =
    let s = write-IsStored d k offset size buffer v live at in
    let (n, e) = write d k offset size buffer in
    let (count, cells) =
      read_lem e k offset n into s.valid (ap is_invalid s.same_type ∙ live)
        (omega (arith, s.new_size)) in
    let all : (read e k offset n into).0 ≡ n = omega (arith, count, s.new_size) in
    (
      all,
      λ q h.
          let low : ltb q (read e k offset n into).0 ≡ true = ground (arith, all) in
          let index : offset + q - offset ≡ q = omega arith in
          cells q ∙ rw low (s.written (offset + q) (omega arith) (omega arith)) ∙ ap buffer index,
    )
