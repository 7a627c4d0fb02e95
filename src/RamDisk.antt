-- ===== src/RamDisk.antt =====
-- kernel/kernel/filesystem/ramdisk.cpp, kernel/include/kernel/filesystem/ramdisk.h and
-- kernel/include/kernel/filesystem/resource.h: the file system in memory.
pub mod Valid
pub mod Copy
pub mod Written
pub mod Grow
pub mod Fill
pub mod Sized
pub mod Write
pub mod Read
pub mod Create
pub mod Remove
mod Tests
use dim_os.Common.{
  ℕ, zero, suc, ◌+◌, ◌-◌, ◌*◌, ◌/◌, ◌%◌, Bool, true, false, Option, none, some, ltb, ◌==◌,
  if◌then◌else◌, update, min, max,
}
use dim_os.Bitset.{Bitset, test, assign}

-- `vfs::NodeType`
pub data NodeType : Type 0 where
  invalid file directory : NodeType

abbrev pub is_invalid : NodeType → Bool
is_invalid NodeType.invalid = true
is_invalid NodeType.file = false
is_invalid NodeType.directory = false

abbrev pub block_size : ℕ
block_size = 512

abbrev pub max_data_blocks : ℕ
max_data_blocks = 10

-- `RamDisk::Node`. A pointer in `dataBlocks` is the number of its block, as `getDataBlockNumber` gives it.
pub record Node : Type 0 where
  pub inode : ℕ
  pub type : NodeType
  pub blocks_in_use : ℕ
  pub size : ℕ
  pub blocks : ℕ → ℕ

-- `RamDisk`: the two counts of `Super`, the nodes, the set of blocks in use and the bytes of the blocks.
pub record RamDisk : Type 0 where
  pub device_id : ℕ
  pub i_node_cnt : ℕ
  pub block_cnt : ℕ
  pub nodes : ℕ → Node
  pub data_bitset : Bitset
  pub data_blocks : ℕ → ℕ → ℕ

-- `Resource`
pub record Resource : Type 0 where
  pub inode : ℕ
  pub size : ℕ
  pub device_id : ℕ

-- The part of `vfs::Node` that the file system fills in.
pub record VfsNode : Type 0 where
  pub type : NodeType
  pub resource : Resource

pub set_node : RamDisk → ℕ → Node → RamDisk
set_node d k n = record d { nodes = update d.nodes k n }

pub populate_vfs_node : RamDisk → ℕ → VfsNode
populate_vfs_node d k = record {
  type = (d.nodes k).type;
  resource = record { inode = (d.nodes k).inode; size = (d.nodes k).size; device_id = d.device_id };
}

-- `getFreeDataBlock`, by the blocks left; `none` is -1.
pub free_block : Bitset → ℕ → ℕ → Option ℕ
free_block bits zero i = none
free_block bits (suc rounds) i =
    let rest = free_block bits rounds (i + 1) in if test bits i then rest else some i

pub get_free_data_block : RamDisk → Option ℕ
get_free_data_block d = free_block d.data_bitset d.block_cnt 0

-- `getFreeINode`
pub free_node : (ℕ → Node) → ℕ → ℕ → Option ℕ
free_node nodes zero i = none
free_node nodes (suc rounds) i =
    let rest = free_node nodes rounds (i + 1) in if is_invalid (nodes i).type then some i else rest

pub get_free_i_node : RamDisk → Option ℕ
get_free_i_node d = free_node d.nodes d.i_node_cnt 0

-- The inner loop of `read`, by the bytes left in the block: the bytes read and the buffer.
pub read_block : ℕ → ℕ → ℕ → ℕ → (ℕ → ℕ) → (ℕ → ℕ) → ℕ × (ℕ → ℕ)
read_block zero j done size src buffer = (done, buffer)
read_block (suc rounds) j done size src buffer =
    let rest = read_block rounds (j + 1) (done + 1) size src (update buffer done (src j)) in
    if ltb done size then rest else (done, buffer)

-- The outer loop of `read`, by the blocks left.
pub read_loop : RamDisk → Node → ℕ → ℕ → ℕ → ℕ → ℕ → (ℕ → ℕ) → ℕ × (ℕ → ℕ)
read_loop d node zero i j done size buffer = (done, buffer)
read_loop d node (suc rounds) i j done size buffer =
    let (done', buffer') =
      read_block (block_size - j) j done size (d.data_blocks (node.blocks i)) buffer in
    let rest = read_loop d node rounds (i + 1) 0 done' size buffer' in
    if ltb done size then rest else (done, buffer)

-- `read`: the bytes read, and the buffer with them.
pub read : RamDisk → ℕ → ℕ → ℕ → (ℕ → ℕ) → ℕ × (ℕ → ℕ)
read d k offset size buffer =
    let node = d.nodes k in
    if ltb node.size offset
    then (0, buffer)
    else read_loop d node (node.blocks_in_use - offset / block_size) (offset / block_size)
        (offset % block_size) 0 (min size (node.size - offset)) buffer

-- The inner loop of `write`: the bytes written and the block.
pub write_block : ℕ → ℕ → ℕ → ℕ → (ℕ → ℕ) → (ℕ → ℕ) → ℕ × (ℕ → ℕ)
write_block zero j done size buffer block = (done, block)
write_block (suc rounds) j done size buffer block =
    let rest = write_block rounds (j + 1) (done + 1) size buffer (update block j (buffer done)) in
    if ltb done size then rest else (done, block)

-- A new block at the end of a node, if the loop of `write` came there; `none` is a full disk.
pub grow : RamDisk → ℕ → ℕ → Option RamDisk
grow d k i =
    let node = d.nodes k in
    if i == node.blocks_in_use
    then elim (get_free_data_block d) [
      | none ↦ none
      | some block ↦
          some
            (record (set_node d k (record node {
              blocks = update node.blocks node.blocks_in_use block;
              blocks_in_use = node.blocks_in_use + 1;
            })) { data_bitset = assign d.data_bitset block 1 })
    ]
    else some d

-- The body of the inner loop over one block of a node.
pub fill : RamDisk → ℕ → ℕ → ℕ → ℕ → ℕ → (ℕ → ℕ) → ℕ × RamDisk
fill d k i j done size buffer =
    let block = (d.nodes k).blocks i in
    let (done', bytes) = write_block (block_size - j) j done size buffer (d.data_blocks block) in
    (done', record d { data_blocks = update d.data_blocks block bytes })

-- The outer loop of `write`, by the blocks left.
pub write_loop : ℕ → ℕ → ℕ → ℕ → ℕ → ℕ → (ℕ → ℕ) → RamDisk → ℕ × RamDisk
write_loop zero k i j done size buffer d = (done, d)
write_loop (suc rounds) k i j done size buffer d =
    if ltb done size
    then elim (grow d k i) [
      | none ↦ (done, d)
      | some d' ↦
          let (done', d'') = fill d' k i j done size buffer in
          write_loop rounds k (i + 1) 0 done' size buffer d''
    ]
    else (done, d)

-- `write`: the bytes written and the disk. The resource takes the size of the node.
pub write : RamDisk → ℕ → ℕ → ℕ → (ℕ → ℕ) → ℕ × RamDisk
write d k offset size buffer =
    if ltb (max_data_blocks * block_size) offset
    then (0, d)
    else (let (done, d') =
          write_loop (max_data_blocks - offset / block_size) k (offset / block_size)
            (offset % block_size) 0 (min size (max_data_blocks * block_size - offset)) buffer d in
        (
          done,
          set_node d' k (record (d'.nodes k) { size = max (d'.nodes k).size (offset + done) }),
        ))

-- The size of a new node: a directory has its `DirHeader`.
abbrev pub first_size : NodeType → ℕ
first_size NodeType.invalid = 0
first_size NodeType.file = 0
first_size NodeType.directory = 4

-- `create` of a node in a free place; without one the source writes before the nodes, and this is `none`.
pub create : RamDisk → NodeType → Option (VfsNode × RamDisk)
create d type = elim (get_free_i_node d) [
  | none ↦ none
  | some k ↦
      let fresh =
        set_node d k (record (d.nodes k) { blocks_in_use = 0; inode = k; size = 0; type = type }) in
      let vfs_node = populate_vfs_node fresh k in
      let zeroed = (write fresh k 0 block_size (λ i. 0)).1 in
      let size = first_size type in
      some (
        record vfs_node { resource = record vfs_node.resource { size = size } },
        set_node zeroed k (record (zeroed.nodes k) { size = size }),
      )
]

-- The loop of `remove`, by the blocks left.
pub free_blocks : ℕ → ℕ → (ℕ → ℕ) → Bitset → Bitset
free_blocks zero i blocks bits = bits
free_blocks (suc rounds) i blocks bits =
    free_blocks rounds (i + 1) blocks (assign bits (blocks i) 0)

pub remove : RamDisk → ℕ → RamDisk
remove d k =
    let node = d.nodes k in
    let freed = record d {
      data_bitset = free_blocks node.blocks_in_use 0 node.blocks d.data_bitset;
    } in
    set_node freed k (record node { type = NodeType.invalid })
