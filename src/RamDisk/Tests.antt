-- ===== src/RamDisk/Tests.antt =====
-- The theorems about the file system at a disk of three blocks with one file, and runs of the code on it.
use mathlib.Core.Path.{subst}
use native.Mathlib.Decide.{ℕ_discrete}
use dim_os.Common.{
  ℕ, ◌+◌, ◌-◌, ◌<◌, ◌≡◌, refl, sym, ap, ◌∙◌, true, false, if◌then◌else◌, ltb, update, update_self,
  update_ne, arith, some, min,
}
use dim_os.Bitset.{test, assign, with_size}
use dim_os.Bitset.Laws.{test-assign, test-with_size}
use dim_os.RamDisk.{
  RamDisk, Node, NodeType, VfsNode, is_invalid, get_free_i_node, free_node, read, write, create,
  remove,
}
use dim_os.RamDisk.Valid.{IsLive, Owns, IsValid, byte}
use dim_os.RamDisk.Write.{IsStored, write-IsStored}
use dim_os.RamDisk.Read.{read_lem, read-write}
use dim_os.RamDisk.Create.{IsCreated, create-IsCreated}
use dim_os.RamDisk.Remove.{IsRemoved, remove-IsRemoved}

abbrev unused_node : Node
unused_node = record {
  inode = 0;
  type = NodeType.invalid;
  blocks_in_use = 0;
  size = 0;
  blocks = λ i. 0;
}

-- A file of five bytes in block 1.
abbrev small_file : Node
small_file = record {
  inode = 0;
  type = NodeType.file;
  blocks_in_use = 1;
  size = 5;
  blocks = λ i. 1;
}

abbrev small_nodes : ℕ → Node
small_nodes = update (λ k. unused_node) 0 small_file

abbrev small : RamDisk
small = record {
  device_id = 7;
  i_node_cnt = 2;
  block_cnt = 3;
  nodes = small_nodes;
  data_bitset = assign (with_size (λ i. 9) 3) 1 1;
  data_blocks = λ b i. b + i;
}

small_zero : small_nodes 0 ≡ small_file
small_zero = update_self (λ k. unused_node) 0 small_file

small_live : (k : ℕ) → IsLive small k → 0 ≡ k
small_live k live = elim (ℕ_discrete 0 k) [
  | yes e ↦ e
  | no ne ↦ absurd (
      cc (
        live,
        ap (λ (n : Node). is_invalid n.type) (update_ne (λ k. unused_node) 0 k small_file ne),
      ))
]

small_first : IsLive small 0
small_first = ap (λ (n : Node). is_invalid n.type) small_zero

small_node : (k : ℕ) → IsLive small k → small_nodes k ≡ small_file
small_node k live = subst (λ z. small_nodes z ≡ small_file) (small_live k live) small_zero

small_place : (k i : ℕ) → Owns small k i → i ≡ 0
small_place k i o = omega (arith, o.used, ap (λ (n : Node). n.blocks_in_use) (small_node k o.live))

small_block : (k i : ℕ) → Owns small k i → (small_nodes k).blocks i ≡ 1
small_block k i o = ap (λ (n : Node). n.blocks i) (small_node k o.live)

small_marked : test small.data_bitset 1 ≡ true
small_marked = test-assign (with_size (λ i. 9) 3) 1 1 1

small_free : test small.data_bitset 0 ≡ false
small_free =
    test-assign (with_size (λ i. 9) 3) 1 1 0 ∙ (test-with_size (λ i. 9) 3 0 (omega arith)).0

small-IsValid : IsValid small
small-IsValid = record {
  few = λ k l. omega (arith, ap (λ (n : Node). n.blocks_in_use) (small_node k l));
  covered = λ k l. omega (
    arith,
    ap (λ (n : Node). n.blocks_in_use) (small_node k l),
    ap (λ (n : Node). n.size) (small_node k l),
  );
  on_disk = λ k i o. omega (arith, small_block k i o);
  marked = λ k i o. rw (small_block k i o) small_marked;
  apart = λ k i m j o o' e. (
    sym (small_live k o.live) ∙ small_live m o'.live,
    small_place k i o ∙ sym (small_place m j o'),
  );
}

small_unused : get_free_i_node small ≡ some 1
unfolding get_free_i_node free_node
small_unused = refl

write-IsStored_example : IsStored small 0 3 600 (λ i. i + 1) (write small 0 3 600 (λ i. i + 1))
write-IsStored_example =
    write-IsStored small 0 3 600 (λ i. i + 1) small-IsValid small_first (omega arith)

read_lem_example :
    ((read small 0 2 100 (λ i. 0)).0 ≡ min 100 ((small.nodes 0).size - 2))
    × ((q : ℕ)
        → (read small 0 2 100 (λ i. 0)).1 q
          ≡ (if ltb q (read small 0 2 100 (λ i. 0)).0 then byte small 0 (2 + q) else 0))
read_lem_example = read_lem small 0 2 100 (λ i. 0) small-IsValid small_first (omega arith)

read-write_example :
    let (n, e) = write small 0 3 600 (λ i. i + 1) in
    ((read e 0 3 n (λ i. 0)).0 ≡ n) × ((q : ℕ) → q < n → (read e 0 3 n (λ i. 0)).1 q ≡ q + 1)
read-write_example =
    read-write small 0 3 600 (λ i. i + 1) (λ i. 0) small-IsValid small_first (omega arith)

create-IsCreated_example :
    (vn : VfsNode) × (e : RamDisk) × (create small NodeType.directory ≡ some (vn, e))
    × IsCreated small NodeType.directory 1 vn e
create-IsCreated_example =
    create-IsCreated small NodeType.directory 1 0 small-IsValid refl small_unused (omega arith)
      small_free

remove-IsRemoved_example : IsRemoved small 0 (remove small 0)
remove-IsRemoved_example = remove-IsRemoved small 0 small-IsValid small_first
