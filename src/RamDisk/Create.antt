-- ===== src/RamDisk/Create.antt =====
-- `create`: a node in a free place, with one block of zeros.
use mathlib.Core.Path.{subst}
use native.Mathlib.Decide.{ℕ_discrete}
use dim_os.Common.{
  ℕ, zero, suc, ◌+◌, ◌*◌, ◌/◌, ◌%◌, ◌≤◌, ◌<◌, ◌≡◌, refl, sym, ap, ◌∙◌, ◌≢◌, inl, inr, true, false,
  update_self, update_ne, arith, Bool-cases, Option, some, none,
}
use dim_os.RamDisk.{
  RamDisk, Node, NodeType, VfsNode, is_invalid, set_node, free_node, get_free_i_node, create,
  first_size, populate_vfs_node, write,
}
use dim_os.RamDisk.Valid.{Owns, IsValid, byte, Owns-same}
use dim_os.RamDisk.Sized.{
  sized, sized_self, sized-type, sized-used, sized-others, byte-sized, sized-IsValid,
}
use dim_os.RamDisk.Grow.{IsFull}
use dim_os.RamDisk.Write.{IsStored, write-IsStored}
use dim_os.Bitset.{test}

-- The first place without a node, or none if there is no such place.
abbrev pub IsUnused : (ℕ → Node) → ℕ → ℕ → Option ℕ → Type 0
IsUnused nodes rounds i none = (k : ℕ) → i ≤ k → k < i + rounds → is_invalid (nodes k).type ≡ false
IsUnused nodes rounds i (some k) =
    (i ≤ k)
    × (k < i + rounds)
    × (is_invalid (nodes k).type ≡ true)
    × ((j : ℕ) → i ≤ j → j < k → is_invalid (nodes j).type ≡ false)

free_node-IsUnused :
    (nodes : ℕ → Node) (rounds i : ℕ) → IsUnused nodes rounds i (free_node nodes rounds i)
unfolding free_node
free_node-IsUnused nodes zero i = λ k lo hi. absurd (omega arith)
free_node-IsUnused nodes (suc rounds) i = elim (Bool-cases (is_invalid (nodes i).type)) [
  | inl unused ↦
      rw unused (omega arith, omega arith, unused, λ j lo hi. absurd (omega (arith, lo, hi)))
  | inr used ↦
      rw used (step (free_node nodes rounds (i + 1)) used (free_node-IsUnused nodes rounds (i + 1)))
]
  where
    step :
        (o : Option ℕ)
        → is_invalid (nodes i).type ≡ false
        → IsUnused nodes rounds (i + 1) o
        → IsUnused nodes (suc rounds) i o
    step none used rest = λ k lo hi. elim (ℕ_discrete i k) [
      | yes e ↦ subst (λ c. is_invalid (nodes c).type ≡ false) e used
      | no ne ↦ rest k (omega arith) (omega arith)
    ]
    step (some k) used (lo, hi, free, before) = (
      omega arith,
      omega arith,
      free,
      λ j from to. elim (ℕ_discrete i j) [
        | yes e ↦ subst (λ c. is_invalid (nodes c).type ≡ false) e used
        | no ne ↦ before j (omega (arith, from, ne)) to
      ],
    )

-- A node with no block, put in the place `k`.
module _ (d : RamDisk) (k : ℕ) (type : NodeType) where
  abbrev blank : Node
  blank = record (d.nodes k) { blocks_in_use = 0; inode = k; size = 0; type = type }

  abbrev fresh : RamDisk
  fresh = set_node d k blank

  fresh-others : (m : ℕ) → k ≢ m → fresh.nodes m ≡ d.nodes m
  unfolding set_node
  fresh-others m ne = update_ne d.nodes k m blank ne

  fresh_self : fresh.nodes k ≡ blank
  unfolding set_node
  fresh_self = update_self d.nodes k blank

  -- The new node has no block.
  Owns-fresh : (m i : ℕ) → Owns fresh m i → (k ≢ m) × Owns d m i
  Owns-fresh m i o = elim (ℕ_discrete k m) [
    | yes e ↦ absurd (
        subst (λ z. (i < (fresh.nodes z).blocks_in_use) → ⊥) e
          (λ h. omega (arith, h, ap (λ (n : Node). n.blocks_in_use) fresh_self)) o.used)
    | no ne ↦ (ne, Owns-same fresh d m i (sym (fresh-others m ne)) o)
  ]

  fresh-each :
      (P : Node → Type 0) → P blank → ((m : ℕ) → P (d.nodes m)) → (m : ℕ) → P (fresh.nodes m)
  fresh-each P here there m = elim (ℕ_discrete k m) [
    | yes e ↦ subst (λ z. P (fresh.nodes z)) e (subst P (sym fresh_self) here)
    | no ne ↦ subst P (sym (fresh-others m ne)) (there m)
  ]

  fresh-blocks : (m i : ℕ) → Owns fresh m i → (fresh.nodes m).blocks i ≡ (d.nodes m).blocks i
  fresh-blocks m i o = ap (λ (n : Node). n.blocks i) (fresh-others m (Owns-fresh m i o).0)

  fresh-IsValid : IsValid d → IsValid fresh
  unfolding set_node
  fresh-IsValid v = record {
    few =
        fresh-each (λ n. is_invalid n.type ≡ false → n.blocks_in_use ≤ 10) (λ h. omega arith) v.few;
    covered =
        fresh-each (λ n. is_invalid n.type ≡ false → n.size ≤ n.blocks_in_use * 512)
          (λ h. omega arith) v.covered;
    on_disk = λ m i o. omega (arith, fresh-blocks m i o, v.on_disk m i (Owns-fresh m i o).1);
    marked = λ m i o. rw (fresh-blocks m i o) (v.marked m i (Owns-fresh m i o).1);
    apart = λ m i n j o o' e.
        v.apart m i n j (Owns-fresh m i o).1 (Owns-fresh n j o').1
          (sym (fresh-blocks m i o) ∙ e ∙ fresh-blocks n j o');
  }

-- What `create` of a node in place `k` leaves.
pub record IsCreated (d : RamDisk) (type : NodeType) (k : ℕ) (vn : VfsNode) (e : RamDisk)
    : Type 0 where
  pub valid : IsValid e
  pub in_table : k < d.i_node_cnt
  pub was_unused : is_invalid (d.nodes k).type ≡ true
  pub first : (j : ℕ) → j < k → is_invalid (d.nodes j).type ≡ false
  pub has_type : (e.nodes k).type ≡ type
  pub has_size : (e.nodes k).size ≡ first_size type
  pub has_block : 1 ≤ (e.nodes k).blocks_in_use
  pub zeros : (p : ℕ) → p < 512 → byte e k p ≡ 0
  pub vfs_type : vn.type ≡ type
  pub vfs_inode : vn.resource.inode ≡ k
  pub vfs_size : vn.resource.size ≡ (e.nodes k).size
  pub others : (m : ℕ) → k ≢ m → e.nodes m ≡ d.nodes m
  pub other_bytes : (m p : ℕ) → Owns d m (p / 512) → k ≢ m → byte e m p ≡ byte d m p

small : (type : NodeType) → first_size type ≤ 4
small NodeType.invalid = omega arith
small NodeType.file = omega arith
small NodeType.directory = omega arith

-- On a valid disk with a free block and a place for a node, `create` of a file or a directory succeeds:
-- the disk stays valid, the node is in the first place of the table that was unused, with its type, its
-- first size and a block of zeros, and the other nodes keep their bytes.
pub create-IsCreated :
    (d : RamDisk) (type : NodeType) (k b : ℕ)
    → IsValid d
    → is_invalid type ≡ false
    → get_free_i_node d ≡ some k
    → b < d.block_cnt
    → test d.data_bitset b ≡ false
    → (vn : VfsNode) × (e : RamDisk) × (create d type ≡ some (vn, e)) × IsCreated d type k vn e
unfolding create get_free_i_node populate_vfs_node set_node
create-IsCreated d type k b v live found on_disk free = (
  vn,
  sized out.1 k (first_size type),
  rw (create, found) refl,
  record {
    valid = sized-IsValid out.1 k (first_size type) s.valid (λ l. omega (arith, one, small type));
    in_table = omega (arith, here.1);
    was_unused = here.2;
    first = λ j less. here.3 j (omega arith) less;
    has_type = sized-type out.1 k (first_size type) k ∙ s.same_type ∙ typed;
    has_size = ap (λ (n : Node). n.size) (sized_self out.1 k (first_size type));
    has_block = omega (arith, one, sized-used out.1 k (first_size type) k);
    zeros = λ p h.
        byte-sized out.1 k (first_size type) k p ∙ s.written p (omega arith) (omega (arith, all));
    vfs_type = typed;
    vfs_inode = ap (λ (n : Node). n.inode) (fresh_self d k type);
    vfs_size = sym (ap (λ (n : Node). n.size) (sized_self out.1 k (first_size type)));
    others = λ m ne.
        sized-others out.1 k (first_size type) m ne ∙ s.others m ne ∙ fresh-others d k type m ne;
    other_bytes = λ m p o ne.
        byte-sized out.1 k (first_size type) m p
        ∙ s.other_bytes m p ne (Owns-same d f m (p / 512) (fresh-others d k type m ne) o)
        ∙ ap (λ (n : Node). d.data_blocks (n.blocks (p / 512)) (p % 512))
            (fresh-others d k type m ne);
  },
)
  where
    f : RamDisk
    f = fresh d k type

    vn : VfsNode
    vn = record (populate_vfs_node f k) {
      resource = record (populate_vfs_node f k).resource { size = first_size type };
    }

    out : ℕ × RamDisk
    out = write f k 0 512 (λ i. 0)

    here : IsUnused d.nodes d.i_node_cnt 0 (some k)
    here = rw found at (free_node-IsUnused d.nodes d.i_node_cnt 0)

    typed : (f.nodes k).type ≡ type
    typed = ap (λ (n : Node). n.type) (fresh_self d k type)

    empty : (f.nodes k).blocks_in_use ≡ 0
    empty = ap (λ (n : Node). n.blocks_in_use) (fresh_self d k type)

    s : IsStored f k 0 512 (λ i. 0) out
    s =
        write-IsStored f k 0 512 (λ i. 0) (fresh-IsValid d k type v) (ap is_invalid typed ∙ live)
          (omega arith)

    -- If the disk is full, the free block is in the node.
    taken : IsFull out.1 → (out.1.nodes k).blocks_in_use ≢ 0
    taken full none_used =
        let marked : test out.1.data_bitset b ≡ true =
          full b (omega (arith, on_disk, s.same_block_cnt)) in
        let same : out.1.data_bitset ≡ d.data_bitset = s.no_growth (none_used ∙ sym empty) in
        cc (marked, free, same)

    all : out.0 ≡ 512
    all = elim s.complete [
      | inl done ↦ omega (arith, done)
      | inr (full, at_end) ↦ omega (arith, at_end, taken full, s.bounded)
    ]

    one : 1 ≤ (out.1.nodes k).blocks_in_use
    one = omega (arith, all, s.fits)
