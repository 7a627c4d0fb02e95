-- ===== src/RamDisk/Grow.antt =====
-- The loop of `write` comes to the end of a node's blocks: a free block is taken.
use mathlib.Core.Path.{subst}
use native.Mathlib.Decide.{ℕ_discrete}
use dim_os.Common.{
  ℕ, zero, suc, ◌+◌, ◌*◌, ◌/◌, ◌%◌, ◌≤◌, ◌<◌, ◌≡◌, refl, sym, ap, ◌∙◌, ◌≢◌, ◌⊎◌, inl, inr, true,
  false, ◌==◌, update, update_self, update_ne, arith, Bool-cases, Option-cases, Option, some, none,
  ==_iff,
}
use dim_os.RamDisk.{RamDisk, Node, is_invalid, set_node, grow, get_free_data_block, free_block}
use dim_os.RamDisk.Valid.{IsLive, Owns, IsValid, Owns-same}
use dim_os.RamDisk.Written.{IsWritten}
use dim_os.Bitset.{Bitset, test, assign}
use dim_os.Bitset.Laws.{test-assign}

-- The first block that is not marked, or none if all are.
abbrev pub IsFree : Bitset → ℕ → ℕ → Option ℕ → Type 0
IsFree bits rounds i none = (b : ℕ) → i ≤ b → b < i + rounds → test bits b ≡ true
IsFree bits rounds i (some b) = (i ≤ b) × (b < i + rounds) × (test bits b ≡ false)

free_block-IsFree : (bits : Bitset) (rounds i : ℕ) → IsFree bits rounds i (free_block bits rounds i)
unfolding free_block
free_block-IsFree bits zero i = λ b lo hi. absurd (omega arith)
free_block-IsFree bits (suc rounds) i = elim (Bool-cases (test bits i)) [
  | inl used ↦
      rw used (step (free_block bits rounds (i + 1)) used (free_block-IsFree bits rounds (i + 1)))
  | inr unused ↦ rw unused (omega arith, omega arith, unused)
]
  where
    step :
        (o : Option ℕ)
        → test bits i ≡ true
        → IsFree bits rounds (i + 1) o
        → IsFree bits (suc rounds) i o
    step none used rest = λ b lo hi. elim (ℕ_discrete i b) [
      | yes e ↦ subst (λ c. test bits c ≡ true) e used
      | no ne ↦ rest b (omega arith) (omega arith)
    ]
    step (some b) used (lo, hi, free) = (omega arith, omega arith, free)

-- The disk with block `b` put behind the blocks of node `k`.
module _ (d : RamDisk) (k b : ℕ) where
  abbrev longer : Node
  longer = record (d.nodes k) {
    blocks = update (d.nodes k).blocks (d.nodes k).blocks_in_use b;
    blocks_in_use = (d.nodes k).blocks_in_use + 1;
  }

  abbrev grown : RamDisk
  grown = record (set_node d k longer) { data_bitset = assign d.data_bitset b 1 }

  grown-others : (m : ℕ) → k ≢ m → grown.nodes m ≡ d.nodes m
  unfolding set_node
  grown-others m ne = update_ne d.nodes k m longer ne

  grown_self : grown.nodes k ≡ longer
  unfolding set_node
  grown_self = update_self d.nodes k longer

  grown-test : (c : ℕ) → test d.data_bitset c ≡ true → test grown.data_bitset c ≡ true
  unfolding set_node
  grown-test c h = ground (arith, test-assign d.data_bitset b 1 c, h)

  -- What is owned was owned before, at the same block, or is the new block.
  data Was (m i : ℕ) : Type 0 where
    old : Owns d m i → (grown.nodes m).blocks i ≡ (d.nodes m).blocks i → Was m i
    new : k ≡ m → (d.nodes k).blocks_in_use ≡ i → (grown.nodes m).blocks i ≡ b → Was m i

  Owns-grown_self : (i : ℕ) → Owns grown k i → Was k i
  Owns-grown_self i owns = elim (ℕ_discrete (d.nodes k).blocks_in_use i) [
    | yes last ↦ Was.new refl last (
        ap (λ (n : Node). n.blocks i) grown_self
        ∙ subst (λ j. update (d.nodes k).blocks (d.nodes k).blocks_in_use b j ≡ b) last
            (update_self (d.nodes k).blocks (d.nodes k).blocks_in_use b))
    | no ne ↦
        Was.old
          (record {
            live = sym (ap (λ (n : Node). is_invalid n.type) grown_self) ∙ owns.live;
            used = omega (arith, owns.used, ap (λ (n : Node). n.blocks_in_use) grown_self, ne);
          })
          (ap (λ (n : Node). n.blocks i) grown_self
            ∙ update_ne (d.nodes k).blocks (d.nodes k).blocks_in_use i b ne)
  ]

  Owns-grown : (m i : ℕ) → Owns grown m i → Was m i
  Owns-grown m i owns = elim (ℕ_discrete k m) [
    | no ne ↦
        Was.old (Owns-same grown d m i (sym (grown-others m ne)) owns)
          (ap (λ (n : Node). n.blocks i) (grown-others m ne))
    | yes same ↦ subst (λ m. Owns grown m i → Was m i) same (Owns-grown_self i) owns
  ]

  -- Facts about one node, from those about the others and the one that grew.
  grown-each :
      (P : ℕ → Node → Type 0)
      → P k longer
      → ((m : ℕ) → P m (d.nodes m))
      → (m : ℕ) → P m (grown.nodes m)
  grown-each P here there m = elim (ℕ_discrete k m) [
    | yes same ↦ subst (λ m. P m (grown.nodes m)) same (subst (P k) (sym grown_self) here)
    | no ne ↦ subst (P m) (sym (grown-others m ne)) (there m)
  ]

  module _ (v : IsValid d) (live : IsLive d k) (few : (d.nodes k).blocks_in_use < 10)
      (on_disk : b < d.block_cnt) (free : test d.data_bitset b ≡ false) where
    -- A block that is free belongs to nobody.
    unowned : (m i : ℕ) → Owns d m i → (d.nodes m).blocks i ≢ b
    unowned m i owns e = cc (v.marked m i owns, e, free)

    grown-apart :
        (m i m' i' : ℕ)
        → Was m i
        → Was m' i'
        → (grown.nodes m).blocks i ≡ (grown.nodes m').blocks i'
        → (m ≡ m') × (i ≡ i')
    grown-apart m i m' i' (Was.old o e) (Was.old o' e') same =
        v.apart m i m' i' o o' (sym e ∙ same ∙ e')
    grown-apart m i m' i' (Was.old o e) (Was.new k' i'' e') same =
        absurd (unowned m i o (sym e ∙ same ∙ e'))
    grown-apart m i m' i' (Was.new k' i'' e) (Was.old o' e') same =
        absurd (unowned m' i' o' (sym e' ∙ sym same ∙ e))
    grown-apart m i m' i' (Was.new k1 i1 e) (Was.new k2 i2 e') same = (sym k1 ∙ k2, sym i1 ∙ i2)

    grown-on_disk : (m i : ℕ) → Was m i → (grown.nodes m).blocks i < d.block_cnt
    grown-on_disk m i (Was.old o e) = omega (arith, e, v.on_disk m i o)
    grown-on_disk m i (Was.new k' i' e) = omega (arith, e)

    grown-marked : (m i : ℕ) → Was m i → test grown.data_bitset ((grown.nodes m).blocks i) ≡ true
    grown-marked m i (Was.old o e) = rw e (grown-test ((d.nodes m).blocks i) (v.marked m i o))
    grown-marked m i (Was.new k' i' e) = rw e (ground (arith, test-assign d.data_bitset b 1 b))

    grown-IsValid : IsValid grown
    unfolding set_node
    grown-IsValid = record {
      few =
          grown-each (λ m n. is_invalid n.type ≡ false → n.blocks_in_use ≤ 10) (λ h. omega arith)
            v.few;
      covered =
          grown-each (λ m n. is_invalid n.type ≡ false → n.size ≤ n.blocks_in_use * 512)
            (λ h. omega (arith, v.covered k live)) v.covered;
      on_disk = λ m i o. grown-on_disk m i (Owns-grown m i o);
      marked = λ m i o. grown-marked m i (Owns-grown m i o);
      apart = λ m i m' i' o o' e. grown-apart m i m' i' (Owns-grown m i o) (Owns-grown m' i' o') e;
    }

    grown-IsWritten :
        (pos : ℕ) (src : ℕ → ℕ) (from : ℕ)
        → pos ≤ ((d.nodes k).blocks_in_use + 1) * 512
        → IsWritten d k pos 0 src from grown
    unfolding set_node
    grown-IsWritten pos src from within = record {
      valid = grown-IsValid;
      same_block_cnt = refl;
      same_i_node_cnt = refl;
      others = grown-others;
      same_inode = ap (λ (n : Node). n.inode) grown_self;
      same_type = ap (λ (n : Node). n.type) grown_self;
      same_size = ap (λ (n : Node). n.size) grown_self;
      grown = omega (arith, ap (λ (n : Node). n.blocks_in_use) grown_self);
      no_growth =
          λ same. absurd (omega (arith, same, ap (λ (n : Node). n.blocks_in_use) grown_self));
      fits = omega (arith, ap (λ (n : Node). n.blocks_in_use) grown_self);
      written = λ p lo hi. absurd (omega arith);
      kept = λ p inner outside.
          ap (λ c. d.data_blocks c (p % 512))
            (ap (λ (n : Node). n.blocks (p / 512)) grown_self
              ∙ update_ne (d.nodes k).blocks (d.nodes k).blocks_in_use (p / 512) b (omega arith));
      other_bytes = λ m i q ne o. refl;
    }

pub IsWritten_none :
    (d : RamDisk) (k pos : ℕ) (src : ℕ → ℕ) (from : ℕ)
    → IsValid d
    → pos ≤ (d.nodes k).blocks_in_use * 512
    → IsWritten d k pos 0 src from d
IsWritten_none d k pos src from v within = record {
  valid = v;
  same_block_cnt = refl;
  same_i_node_cnt = refl;
  others = λ m ne. refl;
  same_inode = refl;
  same_type = refl;
  same_size = refl;
  grown = omega arith;
  no_growth = λ same. refl;
  fits = omega arith;
  written = λ p lo hi. absurd (omega arith);
  kept = λ p inner outside. refl;
  other_bytes = λ m i q ne o. refl;
}

-- Every block of the disk is marked.
abbrev pub IsFull : RamDisk → Type 0
IsFull d = (b : ℕ) → b < d.block_cnt → test d.data_bitset b ≡ true

-- What `write` finds at a block of a node: the node has it, or takes a free one, or the disk is full.
pub grow-cases :
    (d : RamDisk) (k i pos : ℕ) (src : ℕ → ℕ) (from : ℕ)
    → IsValid d
    → IsLive d k
    → i < 10
    → i ≤ (d.nodes k).blocks_in_use
    → i * 512 ≤ pos
    → pos ≤ (d.nodes k).blocks_in_use * 512
    → pos < (i + 1) * 512
    → ((grow d k i ≡ none) × (i ≡ (d.nodes k).blocks_in_use) × IsFull d)
      ⊎ ((e : RamDisk) × (grow d k i ≡ some e)
          × IsWritten d k pos 0 src from e
          × (i < (e.nodes k).blocks_in_use))
unfolding grow get_free_data_block
grow-cases d k i pos src from v live few at lo within hi =
    elim (Bool-cases (i == (d.nodes k).blocks_in_use)) [
      | inr inner ↦
          inr (d, rw inner refl, IsWritten_none d k pos src from v within, ground (arith, inner))
      | inl last ↦
          let here = (==_iff i (d.nodes k).blocks_in_use).0 last in
          let searched = free_block-IsFree d.data_bitset d.block_cnt 0 in
          elim (Option-cases (free_block d.data_bitset d.block_cnt 0)) [
            | inl missed ↦
                let full = rw missed at searched in
                inl (
                  rw (grow, last, get_free_data_block, missed) refl,
                  here,
                  λ b h. full b (omega arith) (omega arith),
                )
            | inr (b, found) ↦
                let (_, on_disk, free) = rw found at searched in
                inr (
                  grown d k b,
                  rw (grow, last, get_free_data_block, found) refl,
                  grown-IsWritten d k b v live (omega (arith, here)) (omega (arith, on_disk)) free
                      pos src from (omega (arith, here)),
                  omega (arith, here, ap (λ (n : Node). n.blocks_in_use) (grown_self d k b)),
                )
          ]
    ]
