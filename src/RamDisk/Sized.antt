-- ===== src/RamDisk/Sized.antt =====
-- A node whose size is set: everything else stays.
use mathlib.Core.Path.{subst}
use native.Mathlib.Decide.{ℕ_discrete}
use dim_os.Common.{
  ℕ, ◌*◌, ◌/◌, ◌%◌, ◌≤◌, ◌≡◌, refl, sym, ap, ◌∙◌, ◌≢◌, update_self, update_ne, arith,
}
use dim_os.RamDisk.{RamDisk, Node, is_invalid, set_node}
use dim_os.RamDisk.Valid.{IsLive, Owns, IsValid, byte}

module _ (d : RamDisk) (k size : ℕ) where
  abbrev pub sized : RamDisk
  sized = set_node d k (record (d.nodes k) { size = size })

  pub sized-others : (m : ℕ) → k ≢ m → sized.nodes m ≡ d.nodes m
  unfolding set_node
  sized-others m ne = update_ne d.nodes k m _ ne

  pub sized_self : sized.nodes k ≡ record (d.nodes k) { size = size }
  unfolding set_node
  sized_self = update_self d.nodes k _

  -- A part of the node that does not read the size.
  sized-same :
      {A : Type 0} (f : Node → A)
      → ((n : Node) → f (record n { size = size }) ≡ f n)
      → (m : ℕ) → f (sized.nodes m) ≡ f (d.nodes m)
  sized-same f h m = elim (ℕ_discrete k m) [
    | yes e ↦ subst (λ z. f (sized.nodes z) ≡ f (d.nodes z)) e (ap f sized_self ∙ h (d.nodes k))
    | no ne ↦ ap f (sized-others m ne)
  ]

  pub sized-blocks : (m i : ℕ) → (sized.nodes m).blocks i ≡ (d.nodes m).blocks i
  sized-blocks m i = sized-same (λ n. n.blocks i) (λ n. refl) m

  pub sized-used : (m : ℕ) → (sized.nodes m).blocks_in_use ≡ (d.nodes m).blocks_in_use
  sized-used = sized-same (λ n. n.blocks_in_use) (λ n. refl)

  pub sized-type : (m : ℕ) → (sized.nodes m).type ≡ (d.nodes m).type
  sized-type = sized-same (λ n. n.type) (λ n. refl)

  pub Owns-sized : (m i : ℕ) → Owns sized m i → Owns d m i
  Owns-sized m i o = record {
    live = ap is_invalid (sym (sized-type m)) ∙ o.live;
    used = omega (arith, o.used, sized-used m);
  }

  pub byte-sized : (m p : ℕ) → byte sized m p ≡ byte d m p
  unfolding set_node
  byte-sized m p = ap (λ c. d.data_blocks c (p % 512)) (sized-blocks m (p / 512))

  -- The disk stays valid if the blocks of the node hold the size.
  pub sized-IsValid :
      IsValid d → (IsLive d k → size ≤ (d.nodes k).blocks_in_use * 512) → IsValid sized
  unfolding set_node
  sized-IsValid v fits = record {
    few =
        λ m live. omega (arith, sized-used m, v.few m (ap is_invalid (sym (sized-type m)) ∙ live));
    covered = λ m live. elim (ℕ_discrete k m) [
      | yes e ↦
          subst (λ z. IsLive sized z → (sized.nodes z).size ≤ (sized.nodes z).blocks_in_use * 512) e
            (λ live'. omega (
              arith,
              ap (λ (n : Node). n.size) sized_self,
              sized-used k,
              fits (ap is_invalid (sym (sized-type k)) ∙ live'),
            ))
            live
      | no ne ↦ omega (
        arith,
        ap (λ (n : Node). n.size) (sized-others m ne),
        sized-used m,
        v.covered m (ap is_invalid (sym (sized-type m)) ∙ live),
      )
    ];
    on_disk = λ m i o. omega (arith, sized-blocks m i, v.on_disk m i (Owns-sized m i o));
    marked = λ m i o. rw (sized-blocks m i) (v.marked m i (Owns-sized m i o));
    apart = λ m i n j o o' e.
        v.apart m i n j (Owns-sized m i o) (Owns-sized n j o')
          (sym (sized-blocks m i) ∙ e ∙ sized-blocks n j);
  }
