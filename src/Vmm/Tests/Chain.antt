-- ===== src/Vmm/Tests/Chain.antt =====
-- A concrete state with a table of each level.
use native.Mathlib.Decide.{ℕ_discrete}
use dim_os.Common.{
  ℕ, zero, suc, ◌+◌, ◌*◌, ◌<◌, ◌≡◌, inl, inr, refl, sym, ap, ◌∙◌, true, false, arith, none, some,
  ◌==◌, if◌then◌else◌, none_ne_some, Option-cases, Bool-cases, ==_iff,
}
use dim_os.Pmm.{Pmm, bitmap_is_set}
use dim_os.Pmm.Valid
use dim_os.Paging.{IndexOffset}
use dim_os.Paging.Entry.{Table, is_present, test_flag, get_level}
use dim_os.Vmm.{Vmm, index_at}
use dim_os.Vmm.Tables.{behind, table_at, table_at-behind, table_at-none, IsValid}
use dim_os.Vmm.Tests.State.{hhdm}

-- A state with one table of each level, at the frames 2, 4, 6 and 8, each behind entry 0. The pages 0
-- and 7 have the frames 12 and 13.
abbrev place : ℕ → ℕ
place l = hhdm + 8192 + l * 8192

abbrev linked_table : ℕ → ℕ → Table
linked_table word next = record {
  entries = λ j. record { word = if j == 0 then word else 0 };
  next_tables = λ j. if j == 0 then some next else none;
}

abbrev leaf_table : Table
leaf_table = record {
  entries =
      λ j. record { word = if j == 0 then 49152 + 1536 + 3 else (if j == 7 then 53248 + 3 else 0) };
  next_tables = λ j. none;
}

abbrev chain_tables : ℕ → Table
chain_tables p =
    if p == place 0
    then linked_table (16384 + 3) (place 1)
    else (if p == place 1
        then linked_table (24576 + 512 + 3) (place 2)
        else (if p == place 2 then linked_table (32768 + 1024 + 3) (place 3) else leaf_table))

abbrev pub twelve_used : Pmm
twelve_used = record {
  memory_size = 524288;
  usedframes = 12;
  frame_cnt = 128;
  bitmap_addr = 4096;
  bitmap = λ i. if i == 0 then 13311 else 0;
}

twelve_used-IsValid : Valid.IsValid twelve_used
unfolding bitmap_is_set
twelve_used-IsValid = omega arith

abbrev pub chain : Vmm
chain = record {
  pml4 = place 0;
  tables = chain_tables;
  available_lh = 512;
  available_hh = 0;
  usage = record { start = 8192; size = 32768 };
  frames = twelve_used;
}

-- The tables of the state are on the way of the pages whose upper indices are 0.
chain_behind :
    (word next j q : ℕ)
    → is_present (record { word = word }) ≡ true
    → behind (linked_table word next) j ≡ some q
    → (j ≡ 0) × (q ≡ next)
unfolding is_present test_flag
chain_behind word next j q odd known = elim (Bool-cases (j == 0)) [
  | inl here ↦
      let same : behind (linked_table word next) j ≡ some next = rw (here, odd) refl in
      ((==_iff j 0).0 here, (let e = sym known ∙ same in cc e))
  | inr other ↦
      let same : behind (linked_table word next) j ≡ none = rw other refl in
      absurd (none_ne_some (sym same ∙ known))
]

chain_step :
    (l p q word next : ℕ) (o : IndexOffset)
    → table_at chain l o ≡ some p
    → chain.tables p ≡ linked_table word next
    → is_present (record { word = word }) ≡ true
    → table_at chain (suc l) o ≡ some q
    → (index_at o l ≡ 0) × (q ≡ next)
chain_step l p q word next o at is odd known =
    chain_behind word next (index_at o l) q odd
      (ap (λ t. behind t (index_at o l)) (sym is) ∙ sym (table_at-behind chain l p o at) ∙ known)

-- The table of a page at a level, and what its indices above are.
unfoldable pub Placed : ℕ → ℕ → IndexOffset → Type 0
Placed l p o = (p ≡ place l) × ((m : ℕ) → m < l → index_at o m ≡ 0)

pub chain_at : (l p : ℕ) (o : IndexOffset) → l < 4 → table_at chain l o ≡ some p → Placed l p o
unfolding table_at Placed is_present test_flag
chain_at zero p o h at =
    ((let e : some (place 0) ≡ some p = at in cc e), λ m less. absurd (omega (arith, less)))
chain_at (suc l) p o h at = elim (Option-cases (table_at chain l o)) [
  | inl gone ↦ absurd (none_ne_some (sym (table_at-none chain l o gone) ∙ at))
  | inr (x, known) ↦
      let (at_x, zeros) = chain_at l x o (omega (arith, h)) known in
      let (here, next) : (index_at o l ≡ 0) × (p ≡ place (suc l)) = elim (ℕ_discrete l 0) [
        | yes e ↦
            (let is : chain.tables x ≡ linked_table (16384 + 3) (place 1) =
                ap chain_tables at_x ∙ ap (λ z. chain_tables (place z)) e in
              let (here, next) = chain_step l x p (16384 + 3) (place 1) o known is refl at in
              (here, next ∙ ap (λ z. place (suc z)) (sym e)))
        | no n0 ↦ elim (ℕ_discrete l 1) [
          | yes e ↦
              (let is : chain.tables x ≡ linked_table (24576 + 512 + 3) (place 2) =
                  ap chain_tables at_x ∙ ap (λ z. chain_tables (place z)) e in
                let (here, next) =
                  chain_step l x p (24576 + 512 + 3) (place 2) o known is refl at in
                (here, next ∙ ap (λ z. place (suc z)) (sym e)))
          | no n1 ↦
              (let e : l ≡ 2 = omega (arith, h, n0, n1) in
                let is : chain.tables x ≡ linked_table (32768 + 1024 + 3) (place 3) =
                  ap chain_tables at_x ∙ ap (λ z. chain_tables (place z)) e in
                let (here, next) =
                  chain_step l x p (32768 + 1024 + 3) (place 3) o known is refl at in
                (here, next ∙ ap (λ z. place (suc z)) (sym e)))
        ]
      ] in
      (
        next,
        λ m less. elim (ℕ_discrete m l) [
          | yes e ↦ ap (index_at o) e ∙ here
          | no ne ↦ zeros m (omega (arith, less, ne))
        ],
      )
]

chain_level : (l : ℕ) → l < 4 → get_level (chain_tables (place l)) ≡ l
unfolding get_level is_present test_flag
chain_level zero h = refl
chain_level (suc zero) h = refl
chain_level (suc (suc zero)) h = refl
chain_level (suc (suc (suc zero))) h = refl
chain_level (suc (suc (suc (suc l)))) h = absurd (omega (arith, h))

chain_used : (l : ℕ) → l < 4 → bitmap_is_set twelve_used.bitmap (2 + 2 * l) ≡ true
unfolding bitmap_is_set
chain_used zero h = refl
chain_used (suc zero) h = refl
chain_used (suc (suc zero)) h = refl
chain_used (suc (suc (suc zero))) h = refl
chain_used (suc (suc (suc (suc l)))) h = absurd (omega (arith, h))

linked_here :
    (word next j : ℕ)
    → is_present ((linked_table word next).entries j) ≡ true
    → (q : ℕ) × ((linked_table word next).next_tables j ≡ some q)
unfolding is_present test_flag
linked_here word next j here = elim (Bool-cases (j == 0)) [
  | inl first ↦ (next, rw first refl)
  | inr other ↦
      let gone : is_present ((linked_table word next).entries j) ≡ false = rw other refl in
      absurd (cc (gone, here))
]

-- The present entries of the three upper tables have a table.
chain_linked :
    (l j : ℕ)
    → l < 3
    → is_present ((chain_tables (place l)).entries j) ≡ true
    → (q : ℕ) × ((chain_tables (place l)).next_tables j ≡ some q)
unfolding is_present test_flag
chain_linked zero j h here = linked_here (16384 + 3) (place 1) j here
chain_linked (suc zero) j h here = linked_here (24576 + 512 + 3) (place 2) j here
chain_linked (suc (suc zero)) j h here = linked_here (32768 + 1024 + 3) (place 3) j here
chain_linked (suc (suc (suc l))) j h here = absurd (omega (arith, h))

pub chain-IsValid : IsValid hhdm chain
unfolding is_present test_flag get_level bitmap_is_set Placed
chain-IsValid = record {
  leveled = λ l p o h f at.
      ap (λ x. get_level (chain_tables x)) (chain_at l p o h at).0 ∙ chain_level l h;
  linked = λ l p o h f at here.
      let (at_p, zeros) = chain_at l p o (omega (arith, h)) at in
      let (q, next) =
        chain_linked l (index_at o l) h
          (ap (λ x. is_present ((chain_tables x).entries (index_at o l))) (sym at_p) ∙ here) in
      (q, ap (λ x. (chain_tables x).next_tables (index_at o l)) at_p ∙ next);
  apart = λ l m p o o' hl hm f f' at at'.
      let (e, zeros) = chain_at l p o hl at in
      let (e', zeros') = chain_at m p o' hm at' in
      let same : l ≡ m = omega (arith, e, e', hl, hm) in
      (same, λ k less. zeros k less ∙ sym (zeros' k (omega (arith, less, same))));
  owned = λ l p o h f at.
      (2 + 2 * l, omega (arith, (chain_at l p o h at).0, h), omega (arith, h), chain_used l h);
  frames_valid = twelve_used-IsValid;
  offset = omega arith;
}
