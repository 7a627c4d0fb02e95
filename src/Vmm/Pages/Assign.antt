-- ===== src/Vmm/Pages/Assign.antt =====
-- An entry of the last level is written.
use mathlib.Core.Path.{subst}
use native.Mathlib.Decide.{ℕ_discrete}
use dim_os.Common.{
  ℕ, zero, suc, ◌<◌, ◌≡◌, ◌≢◌, refl, sym, ap, ◌∙◌, if◌then◌else◌, update, update_self, update_ne,
  arith, inl, inr, Bool-cases, none, some, Option-cases, none_ne_some,
}
use dim_os.Pmm.Valid
use dim_os.Paging.{IndexOffset}
use dim_os.Paging.Index.{page_number}
use dim_os.Paging.Entry.{Entry, Table, is_present, get_level}
use dim_os.Vmm.{Vmm, index_at, get_pte}
use dim_os.Vmm.Offsets.{Fits, Agree}
use dim_os.Vmm.Tables.{
  behind, table_at, frame_of, translate, table_at-behind, table_at-none, translate-behind,
  translate-none, Owned, IsValid,
}

behind-next_tables : (t : Table) (i q : ℕ) → behind t i ≡ some q → t.next_tables i ≡ some q
behind-next_tables t i q known = elim (Bool-cases (is_present (t.entries i))) [
  | inl here ↦ ap (λ b. if b then t.next_tables i else none) (sym here) ∙ known
  | inr absent ↦
      absurd (none_ne_some (ap (λ b. if b then t.next_tables i else none) (sym absent) ∙ known))
]

-- The table behind a table that is known.
up_one :
    (s : Vmm) (l q : ℕ) (o : IndexOffset)
    → table_at s (suc l) o ≡ some q
    → (p : ℕ) × (table_at s l o ≡ some p) × ((s.tables p).next_tables (index_at o l) ≡ some q)
up_one s l q o known = elim (Option-cases (table_at s l o)) [
  | inl gone ↦ absurd (none_ne_some (sym (table_at-none s l o gone) ∙ known))
  | inr (p, at) ↦ (
    p,
    at,
    behind-next_tables (s.tables p) (index_at o l) q (sym (table_at-behind s l p o at) ∙ known),
  )
]

-- `getPTE` of a page that has a table is the entry that holds its frame.
pub get_pte-table_at :
    (s : Vmm) (p : ℕ) (o : IndexOffset)
    → table_at s 3 o ≡ some p
    → get_pte s o ≡ some (p, index_at o 3)
unfolding get_pte table_at index_at
get_pte-table_at s p o at =
    let (p2, at_2, next_2) = up_one s 2 p o at in
    let (p1, at_1, next_1) = up_one s 1 p2 o at_2 in
    let (p0, at_0, next_0) = up_one s 0 p1 o at_1 in
    let root : p0 ≡ s.pml4 = let e : some s.pml4 ≡ some p0 = at_0 in cc e in
    let first : (s.tables s.pml4).next_tables o.i0 ≡ some p1 =
      ap (λ z. (s.tables z).next_tables o.i0) (sym root) ∙ next_0 in
    rw (get_pte, first, next_1, next_2) refl

same_number :
    (x o : IndexOffset) → Agree 3 x o → index_at x 3 ≡ index_at o 3 → page_number x ≡ page_number o
unfolding index_at
same_number x o agree last =
    omega (arith, agree 0 (omega arith), agree 1 (omega arith), agree 2 (omega arith), last)

-- What a state is in which the entry `e` was written for the page `o`.
pub record IsWritten (hhdm : ℕ) (s : Vmm) (o : IndexOffset) (e : Entry) (s' : Vmm) : Type 0 where
  pub valid : IsValid hhdm s'
  pub same_tables : (l : ℕ) (x : IndexOffset) → l < 4 → Fits x → table_at s' l x ≡ table_at s l x
  pub here : translate s' o ≡ frame_of e
  pub elsewhere :
      (x : IndexOffset) → Fits x → page_number x ≢ page_number o → translate s' x ≡ translate s x

module _ (hhdm : ℕ) (s s' : Vmm) (o : IndexOffset) (p : ℕ) (e : Entry) (v : IsValid hhdm s)
    (fits : Fits o) (at : table_at s 3 o ≡ some p) (root : s'.pml4 ≡ s.pml4)
    (tables : s'.tables
      ≡ update s.tables p
          (record (s.tables p) { entries = update (s.tables p).entries (index_at o 3) e })) where
  other_table : (q : ℕ) → p ≢ q → s'.tables q ≡ s.tables q
  other_table q ne = ap (λ t. t q) tables ∙ update_ne s.tables p q _ ne

  pub this_table :
      s'.tables p ≡ record (s.tables p) { entries = update (s.tables p).entries (index_at o 3) e }
  this_table = ap (λ t. t p) tables ∙ update_self s.tables p _

  -- No table of an upper level is `p`.
  upper_apart : (l q : ℕ) (x : IndexOffset) → l < 3 → Fits x → table_at s l x ≡ some q → p ≢ q
  upper_apart l q x h fx known same = omega (
    arith,
    (v.apart l 3 q x o (omega (arith, h)) (omega arith) fx fits known (at ∙ ap some same)).0,
    h,
  )

  pub same_tables : (l : ℕ) (x : IndexOffset) → l < 4 → Fits x → table_at s' l x ≡ table_at s l x
  unfolding table_at
  same_tables zero x h fx = ap some root
  same_tables (suc l) x h fx =
      let up : table_at s' l x ≡ table_at s l x = same_tables l x (omega (arith, h)) fx in
      elim (Option-cases (table_at s l x)) [
        | inl gone ↦ table_at-none s' l x (up ∙ gone) ∙ sym (table_at-none s l x gone)
        | inr (q, known) ↦
            table_at-behind s' l q x (up ∙ known)
            ∙ ap (λ t. behind t (index_at x l))
                (other_table q (upper_apart l q x (omega (arith, h)) fx known))
            ∙ sym (table_at-behind s l q x known)
      ]

  was :
      (l q : ℕ) (x : IndexOffset)
      → l < 4
      → Fits x
      → table_at s' l x ≡ some q
      → table_at s l x ≡ some q
  was l q x h fx known = sym (same_tables l x h fx) ∙ known

  written_elsewhere :
      (x : IndexOffset) → Fits x → page_number x ≢ page_number o → translate s' x ≡ translate s x
  written_elsewhere x fx other = elim (Option-cases (table_at s 3 x)) [
    | inl gone ↦
        translate-none s' x (same_tables 3 x (omega arith) fx ∙ gone)
        ∙ sym (translate-none s x gone)
    | inr (q, known) ↦
        let entry : (s'.tables q).entries (index_at x 3) ≡ (s.tables q).entries (index_at x 3) =
          elim (ℕ_discrete p q) [
            | no ne ↦ ap (λ (t : Table). t.entries (index_at x 3)) (other_table q ne)
            | yes same ↦
                ap (λ z. (s'.tables z).entries (index_at x 3)) (sym same)
                ∙ ap (λ (t : Table). t.entries (index_at x 3)) this_table
                ∙ update_ne (s.tables p).entries (index_at o 3) (index_at x 3) e (λ last. other (
                    same_number x o
                      (v.apart 3 3 q x o (omega arith) (omega arith) fx fits known
                        (at ∙ ap some same)).1
                      (sym last)))
                ∙ ap (λ z. (s.tables z).entries (index_at x 3)) same
          ] in
        translate-behind s' q x (same_tables 3 x (omega arith) fx ∙ known)
        ∙ ap frame_of entry
        ∙ sym (translate-behind s q x known)
  ]

  module _
      (level : get_level
          (record (s.tables p) { entries = update (s.tables p).entries (index_at o 3) e })
        ≡ get_level (s.tables p))
      (frames_valid : Valid.IsValid s'.frames)
      (kept : (l q : ℕ) (x : IndexOffset)
        → l < 4
        → Fits x
        → table_at s l x ≡ some q
        → Owned hhdm s q
        → Owned hhdm s' q) where
    leveled_still : (q : ℕ) → get_level (s'.tables q) ≡ get_level (s.tables q)
    leveled_still q = elim (ℕ_discrete p q) [
      | no ne ↦ ap get_level (other_table q ne)
      | yes same ↦
          subst (λ z. get_level (s'.tables z) ≡ get_level (s.tables z)) same
            (ap get_level this_table ∙ level)
    ]

    written-IsValid : IsValid hhdm s'
    written-IsValid = record {
      leveled = λ l q x h fx known. leveled_still q ∙ v.leveled l q x h fx (was l q x h fx known);
      linked = λ l q x h fx known here.
          let old = was l q x (omega (arith, h)) fx known in
          let same = other_table q (upper_apart l q x h fx old) in
          let (n, next) =
            v.linked l q x h fx old
              (ap (λ (t : Table). is_present (t.entries (index_at x l))) (sym same) ∙ here) in
          (n, ap (λ (t : Table). t.next_tables (index_at x l)) same ∙ next);
      apart = λ l m q x x' hl hm fx fx' known known'.
          v.apart l m q x x' hl hm fx fx' (was l q x hl fx known) (was m q x' hm fx' known');
      owned = λ l q x h fx known.
          let old = was l q x h fx known in kept l q x h fx old (v.owned l q x h fx old);
      frames_valid = frames_valid;
      offset = v.offset;
    }

    pub written-IsWritten : IsWritten hhdm s o e s'
    written-IsWritten = record {
      valid = written-IsValid;
      same_tables = same_tables;
      here =
          translate-behind s' p o (same_tables 3 o (omega arith) fits ∙ at)
          ∙ ap (λ (t : Table). frame_of (t.entries (index_at o 3))) this_table
          ∙ ap frame_of (update_self (s.tables p).entries (index_at o 3) e);
      elsewhere = written_elsewhere;
    }
