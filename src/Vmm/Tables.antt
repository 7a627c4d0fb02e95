-- ===== src/Vmm/Tables.antt =====
-- The tables that a page leads through, the map from pages to frames that they hold, and the invariant.
use mathlib.Core.Path.{subst}
use native.Mathlib.Decide.{ℕ_discrete}
use dim_os.Common.{
  ℕ, zero, suc, ◌*◌, ◌^◌, ◌≤◌, ◌<◌, ◌≡◌, inl, inr, refl, sym, ap, ◌∙◌, true, if◌then◌else◌, arith,
  Option, none, some, add_64, Option-cases,
}
use dim_os.Pmm.{bitmap_is_set}
use dim_os.Pmm.Valid
use dim_os.Paging.{IndexOffset}
use dim_os.Paging.Entry.{Entry, Table, is_present, get_level, get_physical_addr}
use dim_os.Vmm.{Vmm, index_at}
use dim_os.Vmm.Offsets.{Fits, Agree}

-- The table behind an entry that is present.
abbrev pub behind : Table → ℕ → Option ℕ
behind t i = if is_present (t.entries i) then t.next_tables i else none

-- The table of a page at a level.
unfoldable pub table_at : Vmm → ℕ → IndexOffset → Option ℕ
table_at s zero o = some s.pml4
table_at s (suc l) o = elim (table_at s l o) [
  | none ↦ none
  | some p ↦ behind (s.tables p) (index_at o l)
]

-- The frame of a page: the map that the tables stand for.
abbrev pub frame_of : Entry → Option ℕ
frame_of e = if is_present e then some (get_physical_addr e) else none

unfoldable pub translate : Vmm → IndexOffset → Option ℕ
translate s o = elim (table_at s 3 o) [
  | none ↦ none
  | some p ↦ frame_of ((s.tables p).entries (index_at o 3))
]

-- The two frames of a table are in use; it stands where the higher half shows the first of them.
abbrev pub Owned : ℕ → Vmm → ℕ → Type 0
Owned hhdm s p =
    (f : ℕ) × (p ≡ add_64 (f * 4096) hhdm) × (f < 2 ^ 51) × (bitmap_is_set s.frames.bitmap f ≡ true)

-- Each table knows its level and is behind one entry alone, no present entry above the last level is
-- without a table, and the frames of the tables are in use.
pub record IsValid (hhdm : ℕ) (s : Vmm) : Type 0 where
  pub leveled :
      (l p : ℕ) (o : IndexOffset)
      → l < 4
      → Fits o
      → table_at s l o ≡ some p
      → get_level (s.tables p) ≡ l
  pub linked :
      (l p : ℕ) (o : IndexOffset)
      → l < 3
      → Fits o
      → table_at s l o ≡ some p
      → is_present ((s.tables p).entries (index_at o l)) ≡ true
      → (q : ℕ) × ((s.tables p).next_tables (index_at o l) ≡ some q)
  pub apart :
      (l m p : ℕ) (o o' : IndexOffset)
      → l < 4
      → m < 4
      → Fits o
      → Fits o'
      → table_at s l o ≡ some p
      → table_at s m o' ≡ some p
      → (l ≡ m) × Agree l o o'
  pub owned :
      (l p : ℕ) (o : IndexOffset) → l < 4 → Fits o → table_at s l o ≡ some p → Owned hhdm s p
  pub frames_valid : Valid.IsValid s.frames
  pub offset : hhdm < 2 ^ 64

pub table_at-behind :
    (s : Vmm) (l p : ℕ) (o : IndexOffset)
    → table_at s l o ≡ some p
    → table_at s (suc l) o ≡ behind (s.tables p) (index_at o l)
unfolding table_at
table_at-behind s l p o at = rw (table_at, at) refl

pub table_at-none :
    (s : Vmm) (l : ℕ) (o : IndexOffset) → table_at s l o ≡ none → table_at s (suc l) o ≡ none
unfolding table_at
table_at-none s l o at = rw (table_at, at) refl

-- The table of a level depends on the indices above it alone.
pub table_at-Agree :
    (s : Vmm) (l : ℕ) (o o' : IndexOffset) → Agree l o o' → table_at s l o ≡ table_at s l o'
unfolding table_at
table_at-Agree s zero o o' same = refl
table_at-Agree s (suc l) o o' same =
    let up : table_at s l o ≡ table_at s l o' =
      table_at-Agree s l o o' (λ m h. same m (omega (arith, h))) in
    elim (Option-cases (table_at s l o')) [
      | inl gone ↦ table_at-none s l o (up ∙ gone) ∙ sym (table_at-none s l o' gone)
      | inr (p, known) ↦
          table_at-behind s l p o (up ∙ known)
          ∙ ap (behind (s.tables p)) (same l (omega arith))
          ∙ sym (table_at-behind s l p o' known)
    ]

pub translate-behind :
    (s : Vmm) (p : ℕ) (o : IndexOffset)
    → table_at s 3 o ≡ some p
    → translate s o ≡ frame_of ((s.tables p).entries (index_at o 3))
unfolding translate
translate-behind s p o at = rw (translate, at) refl

pub translate-none : (s : Vmm) (o : IndexOffset) → table_at s 3 o ≡ none → translate s o ≡ none
unfolding translate
translate-none s o at = rw (translate, at) refl

-- What holds in a later state of the search: the map from pages to frames is the same, and the tables are
-- where they were.
pub record Extends (hhdm : ℕ) (s s' : Vmm) : Type 0 where
  pub valid : IsValid hhdm s'
  pub keeps :
      (l p : ℕ) (o : IndexOffset)
      → l < 4
      → Fits o
      → table_at s l o ≡ some p
      → table_at s' l o ≡ some p
  pub same_map : (o : IndexOffset) → Fits o → translate s' o ≡ translate s o

pub Extends-refl : (hhdm : ℕ) (s : Vmm) → IsValid hhdm s → Extends hhdm s s
Extends-refl hhdm s v = record { valid = v; keeps = λ l p o h f at. at; same_map = λ o f. refl }

pub Extends-trans :
    (hhdm : ℕ) (s s' s'' : Vmm) → Extends hhdm s s' → Extends hhdm s' s'' → Extends hhdm s s''
Extends-trans hhdm s s' s'' a b = record {
  valid = b.valid;
  keeps = λ l p o h f at. b.keeps l p o h f (a.keeps l p o h f at);
  same_map = λ o f. b.same_map o f ∙ a.same_map o f;
}

-- Behind no table there is none.
pub none_further :
    (s : Vmm) (m n : ℕ) (o : IndexOffset) → m ≤ n → table_at s m o ≡ none → table_at s n o ≡ none
none_further s m zero o h gone = subst (λ z. table_at s z o ≡ none) (omega (arith, h)) gone
none_further s m (suc n) o h gone = elim (ℕ_discrete m (suc n)) [
  | yes e ↦ subst (λ z. table_at s z o ≡ none) e gone
  | no ne ↦ table_at-none s n o (none_further s m n o (omega (arith, h, ne)) gone)
]
