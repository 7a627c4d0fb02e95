-- ===== src/Vmm/Pages/Runs.antt =====
-- `getFirstNUnallocPage`: runs of pages that can be taken.
use mathlib.Core.Path.{subst}
use native.Mathlib.Decide.{dec_lt}
use dim_os.Common.{
  ℕ, ◌+◌, ◌*◌, ◌%◌, ◌/◌, ◌^◌, ◌≤◌, ◌<◌, ◌≡◌, ◌≢◌, inl, inr, refl, sym, ap, ◌∙◌, ◌==◌, arith,
  Bool-cases, ==_iff, Option, none, some,
}
use dim_os.Paging.{IndexOffset, get_virtual_addr, get_index_offset}
use dim_os.Paging.Index
use dim_os.Paging.Index.{
  page_number, canonical, get_virtual_addr_lem, get_index_offset-get_virtual_addr, next_page_lem,
}
use dim_os.Vmm.{Vmm, index_at, AllocScheme, first_page}
use dim_os.Vmm.Offsets.{Fits}
use dim_os.Vmm.Tables.{table_at, IsValid}
use dim_os.Vmm.Search.{Wanted}
use dim_os.Vmm.Result.{first_page-IsFirst}

at_most : (a b : ℕ) → ¬ (b < a) → a ≤ b
at_most a b h = elim (dec_lt b a) [ yes less ↦ absurd (h less) | no other ↦ omega (arith, other) ]

-- Page number `x` can be taken, with the tables that there are.
abbrev pub IsFree : Vmm → ℕ → Type 0
IsFree s x = (o : IndexOffset) → Fits o → page_number o ≡ x → Wanted AllocScheme.no_alloc s o

-- So can the `n` pages from `x` on.
abbrev pub FreePages : Vmm → ℕ → ℕ → Type 0
FreePages s x n = (y : ℕ) → x ≤ y → y < x + n → IsFree s y

pub Fits→IsValid : (o : IndexOffset) → Fits o → Index.IsValid o
unfolding index_at
Fits→IsValid o f = record { h0 = f 0; h1 = f 1; h2 = f 2; h3 = f 3 }

-- A page has one number, and a number below 2 ^ 36 is that of a page.
pub page_number-eq :
    (o o' : IndexOffset) → Fits o → Fits o' → page_number o ≡ page_number o' → o ≡ o'
page_number-eq o o' f f' e =
    let v = Fits→IsValid o f in
    let v' = Fits→IsValid o' f' in
    sym (get_index_offset-get_virtual_addr o v)
    ∙ ap get_index_offset (
        get_virtual_addr_lem o v
        ∙ ap (λ z. canonical (z * 4096)) e
        ∙ sym (get_virtual_addr_lem o' v'))
    ∙ get_index_offset-get_virtual_addr o' v'

numbered : (x : ℕ) → x < 2 ^ 36 → (o : IndexOffset) × Fits o × (page_number o ≡ x)
unfolding index_at
numbered x h = (
  record { i0 = x / 2 ^ 27; i1 = x / 2 ^ 18 % 512; i2 = x / 2 ^ 9 % 512; i3 = x % 512 },
  (λ l. ground (arith, h)),
  omega (arith, h),
)

pub page_number-lt : (o : IndexOffset) → Fits o → page_number o < 2 ^ 36
unfolding index_at
page_number-lt o f = omega (arith, f 0, f 1, f 2, f 3)

-- The test for the page behind.
pub follows_test :
    (o o' : IndexOffset)
    → Fits o
    → Fits o'
    → (get_virtual_addr o == get_virtual_addr o') ≡ (page_number o == page_number o')
follows_test o o' f f' =
    let v = Fits→IsValid o f in
    let v' = Fits→IsValid o' f' in
    elim (Bool-cases (page_number o == page_number o')) [
      | inl same ↦
          let e : o ≡ o' =
            page_number-eq o o' f f' ((==_iff (page_number o) (page_number o')).0 same) in
          (==_iff (get_virtual_addr o) (get_virtual_addr o')).1 (ap get_virtual_addr e) ∙ sym same
      | inr other ↦ elim (Bool-cases (get_virtual_addr o == get_virtual_addr o')) [
        | inr differ ↦ differ ∙ sym other
        | inl same ↦
            let e : o ≡ o' =
              sym (get_index_offset-get_virtual_addr o v)
              ∙ ap get_index_offset ((==_iff (get_virtual_addr o) (get_virtual_addr o')).0 same)
              ∙ get_index_offset-get_virtual_addr o' v' in
            same ∙ sym ((==_iff (page_number o) (page_number o')).1 (ap page_number e))
      ]
    ]

-- The search with `NO_ALLOC` gives the first page that is free, if there is one.
pub first_page-IsFree :
    (hhdm : ℕ) (first_pages : Vmm → Option (IndexOffset × Vmm)) (begin : IndexOffset) (s : Vmm)
    (r : ℕ)
    → IsValid hhdm s
    → Fits begin
    → IsFree s r
    → page_number begin ≤ r
    → r < 2 ^ 36
    → (page : IndexOffset) × (first_page hhdm first_pages AllocScheme.no_alloc begin s
        ≡ some (page, s))
      × Fits page
      × (page_number begin ≤ page_number page)
      × (page_number page ≤ r)
      × IsFree s (page_number page)
      × ((y : ℕ) → page_number begin ≤ y → y < page_number page → ¬ (IsFree s y))
first_page-IsFree hhdm first_pages begin s r v fits free least small =
    let (o, fo, number) = numbered r small in
    let (page, s', gives, good) =
      first_page-IsFirst hhdm AllocScheme.no_alloc first_pages begin s v fits (omega arith) in
    elim good [
      | inr (zeros, same, nothing) ↦
          absurd (nothing o fo (omega (arith, number, least)) (free o fo number))
      | inl (extends, fp, after, no_frame, has_table, kept, before) ↦
          let same : s' ≡ s = kept refl in
          (
            page,
            gives ∙ ap (λ z. some (page, z)) same,
            fp,
            after,
            at_most _ _ (λ less.
                before o fo (omega (arith, number, least)) (omega (arith, number, less))
                  (free o fo number)),
            (λ o' f' e.
                subst (Wanted AllocScheme.no_alloc s) (page_number-eq page o' fp f' (sym e))
                  (no_frame, λ no_making. subst (λ z. table_at z 3 page ≢ none) same has_table)),
            λ y from to is_free.
                let (o', f', e) = numbered y (omega (arith, to, page_number-lt page fp)) in
                before o' f' (omega (arith, e, from)) (omega (arith, e, to)) (is_free o' f' e),
          )
    ]
