-- ===== src/Vmm.antt =====
-- kernel/kernel/memory/vmm.cpp and kernel/include/kernel/memory/vmm.h: the virtual memory manager, the
-- walk through the four levels of page tables.
pub mod Offsets
pub mod Tables
pub mod Link
pub mod LinkTable
pub mod Create
pub mod Search
pub mod Step
pub mod Rounds
pub mod Result
pub mod Pages
pub mod Setup
mod Tests
use dim_os.Common.{
  ℕ, zero, suc, ◌+◌, ◌-◌, ◌^◌, Bool, true, false, not, ◌==◌, ltb, leb, if◌then◌else◌, Option, none,
  some, update, add_64, sub_64, bit_or,
}
use dim_os.Pmm.{Pmm, MemRange, alloc_n_frames}
use dim_os.Paging.{IndexOffset, entry_cnt, get_virtual_addr, next_page}
use dim_os.Paging.Entry.{
  Entry, Table, set_flags, set_physical_adr, is_present, get_level, table_init,
}

-- `VMM::AllocScheme`
pub data AllocScheme : Type 0 where
  no_alloc use_pmm use_vmm : AllocScheme

-- `VMM`, with the manager of the frames and the memory of the tables, by the pointer to a table. The
-- counts are the patterns of an `int64_t`.
pub record Vmm : Type 0 where
  pub pml4 : ℕ
  pub tables : ℕ → Table
  pub available_lh : ℕ
  pub available_hh : ℕ
  pub usage : MemRange
  pub frames : Pmm

-- `i[level]` of an `IndexOffset`, read and written.
pub index_at : IndexOffset → ℕ → ℕ
index_at o level =
    if level == 0 then o.i0 else (if level == 1 then o.i1 else (if level == 2 then o.i2 else o.i3))

pub put_index : IndexOffset → ℕ → ℕ → IndexOffset
put_index o level v =
    if level == 0
    then record o { i0 = v }
    else (if level == 1
        then record o { i1 = v }
        else (if level == 2 then record o { i2 = v } else record o { i3 = v }))

-- The loop that sets the indices below a level to 0, by the rounds left.
pub zero_loop : ℕ → ℕ → IndexOffset → IndexOffset
zero_loop zero j o = o
zero_loop (suc rounds) j o = zero_loop rounds (j + 1) (put_index o j 0)

pub put_entry : Vmm → ℕ → ℕ → Entry → Vmm
put_entry s p i e = record s {
  tables = update s.tables p (record (s.tables p) { entries = update (s.tables p).entries i e });
}

-- `1LL << Paging::PRESENT_FLAG | 1LL << Paging::WRITABLE`
abbrev pub present_writable : ℕ
present_writable = 3

-- The frame of an entry, with its flags.
abbrev pub mapped : Entry → ℕ → Entry
mapped e paddr = set_physical_adr (set_flags e present_writable) paddr

-- `getPTE`: the table of the last level and the index there; `none` is a null pointer on the way.
pub get_pte : Vmm → IndexOffset → Option (ℕ × ℕ)
get_pte s o = elim ((s.tables s.pml4).next_tables o.i0) [
  | none ↦ none
  | some p1 ↦ elim ((s.tables p1).next_tables o.i1) [
    | none ↦ none
    | some p2 ↦ elim ((s.tables p2).next_tables o.i2) [ none ↦ none | some p3 ↦ some (p3, o.i3) ]
  ]
]

-- An entry written through the pointer that `getPTE` gives.
pub write_pte : Vmm → IndexOffset → (Entry → Entry) → Option Vmm
write_pte s o f = elim (get_pte s o) [
  | none ↦ none
  | some (p, i) ↦ some (put_entry s p i (f ((s.tables p).entries i)))
]

-- Two frames for a table.
pub table_frames : Vmm → ℕ × Vmm
table_frames s =
    let (paddr, frames) = alloc_n_frames 2 s.frames in
    (
      paddr,
      record s { frames = frames; usage = record s.usage { size = add_64 s.usage.size 8192 } },
    )

-- The memory of a new table: its address, and what `USE_VMM` does to reach it. `first_pages` is the
-- search for two pages of the higher half.
pub table_memory : ℕ → (Vmm → Option (IndexOffset × Vmm)) → AllocScheme → Vmm → Option (ℕ × ℕ × Vmm)
table_memory hhdm first_pages AllocScheme.no_alloc s = none
table_memory hhdm first_pages AllocScheme.use_pmm s =
    let (paddr, s') = table_frames s in some (add_64 paddr hhdm, paddr, s')
table_memory hhdm first_pages AllocScheme.use_vmm s =
    let (paddr, s') = table_frames s in
    elim (first_pages s') [
      | none ↦ none
      | some (first, s1) ↦ elim (write_pte s1 first (λ e. mapped e paddr)) [
        | none ↦ none
        | some s2 ↦ elim (write_pte s2 (next_page first) (λ e. mapped e (paddr + 4096))) [
          | none ↦ none
          | some s3 ↦
              some (
                get_virtual_addr first,
                paddr,
                record s3 { available_hh = sub_64 s3.available_hh 2 },
              )
        ]
      ]
    ]

-- The pages of a new table of the last level are counted, in the half in which the search began.
pub count_pages : ℕ → IndexOffset → Vmm → Vmm
count_pages hhdm original s =
    if leb hhdm (get_virtual_addr original)
    then record s { available_hh = add_64 s.available_hh entry_cnt }
    else record s { available_lh = add_64 s.available_lh entry_cnt }

-- A table `q` put behind entry `i` of the table `p`.
pub link_table : ℕ → IndexOffset → ℕ → ℕ → ℕ → ℕ → ℕ → Vmm → Vmm
link_table hhdm original level p i q paddr s =
    let s1 = record s { tables = update s.tables q (table_init (s.tables q) (level + 1)) } in
    let s2 = put_entry s1 p i (mapped ((s1.tables p).entries i) paddr) in
    let t = s2.tables p in
    let s3 = record s2 {
      tables = update s2.tables p (record t { next_tables = update t.next_tables i (some q) });
    } in
    if get_level (s3.tables q) == 3 then count_pages hhdm original s3 else s3

-- What one round of the search comes to: the page, the search goes on, or a null pointer.
pub data Round : Type 0 where
  found next : IndexOffset → Vmm → Round
  stuck : Round

-- The search in the table behind entry `i`.
pub descend :
    (ℕ → IndexOffset → Vmm → Option (Bool × IndexOffset × Vmm))
    → ℕ
    → ℕ
    → ℕ
    → IndexOffset
    → Vmm
    → Round
descend child level p i curr s = elim ((s.tables p).next_tables i) [
  | none ↦ Round.stuck
  | some q ↦ elim (child q curr s) [
    | none ↦ Round.stuck
    | some (done, curr', s') ↦
        if done then Round.found (put_index curr' level i) s' else Round.next curr' s'
  ]
]

-- The body of the loop of `getFirstUnallocPageUtil`.
pub round :
    ℕ
    → (Vmm → Option (IndexOffset × Vmm))
    → AllocScheme
    → (ℕ → IndexOffset → Vmm → Option (Bool × IndexOffset × Vmm))
    → IndexOffset
    → ℕ
    → ℕ
    → ℕ
    → IndexOffset
    → Vmm
    → Round
round hhdm first_pages scheme child original level p i curr s =
    let curr' =
      if ltb (index_at curr level) i then zero_loop (4 - (level + 1)) (level + 1) curr else curr in
    if level == 3
    then (if is_present ((s.tables p).entries i)
        then Round.next curr' s
        else Round.found (put_index curr' level i) s)
    else elim (is_present ((s.tables p).entries i)) [
      | true ↦ descend child level p i curr' s
      | false ↦ elim scheme [
        | AllocScheme.no_alloc ↦ Round.next curr' s
        | other ↦ elim (table_memory hhdm first_pages other s) [
          | none ↦ Round.stuck
          | some (q, paddr, s') ↦
              descend child level p i curr' (link_table hhdm original level p i q paddr s')
        ]
      ]
    ]

-- Its loop, by the entries left.
pub entry_loop :
    ℕ
    → (Vmm → Option (IndexOffset × Vmm))
    → AllocScheme
    → (ℕ → IndexOffset → Vmm → Option (Bool × IndexOffset × Vmm))
    → IndexOffset
    → ℕ
    → ℕ
    → ℕ
    → ℕ
    → IndexOffset
    → Vmm
    → Option (Bool × IndexOffset × Vmm)
entry_loop hhdm first_pages scheme child original level p zero i curr s = some (false, curr, s)
entry_loop hhdm first_pages scheme child original level p (suc rounds) i curr s =
    elim (round hhdm first_pages scheme child original level p i curr s) [
      | Round.found curr' s' ↦ some (true, curr', s')
      | Round.next curr' s' ↦
          entry_loop hhdm first_pages scheme child original level p rounds (i + 1) curr' s'
      | Round.stuck ↦ none
    ]

-- `getFirstUnallocPageUtil`, by the depth of its calls of itself. It has no result if the depth runs out
-- or a null pointer is followed.
pub first_page_util :
    ℕ
    → (Vmm → Option (IndexOffset × Vmm))
    → AllocScheme
    → ℕ
    → ℕ
    → IndexOffset
    → Vmm
    → Option (Bool × IndexOffset × Vmm)
first_page_util hhdm first_pages scheme zero p curr s = none
first_page_util hhdm first_pages scheme (suc depth) p curr s =
    let level = get_level (s.tables p) in
    entry_loop hhdm first_pages scheme (first_page_util hhdm first_pages scheme depth) curr level p
      (entry_cnt - index_at curr level) (index_at curr level) curr s

abbrev pub first_offset : IndexOffset
first_offset = record { i0 = 0; i1 = 0; i2 = 0; i3 = 0 }

-- `getFirstUnallocPage`
pub first_page :
    ℕ
    → (Vmm → Option (IndexOffset × Vmm))
    → AllocScheme
    → IndexOffset
    → Vmm
    → Option (IndexOffset × Vmm)
first_page hhdm first_pages scheme begin s =
    elim (first_page_util hhdm first_pages scheme 4 s.pml4 begin s) [
      | none ↦ none
      | some (done, curr, s') ↦ some (if done then curr else first_offset, s')
    ]

-- The loop of `getFirstNUnallocPage`, by rounds.
pub run_loop :
    (IndexOffset → Vmm → Option (IndexOffset × Vmm))
    → ℕ
    → ℕ
    → ℕ
    → IndexOffset
    → IndexOffset
    → Vmm
    → Option (IndexOffset × Vmm)
run_loop search n zero done res prev s = if ltb done n then none else some (res, s)
run_loop search n (suc rounds) done res prev s = elim (ltb done n) [
  | false ↦ some (res, s)
  | true ↦ elim (search (next_page prev) s) [
    | none ↦ none
    | some (page, s') ↦
        let follows = get_virtual_addr (next_page prev) == get_virtual_addr page in
        run_loop search n rounds (if follows then done + 1 else 1) (if follows then res else page)
          page s'
  ]
]

-- `getFirstNUnallocPage`
pub first_n_pages :
    (IndexOffset → Vmm → Option (IndexOffset × Vmm))
    → ℕ
    → ℕ
    → IndexOffset
    → Vmm
    → Option (IndexOffset × Vmm)
first_n_pages search rounds n begin s = elim (search begin s) [
  | none ↦ none
  | some (res, s') ↦ run_loop search n rounds 1 res res s'
]
