-- ===== src/Vmm/Search.antt =====
-- What the search for a page promises, and one round of its loop.
use mathlib.Core.Path.{subst}
use dim_os.Common.{
  ℕ, zero, suc, ◌+◌, ◌-◌, ◌≤◌, ◌<◌, ◌≡◌, ◌≢◌, Bool, true, false, arith, Option, none, some,
}
use dim_os.Pmm.{Pmm, alloc_n_frames}
use dim_os.Paging.{IndexOffset}
use dim_os.Vmm.{Vmm, AllocScheme, index_at}
use dim_os.Vmm.Offsets.{Fits, Agree, AtMost, Below}
use dim_os.Vmm.Tables.{table_at, translate, IsValid, Extends}
use dim_os.Vmm.Create.{CanMake}

abbrev pub is_none {ℓ} : {A : Type ℓ} → Option A → Bool
is_none none = true
is_none (some a) = false

-- Whether the search makes the tables that are absent.
abbrev pub makes : AllocScheme → Bool
makes AllocScheme.no_alloc = false
makes AllocScheme.use_pmm = true
makes AllocScheme.use_vmm = true

-- A page that the search can take: it has no frame, and it has a table, or the search makes one.
abbrev pub Wanted : AllocScheme → Vmm → IndexOffset → Type 0
Wanted scheme s o = (translate s o ≡ none) × ((makes scheme ≡ false) → table_at s 3 o ≢ none)

-- What the search needs: frames for `n` tables, if it makes any. The search with `USE_VMM` is not covered.
abbrev pub Ready : AllocScheme → ℕ → Vmm → Type 0
Ready AllocScheme.no_alloc n s = 0 ≤ 0
Ready AllocScheme.use_pmm n s = CanMake n s.frames
Ready AllocScheme.use_vmm n s = 1 ≤ 0

CanMake-less : (n : ℕ) (p : Pmm) → CanMake (suc n) p → CanMake n p
CanMake-less zero p c = omega arith
CanMake-less (suc n) p (f, run, more) = (f, run, CanMake-less n (alloc_n_frames 2 p).1 more)

pub Ready-less :
    (scheme : AllocScheme) (n : ℕ) (s : Vmm) → Ready scheme n s → Ready scheme (n - 1) s
Ready-less AllocScheme.no_alloc n s r = omega arith
Ready-less AllocScheme.use_pmm zero s r = omega arith
Ready-less AllocScheme.use_pmm (suc n) s r =
    subst (λ m. CanMake m s.frames) (omega arith) (CanMake-less n s.frames r)
Ready-less AllocScheme.use_vmm n s r = r

-- No page of the tables behind `path` from `curr` on, and before `stop` if there is one, can be taken.
abbrev pub NoneUpTo : AllocScheme → ℕ → ℕ → Vmm → IndexOffset → IndexOffset → IndexOffset → Type 0
NoneUpTo scheme h l s path curr stop =
    (o : IndexOffset)
    → Fits o
    → Agree l path o
    → AtMost h l curr o
    → Below h l o stop
    → ¬ (Wanted scheme s o)

abbrev pub NoneFrom : AllocScheme → ℕ → ℕ → Vmm → IndexOffset → IndexOffset → Type 0
NoneFrom scheme h l s path curr =
    (o : IndexOffset) → Fits o → Agree l path o → AtMost h l curr o → ¬ (Wanted scheme s o)

-- A page by the path to its table and the indices from there on.
abbrev pub Joins : ℕ → IndexOffset → IndexOffset → IndexOffset → Type 0
Joins l path c o = Fits o × Agree l path o × ((m : ℕ) → l ≤ m → m < 4 → index_at o m ≡ index_at c m)

-- The result of the search in a table of level `l`, over `h` levels: the first page that can be taken,
-- with its table; or there is none, and nothing changed.
pub record IsFound (hhdm : ℕ) (scheme : AllocScheme) (h l : ℕ) (path curr : IndexOffset) (s : Vmm)
    (c : IndexOffset) (s' : Vmm) : Type 0 where
  pub extends : Extends hhdm s s'
  pub fits : Fits c
  pub from : AtMost h l curr c
  pub has_table : (o : IndexOffset) → Joins l path c o → table_at s' 3 o ≢ none
  pub no_frame : (o : IndexOffset) → Joins l path c o → translate s o ≡ none
  pub unchanged : makes scheme ≡ false → s' ≡ s
  pub none_before : NoneUpTo scheme h l s path curr c

abbrev pub IsSearched :
    ℕ → AllocScheme → ℕ → ℕ → IndexOffset → IndexOffset → Vmm → Bool × IndexOffset × Vmm → Type 0
IsSearched hhdm scheme h l path curr s (true, c, s') = IsFound hhdm scheme h l path curr s c s'
IsSearched hhdm scheme h l path curr s (false, c, s') =
    NoneFrom scheme h l s path curr × (s' ≡ s) × Fits c × Agree l curr c

-- A search in the tables of a level comes to a result of that kind.
abbrev pub Searches :
    ℕ → AllocScheme → ℕ → ℕ → (ℕ → IndexOffset → Vmm → Option (Bool × IndexOffset × Vmm)) → Type 0
Searches hhdm scheme h l search =
    (p : ℕ) (path curr : IndexOffset) (s : Vmm)
    → IsValid hhdm s
    → Fits path
    → Fits curr
    → table_at s l path ≡ some p
    → Ready scheme (h - 1) s
    → (out : Bool × IndexOffset × Vmm) × (search p curr s ≡ some out)
      × IsSearched hhdm scheme h l path curr s out

-- The loop of the search, at entry `i` of the table of `path`: it began at `orig`, and goes on with `curr`.
pub record Reached (hhdm : ℕ) (scheme : AllocScheme) (h l : ℕ) (path orig : IndexOffset) (s : Vmm)
    (i : ℕ) (curr : IndexOffset) : Type 0 where
  pub valid : IsValid hhdm s
  pub levels : l + suc h ≡ 4
  pub path_fits : Fits path
  pub inside : i < 512
  pub fits : Fits curr
  pub same_start : index_at curr l ≡ index_at orig l
  pub reached : index_at orig l ≤ i
  pub first : i ≡ index_at orig l → (m : ℕ) → l ≤ m → m < 4 → index_at orig m ≡ index_at curr m
  pub before :
      (o : IndexOffset)
      → Fits o
      → Agree l path o
      → AtMost (suc h) l orig o
      → index_at o l < i
      → ¬ (Wanted scheme s o)
