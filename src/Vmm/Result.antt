-- ===== src/Vmm/Result.antt =====
-- The search for a page: the loop of a table and the calls for the tables behind it.
use mathlib.Core.Path.{subst}
use native.Mathlib.Decide.{ℕ_discrete}
use dim_os.Common.{
  ℕ, zero, suc, ◌+◌, ◌-◌, ◌≤◌, ◌<◌, ◌≡◌, ◌≢◌, ◌⊎◌, inl, inr, refl, sym, ◌∙◌, Bool, true, false,
  if◌then◌else◌, arith, Option, none, some,
}
use dim_os.Paging.{IndexOffset}
use dim_os.Paging.Index.{page_number}
use dim_os.Paging.Entry.{get_level}
use dim_os.Vmm.{
  Vmm, AllocScheme, Round, index_at, round, entry_loop, first_page_util, first_page, first_offset,
}
use dim_os.Vmm.Offsets.{
  Fits, Agree, AtMost, AtMost-page_number, page_number-AtMost, page_number-Below, AtMost-index_at,
}
use dim_os.Vmm.Tables.{table_at, translate, Extends, IsValid}
use dim_os.Vmm.Search.{makes, Wanted, Ready, Joins, IsSearched, Searches, Reached}
use dim_os.Vmm.Step.{IsRound}
use dim_os.Vmm.Rounds.{round-IsRound}

-- The loop over the entries of a table, in a state `s`, from `orig` on.
module _ (hhdm : ℕ) (scheme : AllocScheme) (h l : ℕ) (path orig : IndexOffset) (s : Vmm)
    (v : IsValid hhdm s) (levels : l + suc h ≡ 4) (path_fits : Fits path) (p : ℕ)
    (at : table_at s l path ≡ some p) (ready : Ready scheme h s)
    (first_pages : Vmm → Option (IndexOffset × Vmm)) (original : IndexOffset)
    (child : ℕ → IndexOffset → Vmm → Option (Bool × IndexOffset × Vmm))
    (searches : l < 3 → Searches hhdm scheme h (suc l) child) where
  abbrev IsLooped : Option (Bool × IndexOffset × Vmm) → Type 0
  IsLooped res =
      (out : Bool × IndexOffset × Vmm) × (res ≡ some out)
      × IsSearched hhdm scheme (suc h) l path orig s out

  abbrev Loops : ℕ → Type 0
  Loops rounds =
      (i : ℕ) (curr : IndexOffset)
      → i + rounds ≡ 512
      → Fits curr
      → Agree (suc l) orig curr
      → index_at orig l ≤ i
      → (i ≡ index_at orig l → (m : ℕ) → l ≤ m → m < 4 → index_at orig m ≡ index_at curr m)
      → ((o : IndexOffset)
          → Fits o
          → Agree l path o
          → AtMost (suc h) l orig o
          → index_at o l < i
          → ¬ (Wanted scheme s o))
      → IsLooped (entry_loop hhdm first_pages scheme child original l p rounds i curr s)

  -- What the loop makes of a round.
  after_round :
      (rounds i : ℕ) (curr : IndexOffset) (x : Round)
      → Loops rounds
      → i + suc rounds ≡ 512
      → Agree (suc l) orig curr
      → round hhdm first_pages scheme child original l p i curr s ≡ x
      → (r : Reached hhdm scheme h l path orig s i curr) → IsRound r x
      → IsLooped (entry_loop hhdm first_pages scheme child original l p (suc rounds) i curr s)
  unfolding entry_loop
  after_round rounds i curr (Round.found c s') further e same is r good =
      ((true, c, s'), rw (entry_loop, is) refl, good)
  after_round rounds i curr (Round.next c s') further e same is r (kept, fc, agree, none_here) =
      let whole : entry_loop hhdm first_pages scheme child original l p (suc rounds) i curr s
          ≡ entry_loop hhdm first_pages scheme child original l p rounds (i + 1) c s =
        rw (entry_loop, is, kept) refl in
      subst IsLooped (sym whole) (
        further (i + 1) c (omega (arith, e)) fc (λ m less. same m less ∙ agree m less)
          (omega (arith, r.reached)) (λ start. absurd (omega (arith, start, r.reached)))
          (λ o fo on_path least less. elim (ℕ_discrete (index_at o l) i) [
            | yes here ↦ none_here o fo on_path least here
            | no other ↦ r.before o fo on_path least (omega (arith, less, other))
          ]))
  after_round rounds i curr Round.stuck further e same is r bad = absurd (omega (arith, bad))

  entry_loop_lem : (rounds : ℕ) → Loops rounds
  unfolding entry_loop
  entry_loop_lem zero i curr e fits same reached first before = (
    (false, curr, s),
    refl,
    (
      (λ o fo on_path least. before o fo on_path least (omega (arith, e, fo l))),
      refl,
      fits,
      λ m less. same m (omega (arith, less)),
    ),
  )
  entry_loop_lem (suc rounds) i curr e fits same reached first before =
      let r : Reached hhdm scheme h l path orig s i curr = record {
        valid = v;
        levels = levels;
        path_fits = path_fits;
        inside = omega (arith, e);
        fits = fits;
        same_start = sym (same l (omega arith));
        reached = reached;
        first = first;
        before = before;
      } in
      after_round rounds i curr _ (entry_loop_lem rounds) e same refl r
        (round-IsRound r p at first_pages original child searches ready)

util_level :
    (hhdm : ℕ) (scheme : AllocScheme) (first_pages : Vmm → Option (IndexOffset × Vmm)) (h l p : ℕ)
    (curr : IndexOffset) (s : Vmm)
    → get_level (s.tables p) ≡ l
    → first_page_util hhdm first_pages scheme (suc h) p curr s
      ≡ entry_loop hhdm first_pages scheme
          (first_page_util hhdm first_pages scheme h)
          curr
          l
          p
          (512 - index_at curr l)
          (index_at curr l)
          curr
          s
unfolding first_page_util
util_level hhdm scheme first_pages h l p curr s known = rw (first_page_util, known) refl

-- The search in a table of level `l`, where the searches in the tables behind it come to a result.
util_step :
    (hhdm : ℕ) (scheme : AllocScheme) (first_pages : Vmm → Option (IndexOffset × Vmm)) (h l : ℕ)
    → l + suc h ≡ 4
    → (l < 3 → Searches hhdm scheme h (suc l) (first_page_util hhdm first_pages scheme h))
    → Searches hhdm scheme (suc h) l (first_page_util hhdm first_pages scheme (suc h))
util_step hhdm scheme first_pages h l levels below p path curr s v path_fits fits at ready =
    let (out, gives, good) =
      entry_loop_lem hhdm scheme h l path curr s v levels path_fits p at
        (subst (λ n. Ready scheme n s) (omega arith) ready) first_pages curr
        (first_page_util hhdm first_pages scheme h) below (512 - index_at curr l) (index_at curr l)
        curr (omega (arith, fits l)) fits (λ m less. refl) (omega arith) (λ e m a b. refl)
        (λ o fo on_path least less.
          absurd (omega (arith, less, AtMost-index_at h l curr o least))) in
    let whole : first_page_util hhdm first_pages scheme (suc h) p curr s
        ≡ entry_loop hhdm first_pages scheme (first_page_util hhdm first_pages scheme h) curr l p
            (512 - index_at curr l) (index_at curr l) curr s =
      util_level hhdm scheme first_pages h l p curr s
        (v.leveled l p path (omega (arith, levels)) path_fits at) in
    (out, whole ∙ gives, good)

-- The depth `h` is enough for `h` levels of tables.
pub first_page_util-Searches :
    (hhdm : ℕ) (scheme : AllocScheme) (first_pages : Vmm → Option (IndexOffset × Vmm)) (h l : ℕ)
    → l + suc h ≡ 4
    → Searches hhdm scheme (suc h) l (first_page_util hhdm first_pages scheme (suc h))
first_page_util-Searches hhdm scheme first_pages zero l levels =
    util_step hhdm scheme first_pages zero l levels (λ up. absurd (omega (arith, levels, up)))
first_page_util-Searches hhdm scheme first_pages (suc h) l levels =
    util_step hhdm scheme first_pages (suc h) l levels
      (λ up. first_page_util-Searches hhdm scheme first_pages h (suc l) (omega (arith, levels)))

-- The first page from `begin` on that can be taken, with the state after the search.
abbrev pub IsFirst : ℕ → AllocScheme → IndexOffset → Vmm → IndexOffset → Vmm → Type 0
IsFirst hhdm scheme begin s page s' =
    Extends hhdm s s'
    × Fits page
    × (page_number begin ≤ page_number page)
    × (translate s page ≡ none)
    × (table_at s' 3 page ≢ none)
    × ((makes scheme ≡ false) → s' ≡ s)
    × ((o : IndexOffset)
        → Fits o
        → page_number begin ≤ page_number o
        → page_number o < page_number page
        → ¬ (Wanted scheme s o))

-- There is none: the page of all 0.
abbrev pub IsMiss : AllocScheme → IndexOffset → Vmm → IndexOffset → Vmm → Type 0
IsMiss scheme begin s page s' =
    (page ≡ first_offset)
    × (s' ≡ s)
    × ((o : IndexOffset) → Fits o → page_number begin ≤ page_number o → ¬ (Wanted scheme s o))

answered :
    (hhdm : ℕ) (scheme : AllocScheme) (begin : IndexOffset) (s : Vmm)
    (out : Bool × IndexOffset × Vmm)
    → Fits begin
    → IsSearched hhdm scheme 4 0 begin begin s out
    → let (done, curr, s') = out in
      let page = if done then curr else first_offset in
      IsFirst hhdm scheme begin s page s' ⊎ IsMiss scheme begin s page s'
answered hhdm scheme begin s (true, c, s') fb found =
    let joins : Joins 0 begin c c =
      (found.fits, (λ m less. absurd (omega (arith, less))), λ m a b. refl) in
    inl (
      found.extends,
      found.fits,
      AtMost-page_number begin c fb found.fits found.from,
      found.no_frame c joins,
      found.has_table c joins,
      found.unchanged,
      λ o fo least less.
          found.none_before o fo (λ m no. absurd (omega (arith, no)))
            (page_number-AtMost begin o fb fo least) (page_number-Below o c fo found.fits less),
    )
answered hhdm scheme begin s (false, c, s') fb (nothing, same, fc, agree) = inr (
  refl,
  same,
  λ o fo least.
      nothing o fo (λ m no. absurd (omega (arith, no))) (page_number-AtMost begin o fb fo least),
)

-- In a valid state, with `NO_ALLOC`, or with `USE_PMM` and frames for three tables, `getFirstUnallocPage`
-- comes to a result. Either it is the first page from `begin` on that has no frame, and whose table is
-- there if the search makes none: its table is there afterwards, the map from pages to frames is the same,
-- the invariant holds, and with `NO_ALLOC` nothing changed. Or there is no such page: then it is the page
-- of all 0, and nothing changed.
pub first_page-IsFirst :
    (hhdm : ℕ) (scheme : AllocScheme) (first_pages : Vmm → Option (IndexOffset × Vmm))
    (begin : IndexOffset) (s : Vmm)
    → IsValid hhdm s
    → Fits begin
    → Ready scheme 3 s
    → (page : IndexOffset) × (s' : Vmm) × (first_page hhdm first_pages scheme begin s
        ≡ some (page, s'))
      × (IsFirst hhdm scheme begin s page s' ⊎ IsMiss scheme begin s page s')
unfolding first_page table_at
first_page-IsFirst hhdm scheme first_pages begin s v fits ready =
    let ((done, curr, s'), gives, good) =
      first_page_util-Searches hhdm scheme first_pages 3 0 (omega arith) s.pml4 begin begin s v fits
        fits refl ready in
    (
      (if done then curr else first_offset),
      s',
      rw (first_page, gives) refl,
      answered hhdm scheme begin s (done, curr, s') fits good,
    )
