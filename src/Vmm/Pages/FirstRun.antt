-- ===== src/Vmm/Pages/FirstRun.antt =====
-- `getFirstNUnallocPage` with `NO_ALLOC` gives the first run of pages that are free.
use mathlib.Core.Path.{subst}
use native.Mathlib.Decide.{dec_lt}
use dim_os.Common.{
  ℕ, zero, suc, ◌+◌, ◌^◌, ◌≤◌, ◌<◌, ◌≡◌, refl, sym, ◌∙◌, true, false, ◌==◌, ltb, if◌then◌else◌,
  arith, inl, inr, Bool-cases, Option, some,
}
use dim_os.Paging.{IndexOffset, get_virtual_addr, next_page}
use dim_os.Paging.Index.{page_number, next_page_lem}
use dim_os.Vmm.{Vmm, AllocScheme, first_page, run_loop, first_n_pages}
use dim_os.Vmm.Offsets.{Fits, Fits-IsValid}
use dim_os.Vmm.Tables.{IsValid}
use dim_os.Vmm.Pages.Runs.{IsFree, FreePages, Fits→IsValid, follows_test, first_page-IsFree}

-- The page `res` begins the first run of `n` free pages from number `b` on.
pub record IsFirstRun (s : Vmm) (b n : ℕ) (res : IndexOffset) : Type 0 where
  pub fits : Fits res
  pub after : b ≤ page_number res
  pub free : FreePages s (page_number res) n
  pub first : (x : ℕ) → b ≤ x → x < page_number res → ¬ (FreePages s x n)

-- The loop has `done` pages from `res` to `prev`, and the run at `r` is not passed by.
record InRun (s : Vmm) (b n r done : ℕ) (res prev : IndexOffset) : Type 0 where
  fits_res : Fits res
  fits_prev : Fits prev
  some_done : 1 ≤ done
  span : page_number prev + 1 ≡ page_number res + done
  free : FreePages s (page_number res) done
  after : b ≤ page_number res
  first : (x : ℕ) → b ≤ x → x < page_number res → ¬ (FreePages s x n)
  before : page_number res ≤ r

module _ (hhdm : ℕ) (first_pages : Vmm → Option (IndexOffset × Vmm)) (s : Vmm) (v : IsValid hhdm s)
    (b n r : ℕ) (run : FreePages s r n) (inside : r + n ≤ 2 ^ 36) where
  abbrev search : IndexOffset → Vmm → Option (IndexOffset × Vmm)
  search = first_page hhdm first_pages AllocScheme.no_alloc

  -- The page found is behind `prev`: the run goes on, or it begins there again.
  InRun-longer :
      (done : ℕ) (res prev page : IndexOffset)
      → InRun s b n r done res prev
      → Fits page
      → IsFree s (page_number page)
      → page_number prev + 1 ≡ page_number page
      → InRun s b n r (done + 1) res page
  InRun-longer done res prev page k fp free next = record {
    fits_res = k.fits_res;
    fits_prev = fp;
    some_done = omega arith;
    span = omega (arith, k.span, next);
    free = λ y from to. elim (dec_lt y (page_number res + done)) [
      | yes old ↦ k.free y from old
      | no new ↦ subst (IsFree s) (omega (arith, k.span, next, to, new)) free
    ];
    after = k.after;
    first = k.first;
    before = k.before;
  }

  InRun-restart :
      (done : ℕ) (res prev page : IndexOffset)
      → InRun s b n r done res prev
      → done < n
      → Fits page
      → IsFree s (page_number page)
      → page_number prev + 1 < page_number page
      → page_number page ≤ r
      → ((y : ℕ) → page_number prev + 1 ≤ y → y < page_number page → ¬ (IsFree s y))
      → InRun s b n r 1 page page
  InRun-restart done res prev page k more fp free gap before gone = record {
    fits_res = fp;
    fits_prev = fp;
    some_done = omega arith;
    span = refl;
    free = λ y from to. subst (IsFree s) (omega (arith, from, to)) free;
    after = omega (arith, k.after, k.span, gap);
    first = λ x from to frees. elim (dec_lt x (page_number res)) [
      | yes old ↦ k.first x from old frees
      | no later ↦ elim (dec_lt (page_number prev) x) [
        | yes beyond ↦
            gone x (omega (arith, beyond)) to (frees x (omega arith) (omega (arith, more)))
        | no within ↦ gone (page_number prev + 1) (omega arith) gap (
            frees (page_number prev + 1) (omega (arith, within))
              (omega (arith, within, later, more, k.span)))
      ]
    ];
    before = before;
  }

  -- One round of the loop.
  next_run :
      (done : ℕ) (res prev : IndexOffset)
      → InRun s b n r done res prev
      → done < n
      → (page : IndexOffset) × (search (next_page prev) s ≡ some (page, s))
        × (page_number prev < page_number page)
        × (let follows = get_virtual_addr (next_page prev) == get_virtual_addr page in
            InRun s b n r (if follows then done + 1 else 1) (if follows then res else page) page)
  next_run done res prev k more =
      let (valid, number) = next_page_lem prev (Fits→IsValid prev k.fits_prev) in
      let next_fits = Fits-IsValid (next_page prev) valid in
      let next : page_number (next_page prev) ≡ page_number prev + 1 =
        omega (arith, number, k.span, k.before, more, inside) in
      let target = if ltb r (page_number prev + 1) then page_number prev + 1 else r in
      let (page, gives, fp, least, most, free, gone) =
        first_page-IsFree hhdm first_pages (next_page prev) s target v next_fits
          (run target (ground arith) (ground (arith, k.span, k.before, more)))
          (ground (arith, next)) (ground (arith, k.span, k.before, more, inside)) in
      (
        page,
        gives,
        omega (arith, next, least),
        elim (Bool-cases (page_number (next_page prev) == page_number page)) [
          | inl same ↦
              rw (follows_test (next_page prev) page next_fits fp, same)
                (InRun-longer done res prev page k fp free (ground (arith, same, next)))
          | inr other ↦
              rw (follows_test (next_page prev) page next_fits fp, other)
                (InRun-restart done res prev page k more fp free
                  (ground (arith, other, next, least)) (ground (arith, other, next, least, most))
                  (λ y from to. gone y (omega (arith, next, from)) to))
        ],
      )

  abbrev IsRun : Option (IndexOffset × Vmm) → Type 0
  IsRun out =
      (res : IndexOffset) × (out ≡ some (res, s)) × IsFirstRun s b n res × (page_number res ≤ r)

  run_loop_stops :
      (rounds done : ℕ) (res prev : IndexOffset)
      → InRun s b n r done res prev
      → ¬ (done < n)
      → IsRun (run_loop search n rounds done res prev s)
  unfolding run_loop
  run_loop_stops rounds done res prev k filled =
      let stop : ltb done n ≡ false = ground (arith, filled) in
      let whole : run_loop search n rounds done res prev s ≡ some (res, s) =
        elim rounds as (λ m. run_loop search n m done res prev s ≡ some (res, s)) [
          | zero ↦ rw (run_loop, stop) refl
          | suc m ↦ rw (run_loop, stop) refl
        ] in
      (
        res,
        whole,
        record {
          fits = k.fits_res;
          after = k.after;
          free = λ y from to. k.free y from (omega (arith, to, filled));
          first = k.first;
        },
        k.before,
      )

  run_loop-IsRun :
      (rounds done : ℕ) (res prev : IndexOffset)
      → InRun s b n r done res prev
      → r + n ≤ rounds + page_number prev + 1
      → IsRun (run_loop search n rounds done res prev s)
  unfolding run_loop
  run_loop-IsRun zero done res prev k enough =
      run_loop_stops zero done res prev k (λ more. omega (arith, more, k.span, k.before, enough))
  run_loop-IsRun (suc rounds) done res prev k enough = elim (dec_lt done n) [
    | no filled ↦ run_loop_stops (suc rounds) done res prev k filled
    | yes more ↦
        let (page, gives, later, k') = next_run done res prev k more in
        let follows = get_virtual_addr (next_page prev) == get_virtual_addr page in
        let go : ltb done n ≡ true = ground (arith, more) in
        let whole : run_loop search n (suc rounds) done res prev s
            ≡ run_loop search n rounds (if follows then done + 1 else 1)
                (if follows then res else page) page s =
          rw (run_loop, go, gives) refl in
        subst IsRun (sym whole) (
          run_loop-IsRun rounds (if follows then done + 1 else 1) (if follows then res else page)
            page k' (omega (arith, enough, later)))
  ]

first_n_pages_begin :
    (search : IndexOffset → Vmm → Option (IndexOffset × Vmm)) (rounds n : ℕ)
    (begin res : IndexOffset) (s s' : Vmm)
    → search begin s ≡ some (res, s')
    → first_n_pages search rounds n begin s ≡ run_loop search n rounds 1 res res s'
unfolding first_n_pages
first_n_pages_begin search rounds n begin res s s' gives = rw (first_n_pages, gives) refl

-- In a valid state in which `n` pages in a row are free, `n` at least 1, from number `r` on, not before `begin` and inside
-- the 2 ^ 36 pages, `getFirstNUnallocPage` with `NO_ALLOC` ends with the first page of the first such run
-- from `begin` on, and changes nothing. As many rounds as there are pages from `begin` to the end of the run are enough.
pub first_n_pages-IsFirstRun :
    (hhdm : ℕ) (first_pages : Vmm → Option (IndexOffset × Vmm)) (begin : IndexOffset) (s : Vmm)
    (n r rounds : ℕ)
    → IsValid hhdm s
    → Fits begin
    → 1 ≤ n
    → page_number begin ≤ r
    → r + n ≤ 2 ^ 36
    → FreePages s r n
    → r + n ≤ rounds + page_number begin
    → (res : IndexOffset) × (first_n_pages
          (first_page hhdm first_pages AllocScheme.no_alloc)
          rounds
          n
          begin
          s
        ≡ some (res, s))
      × IsFirstRun s (page_number begin) n res
      × (page_number res ≤ r)
first_n_pages-IsFirstRun hhdm first_pages begin s n r rounds v fits some_pages least inside run
      enough =
    let (page, gives, fp, after, most, free, gone) =
      first_page-IsFree hhdm first_pages begin s r v fits
        (run r (omega arith) (omega (arith, some_pages))) least
        (omega (arith, inside, some_pages)) in
    let k : InRun s (page_number begin) n r 1 page page = record {
      fits_res = fp;
      fits_prev = fp;
      some_done = omega arith;
      span = refl;
      free = λ y from to. subst (IsFree s) (omega (arith, from, to)) free;
      after = after;
      first = λ x from to frees. gone x from to (frees x (omega arith) (omega (arith, some_pages)));
      before = most;
    } in
    let (res, whole, good, bound) =
      run_loop-IsRun hhdm first_pages s v (page_number begin) n r run inside rounds 1 page page k
        (omega (arith, enough, after)) in
    (
      res,
      first_n_pages_begin (first_page hhdm first_pages AllocScheme.no_alloc) rounds n begin page s s
            gives
          ∙ whole,
      good,
      bound,
    )
