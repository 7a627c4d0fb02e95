-- ===== src/Vmm/Step.antt =====
-- One round of the search in a table.
use mathlib.Core.Path.{subst}
use native.Mathlib.Decide.{ℕ_discrete}
use dim_os.Common.{
  ℕ, suc, ◌+◌, ◌-◌, ◌≤◌, ◌<◌, ◌≡◌, inl, inr, refl, sym, ◌∙◌, Bool, true, false, ◌&&◌, ◌==◌, leb,
  ltb, if◌then◌else◌, arith, Bool-cases, Option-cases, none_ne_some,
}
use dim_os.Paging.{IndexOffset}
use dim_os.Vmm.{Vmm, AllocScheme, Round, index_at, put_index, zero_loop}
use dim_os.Vmm.Offsets.{
  Fits, Agree, AtMost, Below, index_at-put_index, put_index-Fits, zero_loop-Fits, AtMost-same_last,
  index_at-zero_loop, AtMost-same, Below-same, zeros-AtMost,
}
use dim_os.Vmm.Tables.{table_at, Extends, Extends-trans}
use dim_os.Vmm.Search.{makes, Wanted, NoneUpTo, NoneFrom, Joins, IsFound, IsSearched, Reached}

-- A round of the search in the table of `path` at level `l`, with `h` levels behind it, at entry `i`.
module _ {hhdm : ℕ} {scheme : AllocScheme} {h l : ℕ} {path orig : IndexOffset} {s : Vmm} {i : ℕ}
    {curr : IndexOffset} (r : Reached hhdm scheme h l path orig s i curr) where
  -- The indices with which the round goes on.
  abbrev pub onward : IndexOffset
  onward = if ltb (index_at curr l) i then zero_loop (4 - (l + 1)) (l + 1) curr else curr

  onward-index_at :
      (m : ℕ)
      → m < 4
      → index_at onward m
        ≡ (if ltb (index_at curr l) i && leb (l + 1) m then 0 else index_at curr m)
  onward-index_at m small = elim (Bool-cases (ltb (index_at curr l) i)) [
    | inl past ↦
        rw past (index_at-zero_loop (4 - (l + 1)) (l + 1) m curr (omega (arith, r.levels)) small)
    | inr at ↦ rw at refl
  ]

  pub onward-Fits : Fits onward
  onward-Fits = elim (Bool-cases (ltb (index_at curr l) i)) [
    | inl past ↦ rw past (zero_loop-Fits (4 - (l + 1)) (l + 1) curr r.fits)
    | inr at ↦ rw at r.fits
  ]

  pub onward-Agree : Agree (suc l) curr onward
  onward-Agree m less = ground (arith, onward-index_at m (omega (arith, less, r.levels)), less)

  -- A page behind entry `i` is not before those indices.
  onward-AtMost :
      (o : IndexOffset) → index_at o l ≡ i → AtMost (suc h) l orig o → AtMost h (suc l) onward o
  unfolding AtMost
  onward-AtMost o here least = elim (Bool-cases (ltb (index_at curr l) i)) [
    | inl past ↦
        zeros-AtMost h (suc l) onward o (omega (arith, r.levels))
          (λ m a b. ground (arith, onward-index_at m b, past, a))
    | inr at ↦ elim least [
      | inl less ↦ absurd (ground (arith, at, r.same_start, here, less))
      | inr (equal, rest) ↦
          AtMost-same h (suc l) orig onward o (omega (arith, r.levels))
            (λ m a b.
              r.first (sym here ∙ sym equal) m (omega (arith, a)) b
              ∙ ground (arith, onward-index_at m b, at))
            rest
    ]
  ]

  from_onward :
      (o : IndexOffset) → index_at o l ≡ i → AtMost h (suc l) onward o → AtMost (suc h) l orig o
  unfolding AtMost
  from_onward o here least = elim (Bool-cases (ltb (index_at curr l) i)) [
    | inl past ↦ inl (ground (arith, past, r.same_start, here))
    | inr at ↦
        let start : i ≡ index_at orig l = ground (arith, at, r.same_start, r.reached) in
        inr (
          sym start ∙ sym here,
          AtMost-same h (suc l) onward orig o (omega (arith, r.levels))
              (λ m a b.
                ground (arith, onward-index_at m b, at)
                ∙ sym (r.first start m (omega (arith, a)) b))
              least,
        )
  ]

  -- The way to the table behind entry `i`.
  abbrev pub way : IndexOffset
  way = put_index path l i

  pub way_at : (m : ℕ) → m < 4 → index_at way m ≡ (if l == m then i else index_at path m)
  way_at m small = index_at-put_index path l m i (omega (arith, r.levels)) small

  way-Agree : (o : IndexOffset) → Agree l path o → index_at o l ≡ i → Agree (suc l) way o
  way-Agree o same here m less = elim (ℕ_discrete l m) [
    | yes e ↦
        ground
          (arith, way_at m (omega (arith, less, r.levels)), e, subst (λ z. index_at o z ≡ i) e here)
    | no ne ↦
        ground
          (arith, way_at m (omega (arith, less, r.levels)), ne, same m (omega (arith, less, ne)))
  ]

  pub path-Agree : (o : IndexOffset) → Agree (suc l) way o → Agree l path o
  path-Agree o same m less =
      ground (arith, way_at m (omega (arith, less, r.levels)), less, same m (omega (arith, less)))

  -- A page that can be taken still can be taken when tables are made.
  Wanted-Extends :
      (s1 : Vmm)
      → Extends hhdm s s1
      → (o : IndexOffset) → Fits o
      → Wanted scheme s o
      → Wanted scheme s1 o
  Wanted-Extends s1 e o fo (gone, has) = (
    e.same_map o fo ∙ gone,
    λ no_making. elim (Option-cases (table_at s 3 o)) [
      | inl missing ↦ absurd (has no_making missing)
      | inr (p, known) ↦ λ lost. none_ne_some (sym lost ∙ e.keeps 3 p o (omega arith) fo known)
    ],
  )

  -- The result of the search behind entry `i` is one of the search from `l` on.
  module _ (s1 : Vmm) (made : Extends hhdm s s1) (kept : makes scheme ≡ false → s1 ≡ s)
      (c : IndexOffset) (s2 : Vmm) (below : IsFound hhdm scheme h (suc l) way onward s1 c s2) where
    abbrev page : IndexOffset
    page = put_index c l i

    page_at : (m : ℕ) → m < 4 → index_at page m ≡ (if l == m then i else index_at c m)
    page_at m small = index_at-put_index c l m i (omega (arith, r.levels)) small

    page_rest : (m : ℕ) → suc l ≤ m → m < 4 → index_at page m ≡ index_at c m
    page_rest m a b = ground (arith, page_at m b, a)

    page_here : index_at page l ≡ i
    page_here = ground (arith, page_at l (omega (arith, r.levels)))

    down : (o : IndexOffset) → Joins l path page o → Joins (suc l) way c o
    down o (fo, same, rest) = (
      fo,
      way-Agree o same (rest l (omega arith) (omega (arith, r.levels)) ∙ page_here),
      λ m a b. rest m (omega (arith, a)) b ∙ page_rest m a b,
    )

    page-NoneUpTo : NoneUpTo scheme (suc h) l s path orig page
    unfolding Below
    page-NoneUpTo o fo same least (inl less) wanted =
        r.before o fo same least (omega (arith, less, page_here)) wanted
    page-NoneUpTo o fo same least (inr (equal, rest)) wanted =
        let here : index_at o l ≡ i = equal ∙ page_here in
        below.none_before o fo (way-Agree o same here) (onward-AtMost o here least)
          (Below-same h (suc l) page c o (omega (arith, r.levels)) page_rest rest)
          (Wanted-Extends s1 made o fo wanted)

    pub page-IsFound : IsFound hhdm scheme (suc h) l path orig s page s2
    page-IsFound = record {
      extends = Extends-trans hhdm s s1 s2 made below.extends;
      fits = put_index-Fits c l i below.fits r.inside;
      from = from_onward page page_here (
          AtMost-same_last h (suc l) onward c page (omega (arith, r.levels))
            (λ m a b. sym (page_rest m a b)) below.from);
      has_table = λ o joins. below.has_table o (down o joins);
      no_frame = λ o joins. sym (made.same_map o joins.0) ∙ below.no_frame o (down o joins);
      unchanged = λ no_making. below.unchanged no_making ∙ kept no_making;
      none_before = page-NoneUpTo;
    }

  -- What a round promises.
  abbrev pub IsRound : Round → Type 0
  IsRound (Round.found c s') = IsFound hhdm scheme (suc h) l path orig s c s'
  IsRound (Round.next c s') =
      (s' ≡ s)
      × Fits c
      × Agree (suc l) curr c
      × ((o : IndexOffset)
          → Fits o
          → Agree l path o
          → AtMost (suc h) l orig o
          → index_at o l ≡ i
          → ¬ (Wanted scheme s o))
  IsRound Round.stuck = 1 ≤ 0

  abbrev pub answer : Bool × IndexOffset × Vmm → Round
  answer (done, c, s') = if done then Round.found (put_index c l i) s' else Round.next c s'

  pub answer-IsRound :
      (s1 : Vmm) (out : Bool × IndexOffset × Vmm)
      → Extends hhdm s s1
      → (makes scheme ≡ false → s1 ≡ s)
      → (NoneFrom scheme h (suc l) s1 way onward → s1 ≡ s)
      → IsSearched hhdm scheme h (suc l) way onward s1 out
      → IsRound (answer out)
  answer-IsRound s1 (true, c, s2) made kept same below = page-IsFound s1 made kept c s2 below
  answer-IsRound s1 (false, c, s2) made stays same (nothing, kept, fc, agree) = (
    kept ∙ same nothing,
    fc,
    λ m less. onward-Agree m less ∙ agree m less,
    λ o fo on_path least here wanted.
        nothing o fo (way-Agree o on_path here) (onward-AtMost o here least)
          (Wanted-Extends s1 made o fo wanted),
  )
