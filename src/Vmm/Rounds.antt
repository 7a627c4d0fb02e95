-- ===== src/Vmm/Rounds.antt =====
-- One round of the loop of the search keeps what it promises.
use mathlib.Core.Path.{subst}
use native.Mathlib.Decide.{ℕ_discrete}
use dim_os.Common.{
  ℕ, zero, suc, ◌-◌, ◌<◌, ◌≡◌, inl, inr, refl, sym, ap, ◌∙◌, Bool, true, false, ◌==◌, if◌then◌else◌,
  arith, Bool-cases, Option, none, some, none_ne_some,
}
use dim_os.Paging.{IndexOffset}
use dim_os.Paging.Entry.{is_present, get_physical_addr}
use dim_os.Vmm.{Vmm, AllocScheme, Round, index_at, put_index, descend, round, link_table}
use dim_os.Vmm.Offsets.{
  Agree, AtMost, Below, put_index-Fits, AtMost-same_last, AtMost-refl, join, index_at-join,
  join-Fits,
}
use dim_os.Vmm.Tables.{
  behind, table_at, frame_of, translate, table_at-Agree, table_at-behind, translate-behind,
  translate-none, none_further, Extends, Extends-refl,
}
use dim_os.Vmm.Create.{CanMake, Made, table_memory-Made}
use dim_os.Vmm.Search.{makes, Ready, Ready-less, NoneFrom, Searches, Reached}
use dim_os.Vmm.Step.{
  onward, way, onward-Fits, onward-Agree, way_at, path-Agree, page-IsFound, answer-IsRound, IsRound,
  answer,
}

none_Below : (h l : ℕ) (o o' : IndexOffset) → h ≡ 0 → ¬ (Below h l o o')
unfolding Below
none_Below zero l o o' e below = omega (arith, below)
none_Below (suc h) l o o' e below = omega (arith, e)

-- A round in the table of `path` at level `l`, with `h` levels behind it, at entry `i`.
module _ {hhdm : ℕ} {scheme : AllocScheme} {h l : ℕ} {path orig : IndexOffset} {s : Vmm} {i : ℕ}
    {curr : IndexOffset} (r : Reached hhdm scheme h l path orig s i curr) where
  module _ (p : ℕ) (at : table_at s l path ≡ some p) where
    on_path : (o : IndexOffset) → Agree l path o → table_at s l o ≡ some p
    on_path o same = sym (table_at-Agree s l path o same) ∙ at

    -- In the last level the entry decides.
    last_frame :
        l ≡ 3
        → (o : IndexOffset) → Agree l path o
        → index_at o l ≡ i
        → translate s o ≡ frame_of ((s.tables p).entries i)
    last_frame last o same here =
        translate-behind s p o (subst (λ z. table_at s z o ≡ some p) last (on_path o same))
        ∙ ap (λ j. frame_of ((s.tables p).entries j)) (ap (index_at o) (sym last) ∙ here)

    last_taken :
        l ≡ 3 → is_present ((s.tables p).entries i) ≡ true → IsRound r (Round.next (onward r) s)
    last_taken last here = (
      refl,
      (onward-Fits r),
      (onward-Agree r),
      λ o fo same least at_i wanted. none_ne_some (
          sym wanted.0
          ∙ last_frame last o same at_i
          ∙ ap (λ b. if b then some (get_physical_addr ((s.tables p).entries i)) else none) here),
    )

    last_free :
        l ≡ 3
        → is_present ((s.tables p).entries i) ≡ false
        → IsRound r (Round.found (put_index (onward r) l i) s)
    last_free last absent =
        page-IsFound r s (Extends-refl hhdm s r.valid) (λ no_making. refl) (onward r) s
          (record {
            extends = Extends-refl hhdm s r.valid;
            fits = (onward-Fits r);
            from = AtMost-refl h (suc l) (onward r);
            has_table = λ o joins lost. none_ne_some (
                sym lost
                ∙ subst (λ z. table_at s z o ≡ some p) last (on_path o (path-Agree r o joins.1)));
            no_frame = λ o joins.
                last_frame last o (path-Agree r o joins.1) (
                  sym (joins.1 l (omega arith))
                  ∙ ground (arith, way_at r l (omega (arith, r.levels))))
                ∙ rw absent refl;
            unchanged = λ no_making. refl;
            none_before = λ o fo same least below.
                absurd (none_Below h (suc l) o (onward r) (omega (arith, last, r.levels)) below);
          })

    -- Above it, no page behind an entry that is absent has a table.
    absent_none :
        is_present ((s.tables p).entries i) ≡ false
        → l < 3
        → (o : IndexOffset) → Agree l path o
        → index_at o l ≡ i
        → table_at s 3 o ≡ none
    absent_none absent up o same here =
        none_further s (suc l) 3 o (omega (arith, up)) (
          table_at-behind s l p o (on_path o same) ∙ ap (behind (s.tables p)) here ∙ rw absent refl)

    skipped :
        is_present ((s.tables p).entries i) ≡ false
        → l < 3
        → makes scheme ≡ false
        → IsRound r (Round.next (onward r) s)
    skipped absent up no_making = (
      refl,
      (onward-Fits r),
      (onward-Agree r),
      λ o fo same least here wanted. wanted.1 no_making (absent_none absent up o same here),
    )

    -- Where the table was made, a page behind it can be taken.
    no_miss :
        (s1 : Vmm)
        → is_present ((s.tables p).entries i) ≡ false
        → l < 3
        → makes scheme ≡ true
        → Extends hhdm s s1
        → NoneFrom scheme h (suc l) s1 (way r) (onward r)
        → s1 ≡ s
    no_miss s1 absent up making e nothing =
        let o = join (suc l) (way r) (onward r) in
        let fo =
          join-Fits (suc l) (way r) (onward r) (put_index-Fits path l i r.path_fits r.inside)
            (onward-Fits r) in
        let here : index_at o l ≡ i = ground (
          arith,
          index_at-join (suc l) l (way r) (onward r) (omega (arith, r.levels)),
          way_at r l (omega (arith, r.levels)),
        ) in
        let same : Agree (suc l) (way r) o = λ m less.
          ground
            (arith, index_at-join (suc l) m (way r) (onward r) (omega (arith, less, up)), less) in
        let least : AtMost h (suc l) (onward r) o =
          AtMost-same_last h (suc l) (onward r) (onward r) o (omega (arith, r.levels))
            (λ m a b. ground (arith, index_at-join (suc l) m (way r) (onward r) b, a))
            (AtMost-refl h (suc l) (onward r)) in
        absurd (
          nothing o fo same least (
            e.same_map o fo
                ∙ translate-none s o (absent_none absent up o (path-Agree r o same) here),
            λ no_making. absurd (cc (making, no_making)),
          ))

    -- The whole round.
    module _ (first_pages : Vmm → Option (IndexOffset × Vmm)) (original : IndexOffset)
        (child : ℕ → IndexOffset → Vmm → Option (Bool × IndexOffset × Vmm))
        (searches : l < 3 → Searches hhdm scheme h (suc l) child) (ready : Ready scheme h s) where
      descend_answer :
          (s1 : Vmm) (q : ℕ)
          → l < 3
          → Extends hhdm s s1
          → (makes scheme ≡ false → s1 ≡ s)
          → (NoneFrom scheme h (suc l) s1 (way r) (onward r) → s1 ≡ s)
          → (s1.tables p).next_tables i ≡ some q
          → table_at s1 (suc l) (way r) ≡ some q
          → Ready scheme (h - 1) s1
          → IsRound r (descend child l p i (onward r) s1)
      unfolding descend
      descend_answer s1 q up made kept same next there enough =
          let (out, gives, good) =
            searches up q (way r) (onward r) s1 made.valid
              (put_index-Fits path l i r.path_fits r.inside) (onward-Fits r) there enough in
          let whole : descend child l p i (onward r) s1 ≡ answer r out =
            rw (descend, next, gives) refl in
          subst (IsRound r) (sym whole) (answer-IsRound r s1 out made kept same good)

      round_present :
          l < 3
          → is_present ((s.tables p).entries i) ≡ true
          → IsRound r (round hhdm first_pages scheme child original l p i curr s)
      unfolding round
      round_present up here =
          let on : table_at s l (way r) ≡ some p =
            on_path (way r)
              (λ m less. ground (arith, way_at r m (omega (arith, less, r.levels)), less)) in
          let at_i : index_at (way r) l ≡ i =
            ground (arith, way_at r l (omega (arith, r.levels))) in
          let (q, next) =
            r.valid.linked l p (way r) up (put_index-Fits path l i r.path_fits r.inside) on
              (ap (λ j. is_present ((s.tables p).entries j)) at_i ∙ here) in
          let known : (s.tables p).next_tables i ≡ some q =
            ap (s.tables p).next_tables (sym at_i) ∙ next in
          let there : table_at s (suc l) (way r) ≡ some q =
            table_at-behind s l p (way r) on
            ∙ ap (behind (s.tables p)) at_i
            ∙ rw (here, known) refl in
          let not_last : (l == 3) ≡ false = ground (arith, up) in
          let whole : round hhdm first_pages scheme child original l p i curr s
              ≡ descend child l p i (onward r) s =
            rw (round, not_last, here) refl in
          subst (IsRound r) (sym whole) (
            descend_answer s q up (Extends-refl hhdm s r.valid) (λ no_making. refl)
              (λ nothing. refl) known there (Ready-less scheme h s ready))

      round-Made :
          AllocScheme.use_pmm ≡ scheme
          → l < 3
          → is_present ((s.tables p).entries i) ≡ false
          → Made hhdm l p (h - 1) first_pages original (way r) s i
          → IsRound r (round hhdm first_pages scheme child original l p i curr s)
      unfolding round Made
      round-Made e up absent (q, paddr, s0, memory, (extends, next, there, blank, more)) =
          let s1 = link_table hhdm original l p i q paddr s0 in
          let not_last : (l == 3) ≡ false = ground (arith, up) in
          let whole : round hhdm first_pages scheme child original l p i curr s
              ≡ descend child l p i (onward r) s1 =
            rw (round, not_last, absent, sym e, memory) refl in
          subst (IsRound r) (sym whole) (
            descend_answer s1 q up extends (λ no_making. absurd (cc (ap makes (sym e), no_making)))
              (no_miss s1 absent up (ap makes (sym e)) extends) next
              (there (way r) (λ m less. refl)) (subst (λ z. Ready z (h - 1) s1) e more))

      round_absent :
          (sc : AllocScheme)
          → sc ≡ scheme
          → l < 3
          → is_present ((s.tables p).entries i) ≡ false
          → IsRound r (round hhdm first_pages scheme child original l p i curr s)
      unfolding round
      round_absent AllocScheme.no_alloc e up absent =
          let not_last : (l == 3) ≡ false = ground (arith, up) in
          let whole : round hhdm first_pages scheme child original l p i curr s
              ≡ Round.next (onward r) s =
            rw (round, not_last, absent, sym e) refl in
          subst (IsRound r) (sym whole) (skipped absent up (ap makes (sym e)))
      round_absent AllocScheme.use_vmm e up absent =
          absurd (omega (arith, subst (λ z. Ready z h s) (sym e) ready))
      round_absent AllocScheme.use_pmm e up absent =
          let not_last : (l == 3) ≡ false = ground (arith, up) in
          let at_i : index_at (way r) l ≡ i =
            ground (arith, way_at r l (omega (arith, r.levels))) in
          let on : table_at s l (way r) ≡ some p =
            on_path (way r)
              (λ m less. ground (arith, way_at r m (omega (arith, less, r.levels)), less)) in
          let frames : CanMake (suc (h - 1)) s.frames =
            subst (λ z. Ready z (suc (h - 1)) s) (sym e)
              (subst (λ n. Ready scheme n s) (omega (arith, r.levels, up)) ready) in
          let made =
            table_memory-Made hhdm l p (h - 1) first_pages original (way r) s r.valid
              (put_index-Fits path l i r.path_fits r.inside) up on
              (ap (λ j. is_present ((s.tables p).entries j)) at_i ∙ absent) frames in
          round-Made e up absent
            (subst (λ j. Made hhdm l p (h - 1) first_pages original (way r) s j) at_i made)

      pub round-IsRound : IsRound r (round hhdm first_pages scheme child original l p i curr s)
      unfolding round
      round-IsRound = elim (ℕ_discrete l 3) [
        | yes last ↦ elim (Bool-cases (is_present ((s.tables p).entries i))) [
          | inl here ↦
              let is_last : (l == 3) ≡ true = ground (arith, last) in
              let whole : round hhdm first_pages scheme child original l p i curr s
                  ≡ Round.next (onward r) s =
                rw (round, is_last, here) refl in
              subst (IsRound r) (sym whole) (last_taken last here)
          | inr absent ↦
              let is_last : (l == 3) ≡ true = ground (arith, last) in
              let whole : round hhdm first_pages scheme child original l p i curr s
                  ≡ Round.found (put_index (onward r) l i) s =
                rw (round, is_last, absent) refl in
              subst (IsRound r) (sym whole) (last_free last absent)
        ]
        | no up ↦ elim (Bool-cases (is_present ((s.tables p).entries i))) [
          | inl here ↦ round_present (omega (arith, r.levels, up)) here
          | inr absent ↦ round_absent scheme refl (omega (arith, r.levels, up)) absent
        ]
      ]
