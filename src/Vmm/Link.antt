-- ===== src/Vmm/Link.antt =====
-- A new, empty table put behind an entry.
use mathlib.Core.Path.{subst}
use native.Mathlib.Decide.{ℕ_discrete}
use dim_os.Common.{
  ℕ, zero, suc, ◌<◌, ◌≡◌, ◌≢◌, ◌⊎◌, inl, inr, refl, sym, ap, ◌∙◌, true, false, arith, none, some,
  Option-cases, none_ne_some,
}
use dim_os.Pmm.{bitmap_is_set}
use dim_os.Pmm.Valid
use dim_os.Paging.{IndexOffset}
use dim_os.Paging.Entry.{Table, is_present, get_level}
use dim_os.Vmm.{Vmm, index_at}
use dim_os.Vmm.Offsets.{Fits, Agree}
use dim_os.Vmm.Tables.{
  behind, table_at, frame_of, translate, Owned, IsValid, table_at-Agree, table_at-behind,
  table_at-none, translate-behind, translate-none, Extends,
}

-- `s'` differs from `s` in that the table `q`, which is empty, is behind entry `i` of `p`.
pub record IsLinked (s s' : Vmm) (l p i q : ℕ) : Type 0 where
  pub same_pml4 : s'.pml4 ≡ s.pml4
  pub other_tables : (x : ℕ) → p ≢ x → q ≢ x → s'.tables x ≡ s.tables x
  pub other_entries : (j : ℕ) → i ≢ j → (s'.tables p).entries j ≡ (s.tables p).entries j
  pub other_next : (j : ℕ) → i ≢ j → (s'.tables p).next_tables j ≡ (s.tables p).next_tables j
  pub same_level : get_level (s'.tables p) ≡ get_level (s.tables p)
  pub now_present : is_present ((s'.tables p).entries i) ≡ true
  pub now_behind : (s'.tables p).next_tables i ≡ some q
  pub new_level : get_level (s'.tables q) ≡ suc l
  pub empty : (j : ℕ) → j < 512 → is_present ((s'.tables q).entries j) ≡ false

module _ (hhdm : ℕ) (s s' : Vmm) (l p q : ℕ) (path : IndexOffset) (v : IsValid hhdm s)
    (fits : Fits path) (high : l < 3) (at : table_at s l path ≡ some p)
    (absent : is_present ((s.tables p).entries (index_at path l)) ≡ false)
    (fresh : (m : ℕ) (o : IndexOffset) → m < 4 → Fits o → table_at s m o ≢ some q)
    (k : IsLinked s s' l p (index_at path l) q) where
  -- A page leads to the new table, or everything is as before.
  Cases : ℕ → IndexOffset → Type 0
  Cases m o =
      (Agree (suc l) path o × (m ≡ suc l) × (table_at s' m o ≡ some q))
      ⊎ ((table_at s' m o ≡ table_at s m o) × (table_at s' m o ≢ some q))

  stays : (m : ℕ) (o : IndexOffset) → m < 4 → Fits o → table_at s' m o ≡ table_at s m o → Cases m o
  unfolding Cases
  stays m o h f same = inr (same, λ e. fresh m o h f (sym same ∙ e))

  agree_more :
      (o : IndexOffset) → Agree l path o → index_at path l ≡ index_at o l → Agree (suc l) path o
  agree_more o agree here m h = elim (ℕ_discrete m l) [
    | yes e ↦ subst (λ z. index_at path z ≡ index_at o z) (sym e) here
    | no ne ↦ agree m (omega (arith, h, ne))
  ]

  -- One level further, from a table that was there.
  step_known :
      (m x : ℕ) (o : IndexOffset)
      → suc m < 4
      → Fits o
      → table_at s m o ≡ some x
      → table_at s' m o ≡ some x
      → q ≢ x
      → Cases (suc m) o
  unfolding Cases
  step_known m x o h f known known' new = elim (ℕ_discrete p x) [
    | no ne ↦ stays (suc m) o h f (
        table_at-behind s' m x o known'
        ∙ ap (λ t. behind t (index_at o m)) (k.other_tables x ne new)
        ∙ sym (table_at-behind s m x o known))
    | yes here ↦
        let at' : table_at s m o ≡ some p = known ∙ ap some (sym here) in
        let at'' : table_at s' m o ≡ some p = known' ∙ ap some (sym here) in
        let (level, agree) =
          v.apart l m p path o (omega (arith, high)) (omega (arith, h)) fits f at at' in
        elim (ℕ_discrete (index_at path l) (index_at o l)) [
          | yes same ↦ inl (
            agree_more o agree same,
            sym (ap suc level),
            table_at-behind s' m p o at''
                ∙ subst (λ j. behind (s'.tables p) j ≡ some q) (same ∙ ap (index_at o) level)
                    (rw k.now_present k.now_behind),
          )
          | no other ↦
              let ne : index_at path l ≢ index_at o m =
                λ e. other (e ∙ ap (index_at o) (sym level)) in
              stays (suc m) o h f (
                table_at-behind s' m p o at''
                ∙ rw (k.other_entries (index_at o m) ne, k.other_next (index_at o m) ne)
                    (sym (table_at-behind s m p o at')))
        ]
  ]

  -- The entry that the new table is behind led nowhere.
  led_nowhere : (o : IndexOffset) → Agree (suc l) path o → table_at s (suc l) o ≡ none
  led_nowhere o agree =
      sym (table_at-Agree s (suc l) path o agree) ∙ table_at-behind s l p path at ∙ rw absent refl

  table_at-Cases : (m : ℕ) (o : IndexOffset) → m < 4 → Fits o → Cases m o
  unfolding table_at Cases
  table_at-Cases zero o h f = stays 0 o h f (ap some k.same_pml4)
  table_at-Cases (suc m) o h f = elim (table_at-Cases m o (omega (arith, h)) f) [
    | inl (agree, level, here) ↦
        let off : behind (s'.tables q) (index_at o m) ≡ none =
          rw (k.empty (index_at o m) (f m)) refl in
        let gone : table_at s (suc m) o ≡ none =
          table_at-none s m o
            (subst (λ z. table_at s z o ≡ none) (sym level) (led_nowhere o agree)) in
        stays (suc m) o h f (table_at-behind s' m q o here ∙ off ∙ sym gone)
    | inr (same, new) ↦ elim (Option-cases (table_at s m o)) [
      | inl gone ↦
          stays (suc m) o h f (table_at-none s' m o (same ∙ gone) ∙ sym (table_at-none s m o gone))
      | inr (x, known) ↦
          step_known m x o h f known (same ∙ known) (λ e. new (same ∙ known ∙ ap some (sym e)))
    ]
  ]

  -- A table of the new state is the new one, or was there before.
  known_before :
      (m x : ℕ) (o : IndexOffset)
      → m < 4
      → Fits o
      → table_at s' m o ≡ some x
      → (Agree (suc l) path o × (m ≡ suc l) × (q ≡ x)) ⊎ ((table_at s m o ≡ some x) × (q ≢ x))
  unfolding Cases
  known_before m x o h f now = elim (table_at-Cases m o h f) [
    | inl (agree, level, here) ↦ inl (agree, level, cc (sym here ∙ now))
    | inr (same, new) ↦ inr (sym same ∙ now, λ e. new (now ∙ ap some (sym e)))
  ]

  -- Another table than `p` and the new one is as it was.
  old_table :
      (m x : ℕ) (o : IndexOffset)
      → m < 4
      → Fits o
      → table_at s m o ≡ some x
      → q ≢ x
      → (p ≡ x) ⊎ (s'.tables x ≡ s.tables x)
  old_table m x o h f known new = elim (ℕ_discrete p x) [
    | yes here ↦ inl here
    | no ne ↦ inr (k.other_tables x ne new)
  ]

  linked_leveled :
      (m x : ℕ) (o : IndexOffset)
      → m < 4
      → Fits o
      → table_at s' m o ≡ some x
      → get_level (s'.tables x) ≡ m
  linked_leveled m x o h f now = elim (known_before m x o h f now) [
    | inl (agree, level, same) ↦
        ap (λ z. get_level (s'.tables z)) (sym same) ∙ k.new_level ∙ sym level
    | inr (known, new) ↦ elim (old_table m x o h f known new) [
      | inl here ↦
          ap (λ z. get_level (s'.tables z)) (sym here)
          ∙ k.same_level
          ∙ ap (λ z. get_level (s.tables z)) here
          ∙ v.leveled m x o h f known
      | inr same ↦ ap get_level same ∙ v.leveled m x o h f known
    ]
  ]

  linked_linked :
      (m x : ℕ) (o : IndexOffset)
      → m < 3
      → Fits o
      → table_at s' m o ≡ some x
      → is_present ((s'.tables x).entries (index_at o m)) ≡ true
      → (y : ℕ) × ((s'.tables x).next_tables (index_at o m) ≡ some y)
  linked_linked m x o h f now on = elim (known_before m x o (omega (arith, h)) f now) [
    | inl (agree, level, same) ↦
        let off : is_present ((s'.tables x).entries (index_at o m)) ≡ false =
          subst (λ z. is_present ((s'.tables z).entries (index_at o m)) ≡ false) same
            (k.empty (index_at o m) (f m)) in
        absurd (cc (on, off))
    | inr (known, new) ↦ elim (old_table m x o (omega (arith, h)) f known new) [
      | inr same ↦
          let (y, known') =
            v.linked m x o h f known
              (ap (λ (t : Table). is_present (t.entries (index_at o m))) (sym same) ∙ on) in
          (y, ap (λ (t : Table). t.next_tables (index_at o m)) same ∙ known')
      | inl here ↦
          subst
            (λ z.
              table_at s m o ≡ some z
              → is_present ((s'.tables z).entries (index_at o m)) ≡ true
              → (y : ℕ) × ((s'.tables z).next_tables (index_at o m) ≡ some y))
            here
            (λ known on. elim (ℕ_discrete (index_at path l) (index_at o m)) [
              | yes same ↦ (q, ap (s'.tables p).next_tables (sym same) ∙ k.now_behind)
              | no ne ↦
                  let (y, known') =
                    v.linked m p o h f known
                      (ap is_present (sym (k.other_entries (index_at o m) ne)) ∙ on) in
                  (y, k.other_next (index_at o m) ne ∙ known')
            ])
            known on
    ]
  ]

  linked_apart :
      (m m' x : ℕ) (o o' : IndexOffset)
      → m < 4
      → m' < 4
      → Fits o
      → Fits o'
      → table_at s' m o ≡ some x
      → table_at s' m' o' ≡ some x
      → (m ≡ m') × Agree m o o'
  linked_apart m m' x o o' h h' f f' now now' = elim (known_before m x o h f now) [
    | inl (agree, level, same) ↦ elim (known_before m' x o' h' f' now') [
      | inl (agree', level', same') ↦ (
        level ∙ sym level',
        λ j lt. sym (agree j (omega (arith, lt, level))) ∙ agree' j (omega (arith, lt, level)),
      )
      | inr (known', new') ↦ absurd (new' same)
    ]
    | inr (known, new) ↦ elim (known_before m' x o' h' f' now') [
      | inl (agree', level', same') ↦ absurd (new same')
      | inr (known', new') ↦ v.apart m m' x o o' h h' f f' known known'
    ]
  ]

  linked_keeps :
      (m x : ℕ) (o : IndexOffset)
      → m < 4
      → Fits o
      → table_at s m o ≡ some x
      → table_at s' m o ≡ some x
  unfolding Cases
  linked_keeps m x o h f known = elim (table_at-Cases m o h f) [
    | inr (same, new) ↦ same ∙ known
    | inl (agree, level, here) ↦ absurd (
        none_ne_some
          (sym (subst (λ z. table_at s z o ≡ none) (sym level) (led_nowhere o agree)) ∙ known))
  ]

  linked_map : (o : IndexOffset) → Fits o → translate s' o ≡ translate s o
  unfolding Cases
  linked_map o f = elim (table_at-Cases 3 o (omega arith) f) [
    | inl (agree, level, here) ↦
        let gone : table_at s 3 o ≡ none =
          subst (λ z. table_at s z o ≡ none) (sym level) (led_nowhere o agree) in
        translate-behind s' q o here
        ∙ rw (k.empty (index_at o 3) (f 3)) refl
        ∙ sym (translate-none s o gone)
    | inr (same, new) ↦ elim (Option-cases (table_at s 3 o)) [
      | inl gone ↦ translate-none s' o (same ∙ gone) ∙ sym (translate-none s o gone)
      | inr (x, known) ↦
          elim (old_table 3 x o (omega arith) f known (λ e. new (same ∙ known ∙ ap some (sym e)))) [
            | inr table_same ↦
                translate-behind s' x o (same ∙ known)
                ∙ ap (λ (t : Table). frame_of (t.entries (index_at o 3))) table_same
                ∙ sym (translate-behind s x o known)
            | inl here ↦ absurd (
                omega (
                  arith,
                  high,
                  (v.apart l 3 p path o (omega (arith, high)) (omega arith) fits f at
                      (known ∙ ap some (sym here))).0,
                ))
          ]
    ]
  ]

  module _ (frames_valid : Valid.IsValid s'.frames) (new_owned : Owned hhdm s' q)
      (grown : (f : ℕ)
        → bitmap_is_set s.frames.bitmap f ≡ true
        → bitmap_is_set s'.frames.bitmap f ≡ true) where
    link_table-Owned :
        (m x : ℕ) (o : IndexOffset) → m < 4 → Fits o → table_at s' m o ≡ some x → Owned hhdm s' x
    link_table-Owned m x o h f now = elim (known_before m x o h f now) [
      | inl (agree, level, same) ↦ subst (Owned hhdm s') same new_owned
      | inr (known, new) ↦
          let (frame, place, small, used) = v.owned m x o h f known in
          (frame, place, small, grown frame used)
    ]

    -- The map from pages to frames is the same behind the new table, and the invariant holds.
    pub IsLinked-Extends : Extends hhdm s s'
    IsLinked-Extends = record {
      valid = record {
        leveled = linked_leveled;
        linked = linked_linked;
        apart = linked_apart;
        owned = link_table-Owned;
        frames_valid = frames_valid;
        offset = v.offset;
      };
      keeps = linked_keeps;
      same_map = linked_map;
    }

    -- The new table is the one that the path leads to.
    pub IsLinked-table_at :
        (o : IndexOffset) → Agree (suc l) path o → table_at s' (suc l) o ≡ some q
    IsLinked-table_at o agree =
        sym (table_at-Agree s' (suc l) path o agree)
        ∙ table_at-behind s' l p path (linked_keeps l p path (omega (arith, high)) fits at)
        ∙ rw k.now_present k.now_behind
