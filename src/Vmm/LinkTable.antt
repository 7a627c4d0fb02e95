-- ===== src/Vmm/LinkTable.antt =====
-- What `link_table` writes: the new table, the entry and the pointer to the table.
use dim_os.Common.{
  ℕ, suc, ◌+◌, ◌<◌, ◌≡◌, ◌≢◌, refl, sym, ap, ◌∙◌, inl, inr, Bool, true, false, ◌==◌, leb,
  if◌then◌else◌, update, update_self, update_ne, arith, Bool-cases, some,
}
use dim_os.Paging.{IndexOffset, get_virtual_addr}
use dim_os.Paging.Entry.{Entry, Table, is_present, get_level, table_init}
use dim_os.Paging.Entry.Present.{
  present_flags_first, level_flags_first, get_level-update, get_level_same, table_init_lem,
}
use dim_os.Vmm.{Vmm, mapped, put_entry, count_pages, link_table}
use dim_os.Vmm.Link.{IsLinked}

-- The count of pages does not touch the tables.
count_pages_keeps :
    (hhdm : ℕ) (original : IndexOffset) (b : Bool) (s : Vmm)
    → let s' = if b then count_pages hhdm original s else s in
      (s'.tables ≡ s.tables) × (s'.frames ≡ s.frames) × (s'.pml4 ≡ s.pml4)
unfolding count_pages
count_pages_keeps hhdm original false s = (refl, refl, refl)
count_pages_keeps hhdm original true s = elim (Bool-cases (leb hhdm (get_virtual_addr original))) [
  | inl high ↦ rw high (refl, refl, refl)
  | inr low ↦ rw low (refl, refl, refl)
]

-- The tables behind a new link, as functions.
module _ (tables : ℕ → Table) (p i q level : ℕ) (e : Entry → Entry) where
  abbrev with_new : ℕ → Table
  with_new = update tables q (table_init (tables q) (level + 1))

  abbrev with_entry : ℕ → Table
  with_entry =
      update with_new p (record (with_new p) {
        entries = update (with_new p).entries i (e ((with_new p).entries i));
      })

  abbrev pub with_link : ℕ → Table
  with_link =
      update with_entry p
        (record (with_entry p) { next_tables = update (with_entry p).next_tables i (some q) })

  module _ (apart : q ≢ p) where
    parent : with_link p ≡ record {
      entries = update (tables p).entries i (e ((tables p).entries i));
      next_tables = update (tables p).next_tables i (some q);
    }
    parent =
        let first : with_new p ≡ tables p = update_ne tables q p _ apart in
        let second : with_entry p ≡ record (tables p) {
          entries = update (tables p).entries i (e ((tables p).entries i));
        } =
          update_self with_new p _
          ∙ ap (λ (t : Table). record t { entries = update t.entries i (e (t.entries i)) }) first in
        update_self with_entry p _
        ∙ ap (λ (t : Table). record t { next_tables = update t.next_tables i (some q) }) second

    new_one : with_link q ≡ table_init (tables q) (level + 1)
    new_one =
        update_ne with_entry p q _ (λ h. apart (sym h))
        ∙ update_ne with_new p q _ (λ h. apart (sym h))
        ∙ update_self tables q _

    the_rest : (x : ℕ) → p ≢ x → q ≢ x → with_link x ≡ tables x
    the_rest x no_p no_q =
        update_ne with_entry p x _ no_p
        ∙ update_ne with_new p x _ no_p
        ∙ update_ne tables q x _ no_q

-- The state behind `link_table`.
pub link_table-tables :
    (hhdm level p i q paddr : ℕ) (original : IndexOffset) (s : Vmm)
    → let s' = link_table hhdm original level p i q paddr s in
      (s'.tables ≡ with_link s.tables p i q level (λ x. mapped x paddr))
      × (s'.frames ≡ s.frames)
      × (s'.pml4 ≡ s.pml4)
unfolding link_table put_entry
link_table-tables hhdm level p i q paddr original s =
    let tables = with_link s.tables p i q level (λ x. mapped x paddr) in
    count_pages_keeps hhdm original (get_level (tables q) == 3) (record s { tables = tables })

pub link_table-IsLinked :
    (hhdm l p i q paddr : ℕ) (original : IndexOffset) (s s0 : Vmm)
    → q ≢ p
    → l < 3
    → s0.tables ≡ s.tables
    → s0.pml4 ≡ s.pml4
    → IsLinked s (link_table hhdm original l p i q paddr s0) l p i q
link_table-IsLinked hhdm l p i q paddr original s s0 apart high same_tables same_root =
    let e = λ (x : Entry). mapped x paddr in
    let s' = link_table hhdm original l p i q paddr s0 in
    let (all, frames, root) = link_table-tables hhdm l p i q paddr original s0 in
    let tables : s'.tables ≡ with_link s.tables p i q l e =
      all ∙ ap (λ t. with_link t p i q l e) same_tables in
    let at_p : s'.tables p ≡ _ = ap (λ t. t p) tables ∙ parent s.tables p i q l e apart in
    let at_q : s'.tables q ≡ table_init (s.tables q) (l + 1) =
      ap (λ t. t q) tables ∙ new_one s.tables p i q l e apart in
    let next : l + 1 ≡ suc l = omega arith in
    let (known, blank) = table_init_lem (s.tables q) (l + 1) (omega (arith, high)) in
    let old = (s.tables p).entries i in
    record {
      same_pml4 = root ∙ same_root;
      other_tables =
          λ x no_p no_q. ap (λ t. t x) tables ∙ the_rest s.tables p i q l e apart x no_p no_q;
      other_entries =
          λ j ne. ap (λ (t : Table). t.entries j) at_p ∙ update_ne (s.tables p).entries i j _ ne;
      other_next = λ j ne.
          ap (λ (t : Table). t.next_tables j) at_p ∙ update_ne (s.tables p).next_tables i j _ ne;
      same_level =
          ap get_level at_p
          ∙ get_level-update
              (record (s.tables p) { next_tables = update (s.tables p).next_tables i (some q) }) i
              (e old) (level_flags_first old paddr).0 (level_flags_first old paddr).1
          ∙ get_level_same (s.tables p)
              (record (s.tables p) { next_tables = update (s.tables p).next_tables i (some q) })
              refl refl;
      now_present =
          ap (λ (t : Table). is_present (t.entries i)) at_p
          ∙ ap is_present (update_self (s.tables p).entries i (e old))
          ∙ present_flags_first old paddr;
      now_behind =
          ap (λ (t : Table). t.next_tables i) at_p
          ∙ update_self (s.tables p).next_tables i (some q);
      new_level = ap get_level at_q ∙ known ∙ next;
      empty = λ j h. ap (λ (t : Table). is_present (t.entries j)) at_q ∙ blank j h;
    }
