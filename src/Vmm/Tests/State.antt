-- ===== src/Vmm/Tests/State.antt =====
-- Concrete states of the virtual memory manager.
use dim_os.Common.{
  ℕ, zero, suc, ◌+◌, ◌≡◌, refl, sym, ◌∙◌, arith, none, some, ◌==◌, if◌then◌else◌, none_ne_some,
}
use dim_os.Pmm.{Pmm, bitmap_is_set}
use dim_os.Pmm.Valid
use dim_os.Pmm.Runs.{FreeRun}
use dim_os.Paging.{IndexOffset}
use dim_os.Paging.Entry.{Table, is_present, test_flag, get_level}
use dim_os.Vmm.{Vmm}
use dim_os.Vmm.Tables.{table_at, IsValid}
use dim_os.Vmm.Create.{CanMake, CanMake-run}

abbrev pub hhdm : ℕ
hhdm = 0xffff800000000000

-- 128 frames, of which the first four are in use.
abbrev four_used : Pmm
four_used = record {
  memory_size = 524288;
  usedframes = 4;
  frame_cnt = 128;
  bitmap_addr = 4096;
  bitmap = λ i. if i == 0 then 15 else 0;
}

four_used-IsValid : Valid.IsValid four_used
unfolding bitmap_is_set
four_used-IsValid = omega arith

rest_free : FreeRun four_used.bitmap 64 6
unfolding bitmap_is_set
rest_free zero h = refl
rest_free (suc zero) h = refl
rest_free (suc (suc zero)) h = refl
rest_free (suc (suc (suc zero))) h = refl
rest_free (suc (suc (suc (suc zero)))) h = refl
rest_free (suc (suc (suc (suc (suc zero))))) h = refl
rest_free (suc (suc (suc (suc (suc (suc g)))))) h = absurd (omega (arith, h))

pub three_tables : CanMake 3 four_used
three_tables =
    CanMake-run 3 64 four_used four_used-IsValid refl (omega arith) (omega arith) (omega arith)
      rest_free

abbrev no_table : Table
no_table = record { entries = λ i. record { word = 0 }; next_tables = λ i. none }

-- The topmost table is in frame 2, and no entry is present.
abbrev pub blank : Vmm
blank = record {
  pml4 = hhdm + 8192;
  tables = λ p. no_table;
  available_lh = 0;
  available_hh = 0;
  usage = record { start = 8192; size = 8192 };
  frames = four_used;
}

blank-none : (l : ℕ) (o : IndexOffset) → table_at blank (suc l) o ≡ none
unfolding table_at is_present test_flag
blank-none zero o = refl
blank-none (suc l) o = rw (table_at, blank-none l o) refl

blank_root : (l p : ℕ) (o : IndexOffset) → table_at blank l o ≡ some p → (l ≡ 0) × (p ≡ hhdm + 8192)
unfolding table_at
blank_root zero p o at = (refl, cc at)
blank_root (suc l) p o at = absurd (none_ne_some (sym (blank-none l o) ∙ at))

pub blank-IsValid : IsValid hhdm blank
unfolding is_present test_flag get_level bitmap_is_set
blank-IsValid = record {
  leveled = λ l p o h f at. sym ((blank_root l p o at).0);
  linked = λ l p o h f at here. absurd (cc here);
  apart = λ l m p o o' hl hm f f' at at'.
      let (e, root) = blank_root l p o at in
      let (e', root') = blank_root m p o' at' in
      (e ∙ sym e', λ k less. absurd (omega (arith, e, less)));
  owned = λ l p o h f at. (2, (blank_root l p o at).1, omega arith, refl);
  frames_valid = four_used-IsValid;
  offset = omega arith;
}
