-- ===== src/Paging/Entry.antt =====
-- kernel/include/kernel/memory/paging.h: the entries and the tables of paging.
pub mod Laws
pub mod Present
pub mod Address
use dim_os.Common.{
  ℕ, zero, suc, ◌+◌, ◌-◌, ◌*◌, ◌/◌, ◌%◌, ◌^◌, Bool, true, false, not, ◌==◌, if◌then◌else◌, update,
  two_64, bit_and, bit_or, Option, none,
}
use dim_os.Paging.{entry_cnt}

-- `FlagOffset`
pub data FlagOffset : Type 0 where
  present_flag writable user_accessible caching disable_cache accessed dirty huge_page : FlagOffset
  global_flag no_execute table_level table_level_2 : FlagOffset

abbrev pub offset_of : FlagOffset → ℕ
offset_of FlagOffset.present_flag = 0
offset_of FlagOffset.writable = 1
offset_of FlagOffset.user_accessible = 2
offset_of FlagOffset.caching = 3
offset_of FlagOffset.disable_cache = 4
offset_of FlagOffset.accessed = 5
offset_of FlagOffset.dirty = 6
offset_of FlagOffset.huge_page = 7
offset_of FlagOffset.global_flag = 8
offset_of FlagOffset.no_execute = 63
offset_of FlagOffset.table_level = 9
offset_of FlagOffset.table_level_2 = 10

abbrev pub physical_addr_mask : ℕ
physical_addr_mask = 0x000ffffffffff000

-- `Entry`, as its `data`.
pub record Entry : Type 0 where
  pub word : ℕ

pub set_flags : Entry → ℕ → Entry
set_flags e flags = record { word = bit_or e.word flags }

-- `removeFlags`: the complement in 64 bits.
pub remove_flags : Entry → ℕ → Entry
remove_flags e flags = record { word = bit_and e.word (two_64 - 1 - flags) }

unfoldable pub test_flag : Entry → FlagOffset → Bool
test_flag e flag = not (bit_and (e.word / 2 ^ offset_of flag) 1 == 0)

unfoldable pub get_physical_addr : Entry → ℕ
get_physical_addr e = bit_and e.word physical_addr_mask

pub set_physical_adr : Entry → ℕ → Entry
set_physical_adr e addr = record {
  word = bit_or (remove_flags e physical_addr_mask).word (bit_and addr physical_addr_mask);
}

unfoldable pub is_present : Entry → Bool
is_present e = test_flag e FlagOffset.present_flag

pub is_writeable : Entry → Bool
is_writeable e = test_flag e FlagOffset.writable

-- `Table`: its entries, and the tables behind them by number.
pub record Table : Type 0 where
  pub entries : ℕ → Entry
  pub next_tables : ℕ → Option ℕ

-- A flag as a number.
abbrev pub flag_bit : Entry → FlagOffset → ℕ
flag_bit e flag = if test_flag e flag then 1 else 0

-- `getLevel`: the two bits of the level in the first entry.
unfoldable pub get_level : Table → ℕ
get_level t =
    flag_bit (t.entries 0) FlagOffset.table_level
    + flag_bit (t.entries 0) FlagOffset.table_level_2 * 2

pub set_level : Table → ℕ → Table
set_level t level = record t {
  entries = update t.entries 0 (
      set_flags
        (remove_flags (t.entries 0)
          (bit_or (2 ^ offset_of FlagOffset.table_level) (2 ^ offset_of FlagOffset.table_level_2)))
        (level * 2 ^ offset_of FlagOffset.table_level % two_64));
}

-- The loop of `Table::init`, by the entries left.
pub clear_loop : ℕ → ℕ → Table → Table
clear_loop zero i t = t
clear_loop (suc rounds) i t = clear_loop rounds (i + 1) (record {
  entries = update t.entries i (record { word = 0 });
  next_tables = update t.next_tables i none;
})

pub table_init : Table → ℕ → Table
table_init t level = set_level (clear_loop entry_cnt 0 t) level
