-- ===== src/Paging/Tests.antt =====
-- The theorems about indices at the last page of the lower half.
use dim_os.Common.{◌^◌, ◌≡◌, arith}
use dim_os.Common.{◌-◌, none}
use dim_os.Paging.Entry.{Entry, Table}
use dim_os.Paging.{IndexOffset, get_virtual_addr, get_index_offset}
use dim_os.Paging.Index.{IsValid, get_index_offset-get_virtual_addr}

abbrev low_end : IndexOffset
low_end = record { i0 = 255; i1 = 511; i2 = 511; i3 = 511 }

low_end-IsValid : IsValid low_end
low_end-IsValid = record { h0 = omega arith; h1 = omega arith; h2 = omega arith; h3 = omega arith }

get_index_offset-get_virtual_addr_example : get_index_offset (get_virtual_addr low_end) ≡ low_end
get_index_offset-get_virtual_addr_example =
    get_index_offset-get_virtual_addr low_end low_end-IsValid

abbrev full_entry : Entry
full_entry = record { word = 2 ^ 64 - 1 }

abbrev full_table : Table
full_table = record { entries = λ i. full_entry; next_tables = λ i. none }
