-- ===== src/Lib.antt =====
-- DimOS, a small x86-64 kernel in C++: a model of its own logic, and the theorems about it.
--
-- Common holds what the other modules share: Boolean tests, lists with native lengths, 64-bit
-- words, bits of a word, and memory as a function from an index to a value; a signed integer is
-- of a type of its own. A function of the source has its name in snake case (initRegion is
-- init_region), and a class is a record that the operations take and return.
--
-- Pmm (kernel/kernel/memory/pmm.cpp, kernel/include/kernel/memory/pmm.h): the physical memory
-- manager, with each loop a function of its own by the rounds left, so that no fuel is needed.
-- The memory map of the boot loader is the argument of init. Pmm/Bitmap has the laws of the
-- bitmap and the count of its members, Pmm/Valid the invariant, Pmm/FirstFree and Pmm/Runs the
-- two searches, Pmm/Regions the loops over a range of frames, Pmm/Alloc and Pmm/AllocRun the
-- allocations and freeFrame, Pmm/Ranges and Pmm/Init the initialisation.
--
-- Process (kernel/include/kernel/process/kthread.h, kernel/include/kernel/process/scheduler.h,
-- kernel/kernel/process/kthread.cpp): the states of kernel threads, getNext of the round-robin
-- scheduler, the switch of threads and the save of registers. The global kthreads and
-- currKThreadIdx are arguments; a panic is none. Each loop is bounded by the number of tasks,
-- as in the source. Process/Search is about the search for the next task, Process/Remove about
-- the removal of a completed one, Process/Next about getNext, Process/Switch about the switch.
-- The stack and the file descriptors of a thread, and the return to it in assembly, are not
-- modelled.
--
-- Sync (kernel/kernel/concurrency/primitives.cpp,
-- kernel/include/kernel/concurrency/primitives.h): the mutex, twice. A step of Move is one read
-- or write of flag, one write or compare-and-swap of lock, one call on the queue or one change
-- of a state, in the order of acquireLock and releaseLock, so that Step and Reach are all
-- interleavings of any number of threads; Sync/Mutex is about them, on the invariant of
-- Sync/Family, and Sync/Release about a release while a thread is queued. The functions
-- release_lock, notify_one and notify_all are the calls of one thread that nobody interrupts,
-- where none is the endless spin on a guard that is taken. A call that can park is a Call: it
-- returns, or it parks with the rest of the call, which goes on in whatever state the thread
-- runs again; acquire_lock, wait, sem_wait and sem_post are such calls, composed by and_then.
-- Their loops go by rounds, one for each time the thread runs again, and out of rounds they are
-- stuck; the theorems give enough rounds for the part of the call they state. Sync/Calls is
-- about these.
--
-- Heap (kernel/kernel/memory/heap.cpp, kernel/include/kernel/memory/heap.h,
-- kernel/kernel/memory/kheap.cpp): the free list of kmalloc, with the headers in memory as
-- functions from an address to a field. A walk of the list has fuel, and more fuel than blocks
-- is enough; the retry of alloc has tries, of which two are enough; none means that one of
-- these ran out. The pages of the virtual memory manager are a parameter of alloc, and the
-- theorem about alloc says where they must lie. Heap/Chain says that the pointers hold a list
-- of blocks, in order and none touching the next; Heap/Insert is the insertion into such a
-- list, which Heap/Place, Heap/Link and Heap/Release relate to addNode; Heap/Free is about free
-- and addMemory; Heap/Scan, Heap/Take and Heap/Alloc are about the search of alloc and the
-- block that it takes off the list; Heap/Retry is about the retry, and about a block that is
-- given back.
--
-- Vector (kernel/include/kernel/cpp/vector.hpp): the growing array, as a function from an index
-- to an element with a size and a capacity. The memory that the allocator gives is a parameter,
-- and its content is arbitrary; a failed assertion is none; sizes are below the range of int.
-- Vector/Loops is about the loops over the buffer, Vector/Grow about the operations that change
-- the size, Vector/Order about those that search or move elements. Process and Sync use lists
-- for vectors.
--
-- Paging (kernel/include/kernel/memory/vmm.h): the four table indices of a virtual address,
-- with getVirtualAddr, getIndexOffset and nextPage. A shift is a product or a quotient, a mask
-- of nine bits a remainder, and the | of the source is the bitwise one. Paging/Index shows that
-- indices and addresses stand for each other. Paging/Entry has the entries and tables of
-- kernel/include/kernel/memory/paging.h, where a flag is a power of two and a complement is
-- taken in 64 bits; Paging/Entry/Laws is about their bits.
--
-- Bitset (kernel/include/kernel/cpp/bitset.hpp): the set of bits over a Vector of words; a mask
-- of one bit is a power of two. Bitset/Laws is about one bit after an operation.
--
-- RamDisk (kernel/kernel/filesystem/ramdisk.cpp, kernel/include/kernel/filesystem/ramdisk.h,
-- kernel/include/kernel/filesystem/resource.h): the file system in memory. The nodes and the
-- bytes of the blocks are functions, a pointer to a block is its number, and the set of blocks
-- in use is a Bitset. Each loop is bounded as in the source, so no fuel is needed; -1 for no
-- free block or node is none. The sizes are those of uint32_t, in which nothing here overflows,
-- since a file has at most 5120 bytes. RamDisk/Valid is the invariant, that no block belongs to
-- two places; RamDisk/Written relates the disk before and after a run of bytes, which
-- RamDisk/Grow, RamDisk/Copy and RamDisk/Fill build up for one block; RamDisk/Write,
-- RamDisk/Read, RamDisk/Create and RamDisk/Remove are about the operations. The directory
-- operations of the class are not modelled.
--
-- Printf (libc/stdio/printf.c, libc/stdio/putchar.c, libc/stdio/puts.c): formatted output, as
-- the list of bytes that go out. The arrays on the stack have any content, and a write or read
-- outside them, a missing argument or a signed overflow has no result. The rounds of the loop
-- of printf are one more than the format is long, and the calls of printf from the functions
-- that print numbers need a depth of two. Printf/Numeral is about the loop of the digits,
-- Printf/Literal about copied characters, Printf/Numbers about the functions that print
-- numbers, Printf/Render says what a format means, Printf/Scan relates printf to it, and
-- Printf/Readback reads the numbers back.
--
-- Keyboard (kernel/kernel/devices/keyboard.cpp, kernel/include/kernel/devices/keyboard.h): the
-- keyboard as a function of the bytes that the interrupt handler reads from the ports; the key
-- that it writes to standard input is part of its result, and a read behind the table of keys
-- is none. Keyboard/Codes is the table, Keyboard/Keys says where the modifier keys stand in it,
-- Keyboard/Modifiers is about whole runs of codes, Keyboard/Ascii about the translation to
-- characters.
--
-- CString (libc/string): the routines on bytes, with memory as a function from addresses to
-- bytes. The loop of strlen has rounds, and more rounds than the string is long are enough.
-- CString/Copying is about the routines that write, CString/Comparing about memcmp.
--
-- Vmm (kernel/kernel/memory/vmm.cpp, kernel/include/kernel/memory/vmm.h): the virtual memory
-- manager. The page tables are memory by the pointer to a table, hhdm is HHDMOffset, and the
-- manager of the frames is part of the state; a null pointer that is followed has no result.
-- getFirstUnallocPageUtil is first_page_util, by the depth of its calls of itself, of which
-- four are enough for four levels; round is the body of its loop. getFirstNUnallocPage has
-- rounds, and as many rounds as there are pages up to the run are enough; a search that finds
-- no run does not end in the source, nor does the model then have a result. The count of pages
-- asked for is not negative. Vmm/Offsets orders the pages by their indices; Vmm/Tables has the
-- map from pages to frames and the invariant; Vmm/LinkTable, Vmm/Link and Vmm/Create are about
-- a new table; Vmm/Search says what the search promises, Vmm/Step, Vmm/Rounds and Vmm/Result
-- are about a round, a table and the whole search. Vmm/Pages has the operations on pages: its
-- children Runs and FirstRun are about runs of free pages, Assign and Framed about one entry,
-- Backed and Alloc about allocPages, Free and Return about freePage. Vmm/Setup is VMM::init.
-- The theorems do not cover the search with USE_VMM, nor init.
--
-- String (kernel/include/kernel/cpp/string.hpp): strings, with the vector of their characters
-- as a list that ends with the terminating 0; npos is none, and so is a read behind the buffer.
-- The loop of split has a round for each character and one more, which is enough, and stoi has
-- ten rounds, which are enough for an int. String/Cells is about substr, String/Split about
-- find, String/Pieces about split, String/Text about the operations that change a string.
--
-- Not modelled: the virtual file system and the directories of the RAM disk, the other drivers.
-- Assembly, descriptor tables, pixels and the demonstration programs are not part of the model.
pub mod Common
pub mod Pmm
pub mod Process
pub mod Sync
pub mod Heap
pub mod Vector
pub mod Paging
pub mod Bitset
pub mod RamDisk
pub mod Printf
pub mod Keyboard
pub mod CString
pub mod Vmm
pub mod String
