-- ===== src/Lib.antt =====
-- The Athera kernel is a RISC-V operating system in Rust with a few library crates of its own. This
-- library models the parts that keep records of what is free and what is given out: IDs, bits, pages,
-- mappings of memory, the registry of formats by prefix, paths, and the locks and cells around such
-- records. The memory map of a task calls the page tables and the frames, both call the buddy allocator,
-- and a lazy cell is a cell that is set once; the other parts do not call one another.
--
-- crates/athera-id-alloc/src/lib.rs, the allocator for IDs that gives out task IDs. `IdAlloc` hands
-- out single IDs from a flat space (`FlatAlloc`, a table of free intervals) and can take an aligned
-- block of 2^MINOR_BITS IDs out of it as a major, whose IDs are handed out by an allocator of its own.
--   IdAlloc/Id.antt      the trait `Id` for unsigned integers, the masks and the errors
--   IdAlloc/Ranges.antt  the table `ranges` (a BTreeMap from start to end) and its changes;
--                        Spec: when it is well formed; Join: giving back; Cut: taking out
--   IdAlloc/Flat.antt    `FlatAlloc`, method by method; Valid, Ops, Aligned, Blocks: its theorems
--   IdAlloc/Major.antt   `IdAlloc`, method by method; Valid: the invariant and the view of a state as
--                        its vacant IDs; Ops, Least, Majors, Dissolve, Start: each method; Run: sequences
--   IdAlloc/Tests.antt   a small allocator at which the theorems are applied
--
-- crates/athera-bitmap/src/lib.rs, the bitmaps that the file system and others allocate from: `BitMap`,
-- which owns its words and counts the bits that are set, and `BitMapView`, which borrows them.
--   Bitmap/Words.antt    the shared functions on a slice of words; Bits: the row of bits; Count:
--                        counting and runs; Scan, Search: `scan_words`; Runs: `alloc_range_in`
--   Bitmap/Map.antt      `BitMap`; Valid: its invariant; Ops, Alloc, Ranges, Start: its methods
--   Bitmap/View.antt     `BitMapView` and `BitIter`; Ops, Iter: their methods
--   Bitmap/Tests.antt    small maps at which the theorems are applied
-- A word has 64 bits, as `usize` has on the kernel's target. Not modelled: the conversions from bytes
-- and raw pointers, which reinterpret memory.
--
-- crates/athera-trie/src/lib.rs, the prefix tree behind the registry of executable formats.
--   Trie.antt            `Node` and `Trie`, function by function, for keys of numbers
--   Trie/...             Branches: the map of children; Lookup, Remove: one node; Laws: `insert` and
--                        `remove` as updates of a map; Prefix, Contains: the searches by prefix
--   Trie/Tests.antt      a small trie at which the theorems are applied
-- Not modelled: the iterators, and `get_mut`, which hands out a reference into the tree.
--
-- src/mm/allocator/buddy.rs, the allocator of physical pages: eleven lists of free blocks, the block of
-- order k being 2^k pages.
--   Buddy.antt           `BuddyAllocator`, with each `IntrusiveList` as the list of its blocks
--   Buddy/...            Cover: how many free blocks hold an address; Pairs: buddies; Alloc, Dealloc,
--                        Add: the methods
--   Buddy/Tests.antt     one free block at which the theorems are applied
-- Not modelled: the pointers inside the free blocks. A list is one of distinct blocks at addresses other
-- than 0; the code would follow a null pointer or make a cycle for others, and the model does neither.
--
-- crates/athera-rand/src/lib.rs, the fast generator of random numbers (xoshiro256**).
--   Rand.antt            `XoShiro256StarStar` and `splitmix64` on words of 64 bits
--   Rand/...             Nonzero: the states after `seed`; Linear: jumps and steps;
--                        Bytes: what `fill_bytes` writes
--   Rand/Tests.antt      the state 1, 2, 3, 4 at which the theorems are applied
-- Not modelled: `ChaChaRng`, whose methods only call the package rand_chacha.
--
-- src/fs/path.rs, paths as strings of bytes with the separator 47.
--   Path.antt            the operations of `Path` and `PathBuf`, and the iterator over components
--   Path/Push, Path/Iter the components of a joined path; what the iterator yields
--   Path/...             Names: the last name of a path; Pop; FileName; Prefix: `starts_with` and
--                        `ends_with` on components
--   Path/Tests.antt      short paths at which the theorems are applied
-- `collect` has fuel for as many calls of `next` as the path has parts and two more, and a path has no
-- more components. The conversions between the string types, which keep the bytes, are not modelled.
--
-- src/mm/frame.rs and src/mm/allocator.rs, frames over the buddy allocator.
--   Frames.antt          sizes and orders, `alloc_frame`, `alloc_frames`, the drop of a frame
--   Frames/Segments      how many bytes `alloc_frames` takes; Frames/Tests: an allocator of 8 pages
-- The loop of `alloc_frames` runs on the request as its fuel: each round takes a byte at least.
--
-- src/mm/page_table.rs, page_table/entry.rs, page_table/handle.rs and src/mm/address.rs.
--   PageTable.antt       an address space, `map`, `unmap`, and the manager of the users' spaces
--   PageTable/...        Translate: the walk of the hardware; Root, Middle: a new table at each level;
--                        Map: what `map` and `unmap` change; Hardware: the walk that also sees the
--                        tables of the kernel; Pages: a loop of `unmap`
--   PageTable/Tests.antt an empty address space at which the theorems are applied
-- Not modelled: `try_clone`, the kernel's identity map, `satp` and the fence.
--
-- src/mm/memory_map.rs, the system calls `mmap`, `munmap` and `mremap`.
--   MemoryMap.antt       a mapping and what the calls ask of a list of mappings
--   MemoryMap/Pages      `map_frame`, `unmap_range`, `rebuild`: they change the allocator, the bytes
--                        of memory, the page tables and the list, and drop frames on every way out
--   MemoryMap/Calls      the calls, on a table of tasks
--   MemoryMap/...        Regions: the search for a free range; Unmap, Keeps, Unmapped: what
--                        unmap_range leaves; Mapped, Whole, Tasks, System: what mmap and mremap
--                        leave in the list; Align: pages; Released, Entered, EnteredFrames, Backed,
--                        Rebuilt: what unmap_range, map_frame, mmap and the rebuild of mremap
--                        leave in the page tables
--   MemoryMap/Tests.antt, MemoryMap/TableTests.antt   tasks with eight pages at which the calls run
-- The theorems on the page tables take an allocator that gives fresh pages for the tables as a
-- hypothesis on each round of the loop, since it rests on the blocks that the whole kernel holds.
-- A loop over the pages of a range runs as many rounds as `step_by(PAGE_SIZE)` has. The `unreachable!`
-- of `phys_at_offset` is `none`.
--
-- src/sync/rwlock.rs, the read-write spin lock that prefers writers.
--   RwLock.antt          the lock's two words, where a thread stands, and one atomic access as a step
--   RwLock/Invariant     what the words count; RwLock/Exclusion: every interleaving of the threads
--   RwLock/Tests.antt    two threads at which the theorems are applied
-- Each access is one step, in the order that the program gives them (sequential consistency); the
-- interrupt flag and the value inside the lock are left out.
--
-- src/sync/once.rs and src/sync/lazy.rs, the cells that are set once.
--   Once.antt            `OnceLock`, where a caller stands, and one access as a step of any caller
--   Once/Invariant       the invariant of a cell; Once/Steps: the steps
--   Once/Agree, Lazy     what the callers get; `LazyLock` over it; Once/Tests: two callers
-- Each access is one step, in the order that the program gives them. An initializer is one step too: it
-- changes an environment of its own, and does not use the cell that it initializes.
--
-- src/sync/spin.rs, the spin lock that turns interrupts off, with the two functions of
-- src/arch/riscv64.rs on the interrupt bit.
--   Spin.antt            where a hart stands, and one access as a step of any hart
--   Spin/Found           the interrupt bit that a hart remembers; Spin/Exclusion: every interleaving
--                        of the harts; Spin/Tests: two harts
-- Each access is one step. The value inside the lock is left out.
--
-- How the code is read. An unsigned integer of w bits is a native number, an operation that may wrap
-- is written with its modulus, and a method with `&mut self` takes the state and returns the new one
-- with its answer. `Outcome` is the answer of a method that can panic (an `expect` that fails, a
-- counter that goes below zero). A BTreeMap is the list of its entries in the order of the keys
-- (Prelude/BTreeMap.antt). Masks are computed on the binary digits (Prelude/Bits.antt). The ID width w
-- is a parameter below 127, which holds for every integer type up to u64 and keeps the u128
-- arithmetic of the masks from wrapping; u128 itself is left out. Loops follow a table or a list and
-- need no fuel, but where it is said above.
--
-- Not modelled: the kernel's hardware access (src/arch, src/driver, the boot assembly), logging and
-- the macros, which generate code at compile time; the file systems, the scheduler, the slab caches
-- and the cells of each hart are outside this library.
pub mod Bitmap
pub mod Buddy
pub mod Frames
pub mod IdAlloc
pub mod MemoryMap
pub mod Once
pub mod PageTable
pub mod Path
pub mod Prelude
pub mod Rand
pub mod RwLock
pub mod Spin
pub mod Trie
