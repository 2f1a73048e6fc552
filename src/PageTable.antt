-- ===== src/PageTable.antt =====
-- The Sv39 page tables of src/mm/page_table.rs, src/mm/page_table/entry.rs, handle.rs and
-- src/mm/address.rs: one address space, with the tables below its root, and the manager of the
-- kernel's and the users'. The fence after a change is left out.
pub mod Translate
pub mod Root
pub mod Middle
pub mod Map
pub mod Hardware
pub mod Pages
pub mod Tests
use athera.Prelude.{
  ℕ, ◌*◌, ◌/◌, ◌%◌, ◌^◌, Option, none, some, Bool, true, false, ltb, ◌==◌, if◌then◌else◌,
}
use athera.Prelude.Result.{Result, ok, err}
use athera.Prelude.BTreeMap.{BTreeMap, empty, get, insert}
use athera.Buddy.{BuddyAllocator}
use athera.Frames.{Frame, page_size, alloc_frame}

pub data MemError : Type 0 where
  out_of_memory : MemError
  page_table_missing : MemError
  address_space_not_found : MemError
  not_user_address_space : MemError
  null_pointer : MemError

-- The fields of a `VirtualAddr`.
unfoldable pub vpn0 : ℕ → ℕ
vpn0 va = va / 2 ^ 12 % 2 ^ 9

unfoldable pub vpn1 : ℕ → ℕ
vpn1 va = va / 2 ^ 21 % 2 ^ 9

unfoldable pub vpn2 : ℕ → ℕ
vpn2 va = va / 2 ^ 30 % 2 ^ 9

-- `PhysicalAddr::ppn`, and a `PhysicalAddr` that is 0 but for that field.
unfoldable pub ppn : ℕ → ℕ
ppn pa = pa / 2 ^ 12 % 2 ^ 44

unfoldable pub phys_addr : ℕ → ℕ
phys_addr n = n % 2 ^ 44 * 2 ^ 12

pub record PageTableEntryFlags : Type 0 where
  pub r : Bool
  pub w : Bool
  pub x : Bool
  pub u : Bool
  pub g : Bool
  pub a : Bool
  pub d : Bool

pub record PageTableEntry : Type 0 where
  pub v : Bool
  pub flags : PageTableEntryFlags
  pub entry_ppn : ℕ

abbrev pub no_flags : PageTableEntryFlags
no_flags = record { r = false; w = false; x = false; u = false; g = false; a = false; d = false }

abbrev pub new_entry : PageTableEntry
new_entry = record { v = false; flags = no_flags; entry_ppn = 0 }

-- A page table at its frame, with its entries by their index.
pub record PageTableHandle : Type 0 where
  pub page : Frame
  pub entries : ℕ → PageTableEntry

unfoldable pub write : (ℕ → PageTableEntry) → ℕ → PageTableEntry → ℕ → PageTableEntry
write entries i e j = if i == j then e else entries j

-- `create`.
unfoldable pub create : BuddyAllocator → BuddyAllocator × Result PageTableHandle MemError
create b =
    let r = alloc_frame b page_size in
    (
      r.0,
      elim (r.1) [
        | none ↦ err out_of_memory
        | some page ↦ ok (record { page = page; entries = λ i. new_entry })
      ],
    )

unfoldable pub copy_low_half : PageTableHandle → PageTableHandle → PageTableHandle
copy_low_half source target = record target {
  entries = λ i. if ltb i 256 then source.entries i else target.entries i;
}

pub record AddressSpace : Type 0 where
  pub root : PageTableHandle
  pub tables : BTreeMap PageTableHandle

-- A link to the table at `address`, with the other bits of the entry as they were.
unfoldable pub link : PageTableEntry → ℕ → PageTableEntry
link e address = record e { v = true; entry_ppn = ppn address }

-- Where an entry points.
unfoldable pub target : PageTableEntry → ℕ
target e = phys_addr e.entry_ppn

unfoldable pub leaf : PageTableEntry → ℕ → PageTableEntryFlags → PageTableEntry
leaf e pa flags = record e { v = true; flags = flags; entry_ppn = ppn pa }

-- `map`, the table below the root: it is made where the root has no valid entry.
unfoldable pub map_root :
    BuddyAllocator → AddressSpace → ℕ → BuddyAllocator × AddressSpace × Result ℕ MemError
map_root b s va =
    let made = create b in
    if (s.root.entries (vpn2 va)).v
    then (b, s, ok (target (s.root.entries (vpn2 va))))
    else elim (made.1) [
      | err e ↦ (made.0, s, err e)
      | ok t ↦
          let entry = link (s.root.entries (vpn2 va)) t.page.start in
          let linked = record s.root { entries = write s.root.entries (vpn2 va) entry } in
          (
            made.0,
            record { root = linked; tables = insert t.page.start t s.tables },
            ok (target entry),
          )
    ]

-- `map`, the table below that one.
unfoldable pub map_middle :
    BuddyAllocator → AddressSpace → ℕ → ℕ → BuddyAllocator × AddressSpace × Result ℕ MemError
map_middle b s pt1_addr va = elim (get pt1_addr s.tables) [
  | none ↦ (b, s, err page_table_missing)
  | some pt1 ↦
      let made = create b in
      if (pt1.entries (vpn1 va)).v
      then (b, s, ok (target (pt1.entries (vpn1 va))))
      else elim (made.1) [
        | err e ↦ (made.0, s, err e)
        | ok t ↦
            let entry = link (pt1.entries (vpn1 va)) t.page.start in
            let linked = record pt1 { entries = write pt1.entries (vpn1 va) entry } in
            (
              made.0,
              record s { tables = insert t.page.start t (insert pt1_addr linked s.tables) },
              ok (target entry),
            )
      ]
]

-- `map`, the entry of the page.
unfoldable pub map_leaf :
    AddressSpace → ℕ → ℕ → ℕ → PageTableEntryFlags → AddressSpace × Option MemError
map_leaf s pt0_addr va pa flags = elim (get pt0_addr s.tables) [
  | none ↦ (s, some page_table_missing)
  | some pt0 ↦
      let entry = leaf (pt0.entries (vpn0 va)) pa flags in
      let mapped = record pt0 { entries = write pt0.entries (vpn0 va) entry } in
      (record s { tables = insert pt0_addr mapped s.tables }, none)
]

-- `AddressSpace::map`; an error leaves the tables made until then.
unfoldable pub map :
    BuddyAllocator
    → AddressSpace
    → ℕ
    → ℕ
    → PageTableEntryFlags
    → BuddyAllocator × AddressSpace × Option MemError
map b s va pa flags =
    let r = map_root b s va in
    elim (r.2) [
      | err e ↦ (r.0, r.1, some e)
      | ok pt1_addr ↦
          let m = map_middle (r.0) (r.1) pt1_addr va in
          elim (m.2) [
            | err e ↦ (m.0, m.1, some e)
            | ok pt0_addr ↦ let l = map_leaf (m.1) pt0_addr va pa flags in (m.0, l.0, l.1)
          ]
    ]

-- `AddressSpace::unmap`, which returns early where a table is missing: from the last table on, from
-- the one before on, and whole.
unfoldable pub unmap_leaf : AddressSpace → ℕ → ℕ → AddressSpace
unmap_leaf s pt0_addr va = elim (get pt0_addr s.tables) [
  | none ↦ s
  | some pt0 ↦
      let cleared = record pt0 { entries = write pt0.entries (vpn0 va) new_entry } in
      record s { tables = insert pt0_addr cleared s.tables }
]

unfoldable pub unmap_middle : AddressSpace → ℕ → ℕ → AddressSpace
unmap_middle s pt1_addr va = elim (get pt1_addr s.tables) [
  | none ↦ s
  | some pt1 ↦
      let entry1 = pt1.entries (vpn1 va) in if entry1.v then unmap_leaf s (target entry1) va else s
]

unfoldable pub unmap : AddressSpace → ℕ → AddressSpace
unmap s va =
    let entry2 = s.root.entries (vpn2 va) in
    if entry2.v then unmap_middle s (target entry2) va else s

pub record AddressSpaceManager : Type 0 where
  pub kernel : AddressSpace
  pub user : BTreeMap AddressSpace

unfoldable pub create_user_address_space :
    BuddyAllocator
    → AddressSpaceManager
    → ℕ
    → BuddyAllocator × AddressSpaceManager × Option MemError
create_user_address_space b m tid =
    let made = create b in
    elim (made.1) [
      | err e ↦ (made.0, m, some e)
      | ok t ↦
          let space : AddressSpace = record {
            root = copy_low_half m.kernel.root t;
            tables = empty;
          } in
          (made.0, record m { user = insert tid space m.user }, none)
    ]

unfoldable pub user_map :
    BuddyAllocator
    → AddressSpaceManager
    → ℕ
    → ℕ
    → ℕ
    → PageTableEntryFlags
    → BuddyAllocator × AddressSpaceManager × Option MemError
user_map b m tid va pa flags = elim (get tid m.user) [
  | none ↦ (b, m, some address_space_not_found)
  | some space ↦
      let r = map b space va pa flags in (r.0, record m { user = insert tid (r.1) m.user }, r.2)
]

unfoldable pub user_unmap : AddressSpaceManager → ℕ → ℕ → AddressSpaceManager × Option MemError
user_unmap m tid va = elim (get tid m.user) [
  | none ↦ (m, some address_space_not_found)
  | some space ↦ (record m { user = insert tid (unmap space va) m.user }, none)
]
