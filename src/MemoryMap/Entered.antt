-- ===== src/MemoryMap/Entered.antt =====
-- `map_frame` of src/mm/memory_map.rs: what the page tables hold after it.
use athera.Prelude.{
  ℕ, zero, suc, ◌+◌, ◌-◌, ◌*◌, ◌%◌, ◌/◌, ◌^◌, ◌≤◌, ◌<◌, ◌≡◌, ◌⊎◌, refl, ap, ◌∙◌, Option, none, some,
  true, false, List, [], ◌∷◌, ltb, if◌then◌else◌, arith, inl, inr, Bool-cases, dec_lt, ◌==◌, ◌≢◌,
  subst, Option-cases,
}
use athera.Prelude.BTreeMap.{get, insert, get-insert}
use athera.Buddy.{BuddyAllocator}
use athera.Frames.{Frame}
use athera.PageTable.{
  MemError, PageTableEntryFlags, AddressSpace, AddressSpaceManager, new_entry, vpn0, vpn1, vpn2,
  ppn, leaf, map_root, user_map,
}
use athera.PageTable as Tables
use athera.PageTable.Translate.{translate, same_page, IsTree}
use athera.PageTable.Root.{Provides}
use athera.PageTable.Map.{Maps, maps, maps_nothing, map-Maps}
use athera.PageTable.Pages.{same_page-within}
use athera.MemoryMap.{rounds}
use athera.MemoryMap.Pages.{Machine, map_steps}

-- The allocator gives the space of the task fresh pages for its tables, when `va` is mapped next.
pub record Supplies (s : Machine) (tid va : ℕ) : Type 0 where
  pub root :
      (space : AddressSpace) → get tid s.spaces.user ≡ some space → Provides s.allocator space
  pub middle :
      (space : AddressSpace)
      → get tid s.spaces.user ≡ some space
      → Provides ((map_root s.allocator space va).0) ((map_root s.allocator space va).1)

-- So it does on each round of the loop over `n` pages.
unfoldable pub SuppliesPages : Machine → ℕ → ℕ → ℕ → PageTableEntryFlags → ℕ → Type 0
SuppliesPages s tid va pa flags zero = Unit
SuppliesPages s tid va pa flags (suc n) =
    let r = user_map s.allocator s.spaces tid va pa flags in
    Supplies s tid va
    × SuppliesPages (record s { allocator = r.0; spaces = r.1 }) tid (va + 4096) (pa + 4096) flags n

-- And in the loop over the frames.
unfoldable pub SuppliesFrames : Machine → ℕ → ℕ → List Frame → PageTableEntryFlags → Type 0
SuppliesFrames s tid va [] flags = Unit
SuppliesFrames s tid va (f ∷ fs) flags =
    SuppliesPages s tid va f.start flags (rounds 0 f.size)
    × SuppliesFrames ((map_steps s tid va f.start flags (rounds 0 f.size)).0) tid (va + f.size) fs
        flags

-- In the tables of the task, whose space was `space`, the byte at `va + off` lies where `phys` says,
-- and the addresses below `va` or from `end` on have the translation that they had.
pub record Entered (tid : ℕ) (space : AddressSpace) (va end : ℕ) (phys : ℕ → Option ℕ)
    (flags : PageTableEntryFlags) (spaces : AddressSpaceManager) : Type 0 where
  pub space_after : AddressSpace
  pub found : get tid spaces.user ≡ some space_after
  pub tree : IsTree space_after
  pub inside :
      (off p : ℕ)
      → phys off ≡ some p
      → translate space_after (va + off) ≡ some (leaf new_entry p flags)
  pub outside :
      (va' : ℕ)
      → va' < 2 ^ 39
      → (va' < va) ⊎ (end ≤ va')
      → translate space_after va' ≡ translate space va'

same_page-apart :
    (va va' : ℕ)
    → va % 4096 ≡ 0
    → va < 2 ^ 39
    → va' < 2 ^ 39
    → (va' < va) ⊎ (va + 4096 ≤ va')
    → same_page va va' ≡ false
unfolding same_page vpn0 vpn1 vpn2
same_page-apart va va' e l l' w = elim (Bool-cases (same_page va va')) [
  | inr h ↦ h
  | inl h ↦ absurd (clash (ground (arith, h)) (ground (arith, h)) (ground (arith, h)) w)
]
  where
    clash :
        va / 2 ^ 30 % 2 ^ 9 ≡ va' / 2 ^ 30 % 2 ^ 9
        → va / 2 ^ 21 % 2 ^ 9 ≡ va' / 2 ^ 21 % 2 ^ 9
        → va / 2 ^ 12 % 2 ^ 9 ≡ va' / 2 ^ 12 % 2 ^ 9
        → (va' < va) ⊎ (va + 4096 ≤ va')
        → ⊥
    clash a b c (inl x) = omega arith
    clash a b c (inr x) = omega arith

leaf_within :
    (pa off : ℕ) (flags : PageTableEntryFlags)
    → pa % 4096 ≡ 0
    → off < 4096
    → leaf new_entry pa flags ≡ leaf new_entry (pa + off) flags
unfolding leaf ppn
leaf_within pa off flags e l =
    let page : (pa + off) / 2 ^ 12 ≡ pa / 2 ^ 12 = omega arith in rw page refl

-- One page entered.
record EnteredPage (tid : ℕ) (space : AddressSpace) (va pa : ℕ) (flags : PageTableEntryFlags)
    (spaces : AddressSpaceManager) : Type 0 where
  space_after : AddressSpace
  found : get tid spaces.user ≡ some space_after
  tree : IsTree space_after
  walk :
      (va' : ℕ)
      → translate space_after va'
        ≡ (if same_page va va' then some (leaf new_entry pa flags) else translate space va')

user_map-EnteredPage :
    (s : Machine) (tid va pa : ℕ) (flags : PageTableEntryFlags) (space : AddressSpace)
    → get tid s.spaces.user ≡ some space
    → IsTree space
    → Supplies s tid va
    → (user_map s.allocator s.spaces tid va pa flags).2 ≡ none
    → EnteredPage tid space va pa flags ((user_map s.allocator s.spaces tid va pa flags).1)
unfolding user_map
user_map-EnteredPage s tid va pa flags space f t p q =
    let result = Tables.map s.allocator space va pa flags in
    let whole = map-Maps s.allocator space va pa flags t (p.root space f) (p.middle space f) in
    let done : result.2 ≡ none = rw (f, user_map) at q in
    rw (f, user_map) (answered result whole done)
  where
    answered :
        (r : BuddyAllocator × AddressSpace × Option MemError)
        → Maps space va pa flags r
        → r.2 ≡ none
        → EnteredPage tid space va pa flags
            (record s.spaces { user = insert tid (r.1) s.spaces.user })
    answered _ (maps b s' tree walk) e =
        let same : (tid == tid) ≡ true = ground arith in
        record {
          space_after = s';
          found = get-insert tid tid s' s.spaces.user ∙ rw same refl;
          tree = tree;
          walk = walk;
        }
    answered _ (maps_nothing b s' x tree same) e = absurd (ground (arith, e))

-- The bytes of `n` pages from `pa` on.
abbrev pub bytes_from : ℕ → ℕ → ℕ → Option ℕ
bytes_from pa size off = if ltb off size then some (pa + off) else none

-- A page entered at `va`, and then `rest` entered above it.
enter_below :
    (tid va pa n end : ℕ) (flags : PageTableEntryFlags) (space : AddressSpace)
    (mid spaces : AddressSpaceManager) (one : EnteredPage tid space va pa flags mid)
    → va % 4096 ≡ 0
    → pa % 4096 ≡ 0
    → va + 4096 ≤ end
    → end ≤ 2 ^ 39
    → Entered tid one.space_after (va + 4096) end (bytes_from (pa + 4096) (n * 4096)) flags spaces
    → Entered tid space va end (bytes_from pa (suc n * 4096)) flags spaces
enter_below tid va pa n end flags space mid spaces one a b low high rest = record {
  space_after = rest.space_after;
  found = rest.found;
  tree = rest.tree;
  inside = λ off p q. at off p q (dec_lt off 4096);
  outside = λ va' l w.
      rest.outside va' l (ground (arith, w, low))
      ∙ one.walk va'
      ∙ rw (same_page-apart va va' a (omega arith) l (ground (arith, w, low))) refl;
}
  where
    at :
        (off p : ℕ)
        → bytes_from pa (suc n * 4096) off ≡ some p
        → Dec (off < 4096)
        → translate rest.space_after (va + off) ≡ some (leaf new_entry p flags)
    at off p q (yes l) =
        let byte : p ≡ pa + off = ground (arith, q) in
        rest.outside (va + off) (omega arith) (inl (omega arith))
        ∙ one.walk (va + off)
        ∙ rw (same_page-within va (va + off) a (omega arith) (omega arith), byte)
            (ap some (leaf_within pa off flags b l))
    at off p q (no l) =
        let byte : bytes_from (pa + 4096) (n * 4096) (off - 4096) ≡ some p = ground (arith, q, l) in
        let there : va + off ≡ va + 4096 + (off - 4096) = omega (arith, l) in
        rw there (rest.inside (off - 4096) p byte)

pub map_steps-Entered :
    (n : ℕ) (s : Machine) (tid va pa : ℕ) (flags : PageTableEntryFlags) (space : AddressSpace)
    → get tid s.spaces.user ≡ some space
    → IsTree space
    → va % 4096 ≡ 0
    → pa % 4096 ≡ 0
    → va + n * 4096 ≤ 2 ^ 39
    → SuppliesPages s tid va pa flags n
    → (map_steps s tid va pa flags n).1 ≡ none
    → Entered tid space va
        (va + n * 4096)
        (bytes_from pa (n * 4096))
        flags
        ((map_steps s tid va pa flags n).0.spaces)
unfolding map_steps SuppliesPages
map_steps-Entered zero s tid va pa flags space f t a b h p q = record {
  space_after = space;
  found = f;
  tree = t;
  inside = λ off x e. absurd (ground (arith, e));
  outside = λ va' l w. refl;
}
map_steps-Entered (suc n) s tid va pa flags space f t a b h p q =
    let r = user_map s.allocator s.spaces tid va pa flags in
    let next : Machine = record s { allocator = r.0; spaces = r.1 } in
    elim (Option-cases (r.2)) [
      | inr (e, w) ↦ absurd (stuck (va, e) (rw (w, map_steps) at q))
      | inl w ↦
          let one = user_map-EnteredPage s tid va pa flags space f t (p.0) w in
          let rest =
            map_steps-Entered n next tid (va + 4096) (pa + 4096) flags one.space_after one.found
              one.tree (omega arith) (omega arith) (omega arith) (p.1) (rw (w, map_steps) at q) in
          let top : va + 4096 + n * 4096 ≡ va + suc n * 4096 = omega arith in
          let moved : Entered tid one.space_after (va + 4096) (va + suc n * 4096)
              (bytes_from (pa + 4096) (n * 4096)) flags
              ((map_steps next tid (va + 4096) (pa + 4096) flags n).0.spaces) =
            subst
              (λ end.
                Entered tid one.space_after (va + 4096) end (bytes_from (pa + 4096) (n * 4096))
                  flags ((map_steps next tid (va + 4096) (pa + 4096) flags n).0.spaces))
              top rest in
          rw (w, map_steps)
            (enter_below tid va pa n (va + suc n * 4096) flags space (r.1) _ one a b (omega arith) h
              moved)
    ]
  where
    stuck : (x : ℕ × MemError) → some x ≢ none
    stuck x e = ground (arith, e)
