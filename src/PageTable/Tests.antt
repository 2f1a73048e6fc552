-- ===== src/PageTable/Tests.antt =====
-- The first page mapped into an empty address space, with an allocator that has eight pages.
use athera.Prelude.{
  ℕ, ◌^◌, ◌+◌, ◌%◌, ◌<◌, ◌≡◌, ◌≢◌, refl, sym, ap, ◌∙◌, none, some, [], ◌∷◌, set, replicate,
  if◌then◌else◌, ◌==◌, arith, inl, inr, Bool-cases, ◌⊎◌, true,
}
use athera.Prelude.BTreeMap.{BTreeMap, empty, entry, get, insert}
use athera.Buddy.{BuddyAllocator, alloc, alloc_loop, split_down, push, order_size}
use athera.Frames.{Frame, ilog2, ilog2_ceil, size_to_order, alloc_frame}
use athera.PageTable.{
  PageTableEntry, PageTableHandle, AddressSpace, new_entry, no_flags, create, map_root, map, unmap,
  vpn0, vpn1, vpn2, target, phys_addr,
}
use athera.PageTable.Translate.{
  valid, linked, entry_of, first, second, translate, same_page, IsTree,
}
use athera.PageTable.Root.{IsFresh, Provides, with_root, with_root-first, with_root-second}
use athera.PageTable.Map.{Maps, map-Maps}
use athera.PageTable.Hardware.{join, in_memory, IsOwned, walk-unmap}

abbrev pub root : PageTableHandle
root = record { page = record { start = 4096; size = 4096 }; entries = λ i. new_entry }

abbrev pub space : AddressSpace
space = record { root = root; tables = empty }

abbrev pub eight_pages : BuddyAllocator
eight_pages = record { free_list = set (replicate 11 []) 3 (2 ^ 31 ∷ []) }

no_first : (va : ℕ) → first space va ≡ none
unfolding first valid linked
no_first va = refl

no_table : (va : ℕ) → second space va ≡ none
unfolding second first valid linked entry_of
no_table va = refl

none-some : (p : ℕ) → none ≢ some p
none-some p e = ground (arith, e)

pub space-IsTree : IsTree space
space-IsTree = record {
  one_root = λ va va' p f g. absurd (none-some p (sym (no_first va) ∙ f));
  levels = λ va va' p f g. none-some p (sym (no_first va) ∙ f);
  one_parent = λ va va' p f g. absurd (none-some p (sym (no_table va) ∙ f));
}

pub space-IsFresh : (c : ℕ) → c % 4096 ≡ 0 → c < 2 ^ 56 → IsFresh space c
space-IsFresh c a h = record {
  aligned = a;
  physical = h;
  not_first = λ va e. none-some _ (sym (no_first va) ∙ e);
  not_second = λ va e. none-some _ (sym (no_table va) ∙ e);
}

pub start_of : (p : ℕ) (f page : Frame) → f.start ≡ p → some f ≡ some page → page.start ≡ p
start_of p f page s e = let same : f ≡ page = ground (arith, e) in sym (ap (λ g. g.start) same) ∙ s

eight_pages-Provides : Provides eight_pages space
unfolding alloc_frame size_to_order ilog2_ceil ilog2 alloc alloc_loop split_down push order_size
eight_pages-Provides = record {
  fresh = λ page q.
      let e = start_of (2 ^ 31) (record { start = 2 ^ 31; size = 4096 }) page refl q in
      rw e (space-IsFresh (2 ^ 31) (omega arith) (omega arith));
}

-- The table that the root gets for the first page.
abbrev pub table : ℕ → PageTableHandle
table c = record { page = record { start = c; size = 4096 }; entries = λ i. new_entry }

pub linked-IsFresh :
    (c c' va : ℕ)
    → c % 4096 ≡ 0
    → c < 2 ^ 56
    → c' % 4096 ≡ 0
    → c' < 2 ^ 56
    → c ≢ c'
    → IsFresh (with_root space c (table c) va) c'
linked-IsFresh c c' va a h a' h' ne = record {
  aligned = a';
  physical = h';
  not_first = λ va' e. elsewhere va' (sym (with_root-first space c va (table c) va' fresh) ∙ e);
  not_second = λ va' e. none-some _ (
      sym (no_table va')
      ∙ sym (with_root-second space c va (table c) va' fresh refl (λ i. refl))
      ∙ e);
}
  where
    fresh : IsFresh space c
    fresh = space-IsFresh c a h

    elsewhere : (va' : ℕ) → (if vpn2 va == vpn2 va' then some c else first space va') ≢ some c'
    elsewhere va' e = elim (Bool-cases (vpn2 va == vpn2 va')) [
      | inl h ↦ let same : some c ≡ some c' = rw h at e in ne (ground (arith, same))
      | inr h ↦
          let no : first space va' ≡ some c' = rw h at e in none-some c' (sym (no_first va') ∙ no)
    ]

after-Provides : Provides ((map_root eight_pages space 0).0) ((map_root eight_pages space 0).1)
unfolding map_root create with_root alloc_frame size_to_order ilog2_ceil ilog2 alloc alloc_loop
    split_down push order_size
after-Provides = record {
  fresh = λ page q.
      let e =
        start_of (2 ^ 31 + 4096) (record { start = 2 ^ 31 + 4096; size = 4096 }) page refl q in
      rw e (
        linked-IsFresh (2 ^ 31) (2 ^ 31 + 4096) 0 (omega arith) (omega arith) (omega arith)
          (omega arith) (λ e. omega (arith, e)));
}

map-Maps_example : Maps space 0 4096 no_flags (map eight_pages space 0 4096 no_flags)
map-Maps_example =
    map-Maps eight_pages space 0 4096 no_flags space-IsTree eight_pages-Provides after-Provides

-- A link to the table at the page `n`.
abbrev to : ℕ → PageTableEntry
to n = record { v = true; flags = no_flags; entry_ppn = n }

abbrev table_at : ℕ → (ℕ → PageTableEntry) → PageTableHandle
table_at a entries = record { page = record { start = a; size = 4096 }; entries = entries }

-- The root links a table of the kernel for the low half and one of its own for the high half, whose
-- first table maps one page.
abbrev pub user_space : AddressSpace
user_space = record {
  root = table_at 4096 (λ i. if i == 0 then to 2 else if i == 256 then to 3 else new_entry);
  tables =
      entry 12288 (table_at 12288 (λ i. if i == 0 then to 4 else new_entry))
        (entry 16384 (table_at 16384 (λ i. if i == 0 then to 5 else new_entry)) empty);
}

abbrev pub kernel_tables : BTreeMap PageTableHandle
kernel_tables = entry 8192 (table_at 8192 (λ i. new_entry)) empty

first_cases :
    (va p : ℕ)
    → first (in_memory user_space kernel_tables) va ≡ some p
    → ((vpn2 va ≡ 0) × (p ≡ 8192)) ⊎ ((vpn2 va ≡ 256) × (p ≡ 12288))
unfolding first linked valid in_memory target phys_addr
first_cases va p e = elim (Bool-cases (vpn2 va == 0)) [
  | inl h ↦ inl (ground (arith, h), ground (arith, rw h at e))
  | inr h ↦ elim (Bool-cases (vpn2 va == 256)) [
    | inl k ↦ inr (ground (arith, k), ground (arith, rw (h, k) at e))
    | inr k ↦ absurd (none-some p (rw (h, k) at e))
  ]
]

second_case :
    (va p : ℕ)
    → second (in_memory user_space kernel_tables) va ≡ some p
    → (vpn2 va ≡ 256) × (vpn1 va ≡ 0) × (p ≡ 16384)
unfolding second first linked valid in_memory target phys_addr entry_of join insert get
second_case va p e = elim (Bool-cases (vpn2 va == 0)) [
  | inl h ↦ absurd (none-some p (rw h at e))
  | inr h ↦ elim (Bool-cases (vpn2 va == 256)) [
    | inr k ↦ absurd (none-some p (rw (h, k) at e))
    | inl k ↦ elim (Bool-cases (vpn1 va == 0)) [
      | inl j ↦ (ground (arith, k), ground (arith, j), ground (arith, rw (h, k, j) at e))
      | inr j ↦ absurd (none-some p (rw (h, k, j) at e))
    ]
  ]
]

pub user_space-IsTree : IsTree (in_memory user_space kernel_tables)
user_space-IsTree = record {
  one_root = λ va va' p f g. ground (arith, first_cases va p f, first_cases va' p g);
  levels = λ va va' p f g.
      let a = first_cases va p f in let b = second_case va' p g in ground (arith, a, b);
  one_parent = λ va va' p f g.
      let a = second_case va p f in
      let b = second_case va' p g in (a.0 ∙ sym (b.0), a.1 ∙ sym (b.1));
}

user_space-IsOwned : IsOwned user_space (2 ^ 38)
unfolding first second linked valid target phys_addr entry_of get vpn2 vpn1
user_space-IsOwned = record {
  firsts = λ p e n. let same : p ≡ 12288 = ground (arith, e) in absent (rw same at n);
  seconds = λ p e n. let same : p ≡ 16384 = ground (arith, e) in absent (rw same at n);
}
  where
    absent : {t : PageTableHandle} → some t ≢ none
    absent e = ground (arith, e)

pub mapped : translate (in_memory user_space kernel_tables) (2 ^ 38) ≡ some (to 5)
unfolding translate second first linked valid in_memory target phys_addr entry_of join insert get
    vpn2 vpn1 vpn0
mapped = refl

walk-unmap_example : translate (in_memory (unmap user_space (2 ^ 38)) kernel_tables) (2 ^ 38) ≡ (
    if same_page (2 ^ 38) (2 ^ 38)
    then none
    else translate (in_memory user_space kernel_tables) (2 ^ 38))
walk-unmap_example =
    walk-unmap user_space kernel_tables (2 ^ 38) (2 ^ 38) user_space-IsTree user_space-IsOwned
