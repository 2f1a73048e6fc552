-- ===== src/PageTable/Root.antt =====
-- `map` at the root: a new table changes no translation.
use athera.Prelude.{
  ℕ, ◌%◌, ◌^◌, ◌<◌, ◌≡◌, ◌≢◌, ◌⊎◌, refl, sym, ap, ◌∙◌, Option, none, some, Bool, true, false, ◌==◌,
  if◌then◌else◌, arith, inl, inr, Bool-cases, Option-cases,
}
use athera.Prelude.Result.{Result, ok, err}
use athera.Prelude.BTreeMap.{insert}
use athera.Buddy.{BuddyAllocator}
use athera.Frames.{Frame, page_size, alloc_frame}
use athera.PageTable.{
  MemError, out_of_memory, PageTableEntry, PageTableHandle, AddressSpace, new_entry, vpn0, vpn1,
  vpn2, ppn, phys_addr, target, write, link, create, map_root,
}
use athera.PageTable.Translate.{
  valid, linked, entry_of, first, second, translate, IsTree, entry_of_other, entry_of_same,
}

-- An address for a table that the space does not know.
pub record IsFresh (s : AddressSpace) (c : ℕ) : Type 0 where
  pub aligned : c % 4096 ≡ 0
  pub physical : c < 2 ^ 56
  pub not_first : (va : ℕ) → first s va ≢ some c
  pub not_second : (va : ℕ) → second s va ≢ some c

-- The allocator gives such an address or none.
pub record Provides (b : BuddyAllocator) (s : AddressSpace) : Type 0 where
  pub fresh : (page : Frame) → (alloc_frame b page_size).1 ≡ some page → IsFresh s page.start

pub target-link : (e : PageTableEntry) (c : ℕ) → c % 4096 ≡ 0 → c < 2 ^ 56 → target (link e c) ≡ c
unfolding target link ppn phys_addr
target-link e c h l = omega arith

-- A new table at `c` below the root.
unfoldable pub with_root : AddressSpace → ℕ → PageTableHandle → ℕ → AddressSpace
with_root s c t va =
    let linked_root = record s.root {
      entries = write s.root.entries (vpn2 va) (link (s.root.entries (vpn2 va)) c);
    } in
    record { root = linked_root; tables = insert c t s.tables }

module _ (s : AddressSpace) (c va : ℕ) (t : PageTableHandle) where
  pub with_root-first :
      (va' : ℕ)
      → IsFresh s c
      → first (with_root s c t va) va' ≡ (if vpn2 va == vpn2 va' then some c else first s va')
  unfolding first with_root write valid linked link
  with_root-first va' f = elim (Bool-cases (vpn2 va == vpn2 va')) [
    | inl h ↦ rw h (ap some (target-link (s.root.entries (vpn2 va)) c f.aligned f.physical))
    | inr h ↦ rw h refl
  ]

  unlinked :
      (va' : ℕ)
      → (s.root.entries (vpn2 va)).v ≡ false
      → (vpn2 va == vpn2 va') ≡ true
      → first s va' ≡ none
  unfolding first valid linked
  unlinked va' n h = let same : vpn2 va' ≡ vpn2 va = ground (arith, h) in rw (same, n) refl

  pub with_root-second :
      (va' : ℕ)
      → IsFresh s c
      → (s.root.entries (vpn2 va)).v ≡ false
      → ((i : ℕ) → t.entries i ≡ new_entry)
      → second (with_root s c t va) va' ≡ second s va'
  unfolding second entry_of valid linked with_root insert
  with_root-second va' f n z = elim (Bool-cases (vpn2 va == vpn2 va')) [
    | inl h ↦
        rw (with_root-first va' f, h, unlinked va' n h)
          (ap linked (entry_of_same s.tables c t (vpn1 va'))
            ∙ ap (λ e. linked (valid e)) (z (vpn1 va')))
    | inr h ↦
        rw (with_root-first va' f, h)
          (ap linked (entry_of_other s.tables c t (first s va') (vpn1 va') (f.not_first va')))
  ]

  with_root-translate :
      (va' : ℕ)
      → IsFresh s c
      → (s.root.entries (vpn2 va)).v ≡ false
      → ((i : ℕ) → t.entries i ≡ new_entry)
      → translate (with_root s c t va) va' ≡ translate s va'
  unfolding translate with_root insert
  with_root-translate va' f n z =
      rw (with_root-second va' f n z)
        (entry_of_other s.tables c t (second s va') (vpn0 va') (f.not_second va'))

  -- A table below the root is the new one or one that was there.
  with_root-cases :
      (v p : ℕ)
      → IsFresh s c
      → first (with_root s c t va) v ≡ some p
      → ((vpn2 va ≡ vpn2 v) × (c ≡ p)) ⊎ (first s v ≡ some p)
  with_root-cases v p f g =
      let e = sym (with_root-first v f) ∙ g in
      elim (Bool-cases (vpn2 va == vpn2 v)) [
        | inl h ↦ inl (ground (arith, h), ground (arith, h, e))
        | inr h ↦ inr (ground (arith, h, e))
      ]

  with_root-IsTree :
      IsFresh s c
      → (s.root.entries (vpn2 va)).v ≡ false
      → ((i : ℕ) → t.entries i ≡ new_entry)
      → IsTree s
      → IsTree (with_root s c t va)
  with_root-IsTree f n z tree = record {
    one_root = λ v v' p g h. elim (with_root-cases v p f g) [
      | inl (k, e) ↦ elim (with_root-cases v' p f h) [
        | inl (k', e') ↦ sym k ∙ k'
        | inr h' ↦ absurd (f.not_first v' (h' ∙ ap some (sym e)))
      ]
      | inr g' ↦ elim (with_root-cases v' p f h) [
        | inl (k', e') ↦ absurd (f.not_first v (g' ∙ ap some (sym e')))
        | inr h' ↦ tree.one_root v v' p g' h'
      ]
    ];
    levels = λ v v' p g h.
        let old : second s v' ≡ some p = sym (with_root-second v' f n z) ∙ h in
        elim (with_root-cases v p f g) [
          | inl (k, e) ↦ f.not_second v' (old ∙ ap some (sym e))
          | inr g' ↦ tree.levels v v' p g' old
        ];
    one_parent = λ v v' p g h.
        tree.one_parent v v' p (sym (with_root-second v f n z) ∙ g)
          (sym (with_root-second v' f n z) ∙ h);
  }

-- What a step of `map` above the page leaves: the tree with the same translations, and the address
-- of the table, which `at` finds.
pub data Descends (s : AddressSpace) (at : AddressSpace → Option ℕ)
    : BuddyAllocator × AddressSpace × Result ℕ MemError → Type 0 where
  reaches :
      (b : BuddyAllocator) (s' : AddressSpace) (p : ℕ)
      → IsTree s'
      → ((va' : ℕ) → translate s' va' ≡ translate s va')
      → at s' ≡ some p
      → Descends s at (b, s', ok p)
  stops : (b : BuddyAllocator) (e : MemError) → Descends s at (b, s, err e)

-- What `create` answers: an empty table on a frame of the allocator, or that there is none.
pub data Creates (b : BuddyAllocator) : Result PageTableHandle MemError → Type 0 where
  creates :
      (page : Frame)
      → (alloc_frame b page_size).1 ≡ some page
      → Creates b (ok (record { page = page; entries = λ i. new_entry }))
  creates_none : Creates b (err out_of_memory)

pub create-Creates : (b : BuddyAllocator) → Creates b ((create b).1)
unfolding create
create-Creates b = elim (Option-cases ((alloc_frame b page_size).1)) [
  | inl q ↦ rw (q, create) creates_none
  | inr (page, q) ↦ rw (q, create) (creates page q)
]

pub map_root-Descends :
    (b : BuddyAllocator) (s : AddressSpace) (va : ℕ)
    → IsTree s
    → Provides b s
    → Descends s (λ s'. first s' va) (map_root b s va)
unfolding map_root first valid linked with_root
map_root-Descends b s va tree pr =
    answered (s.root.entries (vpn2 va)).v refl ((create b).1) (create-Creates b)
  where
    entry : PageTableEntry
    entry = s.root.entries (vpn2 va)

    there : entry.v ≡ true → linked (if entry.v then some entry else none) ≡ some (target entry)
    there n = ground (arith, n)

    answered :
        (v : Bool)
        → entry.v ≡ v
        → (made : Result PageTableHandle MemError) → Creates b made
        → Descends s
            (λ s'. first s' va)
            (if v then (b, s, ok (target entry)) else elim made [
              | err e ↦ ((create b).0, s, err e)
              | ok t ↦
                  let e = link entry t.page.start in
                  let linked_root = record s.root { entries = write s.root.entries (vpn2 va) e } in
                  (
                    (create b).0,
                    record { root = linked_root; tables = insert t.page.start t s.tables },
                    ok (target e),
                  )
            ])
    answered true n made c = reaches b s (target entry) tree (λ va'. refl) (there n)
    answered false n _ creates_none = stops _ out_of_memory
    answered false n _ (creates page q) =
        let f = pr.fresh page q in
        let t : PageTableHandle = record { page = page; entries = λ i. new_entry } in
        let same : (vpn2 va == vpn2 va) ≡ true = ground arith in
        let found : first (with_root s page.start t va) va ≡ some page.start =
          rw (with_root-first s page.start va t va f, same) refl in
        reaches _ (with_root s page.start t va) _
          (with_root-IsTree s page.start va t f n (λ i. refl) tree)
          (λ va'. with_root-translate s page.start va t va' f n (λ i. refl))
          (found ∙ ap some (sym (target-link entry page.start f.aligned f.physical)))
