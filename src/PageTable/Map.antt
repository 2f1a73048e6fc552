-- ===== src/PageTable/Map.antt =====
-- What `map` and `unmap` do to the translation of every address.
use athera.Prelude.{
  ℕ, ◌≡◌, refl, sym, ap, ◌∙◌, Option, none, some, Bool, true, false, if◌then◌else◌, arith, inl, inr,
  Bool-cases, Option-cases,
}
use athera.Prelude.Result.{Result, ok, err}
use athera.Prelude.BTreeMap.{BTreeMap, get}
use athera.Buddy.{BuddyAllocator}
use athera.PageTable.{
  MemError, page_table_missing, PageTableEntryFlags, PageTableHandle, AddressSpace, new_entry, vpn0,
  vpn1, vpn2, target, leaf, map_root, map_middle, map_leaf, map, unmap, unmap_middle, unmap_leaf,
}
use athera.PageTable.Translate.{
  valid, valid_some, valid_not, linked, entry_of, entry_of_found, first, second, second_cong,
  translate, same_page, IsTree, with_entry, with_entry-Agrees, with_entry-translate, Agrees-IsTree,
}
use athera.PageTable.Root.{Provides, Descends, reaches, stops, map_root-Descends}
use athera.PageTable.Middle.{map_middle-Descends}

-- What `map` answers.
pub data Maps (s : AddressSpace) (va pa : ℕ) (flags : PageTableEntryFlags)
    : BuddyAllocator × AddressSpace × Option MemError → Type 0 where
  maps :
      (b : BuddyAllocator) (s' : AddressSpace)
      → IsTree s'
      → ((va' : ℕ)
          → translate s' va'
            ≡ (if same_page va va' then some (leaf new_entry pa flags) else translate s va'))
      → Maps s va pa flags (b, s', none)
  maps_nothing :
      (b : BuddyAllocator) (s' : AddressSpace) (e : MemError)
      → IsTree s'
      → ((va' : ℕ) → translate s' va' ≡ translate s va')
      → Maps s va pa flags (b, s', some e)

map_leaf-Maps :
    (b : BuddyAllocator) (s s' : AddressSpace) (q va pa : ℕ) (flags : PageTableEntryFlags)
    → IsTree s'
    → ((va' : ℕ) → translate s' va' ≡ translate s va')
    → second s' va ≡ some q
    → Maps s va pa flags (b, (map_leaf s' q va pa flags).0, (map_leaf s' q va pa flags).1)
unfolding map_leaf with_entry leaf valid
map_leaf-Maps b s s' q va pa flags tree same l = elim (Option-cases (get q s'.tables)) [
  | inl f ↦ rw (f, map_leaf) (maps_nothing b s' page_table_missing tree same)
  | inr (pt0, f) ↦
      let e = leaf (pt0.entries (vpn0 va)) pa flags in
      rw (f, map_leaf)
        (maps b (with_entry s' q pt0 va e)
          (Agrees-IsTree s' (with_entry s' q pt0 va e) (with_entry-Agrees s' q va pt0 e tree l)
            tree)
          (λ va'.
            with_entry-translate s' q va va' pt0 e tree l f
            ∙ ap (λ x. if same_page va va' then some (leaf new_entry pa flags) else x) (same va')))
]

-- On a tree whose allocator gives fresh pages, `map` ends in one of two ways. On success the page of
-- `va` translates to an entry of `pa` and `flags`, and every other page as before. On an error every
-- page translates as before. The tables are a tree again.
pub map-Maps :
    (b : BuddyAllocator) (s : AddressSpace) (va pa : ℕ) (flags : PageTableEntryFlags)
    → IsTree s
    → Provides b s
    → Provides ((map_root b s va).0) ((map_root b s va).1)
    → Maps s va pa flags (map b s va pa flags)
unfolding map
map-Maps b s va pa flags tree pr pr' =
    below_root (map_root b s va) (map_root-Descends b s va tree pr) pr'
  where
    below_middle :
        (s1 : AddressSpace) (m : BuddyAllocator × AddressSpace × Result ℕ MemError)
        → IsTree s1
        → ((va' : ℕ) → translate s1 va' ≡ translate s va')
        → Descends s1 (λ s'. second s' va) m
        → Maps s va pa flags (elim (m.2) [
          | err e ↦ (m.0, m.1, some e)
          | ok pt0_addr ↦ let l = map_leaf (m.1) pt0_addr va pa flags in (m.0, l.0, l.1)
        ])
    below_middle s1 _ t1 same (reaches b2 s2 q t2 same' l) =
        map_leaf-Maps b2 s s2 q va pa flags t2 (λ va'. same' va' ∙ same va') l
    below_middle s1 _ t1 same (stops b2 e) = maps_nothing b2 s1 e t1 same

    below_root :
        (r : BuddyAllocator × AddressSpace × Result ℕ MemError)
        → Descends s (λ s'. first s' va) r
        → Provides (r.0) (r.1)
        → Maps s va pa flags (elim (r.2) [
          | err e ↦ (r.0, r.1, some e)
          | ok pt1_addr ↦
              let m = map_middle (r.0) (r.1) pt1_addr va in
              elim (m.2) [
                | err e ↦ (m.0, m.1, some e)
                | ok pt0_addr ↦ let l = map_leaf (m.1) pt0_addr va pa flags in (m.0, l.0, l.1)
              ]
        ])
    below_root _ (reaches b1 s1 p t1 same l) p1 =
        below_middle s1 (map_middle b1 s1 p va) t1 same (map_middle-Descends b1 s1 p va t1 p1 l)
    below_root _ (stops b1 e) p1 = maps_nothing b1 s e tree (λ va'. refl)

translate_cong :
    (s : AddressSpace) (va va' : ℕ) → same_page va va' ≡ true → translate s va ≡ translate s va'
unfolding same_page translate
translate_cong s va va' h =
    ap (λ o. entry_of s.tables o (vpn0 va))
      (second_cong s va va' (ground (arith, h)) (ground (arith, h)))
    ∙ ap (entry_of s.tables (second s va')) (ground (arith, h))

-- The page of `va` has no translation any more, and the others have theirs.
record Clears (s : AddressSpace) (va : ℕ) (s' : AddressSpace) : Type 0 where
  at : (va' : ℕ) → translate s' va' ≡ (if same_page va va' then none else translate s va')

-- What is not mapped stays so.
unmapped_already : (s : AddressSpace) (va : ℕ) → translate s va ≡ none → Clears s va s
unmapped_already s va n = record {
  at = λ va'. elim (Bool-cases (same_page va va')) [
    | inl h ↦ rw h (sym (translate_cong s va va' h) ∙ n)
    | inr h ↦ rw h refl
  ];
}

-- A table or a link that is missing.
no_second : (s : AddressSpace) (va : ℕ) → second s va ≡ none → Clears s va s
unfolding translate entry_of
no_second s va n = unmapped_already s va (rw n refl)

entry_of_missing :
    (tables : BTreeMap PageTableHandle) (q i : ℕ)
    → get q tables ≡ none
    → entry_of tables (some q) i ≡ none
unfolding entry_of
entry_of_missing tables q i g = rw (g, entry_of) refl

guarded :
    (s : AddressSpace) (va : ℕ) (v : Bool) (x : AddressSpace)
    → (v ≡ true → Clears s va x)
    → (v ≡ false → Clears s va s)
    → Clears s va (if v then x else s)
guarded s va true x p q = p refl
guarded s va false x p q = q refl

unmap_leaf-Clears :
    (s : AddressSpace) (q va : ℕ)
    → IsTree s
    → second s va ≡ some q
    → Clears s va (unmap_leaf s q va)
unfolding unmap_leaf with_entry valid translate
unmap_leaf-Clears s q va tree l = elim (Option-cases (get q s.tables)) [
  | inl f ↦
      rw (f, unmap_leaf) (unmapped_already s va (rw l (entry_of_missing s.tables q (vpn0 va) f)))
  | inr (pt0, f) ↦
      rw (f, unmap_leaf)
        (record { at = λ va'. with_entry-translate s q va va' pt0 new_entry tree l f })
]

unmap_middle-Clears :
    (s : AddressSpace) (p va : ℕ)
    → IsTree s
    → first s va ≡ some p
    → Clears s va (unmap_middle s p va)
unfolding unmap_middle second linked
unmap_middle-Clears s p va tree l = elim (Option-cases (get p s.tables)) [
  | inl f ↦
      rw (f, unmap_middle)
        (no_second s va (rw l (ap linked (entry_of_missing s.tables p (vpn1 va) f))))
  | inr (pt1, f) ↦
      let e = pt1.entries (vpn1 va) in
      let found = entry_of_found s.tables p (vpn1 va) pt1 f in
      rw (f, unmap_middle)
        (guarded s va e.v (unmap_leaf s (target e) va)
          (λ n. unmap_leaf-Clears s (target e) va tree (rw l (ap linked (found ∙ valid_some e n))))
          (λ n. no_second s va (rw l (ap linked (found ∙ valid_not e n)))))
]

-- After `unmap` on a tree the page of `va` has no translation, and every other page has the one
-- that it had.
pub translate-unmap :
    (s : AddressSpace) (va va' : ℕ)
    → IsTree s
    → translate (unmap s va) va' ≡ (if same_page va va' then none else translate s va')
unfolding unmap first second linked entry_of
translate-unmap s va va' tree =
    let e = s.root.entries (vpn2 va) in
    let cleared =
      guarded s va e.v (unmap_middle s (target e) va)
        (λ n. unmap_middle-Clears s (target e) va tree (ap linked (valid_some e n)))
        (λ n.
          no_second s va
            (ap (λ o. linked (entry_of s.tables (linked o) (vpn1 va))) (valid_not e n))) in
    cleared.at va'
