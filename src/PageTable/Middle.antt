-- ===== src/PageTable/Middle.antt =====
-- `map` at the table below the root: a new table changes no translation.
use athera.Prelude.{
  ℕ, ◌≡◌, ◌≢◌, ◌⊎◌, refl, sym, ap, ◌∙◌, Option, none, some, Bool, true, false, ◌&&◌, ◌==◌,
  if◌then◌else◌, arith, inl, inr, Bool-cases,
}
use athera.Prelude.Result.{Result, ok, err}
use athera.Prelude.BTreeMap.{get, insert}
use athera.Buddy.{BuddyAllocator}
use athera.PageTable.{
  MemError, page_table_missing, out_of_memory, PageTableHandle, AddressSpace, new_entry, vpn0, vpn1,
  vpn2, target, write, link, create, map_middle,
}
use athera.PageTable.Translate.{
  valid, valid_not, valid_some, linked, entry_of, first, second, second_cong, translate, IsTree,
  entry_of_other, entry_of_same, entry_of_found,
}
use athera.PageTable.Root.{
  IsFresh, Provides, target-link, Descends, reaches, stops, Creates, creates, creates_none,
  create-Creates,
}

-- The entries of the two upper levels are those of `va`.
unfoldable pub below : ℕ → ℕ → Bool
below va va' = vpn2 va == vpn2 va' && vpn1 va == vpn1 va'

unfoldable pub changed_of : PageTableHandle → ℕ → ℕ → PageTableHandle
changed_of pt1 c va = record pt1 {
  entries = write pt1.entries (vpn1 va) (link (pt1.entries (vpn1 va)) c);
}

-- A new table at `c` below the table `pt1`, which is at `p`.
unfoldable pub with_middle :
    AddressSpace → ℕ → PageTableHandle → ℕ → PageTableHandle → ℕ → AddressSpace
with_middle s p pt1 c t va = record s {
  tables = insert c t (insert p (changed_of pt1 c va) s.tables);
}

-- The table below the root, and a fresh address for the new one.
record At (s : AddressSpace) (p c va : ℕ) (pt1 t : PageTableHandle) : Type 0 where
  tree : IsTree s
  fresh : IsFresh s c
  linked_at : first s va ≡ some p
  found : get p s.tables ≡ some pt1
  free : (pt1.entries (vpn1 va)).v ≡ false
  blank : (i : ℕ) → t.entries i ≡ new_entry

module _ (s : AddressSpace) (p c va : ℕ) (pt1 t : PageTableHandle) where
  first-below : (va' : ℕ) → vpn2 va ≡ vpn2 va' → first s va ≡ first s va'
  unfolding first
  first-below va' h = ap (λ i. linked (valid (s.root.entries i))) h

  with_middle-first : (va' : ℕ) → first (with_middle s p pt1 c t va) va' ≡ first s va'
  unfolding first with_middle
  with_middle-first va' = refl

  unlinked : (va' : ℕ) → At s p c va pt1 t → below va va' ≡ true → second s va' ≡ none
  unfolding below second linked
  unlinked va' w h =
      let none_here : second s va ≡ none = rw w.linked_at (
        ap linked (
          entry_of_found s.tables p (vpn1 va) pt1 w.found
          ∙ valid_not (pt1.entries (vpn1 va)) w.free)) in
      sym (second_cong s va va' (ground (arith, h)) (ground (arith, h))) ∙ none_here

  -- A table found elsewhere keeps its entries.
  with_middle-other :
      (o : Option ℕ) (i : ℕ)
      → o ≢ some c
      → o ≢ some p
      → entry_of (with_middle s p pt1 c t va).tables o i ≡ entry_of s.tables o i
  unfolding with_middle
  with_middle-other o i h k =
      entry_of_other (insert p (changed_of pt1 c va) s.tables) c t o i h
      ∙ entry_of_other s.tables p (changed_of pt1 c va) o i k

  -- The table `pt1` has the new entry.
  with_middle-At :
      (i : ℕ)
      → At s p c va pt1 t
      → entry_of (with_middle s p pt1 c t va).tables (some p) i
        ≡ valid (if vpn1 va == i then link (pt1.entries (vpn1 va)) c else pt1.entries i)
  unfolding with_middle write changed_of
  with_middle-At i w =
      let ne : some p ≢ some c = λ e. w.fresh.not_first va (w.linked_at ∙ e) in
      entry_of_other (insert p (changed_of pt1 c va) s.tables) c t (some p) i ne
      ∙ entry_of_same s.tables p (changed_of pt1 c va) i

  with_middle-second :
      (va' : ℕ)
      → At s p c va pt1 t
      → second (with_middle s p pt1 c t va) va' ≡ (if below va va' then some c else second s va')
  unfolding second below valid linked link
  with_middle-second va' w = rw (with_middle-first va') (elim (Bool-cases (vpn2 va == vpn2 va')) [
    | inl h ↦
        let at : first s va' ≡ some p = sym (first-below va' (ground (arith, h))) ∙ w.linked_at in
        rw (at, h)
          (elim (Bool-cases (vpn1 va == vpn1 va')) [
            | inl k ↦ rw k (
                ap linked (with_middle-At (vpn1 va') w)
                ∙ rw k (
                    ap some
                      (target-link (pt1.entries (vpn1 va)) c w.fresh.aligned w.fresh.physical)))
            | inr k ↦ rw k (
                ap linked (with_middle-At (vpn1 va') w)
                ∙ rw k (ap linked (sym (entry_of_found s.tables p (vpn1 va') pt1 w.found))))
          ])
    | inr h ↦
        let ne : first s va' ≢ some p =
          λ e. let same = w.tree.one_root va va' p w.linked_at e in ground (arith, h, same) in
        rw h (ap linked (with_middle-other (first s va') (vpn1 va') (w.fresh.not_first va') ne))
  ])

  -- A table of the lower level is the new one or one that was there.
  with_middle-cases :
      (v q : ℕ)
      → At s p c va pt1 t
      → second (with_middle s p pt1 c t va) v ≡ some q
      → ((below va v ≡ true) × (c ≡ q)) ⊎ (second s v ≡ some q)
  with_middle-cases v q w g =
      let e = sym (with_middle-second v w) ∙ g in
      elim (Bool-cases (below va v)) [
        | inl h ↦ inl (h, ground (arith, h, e))
        | inr h ↦ inr (ground (arith, h, e))
      ]

  with_middle-translate :
      (va' : ℕ) → At s p c va pt1 t → translate (with_middle s p pt1 c t va) va' ≡ translate s va'
  unfolding translate entry_of with_middle insert valid
  with_middle-translate va' w = rw (with_middle-second va' w) (elim (Bool-cases (below va va')) [
    | inl h ↦
        rw (h, unlinked va' w h)
          (entry_of_same (insert p (changed_of pt1 c va) s.tables) c t (vpn0 va')
            ∙ ap valid (w.blank (vpn0 va')))
    | inr h ↦ rw h (
        with_middle-other (second s va') (vpn0 va') (w.fresh.not_second va')
          (w.tree.levels va va' p w.linked_at))
  ])

  with_middle-IsTree : At s p c va pt1 t → IsTree (with_middle s p pt1 c t va)
  unfolding below
  with_middle-IsTree w = record {
    one_root = λ v v' q g h.
        w.tree.one_root v v' q (sym (with_middle-first v) ∙ g) (sym (with_middle-first v') ∙ h);
    levels = λ v v' q g h.
        let old : first s v ≡ some q = sym (with_middle-first v) ∙ g in
        elim (with_middle-cases v' q w h) [
          | inl (k, e) ↦ w.fresh.not_first v (old ∙ ap some (sym e))
          | inr h' ↦ w.tree.levels v v' q old h'
        ];
    one_parent = λ v v' q g h. elim (with_middle-cases v q w g) [
      | inl (k, e) ↦ elim (with_middle-cases v' q w h) [
        | inl (k', e') ↦ (ground (arith, k, k'), ground (arith, k, k'))
        | inr h' ↦ absurd (w.fresh.not_second v' (h' ∙ ap some (sym e)))
      ]
      | inr g' ↦ elim (with_middle-cases v' q w h) [
        | inl (k', e') ↦ absurd (w.fresh.not_second v (g' ∙ ap some (sym e')))
        | inr h' ↦ w.tree.one_parent v v' q g' h'
      ]
    ];
  }

  with_middle-new :
      At s p c va pt1 t
      → second (with_middle s p pt1 c t va) va ≡ some (target (link (pt1.entries (vpn1 va)) c))
  unfolding below
  with_middle-new w =
      let same : below va va ≡ true = ground arith in
      rw (with_middle-second va w, same)
        (ap some (sym (target-link (pt1.entries (vpn1 va)) c w.fresh.aligned w.fresh.physical)))

  second_there :
      first s va ≡ some p
      → get p s.tables ≡ some pt1
      → (pt1.entries (vpn1 va)).v ≡ true
      → second s va ≡ some (target (pt1.entries (vpn1 va)))
  unfolding second linked
  second_there l f n =
      rw l (
        ap linked
          (entry_of_found s.tables p (vpn1 va) pt1 f ∙ valid_some (pt1.entries (vpn1 va)) n))

pub map_middle-Descends :
    (b : BuddyAllocator) (s : AddressSpace) (p va : ℕ)
    → IsTree s
    → Provides b s
    → first s va ≡ some p
    → Descends s (λ s'. second s' va) (map_middle b s p va)
unfolding map_middle with_middle changed_of
map_middle-Descends b s p va tree pr l = searched (get p s.tables) refl
  where
    opened :
        (pt1 : PageTableHandle)
        → get p s.tables ≡ some pt1
        → (v : Bool) → (pt1.entries (vpn1 va)).v ≡ v
        → (made : Result PageTableHandle MemError) → Creates b made
        → Descends s
            (λ s'. second s' va)
            (if v then (b, s, ok (target (pt1.entries (vpn1 va)))) else elim made [
              | err e ↦ ((create b).0, s, err e)
              | ok t ↦
                  let entry = link (pt1.entries (vpn1 va)) t.page.start in
                  let changed = record pt1 { entries = write pt1.entries (vpn1 va) entry } in
                  (
                    (create b).0,
                    record s { tables = insert t.page.start t (insert p changed s.tables) },
                    ok (target entry),
                  )
            ])
    opened pt1 f true n made c =
        reaches b s (target (pt1.entries (vpn1 va))) tree (λ va'. refl)
          (second_there s p p va pt1 pt1 l f n)
    opened pt1 f false n _ creates_none = stops _ out_of_memory
    opened pt1 f false n _ (creates page q) =
        let fr = pr.fresh page q in
        let t : PageTableHandle = record { page = page; entries = λ i. new_entry } in
        let w : At s p page.start va pt1 t = record {
          tree = tree;
          fresh = fr;
          linked_at = l;
          found = f;
          free = n;
          blank = λ i. refl;
        } in
        reaches _ (with_middle s p pt1 page.start t va) _
          (with_middle-IsTree s p page.start va pt1 t w)
          (λ va'. with_middle-translate s p page.start va pt1 t va' w)
          (with_middle-new s p page.start va pt1 t w)

    searched :
        (o : Option PageTableHandle)
        → get p s.tables ≡ o
        → Descends s
            (λ s'. second s' va)
            (elim o [
              | none ↦ (b, s, err page_table_missing)
              | some pt1 ↦
                  let made = create b in
                  if (pt1.entries (vpn1 va)).v
                  then (b, s, ok (target (pt1.entries (vpn1 va))))
                  else elim (made.1) [
                    | err e ↦ (made.0, s, err e)
                    | ok t ↦
                        let entry = link (pt1.entries (vpn1 va)) t.page.start in
                        let changed = record pt1 { entries = write pt1.entries (vpn1 va) entry } in
                        (
                          made.0,
                          record s { tables = insert t.page.start t (insert p changed s.tables) },
                          ok (target entry),
                        )
                  ]
            ])
    searched none f = stops b page_table_missing
    searched (some pt1) f =
        opened pt1 f (pt1.entries (vpn1 va)).v refl ((create b).1) (create-Creates b)
