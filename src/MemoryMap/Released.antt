-- ===== src/MemoryMap/Released.antt =====
-- `unmap_range` of src/mm/memory_map.rs on whole mappings: the list and the page tables after it.
use athera.Prelude.{
  ℕ, zero, suc, ◌+◌, ◌%◌, ◌^◌, ◌≤◌, ◌<◌, ◌≡◌, refl, sym, subst, ◌∙◌, none, some, Bool, true, false,
  ◌||◌, List, [], ◌∷◌, if◌then◌else◌, arith, inl, inr, Bool-cases,
}
use athera.Prelude.Result.{ok, err}
use athera.Prelude.BTreeMap.{get}
use athera.PageTable.{AddressSpace, AddressSpaceManager, user_unmap}
use athera.PageTable.Translate.{translate, IsTree}
use athera.PageTable.Pages.{
  on_pages, on_pages-within, Clears, Clears-nothing, Clears-both, Clears-cong, user_unmap-Clears,
}
use athera.MemoryMap.{
  UserMapping, range_start, range_end, overlaps, range_is_free, rounds, page_start,
}
use athera.MemoryMap.Pages.{
  Machine, After, finish, all_keeps, back_up, drop_all, tear_down, remap, unmap_pages, unmap_range,
}
use athera.MemoryMap.Align.{page_start-mod}
use athera.MemoryMap.Keeps.{IsWords, true-overlaps}
use athera.MemoryMap.Unmap.{outside, tear_down-outside}

unmap_pages-Clears :
    (tid : ℕ) (space : AddressSpace) (n va : ℕ) (spaces : AddressSpaceManager)
    → get tid spaces.user ≡ some space
    → IsTree space
    → Clears tid space (on_pages va n) (unmap_pages spaces tid va n)
unfolding unmap_pages on_pages
unmap_pages-Clears tid space zero va spaces f t = Clears-nothing tid space spaces f t
unmap_pages-Clears tid space (suc n) va spaces f t =
    let c = user_unmap-Clears tid space spaces va f t in
    Clears-both c (
      unmap_pages-Clears tid c.space_after n (va + 4096) ((user_unmap spaces tid va).0) c.found
        c.tree)

-- `va'` is on a page of a mapping that overlaps `[start, end)`.
unfoldable pub released : List UserMapping → ℕ → ℕ → ℕ → Bool
released [] start end va' = false
released (m ∷ ms) start end va' =
    let rest = released ms start end va' in
    if overlaps m start end
    then on_pages (range_start m) (rounds (range_start m) (range_end m)) va' || rest
    else rest

tear_down-Clears :
    (s : Machine) (ms : List UserMapping) (tid start end : ℕ) (space : AddressSpace)
    → get tid s.spaces.user ≡ some space
    → IsTree space
    → Clears tid space (released ms start end) ((tear_down s ms tid start end).0.spaces)
unfolding tear_down released drop_all
tear_down-Clears s [] tid start end space f t = Clears-nothing tid space s.spaces f t
tear_down-Clears s (m ∷ ms) tid start end space f t =
    let c = tear_down-Clears s ms tid start end space f t in
    let pages = rounds (range_start m) (range_end m) in
    elim (Bool-cases (overlaps m start end)) [
      | inr o ↦
          let same : Clears tid space (released ms start end)
              ((tear_down s (m ∷ ms) tid start end).0.spaces) =
            rw o c in
          Clears-cong (λ va'. rw o refl) same
      | inl o ↦
          let both : Clears tid space
              (λ va'. on_pages (range_start m) pages va' || released ms start end va')
              ((tear_down s (m ∷ ms) tid start end).0.spaces) =
            rw o (
              Clears-both c (
                unmap_pages-Clears tid c.space_after pages (range_start m)
                  ((tear_down s ms tid start end).0.spaces) c.found c.tree)) in
          Clears-cong (λ va'. rw o refl) both
    ]

pages_within :
    (m : UserMapping) (va' : ℕ)
    → m.va < 2 ^ 64
    → range_start m ≤ va'
    → va' < range_end m
    → on_pages (range_start m) (rounds (range_start m) (range_end m)) va' ≡ true
unfolding range_start rounds
pages_within m va' w low high =
    let page : page_start m.va % 4096 ≡ 0 = omega (arith, page_start-mod m.va w) in
    on_pages-within (rounds (range_start m) (range_end m)) (page_start m.va) va' page low
      (omega arith)

-- An address of a mapping, in the range, is on a page of one that overlaps it.
mapped-released :
    (ms : List UserMapping) (start end va' : ℕ)
    → IsWords ms
    → start ≤ va'
    → va' < end
    → range_is_free ms va' (va' + 1) ≡ false
    → released ms start end va' ≡ true
unfolding released range_is_free
mapped-released [] start end va' w low high h = absurd (ground (arith, h))
mapped-released (m ∷ ms) start end va' w low high h = elim (Bool-cases (overlaps m va' (va' + 1))) [
  | inl o ↦
      let (a, b) = true-overlaps m va' o in
      let meets : overlaps m start end ≡ true = unfold overlaps in ground arith in
      rw (meets, pages_within m va' (w.0) a b) refl
  | inr o ↦
      let rest = mapped-released ms start end va' (w.1) low high (ground (arith, h, o)) in
      elim (Bool-cases (overlaps m start end)) [
        | inl c ↦ rw (c, rest) (ground arith)
        | inr c ↦ rw (c, rest) refl
      ]
]

-- What `unmap_range` leaves of whole mappings.
pub record Releases (ms : List UserMapping) (tid start end : ℕ) (space : AddressSpace)
    (r : After (Unit {0})) : Type 0 where
  answer : r.answer ≡ ok tt
  mappings : r.mappings ≡ outside ms start end
  pages : Clears tid space (released ms start end) r.machine.spaces
  inside :
      (va' : ℕ)
      → start ≤ va'
      → va' < end
      → range_is_free ms va' (va' + 1) ≡ false
      → translate pages.space_after va' ≡ none

-- On a range that leaves no part of a mapping to keep, in a task whose space is a tree of tables,
-- `unmap_range` answers success. The list is the mappings that do not overlap the range. In the tables
-- of the space no page of a mapping that overlaps it has a translation any more, so none of an
-- address of the range that was mapped, and every other page has the one that it had.
pub unmap_range-Releases :
    (s : Machine) (ms : List UserMapping) (tid start end : ℕ) (space : AddressSpace)
    → IsWords ms
    → get tid s.spaces.user ≡ some space
    → IsTree space
    → all_keeps ms start end ≡ []
    → Releases ms tid start end space (unmap_range s ms tid start end)
unfolding unmap_range back_up remap
unmap_range-Releases s ms tid start end space w f t k =
    let c = tear_down-Clears s ms tid start end space f t in
    let saved : back_up s ms (all_keeps ms start end) [] ≡ (s, ok []) = rw k refl in
    subst
      (λ r. Releases ms tid start end space (elim (r.1) [
        | err e ↦ finish (r.0) ms (err e)
        | ok buffers ↦
            let torn = tear_down (r.0) ms tid start end in remap (torn.0) (torn.1) tid buffers
      ]))
      (sym saved)
      (record {
        answer = refl;
        mappings = tear_down-outside s ms tid start end;
        pages = c;
        inside =
            λ va' low high h. c.walk va' ∙ rw (mapped-released ms start end va' w low high h) refl;
      })
