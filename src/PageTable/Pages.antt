-- ===== src/PageTable/Pages.antt =====
-- A loop of `unmap` of src/mm/page_table.rs over the pages of a range, and the walk after it.
use athera.Prelude.{
  ℕ, zero, suc, ◌+◌, ◌*◌, ◌%◌, ◌/◌, ◌^◌, ◌≤◌, ◌<◌, ◌≡◌, refl, sym, ap, ◌∙◌, none, some, Bool, true,
  false, ◌||◌, ◌==◌, if◌then◌else◌, arith, inl, inr, Bool-cases, Option-cases, dec_lt,
}
use athera.Prelude.BTreeMap.{get, get-insert}
use athera.PageTable.{
  AddressSpace, AddressSpaceManager, new_entry, vpn0, vpn1, vpn2, target, unmap, unmap_middle,
  unmap_leaf, user_unmap,
}
use athera.PageTable.Translate.{
  valid_some, linked, entry_of, entry_of_found, first, second, translate, same_page, IsTree, Agrees,
  Agrees-IsTree, with_entry, with_entry-Agrees,
}
use athera.PageTable.Map.{translate-unmap}

agree : (s : AddressSpace) → Agrees s s
agree s = record { firsts = λ va. refl; seconds = λ va. refl }

unmap_leaf-Agrees :
    (s : AddressSpace) (q va : ℕ) → IsTree s → second s va ≡ some q → Agrees s (unmap_leaf s q va)
unfolding unmap_leaf with_entry
unmap_leaf-Agrees s q va tree l = elim (Option-cases (get q s.tables)) [
  | inl f ↦ rw (f, unmap_leaf) (agree s)
  | inr (t, f) ↦ rw (f, unmap_leaf) (with_entry-Agrees s q va t new_entry tree l)
]

unmap_middle-Agrees :
    (s : AddressSpace) (p va : ℕ) → IsTree s → first s va ≡ some p → Agrees s (unmap_middle s p va)
unfolding unmap_middle second linked target
unmap_middle-Agrees s p va tree l = elim (Option-cases (get p s.tables)) [
  | inl f ↦ rw (f, unmap_middle) (agree s)
  | inr (t, f) ↦
      let e = t.entries (vpn1 va) in
      let found = entry_of_found s.tables p (vpn1 va) t f in
      rw (f, unmap_middle)
        (elim (Bool-cases e.v) [
          | inr n ↦ rw n (agree s)
          | inl n ↦
              let m : second s va ≡ some (target e) =
                ap (λ x. linked (entry_of s.tables x (vpn1 va))) l
                ∙ ap linked (found ∙ valid_some e n) in
              rw n (unmap_leaf-Agrees s (target e) va tree m)
        ])
]

unmap-IsTree : (s : AddressSpace) (va : ℕ) → IsTree s → IsTree (unmap s va)
unfolding unmap first linked target
unmap-IsTree s va tree =
    let e = s.root.entries (vpn2 va) in
    elim (Bool-cases e.v) [
      | inr n ↦ rw n tree
      | inl n ↦
          let next = unmap_middle s (target e) va in
          let l : first s va ≡ some (target e) = ap linked (valid_some e n) in
          let kept = Agrees-IsTree s next (unmap_middle-Agrees s (target e) va tree l) tree in
          rw n kept
    ]

-- `va'` is on one of the `n` pages from `va` on.
unfoldable pub on_pages : ℕ → ℕ → ℕ → Bool
on_pages va zero va' = false
on_pages va (suc n) va' = on_pages (va + 4096) n va' || same_page va va'

pub same_page-within :
    (va va' : ℕ) → va % 4096 ≡ 0 → va ≤ va' → va' < va + 4096 → same_page va va' ≡ true
unfolding same_page vpn0 vpn1 vpn2
same_page-within va va' e low high =
    let page : va' / 2 ^ 12 ≡ va / 2 ^ 12 = omega arith in
    let middle : va' / 2 ^ 21 ≡ va / 2 ^ 21 = omega arith in
    let top : va' / 2 ^ 30 ≡ va / 2 ^ 30 = omega arith in rw (page, middle, top) (ground arith)

pub on_pages-within :
    (n va va' : ℕ) → va % 4096 ≡ 0 → va ≤ va' → va' < va + n * 4096 → on_pages va n va' ≡ true
unfolding on_pages
on_pages-within zero va va' e low high = absurd (omega arith)
on_pages-within (suc n) va va' e low high = elim (Bool-cases (same_page va va')) [
  | inl h ↦ rw h (ground arith)
  | inr h ↦
      let past : va + 4096 ≤ va' = past_page h in
      rw (h, on_pages-within n (va + 4096) va' (omega arith) past (omega arith)) refl
]
  where
    past_page : same_page va va' ≡ false → va + 4096 ≤ va'
    past_page h = elim (dec_lt va' (va + 4096)) [
      | yes q ↦ let no = sym (same_page-within va va' e low q) ∙ h in absurd (ground (arith, no))
      | no q ↦ omega (arith, q)
    ]

-- Of the task `tid`, whose space was `space`, the pages where `gone` holds have no translation, and
-- the others have theirs.
pub record Clears (tid : ℕ) (space : AddressSpace) (gone : ℕ → Bool) (spaces : AddressSpaceManager)
    : Type 0 where
  pub space_after : AddressSpace
  pub found : get tid spaces.user ≡ some space_after
  pub tree : IsTree space_after
  pub walk :
      (va' : ℕ) → translate space_after va' ≡ (if gone va' then none else translate space va')

pub Clears-nothing :
    (tid : ℕ) (space : AddressSpace) (spaces : AddressSpaceManager)
    → get tid spaces.user ≡ some space
    → IsTree space
    → Clears tid space (λ va'. false) spaces
Clears-nothing tid space spaces f t = record {
  space_after = space;
  found = f;
  tree = t;
  walk = λ va'. refl;
}

pub Clears-cong :
    {tid : ℕ} {space : AddressSpace} {gone more : ℕ → Bool} {spaces : AddressSpaceManager}
    → ((va' : ℕ) → gone va' ≡ more va')
    → Clears tid space gone spaces
    → Clears tid space more spaces
Clears-cong {space = space} h c = record {
  space_after = c.space_after;
  found = c.found;
  tree = c.tree;
  walk = λ va'. c.walk va' ∙ ap (λ g. if g then none else translate space va') (h va');
}

-- Two such changes, one after the other.
pub Clears-both :
    {tid : ℕ} {space : AddressSpace} {gone more : ℕ → Bool} {spaces spaces' : AddressSpaceManager}
    (c : Clears tid space gone spaces)
    → Clears tid c.space_after more spaces'
    → Clears tid space (λ va'. more va' || gone va') spaces'
Clears-both {gone = gone} {more = more} c d = record {
  space_after = d.space_after;
  found = d.found;
  tree = d.tree;
  walk = λ va'. d.walk va' ∙ rw (c.walk va') (ground arith);
}

pub user_unmap-Clears :
    (tid : ℕ) (space : AddressSpace) (spaces : AddressSpaceManager) (va : ℕ)
    → get tid spaces.user ≡ some space
    → IsTree space
    → Clears tid space (same_page va) ((user_unmap spaces tid va).0)
unfolding user_unmap
user_unmap-Clears tid space spaces va f t =
    let same : (tid == tid) ≡ true = ground arith in
    rw (f, user_unmap)
      (record {
        space_after = unmap space va;
        found = get-insert tid tid (unmap space va) spaces.user ∙ rw same refl;
        tree = unmap-IsTree space va t;
        walk = λ va'. translate-unmap space va va' t;
      })
