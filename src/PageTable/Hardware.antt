-- ===== src/PageTable/Hardware.antt =====
-- The walk of the hardware through a user space: it also sees the tables of the kernel, whose links
-- `create_user_address_space` of src/mm/page_table.rs copies into the root.
use athera.Prelude.{
  ℕ, ◌≡◌, ◌≢◌, refl, ap, ◌∙◌, Option, none, some, ◌==◌, if◌then◌else◌, inl, inr, Bool-cases,
  Option-cases,
}
use athera.Prelude.BTreeMap.{BTreeMap, empty, entry, get, insert, get-insert, or_else}
use athera.PageTable.{
  PageTableHandle, AddressSpace, new_entry, vpn0, vpn1, vpn2, target, write, unmap, unmap_middle,
  unmap_leaf,
}
use athera.PageTable.Translate.{
  valid, valid_some, linked, entry_of, entry_of_found, first, second, translate, same_page, IsTree,
}
use athera.PageTable.Map.{translate-unmap}

-- The tables of a space and then those of others.
unfoldable pub join : BTreeMap PageTableHandle → BTreeMap PageTableHandle → BTreeMap PageTableHandle
join empty others = others
join (entry p t m) others = insert p t (join m others)

-- A space as the hardware walks it, where `others` are the tables that belong to the kernel.
unfoldable pub in_memory : AddressSpace → BTreeMap PageTableHandle → AddressSpace
in_memory s others = record s { tables = join s.tables others }

-- The tables on the way to `va` belong to the space.
pub record IsOwned (s : AddressSpace) (va : ℕ) : Type 0 where
  pub firsts : (p : ℕ) → first s va ≡ some p → get p s.tables ≢ none
  pub seconds : (p : ℕ) → second s va ≡ some p → get p s.tables ≢ none

get-join :
    (p : ℕ) (m others : BTreeMap PageTableHandle)
    → get p (join m others) ≡ or_else (get p m) (get p others)
unfolding join get
get-join p empty others = refl
get-join p (entry q t m) others =
    get-insert q p t (join m others)
    ∙ elim (Bool-cases (q == p)) [ inl h ↦ rw h refl | inr h ↦ rw h (get-join p m others) ]

-- Two spaces that no walk tells apart.
record Alike (s s' : AddressSpace) : Type 0 where
  root : s.root ≡ s'.root
  tables : (p : ℕ) → get p s.tables ≡ get p s'.tables

alike : (s : AddressSpace) → Alike s s
alike s = record { root = refl; tables = λ p. refl }

entry_of-Alike :
    (t t' : BTreeMap PageTableHandle) (o : Option ℕ) (i : ℕ)
    → ((p : ℕ) → get p t ≡ get p t')
    → entry_of t o i ≡ entry_of t' o i
unfolding entry_of
entry_of-Alike t t' none i h = refl
entry_of-Alike t t' (some p) i h = rw (h p, entry_of) refl

translate-Alike : (s s' : AddressSpace) (va : ℕ) → Alike s s' → translate s va ≡ translate s' va
unfolding translate second first
translate-Alike s s' va a =
    let roots = ap (λ r. linked (valid (r.entries (vpn2 va)))) a.root in
    let upper =
      ap (λ o. linked (entry_of s.tables o (vpn1 va))) roots
      ∙ ap linked (
          entry_of-Alike s.tables s'.tables (linked (valid (s'.root.entries (vpn2 va)))) (vpn1 va)
            a.tables) in
    ap (λ o. entry_of s.tables o (vpn0 va)) upper
    ∙ entry_of-Alike s.tables s'.tables _ (vpn0 va) a.tables

found_in_memory :
    (s : AddressSpace) (others : BTreeMap PageTableHandle) (p : ℕ) (t : PageTableHandle)
    → get p s.tables ≡ some t
    → get p (join s.tables others) ≡ some t
found_in_memory s others p t g = get-join p s.tables others ∙ rw g refl

module _ (s : AddressSpace) (others : BTreeMap PageTableHandle) where
  unmap_leaf-Alike :
      (q va : ℕ) (t : PageTableHandle)
      → get q s.tables ≡ some t
      → Alike (in_memory (unmap_leaf s q va) others) (unmap_leaf (in_memory s others) q va)
  unfolding in_memory unmap_leaf
  unmap_leaf-Alike q va t g =
      let c = record t { entries = write t.entries (vpn0 va) new_entry } in
      rw (g, found_in_memory s others q t g, unmap_leaf)
        (record {
          root = refl;
          tables = λ p.
              get-join p (insert q c s.tables) others
              ∙ rw
                  (
                    get-insert q p c s.tables,
                    get-insert q p c (join s.tables others),
                    get-join p s.tables others,
                  )
                  (elim (Bool-cases (q == p)) [ inl h ↦ rw h refl | inr h ↦ rw h refl ]);
        })

  unmap_middle-Alike :
      (p va : ℕ) (t : PageTableHandle)
      → get p s.tables ≡ some t
      → ((q : ℕ) → linked (valid (t.entries (vpn1 va))) ≡ some q → get q s.tables ≢ none)
      → Alike (in_memory (unmap_middle s p va) others) (unmap_middle (in_memory s others) p va)
  unfolding in_memory unmap_middle linked target
  unmap_middle-Alike p va t g own =
      let e = t.entries (vpn1 va) in
      rw (g, found_in_memory s others p t g, unmap_middle)
        (elim (Bool-cases e.v) [
          | inr n ↦ rw n (alike (in_memory s others))
          | inl n ↦ elim (Option-cases (get (target e) s.tables)) [
            | inl m ↦ absurd (own (target e) (ap linked (valid_some e n)) m)
            | inr (t0, f) ↦ rw n (unmap_leaf-Alike (target e) va t0 f)
          ]
        ])

  unmap-Alike :
      (va : ℕ)
      → IsOwned s va
      → Alike (in_memory (unmap s va) others) (unmap (in_memory s others) va)
  unfolding in_memory unmap first second linked target
  unmap-Alike va o =
      let e = s.root.entries (vpn2 va) in
      elim (Bool-cases e.v) [
        | inr n ↦ rw n (alike (in_memory s others))
        | inl n ↦
            let l : first s va ≡ some (target e) = ap linked (valid_some e n) in
            elim (Option-cases (get (target e) s.tables)) [
              | inl m ↦ absurd (o.firsts (target e) l m)
              | inr (t, g) ↦
                  let same : second s va ≡ linked (valid (t.entries (vpn1 va))) =
                    ap (λ x. linked (entry_of s.tables x (vpn1 va))) l
                    ∙ ap linked (entry_of_found s.tables (target e) (vpn1 va) t g) in
                  rw n (unmap_middle-Alike (target e) va t g (λ q h. o.seconds q (same ∙ h)))
            ]
      ]

-- Where the tables of the space and those of the kernel form a tree, and the tables on the way to
-- `va` belong to the space: after `unmap` the hardware finds no translation of the page of `va`, and
-- of every other page the one that it found before.
pub walk-unmap :
    (s : AddressSpace) (others : BTreeMap PageTableHandle) (va va' : ℕ)
    → IsTree (in_memory s others)
    → IsOwned s va
    → translate (in_memory (unmap s va) others) va'
      ≡ (if same_page va va' then none else translate (in_memory s others) va')
walk-unmap s others va va' tree o =
    translate-Alike (in_memory (unmap s va) others) (unmap (in_memory s others) va) va'
      (unmap-Alike s others va o)
    ∙ translate-unmap (in_memory s others) va va' tree
