-- ===== src/PageTable/Translate.antt =====
-- The walk of the hardware through an address space, and the tree of its tables.
use athera.Prelude.{
  ℕ, ◌≡◌, ◌≢◌, refl, sym, ap, ◌∙◌, Option, none, some, Bool, true, false, ◌&&◌, ◌==◌, if◌then◌else◌,
  arith, inl, inr, Bool-cases, Option-cases,
}
use athera.Prelude.BTreeMap.{BTreeMap, get, insert, get-insert}
use athera.PageTable.{
  PageTableEntry, PageTableHandle, AddressSpace, vpn0, vpn1, vpn2, target, write,
}

unfoldable pub valid : PageTableEntry → Option PageTableEntry
valid e = if e.v then some e else none

pub valid_not : (e : PageTableEntry) → e.v ≡ false → valid e ≡ none
unfolding valid
valid_not e f = ground (arith, f)

pub valid_some : (e : PageTableEntry) → e.v ≡ true → valid e ≡ some e
unfolding valid
valid_some e f = ground (arith, f)

unfoldable pub linked : Option PageTableEntry → Option ℕ
linked none = none
linked (some e) = some (target e)

-- The valid entry `i` of the table at an address.
unfoldable pub entry_of : BTreeMap PageTableHandle → Option ℕ → ℕ → Option PageTableEntry
entry_of tables none i = none
entry_of tables (some p) i = elim (get p tables) [ none ↦ none | some t ↦ valid (t.entries i) ]

-- The table below the root, the table below that one, and the entry of the page.
unfoldable pub first : AddressSpace → ℕ → Option ℕ
first s va = linked (valid (s.root.entries (vpn2 va)))

unfoldable pub second : AddressSpace → ℕ → Option ℕ
second s va = linked (entry_of s.tables (first s va) (vpn1 va))

unfoldable pub translate : AddressSpace → ℕ → Option PageTableEntry
translate s va = entry_of s.tables (second s va) (vpn0 va)

unfoldable pub same_page : ℕ → ℕ → Bool
same_page va va' = vpn2 va == vpn2 va' && vpn1 va == vpn1 va' && vpn0 va == vpn0 va'

-- No table has two parents.
pub record IsTree (s : AddressSpace) : Type 0 where
  pub one_root : (va va' p : ℕ) → first s va ≡ some p → first s va' ≡ some p → vpn2 va ≡ vpn2 va'
  pub levels : (va va' p : ℕ) → first s va ≡ some p → second s va' ≢ some p
  pub one_parent :
      (va va' p : ℕ)
      → second s va ≡ some p
      → second s va' ≡ some p
      → (vpn2 va ≡ vpn2 va') × (vpn1 va ≡ vpn1 va')

-- A write of another table is not seen.
pub entry_of_other :
    (tables : BTreeMap PageTableHandle) (k : ℕ) (t : PageTableHandle) (o : Option ℕ) (i : ℕ)
    → o ≢ some k
    → entry_of (insert k t tables) o i ≡ entry_of tables o i
unfolding entry_of
entry_of_other tables k t none i h = refl
entry_of_other tables k t (some p) i h = elim (Bool-cases (k == p)) [
  | inl e ↦ let same : p ≡ k = ground (arith, e) in absurd (h (ap some same))
  | inr e ↦ rw (get-insert k p t tables, e, entry_of) refl
]

pub entry_of_same :
    (tables : BTreeMap PageTableHandle) (k : ℕ) (t : PageTableHandle) (i : ℕ)
    → entry_of (insert k t tables) (some k) i ≡ valid (t.entries i)
unfolding entry_of
entry_of_same tables k t i =
    let e : (k == k) ≡ true = ground arith in rw (get-insert k k t tables, e, entry_of) refl

-- The same tables are found at the two upper levels.
pub record Agrees (s s' : AddressSpace) : Type 0 where
  pub firsts : (va : ℕ) → first s' va ≡ first s va
  pub seconds : (va : ℕ) → second s' va ≡ second s va

pub Agrees-IsTree : (s s' : AddressSpace) → Agrees s s' → IsTree s → IsTree s'
Agrees-IsTree s s' a t = record {
  one_root = λ va va' p f g. t.one_root va va' p (sym (a.firsts va) ∙ f) (sym (a.firsts va') ∙ g);
  levels = λ va va' p f g. t.levels va va' p (sym (a.firsts va) ∙ f) (sym (a.seconds va') ∙ g);
  one_parent =
      λ va va' p f g. t.one_parent va va' p (sym (a.seconds va) ∙ f) (sym (a.seconds va') ∙ g);
}

-- The entry of `va` written in its table.
unfoldable pub with_entry : AddressSpace → ℕ → PageTableHandle → ℕ → PageTableEntry → AddressSpace
with_entry s q pt va e = record s {
  tables = insert q (record pt { entries = write pt.entries (vpn0 va) e }) s.tables;
}

pub with_entry-Agrees :
    (s : AddressSpace) (q va : ℕ) (pt : PageTableHandle) (e : PageTableEntry)
    → IsTree s
    → second s va ≡ some q
    → Agrees s (with_entry s q pt va e)
unfolding with_entry first second
with_entry-Agrees s q va pt e t h = record {
  firsts = λ va'. refl;
  seconds = λ va'. ap linked (
      entry_of_other s.tables q (record pt { entries = write pt.entries (vpn0 va) e }) (first s va')
        (vpn1 va') (λ f. t.levels va' va q f h));
}

pub second_cong :
    (s : AddressSpace) (va va' : ℕ)
    → vpn2 va ≡ vpn2 va'
    → vpn1 va ≡ vpn1 va'
    → second s va ≡ second s va'
unfolding second first
second_cong s va va' h k =
    ap (λ i. linked (entry_of s.tables (linked (valid (s.root.entries i))) (vpn1 va))) h
    ∙ ap (λ i. linked (entry_of s.tables (linked (valid (s.root.entries (vpn2 va')))) i)) k

pub entry_of_found :
    (tables : BTreeMap PageTableHandle) (q i : ℕ) (pt : PageTableHandle)
    → get q tables ≡ some pt
    → entry_of tables (some q) i ≡ valid (pt.entries i)
unfolding entry_of
entry_of_found tables q i pt g = rw (g, entry_of) refl

-- The walk sees the entry at the page of `va`, and at every other page what it saw.
pub with_entry-translate :
    (s : AddressSpace) (q va va' : ℕ) (pt : PageTableHandle) (e : PageTableEntry)
    → IsTree s
    → second s va ≡ some q
    → get q s.tables ≡ some pt
    → translate (with_entry s q pt va e) va'
      ≡ (if same_page va va' then valid e else translate s va')
unfolding translate same_page write with_entry insert entry_of
with_entry-translate s q va va' pt e t h g =
    rw ((with_entry-Agrees s q va pt e t h).seconds va') (elim (Option-cases (second s va')) [
      | inl n ↦
          let other : same_page va va' ≡ false =
            apart (λ k. none_some (sym n ∙ sym (second_cong s va va' (k.0) (k.1)) ∙ h)) in
          rw (other, n) refl
      | inr (q', n) ↦ elim (Bool-cases (q == q')) [
        | inl c ↦
            let same : q' ≡ q = ground (arith, c) in
            let k = t.one_parent va va' q h (rw same at n) in
            rw
              (
                n,
                same,
                entry_of_same s.tables q (record pt { entries = write pt.entries (vpn0 va) e })
                    (vpn0 va'),
                entry_of_found s.tables q (vpn0 va') pt g,
              )
              (ground (arith, k.0, k.1))
        | inr c ↦
            let ne : q' ≢ q = ground (arith, c) in
            let other : same_page va va' ≡ false =
              apart (λ k. ne (some_inj (sym n ∙ sym (second_cong s va va' (k.0) (k.1)) ∙ h))) in
            rw (other, n)
              (entry_of_other s.tables q (record pt { entries = write pt.entries (vpn0 va) e })
                (some q') (vpn0 va') (λ x. ne (some_inj x)))
      ]
    ])
  where
    none_some : none ≡ some q → ⊥
    none_some x = ground (arith, x)

    some_inj : {a b : ℕ} → some a ≡ some b → a ≡ b
    some_inj x = ground (arith, x)

    apart : ((vpn2 va ≡ vpn2 va') × (vpn1 va ≡ vpn1 va') → ⊥) → same_page va va' ≡ false
    apart split = elim (Bool-cases (vpn2 va == vpn2 va' && vpn1 va == vpn1 va')) [
      | inl x ↦ absurd (split (ground (arith, x), ground (arith, x)))
      | inr x ↦ ground (arith, x)
    ]
