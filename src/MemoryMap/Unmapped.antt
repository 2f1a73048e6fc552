-- ===== src/MemoryMap/Unmapped.antt =====
-- Which addresses the list of mappings covers after `unmap_range`.
use athera.Prelude.{ℕ, ◌+◌, ◌%◌, ◌^◌, ◌≤◌, ◌<◌, ◌≡◌, ◌⊎◌, inl, inr, true, false, List, map, arith}
use athera.Prelude.Result.{ok}
use athera.MemoryMap.{UserMapping, range_is_free}
use athera.MemoryMap.Pages.{Machine, all_keeps, unmap_range}
use athera.MemoryMap.Unmap.{outside, as_mapping, unmap_range-Unmaps}
use athera.MemoryMap.Keeps.{
  IsWords, IsExact, range_is_free-append, outside_free, kept_free, all_keeps-Beside, kept_held,
  mapped_before, cleared, Unmaps-Cleared,
}

-- When `unmap_range` succeeds on a range that ends on a page, an address outside of the range that
-- the list covered is covered still.
unmap_range-range_is_free_outside :
    (s : Machine) (ms : List UserMapping) (tid start end va : ℕ)
    → IsWords ms
    → end < 2 ^ 64
    → end % 4096 ≡ 0
    → (unmap_range s ms tid start end).answer ≡ ok tt
    → (va < start) ⊎ (end ≤ va)
    → range_is_free ms va (va + 1) ≡ false
    → range_is_free (unmap_range s ms tid start end).mappings va (va + 1) ≡ false
unmap_range-range_is_free_outside s ms tid start end va w l e a b h =
    elim (Unmaps-Cleared (unmap_range-Unmaps s ms tid start end) a) [
      | cleared bs f o ↦ rw⁻¹ o (
          rw (range_is_free-append (outside ms start end) (map as_mapping bs) va (va + 1))
            (elim (mapped_before ms start end va b h) [
              | inl q ↦ ground (arith, q)
              | inr q ↦ ground (
                arith,
                kept_held va start end (all_keeps ms start end) bs
                    (all_keeps-Beside ms start end w l e) f q,
              )
            ]))
    ]

-- When `unmap_range` succeeds on a range that ends on a page, and the allocator gives no byte more
-- than the size of each part to keep, no mapping of the list meets the range.
unmap_range-range_is_free :
    (s : Machine) (ms : List UserMapping) (tid start end : ℕ)
    → IsWords ms
    → end < 2 ^ 64
    → end % 4096 ≡ 0
    → IsExact (all_keeps ms start end)
    → (unmap_range s ms tid start end).answer ≡ ok tt
    → range_is_free (unmap_range s ms tid start end).mappings start end ≡ true
unmap_range-range_is_free s ms tid start end w l e x a =
    elim (Unmaps-Cleared (unmap_range-Unmaps s ms tid start end) a) [
      | cleared bs f o ↦ rw⁻¹ o (
          rw (range_is_free-append (outside ms start end) (map as_mapping bs) start end) (
            ground (
              arith,
              outside_free ms start end,
              kept_free (all_keeps ms start end) bs start end (all_keeps-Beside ms start end w l e)
                  x f,
            )))
    ]
