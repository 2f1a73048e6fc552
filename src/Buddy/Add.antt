-- ===== src/Buddy/Add.antt =====
-- `add_frame` cuts a range of memory into blocks.
use native.Mathlib.Nat.{div-add-mod', mod-lt}
use athera.Prelude.{
  ℕ, zero, suc, ◌+◌, ◌-◌, ◌*◌, ◌/◌, ◌≤◌, ◌<◌, ◌≡◌, refl, ◌∙◌, List, length, leb, leb→le, arith, inl,
  inr, Bool-cases,
}
use athera.Buddy.{
  BuddyAllocator, buddy_max_order, order_size, push, add_chunks, add_orders, add_frame,
}
use athera.Buddy.Cover.{within, cover, cover-push, length-push}
use athera.Buddy.Pairs.{size-pos}

within-append :
    (a start n m : ℕ) → within a start (n + m) ≡ within a start n + within a (start + n) m
unfolding within
within-append a start n m = ground arith

length-add_chunks :
    (ls : List (List ℕ)) (order current n : ℕ) → length (add_chunks ls order current n) ≡ length ls
unfolding add_chunks
length-add_chunks ls order current zero = refl
length-add_chunks ls order current (suc n) =
    length-add_chunks (push ls order current) order (current + order_size order) n
    ∙ length-push ls order current

cover-add_chunks :
    (a : ℕ) (ls : List (List ℕ)) (order current n : ℕ)
    → order < length ls
    → cover a 0 (add_chunks ls order current n)
      ≡ cover a 0 ls + within a current (n * order_size order)
unfolding add_chunks
cover-add_chunks a ls order current zero h =
    let nil : 0 * order_size order ≡ 0 = omega arith in rw nil (unfold within in ground arith)
cover-add_chunks a ls order current (suc n) h =
    let size = length-push ls order current in
    let more : suc n * order_size order ≡ order_size order + n * order_size order = grind arith in
    rw more (
      omega (
        arith,
        cover-add_chunks a (push ls order current) order (current + order_size order) n
            (omega (arith, size)),
        cover-push a ls order current h,
        within-append a current (order_size order) (n * order_size order),
      ))

-- `n` bytes from `current` on joined the free memory, all but less than a page of what is below `end`.
pub record Adds (ls : List (List ℕ)) (current end : ℕ) (left : ℕ) (ls' : List (List ℕ))
    : Type 0 where
  pub bytes : ℕ
  pub same_length : length ls' ≡ length ls
  pub inside : bytes ≤ end - current
  pub rest : end - current - bytes < left
  pub added : (a : ℕ) → cover a 0 ls' ≡ cover a 0 ls + within a current bytes

-- The blocks of one order, and then what the lower orders add.
chunked :
    (ls ls' : List (List ℕ)) (order current end left n : ℕ)
    → order < length ls
    → n * order_size order ≤ end - current
    → Adds (add_chunks ls order current n) (current + n * order_size order) end left ls'
    → Adds ls current end left ls'
chunked ls ls' order current end left n h fits r = record {
  bytes = n * order_size order + r.bytes;
  same_length = r.same_length ∙ length-add_chunks ls order current n;
  inside = omega (arith, r.inside, fits);
  rest = omega (arith, r.rest, fits);
  added = λ a. omega (
    arith,
    r.added a,
    cover-add_chunks a ls order current n h,
    within-append a current (n * order_size order) r.bytes,
  );
}

nothing_left :
    (ls : List (List ℕ)) (current end left : ℕ) → end - current < left → Adds ls current end left ls
nothing_left ls current end left h = record {
  bytes = 0;
  same_length = refl;
  inside = omega arith;
  rest = omega (arith, h);
  added = λ a. unfold within in ground arith;
}

no_end :
    (ls : List (List ℕ)) (current end order : ℕ)
    → end ≤ current
    → Adds ls current end (order_size 0) ls
no_end ls current end order h =
    nothing_left ls current end (order_size 0) (omega (arith, size-pos 0))

abbrev fits : ℕ → ℕ → ℕ → ℕ
fits current end order = (end - current) / order_size order

-- The blocks of `order` and the lower orders, whichever way they go on.
one_order :
    (order : ℕ) (ls : List (List ℕ)) (current end : ℕ)
    → order < length ls
    → Adds
        (add_chunks ls order current (fits current end order))
        (current + fits current end order * order_size order)
        end
        (order_size 0)
        (add_orders
          (add_chunks ls order current (fits current end order))
          order
          (current + fits current end order * order_size order)
          end)
    → Adds ls current end (order_size 0) (add_orders ls (suc order) current end)
unfolding add_orders
one_order order ls current end h rest = elim (Bool-cases (leb end current)) [
  | inl done ↦ rw done (no_end ls current end order (leb→le end current done))
  | inr more ↦ rw more (
      chunked ls _ order current end (order_size 0) (fits current end order) h
        (omega (arith, div-add-mod' (end - current) (order_size order))) rest)
]

add_orders-Adds :
    (order : ℕ) (ls : List (List ℕ)) (current end : ℕ)
    → order < length ls
    → Adds ls current end (order_size 0) (add_orders ls (suc order) current end)
unfolding add_orders
add_orders-Adds zero ls current end h = one_order 0 ls current end h (
    nothing_left (add_chunks ls 0 current (fits current end 0))
      (current + fits current end 0 * order_size 0) end (order_size 0)
      (omega
        (arith, div-add-mod' (end - current) (order_size 0), mod-lt (end - current) (size-pos 0))))
add_orders-Adds (suc o) ls current end h = one_order (suc o) ls current end h (
    add_orders-Adds o (add_chunks ls (suc o) current (fits current end (suc o)))
      (current + fits current end (suc o) * order_size (suc o)) end
      (omega (arith, length-add_chunks ls (suc o) current (fits current end (suc o)))))

-- `add_frame` of a range, on the allocator's eleven lists, adds the bytes from `start` on to the free
-- memory, once each and none at or beyond `end`, but for a rest of less than a page.
add_frame-Adds :
    (b : BuddyAllocator) (start end : ℕ)
    → length b.free_list ≡ buddy_max_order
    → Adds b.free_list start end (order_size 0) ((add_frame b start end).free_list)
unfolding add_frame
add_frame-Adds b start end h = add_orders-Adds 10 b.free_list start end (omega (arith, h))
