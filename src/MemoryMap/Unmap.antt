-- ===== src/MemoryMap/Unmap.antt =====
-- What `unmap_range` leaves of the list of mappings, on every way out.
use athera.Prelude.{
  ℕ, ◌≤◌, ◌≡◌, refl, sym, ap, subst, ◌∙◌, ◌⊎◌, inl, inr, Option, none, some, ◌||◌, List, [], ◌∷◌,
  ◌++◌, map, if◌then◌else◌, Bool-cases, Option-cases,
}
use athera.Prelude.Result.{Result, ok, err}
use athera.Buddy.{BuddyAllocator}
use athera.Frames.{Frame, alloc_frames}
use athera.Frames.Segments.{total, rounded, Blocks, alloc_frames-total, alloc_frames-Blocks}
use athera.PageTable.{MemError, PageTableEntryFlags, AddressSpaceManager}
use athera.MemoryMap.{ErrorCode, enomem, efault, UserMapping, overlaps, rounds}
use athera.MemoryMap.Pages.{
  Machine, After, finish, Keep, map_frame, map_segments, mem_errno, unmap_pages, drop_all,
  all_keeps, copy_pages, drop_buffers, back_up, tear_down, remap, unmap_range,
}

-- Either the mapping is appended, or the list is as it was.
pub data MapsFrame (ms : List UserMapping) (addr : ℕ) (frames : List Frame)
    (flags : PageTableEntryFlags) : After (Unit {0}) → Type 0 where
  mapped :
      (s : Machine)
      → MapsFrame ms addr frames flags
          (finish s (ms ++ (record { va = addr; frames = frames; flags = flags } ∷ [])) (ok tt))
  refused : (s : Machine) (e : ErrorCode) → MapsFrame ms addr frames flags (finish s ms (err e))

pub map_frame-MapsFrame :
    (s : Machine) (ms : List UserMapping) (tid addr : ℕ) (frames : List Frame)
    (flags : PageTableEntryFlags)
    → MapsFrame ms addr frames flags (map_frame s ms tid addr frames flags)
unfolding map_frame
map_frame-MapsFrame s ms tid addr frames flags =
    answered
      (if flags.r || flags.w || flags.x then map_segments s tid addr frames flags else (s, none))
  where
    answered :
        (r : Machine × Option (ℕ × MemError))
        → MapsFrame ms addr frames flags (elim (r.1) [
          | none ↦
              finish
                (r.0)
                (ms ++ (record { va = addr; frames = frames; flags = flags } ∷ []))
                (ok tt)
          | some (failed, e) ↦
              finish
                (drop_all
                  (record (r.0) { spaces = unmap_pages (r.0).spaces tid addr (rounds addr failed) })
                  frames)
                ms
                (err (mem_errno e))
        ])
    answered (s', none) = mapped s'
    answered (s', some (failed, e)) = refused _ _

-- The buffers hold, for each part to keep, frames that `alloc_frames` has answered for its size.
pub data Filled : List Keep → List (List Frame × Keep) → Type 0 where
  filled_none : Filled [] []
  filled :
      (k : Keep) (frames : List Frame) (ks : List Keep) (bs : List (List Frame × Keep))
      (b : BuddyAllocator)
      → (alloc_frames b k.size).1 ≡ some frames
      → total frames ≡ rounded k.size
      → k.size ≤ total frames
      → Blocks frames
      → Filled ks bs
      → Filled (k ∷ ks) ((frames, k) ∷ bs)

data BacksUp (spaces : AddressSpaceManager) (ks : List Keep) (before : List (List Frame × Keep))
    : Machine × Result (List (List Frame × Keep)) ErrorCode → Type 0 where
  saved :
      (s : Machine) (bs out : List (List Frame × Keep))
      → s.spaces ≡ spaces
      → Filled ks bs
      → before ++ bs ≡ out
      → BacksUp spaces ks before (s, ok out)
  failed :
      (s : Machine) (e : ErrorCode)
      → s.spaces ≡ spaces
      → (e ≡ enomem) ⊎ (e ≡ efault)
      → BacksUp spaces ks before (s, err e)

drop_buffers-spaces :
    (s : Machine) (bs : List (List Frame × Keep)) → (drop_buffers s bs).spaces ≡ s.spaces
unfolding drop_buffers drop_all
drop_buffers-spaces s [] = refl
drop_buffers-spaces s (b ∷ bs) = drop_buffers-spaces (drop_all s (b.0)) bs

append_assoc : {A : Type 0} (a b c : List A) → (a ++ b) ++ c ≡ a ++ (b ++ c)
append_assoc [] b c = refl
append_assoc (x ∷ a) b c = ap (λ l. x ∷ l) (append_assoc a b c)

pub append_nil : {A : Type 0} (xs : List A) → xs ++ [] ≡ xs
append_nil [] = refl
append_nil (x ∷ xs) = ap (λ l. x ∷ l) (append_nil xs)

back_up-BacksUp :
    (s : Machine) (ms : List UserMapping) (ks : List Keep) (before : List (List Frame × Keep))
    → BacksUp s.spaces ks before (back_up s ms ks before)
unfolding back_up drop_all
back_up-BacksUp s ms [] before = saved s [] before refl filled_none (append_nil before)
back_up-BacksUp s ms (k ∷ ks) before = elim (Option-cases ((alloc_frames s.allocator k.size).1)) [
  | inl q ↦ rw (q, back_up) (failed _ enomem (drop_buffers-spaces _ before) (inl refl))
  | inr (frames, q) ↦
      let t = alloc_frames-total s.allocator k.size frames q in
      let blocks = alloc_frames-Blocks s.allocator k.size frames q in
      elim (Bool-cases ((copy_pages s.memory ms k.va frames 0 (rounds 0 k.size)).1)) [
        | inl c ↦
            let next : Machine = record s {
              allocator = (alloc_frames s.allocator k.size).0;
              memory = (copy_pages s.memory ms k.va frames 0 (rounds 0 k.size)).0;
            } in
            rw (q, c, back_up)
              (extend frames q (t.0) (t.1) blocks
                (back_up-BacksUp next ms ks (before ++ ((frames, k) ∷ []))))
        | inr c ↦ rw (q, c, back_up) (failed _ efault (drop_buffers-spaces _ before) (inr refl))
      ]
]
  where
    extend :
        {r : Machine × Result (List (List Frame × Keep)) ErrorCode} (frames : List Frame)
        → (alloc_frames s.allocator k.size).1 ≡ some frames
        → total frames ≡ rounded k.size
        → k.size ≤ total frames
        → Blocks frames
        → BacksUp s.spaces ks (before ++ ((frames, k) ∷ [])) r
        → BacksUp s.spaces (k ∷ ks) before r
    extend frames q e le blocks (saved s' bs out same f o) =
        saved s' ((frames, k) ∷ bs) out same (filled k frames ks bs s.allocator q e le blocks f)
          (sym (append_assoc before ((frames, k) ∷ []) bs) ∙ o)
    extend frames q e le blocks (failed s' c same w) = failed s' c same w

-- The mappings that do not overlap `[start, end)`.
unfoldable pub outside : List UserMapping → ℕ → ℕ → List UserMapping
outside [] start end = []
outside (m ∷ ms) start end =
    let rest = outside ms start end in if overlaps m start end then rest else m ∷ rest

pub tear_down-outside :
    (s : Machine) (ms : List UserMapping) (tid start end : ℕ)
    → (tear_down s ms tid start end).1 ≡ outside ms start end
unfolding tear_down outside
tear_down-outside s [] tid start end = refl
tear_down-outside s (m ∷ ms) tid start end = elim (Bool-cases (overlaps m start end)) [
  | inl c ↦ rw c (tear_down-outside s ms tid start end)
  | inr c ↦ rw c (ap (λ l. m ∷ l) (tear_down-outside s ms tid start end))
]

-- The mapping that a buffer becomes.
unfoldable pub as_mapping : List Frame × Keep → UserMapping
as_mapping (frames, k) = record { va = k.va; frames = frames; flags = k.flags }

data Remaps (ms : List UserMapping) (bs : List (List Frame × Keep))
    : After (Unit {0}) → Type 0 where
  remapped :
      (s : Machine) (out : List UserMapping)
      → ms ++ map as_mapping bs ≡ out
      → Remaps ms bs (finish s out (ok tt))
  stopped :
      (s : Machine) (out : List UserMapping) (e : ErrorCode) (done left : List (List Frame × Keep))
      → done ++ left ≡ bs
      → ms ++ map as_mapping done ≡ out
      → Remaps ms bs (finish s out (err e))

remap-Remaps :
    (s : Machine) (ms : List UserMapping) (tid : ℕ) (bs : List (List Frame × Keep))
    → Remaps ms bs (remap s ms tid bs)
unfolding remap as_mapping
remap-Remaps s ms tid [] = remapped s ms (append_nil ms)
remap-Remaps s ms tid ((frames, k) ∷ bs) =
    answered (map_frame s ms tid k.va frames k.flags)
      (map_frame-MapsFrame s ms tid k.va frames k.flags) (λ s' ms'. remap-Remaps s' ms' tid bs)
  where
    continued :
        {r : After (Unit {0})}
        → Remaps (ms ++ (as_mapping (frames, k) ∷ [])) bs r
        → Remaps ms ((frames, k) ∷ bs) r
    continued (remapped s' out o) =
        remapped s' out
          (sym (append_assoc ms (as_mapping (frames, k) ∷ []) (map as_mapping bs)) ∙ o)
    continued (stopped s' out e done left d o) =
        stopped s' out e ((frames, k) ∷ done) left (ap (λ l. (frames, k) ∷ l) d)
          (sym (append_assoc ms (as_mapping (frames, k) ∷ []) (map as_mapping done)) ∙ o)

    answered :
        (r : After (Unit {0}))
        → MapsFrame ms k.va frames k.flags r
        → ((s' : Machine) (ms' : List UserMapping) → Remaps ms' bs (remap s' ms' tid bs))
        → Remaps ms ((frames, k) ∷ bs) (elim r.answer [
          | err e ↦ finish (drop_buffers r.machine bs) r.mappings (err e)
          | ok u ↦ remap r.machine r.mappings tid bs
        ])
    answered _ (mapped s') next = continued (next s' (ms ++ (as_mapping (frames, k) ∷ [])))
    answered _ (refused s' e) next = stopped _ ms e [] ((frames, k) ∷ bs) refl (append_nil ms)

-- What `unmap_range` answers.
pub data Unmaps (s : Machine) (ms : List UserMapping) (start end : ℕ)
    : After (Unit {0}) → Type 0 where
  -- The mappings outside, and one for each part to keep, on frames of their own.
  unmapped :
      (s' : Machine) (bs : List (List Frame × Keep)) (out : List UserMapping)
      → Filled (all_keeps ms start end) bs
      → outside ms start end ++ map as_mapping bs ≡ out
      → Unmaps s ms start end (finish s' out (ok tt))
  -- Nothing is unmapped: no frames, or no bytes to copy.
  not_saved :
      (s' : Machine) (e : ErrorCode)
      → s'.spaces ≡ s.spaces
      → (e ≡ enomem) ⊎ (e ≡ efault)
      → Unmaps s ms start end (finish s' ms (err e))
  -- The page tables refused a part, and the parts from there on are lost.
  not_mapped :
      (s' : Machine) (e : ErrorCode) (out : List UserMapping) (done left : List (List Frame × Keep))
      → Filled (all_keeps ms start end) (done ++ left)
      → outside ms start end ++ map as_mapping done ≡ out
      → Unmaps s ms start end (finish s' out (err e))

-- `unmap_range` ends in one of three ways. On success the list is the mappings that do not overlap
-- the range and then a mapping for each part of the others outside of it, on the frames that
-- `alloc_frames` has answered for its size, in `rounded` bytes. When frames or bytes are missing it answers ENOMEM or EFAULT, and the list and the page
-- tables are as they were. When the page tables refuse a part, the list has the mappings that do not
-- overlap and the parts before it, and the parts from there on are lost.
pub unmap_range-Unmaps :
    (s : Machine) (ms : List UserMapping) (tid start end : ℕ)
    → Unmaps s ms start end (unmap_range s ms tid start end)
unfolding unmap_range
unmap_range-Unmaps s ms tid start end =
    answered (back_up s ms (all_keeps ms start end) [])
      (back_up-BacksUp s ms (all_keeps ms start end) [])
  where
    finished :
        (bs : List (List Frame × Keep)) {r : After (Unit {0})} (rest : List UserMapping)
        → Filled (all_keeps ms start end) bs
        → rest ≡ outside ms start end
        → Remaps rest bs r
        → Unmaps s ms start end r
    finished bs rest f t (remapped s' out o) =
        unmapped s' bs out f (ap (λ l. l ++ map as_mapping bs) (sym t) ∙ o)
    finished bs rest f t (stopped s' out e done left d o) =
        not_mapped s' e out done left (subst (Filled (all_keeps ms start end)) (sym d) f)
          (ap (λ l. l ++ map as_mapping done) (sym t) ∙ o)

    answered :
        (r : Machine × Result (List (List Frame × Keep)) ErrorCode)
        → BacksUp s.spaces (all_keeps ms start end) [] r
        → Unmaps s ms start end (elim (r.1) [
          | err e ↦ finish (r.0) ms (err e)
          | ok buffers ↦
              let torn = tear_down (r.0) ms tid start end in remap (torn.0) (torn.1) tid buffers
        ])
    answered _ (saved s' bs out same f o) =
        finished out ((tear_down s' ms tid start end).1)
          (subst (Filled (all_keeps ms start end)) o f) (tear_down-outside s' ms tid start end)
          (remap-Remaps ((tear_down s' ms tid start end).0) ((tear_down s' ms tid start end).1) tid
            out)
    answered _ (failed s' e same w) = not_saved s' e same w
