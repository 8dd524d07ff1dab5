-- ===== src/Fdmap/Lookup.antt =====
-- The table is a map from descriptors to pointers: what each operation makes of every lookup.
use uio.Prelude.Bits.{bit_and_ones}
use uio.Prelude.{
  ℕ, ◌%◌, ◌^◌, ◌≤◌, ◌<◌, ◌≡◌, ◌↔◌, ◌⊎◌, refl, ap, sym, ◌∙◌, Bool, true, false, ◌&&◌, Option, none,
  some, ltb, leb, ◌==◌, leb→le, min, if◌then◌else◌, Bool-cases, Option-cases, inl, inr, arith,
}
use uio.Fdmap.{
  Table, Segment, Pointer, out_of_range, max_open_files_ceiling, segment_slots, max_segments,
  new_map, segment_of, slot_of, slot, segment_or_new, with_slot, put, load, get, delete, same,
  delete_value, clear,
}

-- The lookup without the bounds check.
abbrev held : Table → ℕ → Pointer
held m j = load (m.segments (segment_of j)) j

slot_of-eq : (k : ℕ) → slot_of k ≡ k % 2 ^ 15
slot_of-eq k = bit_and_ones 15 k

get-eq : (m : Table) (j : ℕ) → get m j ≡ (if leb m.limit j then none else held m j)
unfolding get
get-eq m j = elim (Bool-cases (leb m.limit j)) [ inl e ↦ rw e refl | inr e ↦ rw e refl ]

load-segment_or_new : (s : Option Segment) (j : ℕ) → segment_or_new s (slot_of j) ≡ load s j
load-segment_or_new none j = refl
load-segment_or_new (some seg) j = refl

-- Two descriptors with the same segment and the same slot are the same.
held-with_slot :
    (m : Table) (k j : ℕ) (seg : Segment) (v : Pointer)
    → ((i : ℕ) → seg (slot_of i) ≡ load (m.segments (segment_of k)) i)
    → held (with_slot m k seg v) j ≡ (if k == j then v else held m j)
held-with_slot m k j seg v old = elim (Bool-cases (segment_of k == segment_of j)) [
  | inl e ↦ elim (Bool-cases (slot_of k == slot_of j)) [
    | inl f ↦
        (let eq : (k == j) ≡ true = ground (arith, slot_of-eq k, slot_of-eq j) in
          rw (e, f, eq) refl)
    | inr f ↦
        (let ne : (k == j) ≡ false = ground arith in
          let seg_eq : segment_of k ≡ segment_of j = ground arith in
          rw (e, f, ne) (old j ∙ ap (λ s. load (m.segments s) j) seg_eq))
  ]
  | inr e ↦ (let ne : (k == j) ≡ false = ground arith in rw (e, ne) refl)
]

-- What a table shows after slot `k` of it took the value `v`.
get-with_slot :
    (m : Table) (k j : ℕ) (seg : Segment) (v : Pointer)
    → k < m.limit
    → ((i : ℕ) → seg (slot_of i) ≡ load (m.segments (segment_of k)) i)
    → get (with_slot m k seg v) j ≡ (if k == j then v else get m j)
get-with_slot m k j seg v h old =
    get-eq (with_slot m k seg v) j ∙ elim (Bool-cases (leb m.limit j)) [
      | inl e ↦ (let ne : (k == j) ≡ false = ground arith in rw (get-eq m j, e, ne) refl)
      | inr e ↦ rw (get-eq m j, e) (held-with_slot m k j seg v old)
    ]

-- `put` publishes a descriptor below the limit: the lookup of it finds the given pointer, and no
-- other lookup changes. From the limit on `put` reports ErrOutOfRange and leaves the table as it was.
pub get-put :
    (m : Table) (k : ℕ) (v : Pointer)
    → ((k < m.limit)
        × ((put m k v).1 ≡ none)
        × ((j : ℕ) → get (put m k v).0 j ≡ (if k == j then v else get m j)))
      ⊎ ((m.limit ≤ k) × ((put m k v).1 ≡ some out_of_range) × ((put m k v).0 ≡ m))
unfolding put
get-put m k v = elim (Bool-cases (leb m.limit k)) [
  | inl e ↦ rw e (inr (leb→le m.limit k e, refl, refl))
  | inr e ↦
      (let h : k < m.limit = ground arith in
        rw e (
          inl (
            h,
            refl,
            λ j.
                get-with_slot m k j (segment_or_new (m.segments (segment_of k))) v h
                  (λ i. load-segment_or_new (m.segments (segment_of k)) i),
          )))
]

-- The two ways `slot` answers.
slot-cases :
    (m : Table) (k : ℕ)
    → ((seg : Segment) × (slot m k ≡ some seg)
        × (k < m.limit)
        × (get m k ≡ seg (slot_of k))
        × ((i : ℕ) → seg (slot_of i) ≡ load (m.segments (segment_of k)) i))
      ⊎ ((slot m k ≡ none) × (get m k ≡ none))
unfolding slot get
slot-cases m k = elim (Bool-cases (leb m.limit k)) [
  | inl e ↦ rw e (inr (refl, refl))
  | inr e ↦ elim (Option-cases (m.segments (segment_of k))) [
    | inl f ↦ rw (e, f) (inr (refl, refl))
    | inr f ↦ rw (e, f.1) (inl (f.0, refl, ground arith, refl, λ i. refl))
  ]
]

-- A deleted descriptor is absent, whether it was present or not, and no other lookup changes.
get-delete : (m : Table) (k j : ℕ) → get (delete m k) j ≡ (if k == j then none else get m j)
unfolding delete
get-delete m k j = elim (slot-cases m k) [
  | inl (seg, e, h, found, old) ↦ rw e (get-with_slot m k j seg none h old)
  | inr (e, absent) ↦ rw e (elim (Bool-cases (k == j)) [
    | inl f ↦ (let eq : k ≡ j = ground arith in rw f (ap (get m) (sym eq) ∙ absent))
    | inr f ↦ rw f refl
  ])
]

abbrev the_none : Pointer
the_none = none

-- `delete_value` deletes a descriptor exactly when it still maps to the given pointer, so a holder
-- that lost the descriptor to another value leaves that value in place.
pub get-delete_value :
    (m : Table) (k j : ℕ) (v : Pointer)
    → get (delete_value m k v) j ≡ (if (k == j) && same (get m k) v then none else get m j)
unfolding delete_value
get-delete_value m k j v = elim (slot-cases m k) [
  | inl (seg, e, h, found, old) ↦ elim (Bool-cases (same (seg (slot_of k)) v)) [
    | inl f ↦
        rw (e, found, f)
          (get-with_slot m k j seg none h old
            ∙ elim (Bool-cases (k == j)) [ inl g ↦ rw g refl | inr g ↦ rw g refl ])
    | inr f ↦
        rw (e, found, f) (elim (Bool-cases (k == j)) [ inl g ↦ rw g refl | inr g ↦ rw g refl ])
  ]
  | inr (e, absent) ↦ rw e (elim (Bool-cases (k == j)) [
    | inl f ↦
        (let eq : k ≡ j = ground arith in
          let gone : get m j ≡ none = ap (get m) (sym eq) ∙ absent in
          rw (f, absent, gone) (either (same none v)))
    | inr f ↦ rw f refl
  ])
]
  where
    either : (b : Bool) → (the_none ≡ (if b then the_none else the_none))
    either true = refl
    either false = refl

-- After `clear` no descriptor is found, in a table whose limit is within the ceiling.
pub get-clear : (m : Table) (j : ℕ) → m.limit ≤ max_open_files_ceiling → get (clear m) j ≡ none
unfolding clear get slot
get-clear m j h = elim (Bool-cases (leb m.limit j)) [
  | inl e ↦ rw e refl
  | inr e ↦
      (let inside : ltb (segment_of j) max_segments ≡ true = ground arith in rw (e, inside) refl)
]

-- A new table holds nothing, and its limit is within the segments that it has.
pub new_map-get :
    (n j : ℕ) → ((new_map n).limit ≤ max_open_files_ceiling) × (get (new_map n) j ≡ none)
unfolding new_map get slot
new_map-get n j = (
  omega arith,
  elim (Bool-cases (leb (min n max_open_files_ceiling) j)) [
    | inl e ↦ rw e refl
    | inr e ↦ rw e refl
  ],
)

-- Within a limit of at most the ceiling, each descriptor has a place of its own inside the
-- segments: the indices are in bounds, and no other descriptor has the same two.
pub place_unique :
    (k j : ℕ)
    → k < max_open_files_ceiling
    → (segment_of k < max_segments)
      × (slot_of k < segment_slots)
      × (((segment_of k ≡ segment_of j) × (slot_of k ≡ slot_of j)) ↔ (k ≡ j))
place_unique k j h = (
  omega arith,
  omega (arith, slot_of-eq k),
  (λ e. omega (arith, e.0, e.1, slot_of-eq k, slot_of-eq j), λ e. (ap segment_of e, ap slot_of e)),
)
