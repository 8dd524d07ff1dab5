-- ===== src/Composite/Writing.antt =====
-- Every way to append puts exactly the given bytes behind those already held.
use uio.Prelude.{
  ℕ, zero, suc, ◌+◌, ◌-◌, ◌≤◌, ◌<◌, ◌≡◌, refl, ap, subst, sym, ◌∙◌, true, Option, none, some, List,
  [], ◌∷◌, ◌++◌, append_assoc, append-nil, length, take, drop, min, max, ltb, leb, ◌==◌,
  if◌then◌else◌, Bool-cases, inl, inr, ltb→lt, ltb→le, lt→ltb, length-append, length-take,
  length-drop, take-append-drop, arith,
}
use uio.Composite.Interface.{Blocks, Documented}
use uio.Composite.{
  Composite, last_available, write_last, write, writev, gather, append_owned, prepend_owned,
  append_owned_coalesced, reserve, block_size_for, with_room, coalesce, write_coalesced, total_size,
  coalesce_all, writev_coalesced, write_string, write_byte, write_all, roomy,
}
use uio.Composite.Contents.{
  contents, held, Inv, contents-append, contents-write_last, contents-new, last_available-snoc,
  bytes-write_all,
}

module _ (io : Blocks) (doc : Documented io) where
  open io use {Block, bytes, available, write_block, get_block}

  -- The buffer `d` is `c` with the bytes `p` behind.
  pub record Appended (c : Composite Block) (p : List ℕ) (d : Composite Block) : Type 0 where
    pub bytes_eq : held io d ≡ held io c ++ p
    pub size_eq : d.size ≡ c.size + length p

  pub Appended-Inv : (c d : Composite Block) (p : List ℕ) → Inv io c → Appended c p d → Inv io d
  Appended-Inv c d p v a =
      omega (arith, a.size_eq, ap length a.bytes_eq, length-append (held io c) p)

  spill-contents :
      (bs : List Block) (p : List ℕ)
      → contents io
          (if ltb 0 (length p) then bs ++ (write_block (get_block (length p)) p ∷ []) else bs)
        ≡ contents io bs ++ p
  spill-contents bs [] = sym (append-nil (contents io bs))
  spill-contents bs (x ∷ p) =
      rw (lt→ltb 0 (length (x ∷ p)) (omega arith)) (contents-new io doc bs (length (x ∷ p)) (x ∷ p))

  filled-contents :
      (bs : List Block) (p : List ℕ)
      → let space = last_available io bs in
        contents io (if ltb 0 space then write_last io bs (take (min space (length p)) p) else bs)
        ≡ contents io bs ++ take (min space (length p)) p
  filled-contents bs p = elim (Bool-cases (ltb 0 (last_available io bs))) [
    | inl e ↦ rw e (contents-write_last io doc bs _ (ltb→lt 0 _ e))
    | inr e ↦
        (let none_taken : 0 ≡ min (last_available io bs) (length p) = omega (arith, ltb→le 0 _ e) in
          rw e
            (sym (append-nil (contents io bs)) ∙ ap (λ n. contents io bs ++ take n p) none_taken))
  ]

  unchanged : (c : Composite Block) → Appended c [] c
  unchanged c = record { bytes_eq = sym (append-nil (held io c)); size_eq = omega arith }

  empty_of : (p : List ℕ) → (length p == 0) ≡ true → [] ≡ p
  empty_of [] h = refl
  empty_of (x ∷ p) h = absurd (ground arith)

  -- `Write` appends all of its input to the bytes held and returns its length, given that the blocks and
  -- their pool behave as documented.
  pub write-Appended :
      (c : Composite Block) (p : List ℕ)
      → Appended c p (write io c p).0 × ((write io c p).1 ≡ length p)
  unfolding write
  write-Appended c p =
      let n = min (last_available io c.buf_list) (length p) in
      elim (Bool-cases (length p == 0)) [
        | inl e ↦
            rw e
              (subst (λ q. Appended c q c) (empty_of p e) (unchanged c), ap length (empty_of p e))
        | inr e ↦ rw e (
          record {
            bytes_eq =
                spill-contents _ (drop n p)
                ∙ ap (λ q. q ++ drop n p) (filled-contents c.buf_list p)
                ∙ append_assoc (held io c) (take n p) (drop n p)
                ∙ ap (◌++◌ (held io c)) (take-append-drop n p);
            size_eq = refl;
          },
          refl,
        )
      ]

  abbrev pub joined : List (List ℕ) → List ℕ
  joined [] = []
  joined (p ∷ vec) = p ++ joined vec

  -- `Writev` appends the pieces in order and returns their total length, given that the blocks and their
  -- pool behave as documented.
  pub writev-Appended :
      (c : Composite Block) (vec : List (List ℕ))
      → Appended c (joined vec) (writev io c vec).0 × ((writev io c vec).1 ≡ length (joined vec))
  unfolding writev
  writev-Appended c [] = (unchanged c, refl)
  writev-Appended c (p ∷ vec) =
      let first = write-Appended c p in
      let later = writev-Appended (write io c p).0 vec in
      (
        record {
          bytes_eq =
              later.0.bytes_eq
              ∙ ap (λ q. q ++ joined vec) first.0.bytes_eq
              ∙ append_assoc (held io c) p (joined vec);
          size_eq = omega (arith, later.0.size_eq, first.0.size_eq, length-append p (joined vec));
        },
        omega (arith, first.1, later.1, length-append p (joined vec)),
      )

  with_room-contents :
      (bs : List Block) (remaining block_size : ℕ)
      → contents io (with_room io bs remaining block_size) ≡ contents io bs
  unfolding with_room
  with_room-contents bs remaining block_size = elim (Bool-cases (last_available io bs == 0)) [
    | inl e ↦ rw e (
        contents-append io bs _
        ∙ ap (◌++◌ (contents io bs)) (append-nil _ ∙ doc.get_bytes _)
        ∙ append-nil (contents io bs))
    | inr e ↦ rw e refl
  ]

  with_room-positive :
      (bs : List Block) (remaining block_size : ℕ)
      → 0 < remaining
      → 0 < last_available io (with_room io bs remaining block_size)
  unfolding with_room
  with_room-positive bs remaining block_size h = elim (Bool-cases (last_available io bs == 0)) [
    | inl e ↦ rw (e, last_available-snoc io doc bs _) (block-room bs remaining block_size h)
    | inr e ↦ rw e (ground arith)
  ]
    where
      block-room :
          (bs : List Block) (n block_size : ℕ)
          → 0 < n
          → 0 < available (get_block (block_size_for io bs n block_size))
      block-room [] n block_size h = omega (arith, doc.get_available n)
      block-room (b ∷ bs) n block_size h =
          ground (arith, doc.get_available n, doc.get_available block_size)

  -- The coalescing loop ends with all of its input written, once the fuel covers the input.
  coalesce-contents :
      (fuel : ℕ) (bs : List Block) (p : List ℕ) (block_size remaining : ℕ)
      → length p ≤ fuel
      → length p ≤ remaining
      → contents io (coalesce io fuel bs p block_size remaining) ≡ contents io bs ++ p
  unfolding coalesce
  coalesce-contents zero bs [] block_size remaining h r = sym (append-nil (contents io bs))
  coalesce-contents zero bs (x ∷ p) block_size remaining h r = absurd (omega arith)
  coalesce-contents (suc fuel) bs p block_size remaining h r =
      let bs' = with_room io bs remaining block_size in
      let n = min (last_available io bs') (length p) in
      elim (Bool-cases (length p == 0)) [
        | inl e ↦ rw e (
            subst (λ q. contents io bs ≡ contents io bs ++ q) (empty_of p e)
              (sym (append-nil (contents io bs))))
        | inr e ↦
            (let some_left : 0 < length p = ground arith in
              let room : 0 < last_available io bs' =
                with_room-positive bs remaining block_size (omega arith) in
              rw e (
                coalesce-contents fuel (write_last io bs' (take n p)) (drop n p) block_size
                  (remaining - n) (omega (arith, length-drop n p)) (omega (arith, length-drop n p))
                ∙ ap (λ q. q ++ drop n p)
                    (contents-write_last io doc bs' (take n p) room
                      ∙ ap (λ q. q ++ take n p) (with_room-contents bs remaining block_size))
                ∙ append_assoc (contents io bs) (take n p) (drop n p)
                ∙ ap (◌++◌ (contents io bs)) (take-append-drop n p)))
      ]

  -- `WriteCoalesced` appends all of its input, whatever the block size, and returns its length, given that
  -- the blocks and their pool behave as documented. The loop's fuel, the input's length, is enough.
  pub write_coalesced-Appended :
      (c : Composite Block) (p : List ℕ) (block_size : ℕ)
      → Appended c p (write_coalesced io c p block_size).0
        × ((write_coalesced io c p block_size).1 ≡ length p)
  unfolding write_coalesced
  write_coalesced-Appended c p block_size = elim (Bool-cases (length p == 0)) [
    | inl e ↦
        rw e (subst (λ q. Appended c q c) (empty_of p e) (unchanged c), ap length (empty_of p e))
    | inr e ↦ rw e (
      record {
        bytes_eq =
            coalesce-contents (length p) c.buf_list p block_size (length p) (omega arith)
              (omega arith);
        size_eq = refl;
      },
      refl,
    )
  ]

  coalesce_all-contents :
      (bs : List Block) (vec : List (List ℕ)) (block_size remaining : ℕ)
      → total_size io vec ≤ remaining
      → contents io (coalesce_all io bs vec block_size remaining) ≡ contents io bs ++ joined vec
  unfolding coalesce_all
  coalesce_all-contents bs [] block_size remaining h = sym (append-nil (contents io bs))
  coalesce_all-contents bs (p ∷ vec) block_size remaining h =
      coalesce_all-contents (coalesce io (length p) bs p block_size remaining) vec block_size
        (remaining - length p) (omega arith)
      ∙ ap (λ q. q ++ joined vec)
          (coalesce-contents (length p) bs p block_size remaining (omega arith) (omega arith))
      ∙ append_assoc (contents io bs) p (joined vec)

  total_size-joined : (vec : List (List ℕ)) → total_size io vec ≡ length (joined vec)
  total_size-joined [] = refl
  total_size-joined (p ∷ vec) = omega (arith, total_size-joined vec, length-append p (joined vec))

  -- `WritevCoalesced` appends the segments in order, whatever the block size, and returns their total
  -- length, given that the blocks and their pool behave as documented. Each segment's length is
  -- enough fuel for its loop.
  pub writev_coalesced-Appended :
      (c : Composite Block) (vec : List (List ℕ)) (block_size : ℕ)
      → Appended c (joined vec) (writev_coalesced io c vec block_size).0
        × ((writev_coalesced io c vec block_size).1 ≡ length (joined vec))
  unfolding writev_coalesced
  writev_coalesced-Appended c vec block_size =
      let t = total_size-joined vec in
      elim (Bool-cases (total_size io vec == 0)) [
        | inl e ↦
            (let nothing : (length (joined vec) == 0) ≡ true = ap (λ k. k == 0) (sym t) ∙ e in
              rw e (
                subst (λ q. Appended c q c) (empty_of (joined vec) nothing) (unchanged c),
                ap length (empty_of (joined vec) nothing),
              ))
        | inr e ↦ rw e (
          record {
            bytes_eq =
                coalesce_all-contents c.buf_list vec block_size (total_size io vec) (omega arith);
            size_eq = ap (λ k. c.size + k) t;
          },
          t,
        )
      ]

  -- `WriteString` and `WriteByte` append what `Write` appends: all of a string, and one byte.
  write_string-Appended :
      (c : Composite Block) (s : List ℕ) (x : ℕ)
      → (Appended c s (write_string io c s).0 × ((write_string io c s).1 ≡ length s))
        × Appended c (x ∷ []) (write_byte io c x)
  unfolding write_string write_byte
  write_string-Appended c s x =
      let n = min (last_available io c.buf_list) (length s) in
      let size : n + length (drop n s) ≡ length s = omega (arith, length-drop n s) in
      (
        elim (Bool-cases (length s == 0)) [
          | inl e ↦
              rw e
                (subst (λ q. Appended c q c) (empty_of s e) (unchanged c), ap length (empty_of s e))
          | inr e ↦ rw e (
            record {
              bytes_eq =
                  spill-contents _ (drop n s)
                  ∙ ap (λ q. q ++ drop n s) (filled-contents c.buf_list s)
                  ∙ append_assoc (held io c) (take n s) (drop n s)
                  ∙ ap (◌++◌ (held io c)) (take-append-drop n s);
              size_eq = ap (λ k. c.size + k) size;
            },
            size,
          )
        ],
        (write-Appended c (x ∷ [])).0,
      )

  abbrev pub bytes_of : Option Block → List ℕ
  bytes_of none = []
  bytes_of (some b) = bytes b

  append_snoc :
      (bs : List Block) (b : Block) → contents io (bs ++ (b ∷ [])) ≡ contents io bs ++ bytes b
  append_snoc bs b =
      contents-append io bs (b ∷ []) ∙ ap (◌++◌ (contents io bs)) (append-nil (bytes b))

  -- Taking over a buffer, nil or not, appends its bytes, given that the blocks and their pool behave as
  -- documented.
  append_owned-Appended :
      (c : Composite Block) (b : Option Block) → Appended c (bytes_of b) (append_owned io c b)
  unfolding append_owned
  append_owned-Appended c none = unchanged c
  append_owned-Appended c (some b) = elim (Bool-cases (length (bytes b) == 0)) [
    | inl e ↦ rw e (
        subst (λ q. Appended c q (record c { freed = c.freed ++ (b ∷ []) })) (empty_of (bytes b) e)
          (record { bytes_eq = sym (append-nil (held io c)); size_eq = omega arith }))
    | inr e ↦ rw e (record { bytes_eq = append_snoc c.buf_list b; size_eq = refl })
  ]

  -- `PrependOwned` puts the bytes of a buffer, nil or not, before those held, given that the blocks and
  -- their pool behave as documented.
  pub prepend_owned-bytes :
      (c : Composite Block) (b : Option Block)
      → (held io (prepend_owned io c b) ≡ bytes_of b ++ held io c)
        × ((prepend_owned io c b).size ≡ c.size + length (bytes_of b))
  unfolding prepend_owned
  prepend_owned-bytes c none = (refl, omega arith)
  prepend_owned-bytes c (some b) = elim (Bool-cases (length (bytes b) == 0)) [
    | inl e ↦ rw e (
      ap (λ q. q ++ held io c) (empty_of (bytes b) e),
      omega (arith, ap length (empty_of (bytes b) e)),
    )
    | inr e ↦ rw e (refl, refl)
  ]

  -- `AppendOwnedCoalesced` appends the bytes of a buffer, nil or not, whatever the target capacity, given
  -- that the blocks and their pool behave as documented.
  pub append_owned_coalesced-Appended :
      (c : Composite Block) (b : Option Block) (target : ℕ)
      → Appended c (bytes_of b) (append_owned_coalesced io c b target)
  unfolding append_owned_coalesced
  append_owned_coalesced-Appended c none target = unchanged c
  append_owned_coalesced-Appended c (some b) target = elim (Bool-cases (length (bytes b) == 0)) [
    | inl e ↦ rw e (
        subst (λ q. Appended c q (record c { freed = c.freed ++ (b ∷ []) })) (empty_of (bytes b) e)
          (record { bytes_eq = sym (append-nil (held io c)); size_eq = omega arith }))
    | inr e ↦ elim (Bool-cases (leb (length (bytes b)) (last_available io c.buf_list))) [
      | inl f ↦
          rw (e, f)
            (record {
              bytes_eq = contents-write_last io doc c.buf_list (bytes b) (ground arith);
              size_eq = refl;
            })
      | inr f ↦ elim (Bool-cases (leb target (length (bytes b)))) [
        | inl g ↦ rw (e, f, g) (record { bytes_eq = append_snoc c.buf_list b; size_eq = refl })
        | inr g ↦
            rw (e, f, g)
              (record {
                bytes_eq = contents-new io doc c.buf_list target (bytes b);
                size_eq = refl;
              })
      ]
    ]
  ]

  -- `Reserve`, with the reserved bytes filled, appends them, whatever the block size, given that the
  -- blocks and their pool behave as documented.
  pub reserve-Appended :
      (c : Composite Block) (fill : List ℕ) (block_size : ℕ)
      → Appended c fill (reserve io c fill block_size)
  unfolding reserve
  reserve-Appended c fill block_size = elim (Bool-cases (length fill == 0)) [
    | inl e ↦ rw e (subst (λ q. Appended c q c) (empty_of fill e) (unchanged c))
    | inr e ↦ elim (Bool-cases (leb (length fill) (last_available io c.buf_list))) [
      | inl f ↦
          rw (e, f)
            (record {
              bytes_eq = contents-write_last io doc c.buf_list fill (ground arith);
              size_eq = refl;
            })
      | inr f ↦
          rw (e, f) (record { bytes_eq = contents-new io doc c.buf_list _ fill; size_eq = refl })
    ]
  ]

  roomy-write_last :
      (bs : List Block) (size : ℕ) (p : List ℕ)
      → roomy io bs size ≡ true
      → (contents io (write_last io bs p) ≡ contents io bs ++ p) × (length (write_last io bs p) ≡ 1)
  unfolding write_last
  roomy-write_last [] size p h = absurd (ground arith)
  roomy-write_last (b ∷ (c ∷ bs)) size p h = absurd (ground arith)
  roomy-write_last (b ∷ []) size p h = (
    append-nil (bytes (write_block b p))
        ∙ doc.write_bytes b p
        ∙ ap (λ q. q ++ p) (sym (append-nil (bytes b))),
    refl,
  )

  -- `Gather` on a buffer whose length counts its bytes makes the bytes held one block, moves in what the
  -- first `n` bytes need of `tail`, and hands back the rest of it: no byte is lost, doubled or moved, and
  -- the block holds `n` bytes or all there are. The blocks and their pool behave as documented.
  pub gather_lem :
      (c : Composite Block) (n : ℕ) (tail : List ℕ)
      → Inv io c
      → let (d, rest) = gather io c n tail in
        (held io d ++ rest ≡ held io c ++ tail)
        × (length d.buf_list ≡ 1)
        × Inv io d
        × (min n (c.size + length tail) ≤ d.size)
  unfolding gather
  gather_lem c n tail v =
      let taken = min (length tail) (n - c.size) in
      let size = max n (c.size + taken) in
      let whole : (d : List ℕ)
          → d ≡ held io c ++ take taken tail
          → d ++ drop taken tail ≡ held io c ++ tail =
        λ d e.
          ap (λ q. q ++ drop taken tail) e
          ∙ append_assoc (held io c) (take taken tail) (drop taken tail)
          ∙ ap (◌++◌ (held io c)) (take-append-drop taken tail) in
      let count : (d : List ℕ) → d ≡ held io c ++ take taken tail → c.size + taken ≡ length d =
        λ d e. omega (
          arith,
          ap length e,
          length-append (held io c) (take taken tail),
          length-take taken tail,
        ) in
      elim (Bool-cases (roomy io c.buf_list size)) [
        | inl e ↦
            (let kept = roomy-write_last c.buf_list size (take taken tail) e in
              rw e (whole _ kept.0, kept.1, count _ kept.0, omega arith))
        | inr e ↦
            (let block : contents io
                    (write_block (write_all io (get_block size) c.buf_list) (take taken tail) ∷ [])
                  ≡ held io c ++ take taken tail =
                append-nil _
                ∙ doc.write_bytes _ (take taken tail)
                ∙ ap (λ q. q ++ take taken tail)
                    (bytes-write_all io doc (get_block size) c.buf_list
                      ∙ ap (λ q. q ++ contents io c.buf_list) (doc.get_bytes size)) in
              rw e (whole _ block, refl, count _ block, omega arith))
      ]
