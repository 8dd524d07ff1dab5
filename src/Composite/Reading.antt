-- ===== src/Composite/Reading.antt =====
-- Reading, peeking and discarding agree with the list of the bytes held.
use uio.Prelude.{
  ℕ, zero, suc, ◌+◌, ◌-◌, ◌≤◌, ◌<◌, ◌≡◌, refl, ap, sym, ◌∙◌, Bool, true, false, Option, some, List,
  [], ◌∷◌, ◌++◌, append-nil, length, take, drop, min, ltb, ◌==◌, if◌then◌else◌, Bool-cases, inl,
  inr, ltb→lt, ltb→le, le→ltb, length-append, length-take, length-drop, drop-length, take-all,
  take-append-drop, map, drop-all, arith,
}
use uio.Composite.Interface.{Blocks, Documented}
use uio.Composite.{
  Composite, remove_range, reset, discard_loop, discard, read_loop, read, peek, peek_loop, peek_vec,
  peek_vec_n, stop_at, at_eof,
}
use uio.Composite.Contents.{contents, held, Inv, contents-append, sizes-contents}

take-append {ℓ} :
    {A : Type ℓ} (n : ℕ) (xs ys : List A) → take n (xs ++ ys) ≡ take n xs ++ take (n - length xs) ys
take-append zero xs ys = let e : 0 ≡ 0 - length xs = omega arith in ap (λ k. take k ys) e
take-append (suc n) [] ys = let e : suc n ≡ suc n - 0 = omega arith in ap (λ k. take k ys) e
take-append (suc n) (x ∷ xs) ys =
    let e : n - length xs ≡ suc n - suc (length xs) = omega arith in
    ap (◌∷◌ x) (take-append n xs ys ∙ ap (λ k. take n xs ++ take k ys) e)

drop-append {ℓ} :
    {A : Type ℓ} (n : ℕ) (xs ys : List A) → drop n (xs ++ ys) ≡ drop n xs ++ drop (n - length xs) ys
drop-append zero xs ys = let e : 0 ≡ 0 - length xs = omega arith in ap (λ k. xs ++ drop k ys) e
drop-append (suc n) [] ys = let e : suc n ≡ suc n - 0 = omega arith in ap (λ k. drop k ys) e
drop-append (suc n) (x ∷ xs) ys =
    let e : n - length xs ≡ suc n - suc (length xs) = omega arith in
    drop-append n xs ys ∙ ap (λ k. drop n xs ++ drop k ys) e

-- Dropping less than the first part, or all of it and more.
drop-inside {ℓ} :
    {A : Type ℓ} (n : ℕ) (xs ys : List A) → n ≤ length xs → drop n xs ++ ys ≡ drop n (xs ++ ys)
drop-inside n xs ys h =
    let e : 0 ≡ n - length xs = omega arith in
    ap (λ k. drop n xs ++ drop k ys) e ∙ sym (drop-append n xs ys)

drop-past {ℓ} :
    {A : Type ℓ} (n : ℕ) (xs ys : List A)
    → length xs ≤ n
    → drop (n - length xs) ys ≡ drop n (xs ++ ys)
drop-past n xs ys h =
    ap (λ zs. zs ++ drop (n - length xs) ys) (sym (drop-all n xs h)) ∙ sym (drop-append n xs ys)

module _ (io : Blocks) (doc : Documented io) where
  open io use {Block, bytes, discard_block, read_block}

  -- What the loop of `Discard` has done: it stopped at block `k` of these, and `n` bytes are gone.
  record Dropped (idx size n : ℕ) (bs : List Block) (r : Option ℕ × List Block × ℕ) : Type 0 where
    at : ℕ
    stopped : r.0 ≡ some (idx + at)
    rest : contents io (drop at r.1) ≡ drop n (contents io bs)
    count : r.2 ≡ size + n

  discard_loop-Dropped :
      (idx n size : ℕ) (bs : List Block)
      → 0 < n
      → n ≤ length (contents io bs)
      → Dropped idx size n bs (discard_loop io idx bs n size)
  unfolding discard_loop
  discard_loop-Dropped idx n size [] pos h = absurd (omega arith)
  discard_loop-Dropped idx n size (b ∷ bs) pos h =
      let sz = length (bytes b) in
      elim (Bool-cases (ltb n sz)) [
        | inl e ↦ rw e (record {
          at = 0;
          stopped = ap some (omega arith);
          rest =
              ap (λ q. q ++ contents io bs)
                (doc.discard_bytes b n pos (omega (arith, ltb→lt n sz e)))
              ∙ drop-inside n (bytes b) (contents io bs) (omega (arith, ltb→lt n sz e));
          count = refl;
        })
        | inr e ↦ elim (Bool-cases (n - sz == 0)) [
          | inl f ↦
              (let same : n ≡ sz = ground arith in
                rw (e, f)
                  (record {
                    at = 1;
                    stopped = ap some (omega arith);
                    rest = sym (
                        ap (λ k. drop k (bytes b ++ contents io bs)) same
                        ∙ drop-length (bytes b) (contents io bs));
                    count = ap (λ k. size + k) (sym same);
                  }))
          | inr f ↦
              (let ih =
                  discard_loop-Dropped (suc idx) (n - sz) (size + sz) bs (ground arith)
                    (omega (arith, length-append (bytes b) (contents io bs))) in
                rw (e, f)
                  (record {
                    at = suc ih.at;
                    stopped = ih.stopped ∙ ap some (omega arith);
                    rest = ih.rest ∙ drop-past n (bytes b) (contents io bs) (ltb→le n sz e);
                    count = omega (arith, ih.count, ltb→le n sz e);
                  }))
        ]
      ]

  -- With blocks that are all empty the loop stops at the first.
  discard_loop-empty :
      (bs : List Block)
      → 0 < length bs
      → length (contents io bs) ≡ 0
      → Dropped 0 0 0 bs (discard_loop io 0 bs 0 0)
  unfolding discard_loop
  discard_loop-empty [] h e = absurd (omega arith)
  discard_loop-empty (b ∷ bs) h e =
      let sz : length (bytes b) ≡ 0 = omega (arith, length-append (bytes b) (contents io bs)) in
      rw (le→ltb 0 (length (bytes b)) (omega arith), zero_left (length (bytes b)))
        (record {
          at = 1;
          stopped = refl;
          rest = sym (
              ap (λ k. drop k (bytes b ++ contents io bs)) (sym sz)
              ∙ drop-length (bytes b) (contents io bs));
          count = omega arith;
        })
    where
      zero_left : (k : ℕ) → (0 - k == 0) ≡ true
      zero_left k = ground arith

  discard_loop-any :
      (n : ℕ) (bs : List Block)
      → 0 < length bs
      → n ≤ length (contents io bs)
      → (n ≡ 0 → length (contents io bs) ≡ 0)
      → Dropped 0 0 n bs (discard_loop io 0 bs n 0)
  discard_loop-any zero bs h fits all = discard_loop-empty bs h (all refl)
  discard_loop-any (suc n) bs h fits all = discard_loop-Dropped 0 (suc n) 0 bs (omega arith) fits

  no_blocks : (bs : List Block) → (length bs == 0) ≡ true → contents io bs ≡ []
  no_blocks [] h = refl
  no_blocks (b ∷ bs) h = absurd (ground arith)

  abbrev pub gone : Composite Block → ℕ → ℕ
  gone c n = if n == 0 then c.size else min n c.size

  pub record Discarded (c : Composite Block) (k : ℕ) (r : Composite Block × ℕ) : Type 0 where
    pub bytes_eq : held io r.0 ≡ drop k (held io c)
    pub count_eq : r.1 ≡ k
    pub size_eq : r.0.size ≡ c.size - k

  drop-none : (k : ℕ) (xs : List ℕ) → xs ≡ [] → drop k xs ≡ xs
  drop-none k xs h = drop-all k xs (omega (arith, ap length h)) ∙ sym h

  reset-Discarded : (c : Composite Block) → Inv io c → Discarded c c.size (reset io c, c.size)
  unfolding reset remove_range
  reset-Discarded c v = record {
    bytes_eq =
        ap (contents io) (drop-all (length c.buf_list) c.buf_list (omega arith))
        ∙ sym (drop-all c.size (held io c) (omega arith));
    count_eq = refl;
    size_eq = omega arith;
  }

  -- `Discard` on a buffer whose length counts its bytes drops the first bytes and returns how many: all of
  -- them for a count that is not positive, and otherwise the count or what is held. The length shrinks by
  -- as many. The blocks behave as documented.
  pub discard-Discarded :
      (c : Composite Block) (n : ℕ) → Inv io c → Discarded c (gone c n) (discard io c n)
  unfolding discard remove_range
  discard-Discarded c n v = elim (Bool-cases (length c.buf_list == 0)) [
    | inl e ↦
        (let nothing : held io c ≡ [] = no_blocks c.buf_list e in
          let zero_size : c.size ≡ 0 = omega (arith, ap length nothing) in
          rw e (record {
            bytes_eq = sym (drop-none (gone c n) (held io c) nothing);
            count_eq = ground arith;
            size_eq = omega (arith, zero_size);
          }))
    | inr e ↦ elim (Bool-cases (n == 0)) [
      | inl f ↦ rw (e, f) (reset-Discarded c v)
      | inr f ↦
          (let m = min n c.size in
            let d : Dropped 0 0 m c.buf_list (discard_loop io 0 c.buf_list m 0) =
              discard_loop-any m c.buf_list (ground arith) (omega arith) (λ z. ground arith) in
            let at : 0 + d.at ≡ d.at = omega arith in
            rw (e, f)
              (record {
                bytes_eq =
                    ap (λ s. contents io (drop (stop_at io s) (discard_loop io 0 c.buf_list m 0).1))
                      (d.stopped ∙ ap some at)
                    ∙ d.rest;
                count_eq = omega (arith, d.count);
                size_eq = omega (arith, d.count);
              }))
    ]
  ]

  take-inside : (n : ℕ) (xs ys : List ℕ) → n ≤ length xs → take n xs ≡ take n (xs ++ ys)
  take-inside n xs ys h =
      let e : 0 ≡ n - length xs = omega arith in
      sym (append-nil (take n xs)) ∙ ap (λ k. take n xs ++ take k ys) e ∙ sym (take-append n xs ys)

  -- What the loop of `Read` has done: it stopped at block `at` of these.
  record Took (idx room : ℕ) (bs : List Block) (r : ℕ × List Block × List ℕ × Bool) : Type 0 where
    at : ℕ
    stopped : r.0 ≡ idx + at
    rest : contents io (drop at r.1) ≡ drop room (contents io bs)
    got : r.2 ≡ take room (contents io bs)

  read_loop-Took :
      (idx room : ℕ) (bs : List Block) (eof : Bool)
      → Took idx room bs (read_loop io idx bs room eof)
  unfolding read_loop
  read_loop-Took idx room [] eof = record {
    at = 0;
    stopped = omega arith;
    rest = sym (drop-all room [] (omega arith));
    got = sym (take-all room [] (omega arith));
  }
  read_loop-Took idx room (b ∷ bs) eof =
      let left : bytes (read_block b room) ≡ drop room (bytes b) = doc.read_bytes b room in
      let size : length (bytes (read_block b room)) ≡ length (bytes b) - room =
        omega (arith, ap length left, length-drop room (bytes b)) in
      let taken : length (take room (bytes b)) ≡ min room (length (bytes b)) =
        length-take room (bytes b) in
      elim (Bool-cases (length (bytes (read_block b room)) == 0)) [
        | inl e ↦
            (let small : length (bytes b) ≤ room = ground (arith, size) in
              let whole : take room (bytes b) ≡ bytes b = take-all room (bytes b) small in
              let same : room - length (take room (bytes b)) ≡ room - length (bytes b) =
                omega (arith, taken) in
              let ih =
                read_loop-Took (suc idx) (room - length (take room (bytes b))) bs
                  (at_eof io b room) in
              rw e (record {
                at = suc ih.at;
                stopped = omega (arith, ih.stopped);
                rest =
                    ih.rest
                    ∙ ap (λ k. drop k (contents io bs)) same
                    ∙ drop-past room (bytes b) (contents io bs) small;
                got =
                    ap (λ q. take room (bytes b) ++ q)
                      (ih.got ∙ ap (λ k. take k (contents io bs)) same)
                    ∙ sym (take-append room (bytes b) (contents io bs));
              }))
        | inr e ↦
            (let large : room ≤ length (bytes b) = ground (arith, size) in
              rw e (record {
                at = 0;
                stopped = omega arith;
                rest =
                    ap (λ q. q ++ contents io bs) left
                    ∙ drop-inside room (bytes b) (contents io bs) large;
                got = take-inside room (bytes b) (contents io bs) large;
              }))
      ]

  -- `Read` into `room` bytes, on a buffer whose length counts its bytes, takes the first bytes held, as
  -- many as fit, and keeps the others in order; the length counts them again. The blocks behave as
  -- documented.
  pub read_lem :
      (c : Composite Block) (room : ℕ)
      → Inv io c
      → ((read io c room).1 ≡ take room (held io c))
        × (held io (read io c room).0 ≡ drop room (held io c))
        × Inv io (read io c room).0
  unfolding read remove_range
  read_lem c room v = elim (Bool-cases (length c.buf_list == 0)) [
    | inl e ↦
        (let nothing : held io c ≡ [] = no_blocks c.buf_list e in
          rw e (
            sym (take-all room (held io c) (omega (arith, ap length nothing)) ∙ nothing),
            sym (drop-none room (held io c) nothing),
            v,
          ))
    | inr e ↦
        (let t = read_loop-Took 0 room c.buf_list false in
          let r = read_loop io 0 c.buf_list room false in
          let stop : r.0 ≡ t.at = omega (arith, t.stopped) in
          let rest : contents io (drop r.0 r.1) ≡ drop room (held io c) =
            ap (λ k. contents io (drop k r.1)) stop ∙ t.rest in
          rw e (
            t.got,
            rest,
            omega (
              arith,
              ap length rest,
              ap length t.got,
              length-drop room (held io c),
              length-take room (held io c),
            ),
          ))
  ]

  peek_loop-eq : (bs : List Block) (n : ℕ) → peek_loop io bs n ≡ take n (contents io bs)
  peek_loop-eq [] n = sym (take-all n [] (omega arith))
  peek_loop-eq (b ∷ bs) n =
      let taken : length (take n (bytes b)) ≡ min n (length (bytes b)) = length-take n (bytes b) in
      let same : n - length (take n (bytes b)) ≡ n - length (bytes b) = omega (arith, taken) in
      elim (Bool-cases (length (take n (bytes b)) == n)) [
        | inl e ↦ rw e (take-inside n (bytes b) (contents io bs) (ground (arith, taken)))
        | inr e ↦ rw e (
            ap (λ q. take n (bytes b) ++ q)
              (peek_loop-eq bs _ ∙ ap (λ k. take k (contents io bs)) same)
            ∙ sym (take-append n (bytes b) (contents io bs)))
      ]

  -- `Peek` shows the bytes that a `Read` of that length would take, on a buffer whose length counts its
  -- bytes, given that the blocks behave as documented.
  pub peek-read : (c : Composite Block) (n : ℕ) → Inv io c → peek io c n ≡ (read io c n).1
  unfolding peek
  peek-read c n v = peek_loop-eq c.buf_list n ∙ sym (read_lem c n v).0

  abbrev pub joined_segments : List (List ℕ) → List ℕ
  joined_segments [] = []
  joined_segments (p ∷ vec) = p ++ joined_segments vec

  joined-map_bytes : (bs : List Block) → joined_segments (map bytes bs) ≡ contents io bs
  joined-map_bytes [] = refl
  joined-map_bytes (b ∷ bs) = ap (◌++◌ (bytes b)) (joined-map_bytes bs)

  peek_vec-all :
      (c : Composite Block)
      → Inv io c
      → (joined_segments (peek_vec io c []).0 ≡ held io c) × ((peek_vec io c []).1 ≡ c.size)
  unfolding peek_vec
  peek_vec-all c v = elim (Bool-cases (length c.buf_list == 0)) [
    | inl e ↦
        (let nothing : held io c ≡ [] = no_blocks c.buf_list e in
          rw e (sym nothing, omega (arith, ap length nothing)))
    | inr e ↦ rw e (joined-map_bytes c.buf_list, sizes-contents io c.buf_list ∙ sym v)
  ]

  -- `PeekVec` into an empty slice shows exactly the bytes held, segment by segment, with their number,
  -- and `PeekVecN` shows a first part of them, with its number.
  pub peek_vec-held :
      (c : Composite Block) (limit : ℕ)
      → Inv io c
      → (joined_segments (peek_vec io c []).0 ≡ held io c)
        × ((peek_vec io c []).1 ≡ c.size)
        × (joined_segments (peek_vec_n io c limit).0 ++ contents io (drop limit c.buf_list)
            ≡ held io c)
        × ((peek_vec_n io c limit).1 ≡ length (joined_segments (peek_vec_n io c limit).0))
  unfolding peek_vec_n
  peek_vec-held c limit v =
      let part = take limit c.buf_list in
      let whole : contents io part ++ contents io (drop limit c.buf_list) ≡ held io c =
        sym (contents-append io part (drop limit c.buf_list))
        ∙ ap (contents io) (take-append-drop limit c.buf_list) in
      let shown = joined-map_bytes part in
      let first = peek_vec-all c v in
      (
        first.0,
        first.1,
        ap (λ q. q ++ contents io (drop limit c.buf_list)) shown ∙ whole,
        sizes-contents io part ∙ ap length (sym shown),
      )
