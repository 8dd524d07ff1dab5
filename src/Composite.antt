-- ===== src/Composite.antt =====
-- internal/bytebuf/composite_buffer.go: a queue of bytes kept in separate blocks. The blocks are
-- the standard library's bytes.Buffer, copied in buffer.go, and come from a pool: both are an
-- interface here. `ReadFrom` and `WriteTo`, which call a reader or a writer, are not modelled.
pub mod Interface
pub mod Contents
pub mod Writing
pub mod Reading
use uio.Prelude.{
  ℕ, zero, suc, ◌+◌, ◌-◌, ◌≤◌, ◌<◌, ◌≡◌, Bool, true, false, ◌&&◌, Option, none, some, List, [], ◌∷◌,
  ◌++◌, map, min, max, length, take, drop, ltb, leb, ◌==◌, if◌then◌else◌,
}
use Interface.{Blocks}

-- `freed` records the blocks given back to the pool, in order.
pub record Composite (Block : Type 0) : Type 0 where
  pub buf_list : List Block
  pub size : ℕ
  pub freed : List Block

module _ (io : Blocks) where
  open io use {Block, bytes, available, write_block, discard_block, read_block, get_block}

  abbrev pub new : Composite Block
  new = record { buf_list = []; size = 0; freed = [] }

  -- The free space of the last block, 0 without one.
  unfoldable pub last_available : List Block → ℕ
  last_available [] = 0
  last_available (b ∷ []) = available b
  last_available (b ∷ (c ∷ bs)) = last_available (c ∷ bs)

  unfoldable pub write_last : List Block → List ℕ → List Block
  write_last [] p = []
  write_last (b ∷ []) p = write_block b p ∷ []
  write_last (b ∷ (c ∷ bs)) p = b ∷ write_last (c ∷ bs) p

  unfoldable pub remove_range : Composite Block → ℕ → Composite Block
  remove_range c end_idx = record c {
    buf_list = drop end_idx c.buf_list;
    freed = c.freed ++ take end_idx c.buf_list;
  }

  unfoldable pub reset : Composite Block → Composite Block
  reset c = record (remove_range c (length c.buf_list)) { size = 0 }

  -- A new block for what does not fit, or none.
  abbrev spill : List Block → List ℕ → List Block
  spill bs p = if ltb 0 (length p) then bs ++ (write_block (get_block (length p)) p ∷ []) else bs

  unfoldable pub write : Composite Block → List ℕ → Composite Block × ℕ
  write c p =
      if length p == 0
      then (c, 0)
      else let space = last_available c.buf_list in
        let wn = min space (length p) in
        let filled = if ltb 0 space then write_last c.buf_list (take wn p) else c.buf_list in
        (record c { buf_list = spill filled (drop wn p); size = c.size + length p }, length p)

  -- The same steps, on a string.
  unfoldable pub write_string : Composite Block → List ℕ → Composite Block × ℕ
  write_string c s =
      if length s == 0
      then (c, 0)
      else let space = last_available c.buf_list in
        let wn = min space (length s) in
        let filled = if ltb 0 space then write_last c.buf_list (take wn s) else c.buf_list in
        let rest = drop wn s in
        (
          record c { buf_list = spill filled rest; size = c.size + (wn + length rest) },
          wn + length rest,
        )

  unfoldable pub write_byte : Composite Block → ℕ → Composite Block
  write_byte c x = (write c (x ∷ [])).0

  unfoldable pub writev : Composite Block → List (List ℕ) → Composite Block × ℕ
  writev c [] = (c, 0)
  writev c (p ∷ vec) = let (d, sent) = write c p in let (e, n) = writev d vec in (e, sent + n)

  abbrev pub write_all : Block → List Block → Block
  write_all block [] = block
  write_all block (b ∷ bs) = write_all (write_block block (bytes b)) bs

  -- The first and only block, if it has room for `size` bytes in all.
  abbrev pub roomy : List Block → ℕ → Bool
  roomy (b ∷ []) size = leb size (length (bytes b) + available b)
  roomy _ size = false

  -- The returned list is the rest of `tail`.
  unfoldable pub gather : Composite Block → ℕ → List ℕ → Composite Block × List ℕ
  gather c n tail =
      let taken = min (length tail) (n - c.size) in
      let head = take taken tail in
      let total = c.size + taken in
      let size = max n total in
      let block = write_block (write_all (get_block size) c.buf_list) head in
      let emptied = remove_range c (length c.buf_list) in
      if roomy c.buf_list size
      then (record c { buf_list = write_last c.buf_list head; size = total }, drop taken tail)
      else (record emptied { buf_list = block ∷ []; size = total }, drop taken tail)

  -- `none` is a nil buffer.
  unfoldable pub append_owned : Composite Block → Option Block → Composite Block
  append_owned c none = c
  append_owned c (some b) =
      if length (bytes b) == 0
      then record c { freed = c.freed ++ (b ∷ []) }
      else record c { buf_list = c.buf_list ++ (b ∷ []); size = c.size + length (bytes b) }

  unfoldable pub prepend_owned : Composite Block → Option Block → Composite Block
  prepend_owned c none = c
  prepend_owned c (some b) =
      if length (bytes b) == 0
      then record c { freed = c.freed ++ (b ∷ []) }
      else record c { buf_list = b ∷ c.buf_list; size = c.size + length (bytes b) }

  -- Without a last block there is no space, and a buffer that arrives here is not empty.
  unfoldable pub append_owned_coalesced : Composite Block → Option Block → ℕ → Composite Block
  unfolding append_owned
  append_owned_coalesced c none target = c
  append_owned_coalesced c (some b) target =
      let n = length (bytes b) in
      let released = c.freed ++ (b ∷ []) in
      let coalesced = write_block (get_block target) (bytes b) in
      if n == 0
      then record c { freed = released }
      else if leb n (last_available c.buf_list)
      then record c {
        buf_list = write_last c.buf_list (bytes b);
        size = c.size + n;
        freed = released;
      }
      else if leb target n
      then append_owned c (some b)
      else record c {
        buf_list = c.buf_list ++ (coalesced ∷ []);
        size = c.size + n;
        freed = released;
      }

  -- The size of a new block: at least `block_size` behind others.
  abbrev pub block_size_for : List Block → ℕ → ℕ → ℕ
  block_size_for [] n block_size = n
  block_size_for (b ∷ bs) n block_size = if ltb n block_size then block_size else n

  -- `fill` is what the caller writes into the reserved bytes.
  unfoldable pub reserve : Composite Block → List ℕ → ℕ → Composite Block
  reserve c fill block_size =
      let n = length fill in
      let block = write_block (get_block (block_size_for c.buf_list n block_size)) fill in
      if n == 0
      then c
      else if leb n (last_available c.buf_list)
      then record c { buf_list = write_last c.buf_list fill; size = c.size + n }
      else record c { buf_list = c.buf_list ++ (block ∷ []); size = c.size + n }

  -- The blocks with room at the end: a full or missing last block is followed by a new one.
  unfoldable pub with_room : List Block → ℕ → ℕ → List Block
  with_room bs remaining block_size =
      if last_available bs == 0
      then bs ++ (get_block (block_size_for bs remaining block_size) ∷ [])
      else bs

  -- The inner loop of the coalescing writes, on fuel.
  unfoldable pub coalesce : ℕ → List Block → List ℕ → ℕ → ℕ → List Block
  coalesce zero bs p block_size remaining = bs
  coalesce (suc fuel) bs p block_size remaining =
      let bs' = with_room bs remaining block_size in
      let n = min (last_available bs') (length p) in
      let rest = coalesce fuel (write_last bs' (take n p)) (drop n p) block_size (remaining - n) in
      if length p == 0 then bs else rest

  unfoldable pub write_coalesced : Composite Block → List ℕ → ℕ → Composite Block × ℕ
  write_coalesced c p block_size =
      let total = length p in
      if total == 0 then (c, 0) else (
        record c { buf_list = coalesce total c.buf_list p block_size total; size = c.size + total },
        total,
      )

  abbrev pub total_size : List (List ℕ) → ℕ
  total_size [] = 0
  total_size (p ∷ vec) = length p + total_size vec

  -- The outer loop of `WritevCoalesced`, over the segments.
  unfoldable pub coalesce_all : List Block → List (List ℕ) → ℕ → ℕ → List Block
  coalesce_all bs [] block_size remaining = bs
  coalesce_all bs (p ∷ vec) block_size remaining =
      coalesce_all (coalesce (length p) bs p block_size remaining) vec block_size
        (remaining - length p)

  unfoldable pub writev_coalesced : Composite Block → List (List ℕ) → ℕ → Composite Block × ℕ
  writev_coalesced c vec block_size =
      let total = total_size vec in
      if total == 0 then (c, 0) else (
        record c { buf_list = coalesce_all c.buf_list vec block_size total; size = c.size + total },
        total,
      )

  -- `read` returns the bytes and whether it reports io.EOF.
  abbrev pub at_eof : Block → ℕ → Bool
  at_eof b room = length (bytes b) == 0 && ltb 0 room

  -- The loop of `Read`: blocks drained so far, the blocks, the bytes read, and the last error.
  unfoldable pub read_loop : ℕ → List Block → ℕ → Bool → ℕ × List Block × List ℕ × Bool
  read_loop idx [] room eof = (idx, [], [], eof)
  read_loop idx (b ∷ bs) room eof =
      let data' = take room (bytes b) in
      let b' = read_block b room in
      let (end_idx, bs', more, e) = read_loop (suc idx) bs (room - length data') (at_eof b room) in
      if length (bytes b') == 0
      then (end_idx, b' ∷ bs', data' ++ more, e)
      else (idx, b' ∷ bs, data', at_eof b room)

  unfoldable pub read : Composite Block → ℕ → Composite Block × List ℕ × Bool
  read c room =
      let (end_idx, bs, got, eof) = read_loop 0 c.buf_list room false in
      if length c.buf_list == 0
      then (c, [], true)
      else (remove_range (record c { buf_list = bs; size = c.size - length got }) end_idx, got, eof)

  abbrev peek_loop : List Block → ℕ → List ℕ
  peek_loop [] room = []
  peek_loop (b ∷ bs) room =
      let got = take room (bytes b) in
      let rest = peek_loop bs (room - length got) in if length got == room then got else got ++ rest

  unfoldable pub peek : Composite Block → ℕ → List ℕ
  peek c n = peek_loop c.buf_list n

  unfoldable pub peek_chunk : Composite Block → List ℕ
  peek_chunk c = elim c.buf_list [ [] ↦ [] | b ∷ bs ↦ bytes b ]

  abbrev pub sizes : List Block → ℕ
  sizes [] = 0
  sizes (b ∷ bs) = length (bytes b) + sizes bs

  unfoldable pub peek_vec_n : Composite Block → ℕ → List (List ℕ) × ℕ
  peek_vec_n c limit = (map bytes (take limit c.buf_list), sizes (take limit c.buf_list))

  -- `dst` is what the caller passes in; nothing of it comes back from an empty buffer.
  unfoldable pub peek_vec : Composite Block → List (List ℕ) → List (List ℕ) × ℕ
  peek_vec c dst =
      if length c.buf_list == 0 then ([], 0) else (dst ++ map bytes c.buf_list, sizes c.buf_list)

  abbrev pub is_empty : Composite Block → Bool
  is_empty c = c.size == 0

  abbrev pub blocks : Composite Block → ℕ
  blocks c = length c.buf_list

  abbrev pub available_all : List Block → ℕ
  available_all [] = 0
  available_all (b ∷ bs) = available b + available_all bs

  unfoldable pub close : Composite Block → Composite Block
  close c = reset c

  -- The loop of `Discard`: where it stopped, if it did, the blocks, and the bytes dropped.
  unfoldable pub discard_loop : ℕ → List Block → ℕ → ℕ → Option ℕ × List Block × ℕ
  discard_loop idx [] n size = (none, [], size)
  discard_loop idx (b ∷ bs) n size =
      let sz = length (bytes b) in
      let (end_idx, bs', size') = discard_loop (suc idx) bs (n - sz) (size + sz) in
      if ltb n sz
      then (some idx, discard_block b n ∷ bs, size + n)
      else if n - sz == 0
      then (some (suc idx), b ∷ bs, size + sz)
      else (end_idx, b ∷ bs', size')

  abbrev stop_at : Option ℕ → ℕ
  stop_at none = 0
  stop_at (some k) = k

  -- `n` of 0 stands for every count that is not positive.
  unfoldable pub discard : Composite Block → ℕ → Composite Block × ℕ
  discard c n' =
      let n = min n' c.size in
      let (end_idx, bs, size) = discard_loop 0 c.buf_list n 0 in
      let d = remove_range (record c { buf_list = bs }) (stop_at end_idx) in
      if length c.buf_list == 0
      then (c, 0)
      else if n' == 0
      then (reset c, c.size)
      else (record d { size = c.size - size }, size)
