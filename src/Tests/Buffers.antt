-- ===== src/Tests/Buffers.antt =====
-- Tests for internal/bytebuf, over blocks that are a list of bytes and a count of free ones.
use uio.Prelude.{ℕ, ◌-◌, ◌≤◌, ◌≡◌, refl, some, List, [], ◌∷◌, ◌++◌, length, drop, arith}
use uio.Composite.Interface.{Blocks, Documented}
use uio.Composite.{
  Composite, write, writev, gather, prepend_owned, append_owned_coalesced, reserve, write_coalesced,
  writev_coalesced, read, peek, peek_vec, peek_vec_n, discard, last_available, write_last,
  remove_range, read_loop,
}
use uio.Composite.Contents.{contents, held, Inv}
use uio.Composite.Writing.{
  Appended, write-Appended, writev-Appended, joined, gather_lem, prepend_owned-bytes, bytes_of,
  append_owned_coalesced-Appended, reserve-Appended, write_coalesced-Appended,
  writev_coalesced-Appended,
}
use uio.Composite.Reading.{
  Discarded, discard-Discarded, read_lem, peek-read, peek_vec-held, joined_segments,
}

record ToyBlock : Type 0 where
  data_of : List ℕ
  spare : ℕ

abbrev toy : Blocks
toy = record {
  Block = ToyBlock;
  bytes = λ b. b.data_of;
  available = λ b. b.spare;
  write_block = λ b p. record { data_of = b.data_of ++ p; spare = b.spare - length p };
  discard_block = λ b n. record b { data_of = drop n b.data_of };
  read_block = λ b n. record b { data_of = drop n b.data_of };
  get_block = λ n. record { data_of = []; spare = n };
}

toy-Documented : Documented toy
toy-Documented = record {
  write_bytes = λ b p. refl;
  write_available = λ b p fits. refl;
  discard_bytes = λ b n pos fits. refl;
  read_bytes = λ b n. refl;
  get_bytes = λ n. refl;
  get_available = λ n. omega arith;
}

abbrev one_block : ToyBlock
one_block = record { data_of = 1 ∷ 2 ∷ []; spare = 1 }

abbrev two_block : ToyBlock
two_block = record { data_of = 3 ∷ []; spare = 2 }

abbrev buffer : Composite ToyBlock
buffer = record { buf_list = one_block ∷ two_block ∷ []; size = 3; freed = [] }

written : (write toy buffer (4 ∷ 5 ∷ 6 ∷ [])).1 ≡ 3
unfolding write last_available write_last
written = refl

-- What does not fit goes into a new block.
spilled : length (write toy buffer (4 ∷ 5 ∷ 6 ∷ [])).0.buf_list ≡ 3
unfolding write last_available write_last
spilled = refl

read_across : (read toy buffer 3).1 ≡ 1 ∷ 2 ∷ 3 ∷ []
unfolding read read_loop remove_range
read_across = refl

write-Appended_example :
    Appended toy toy-Documented buffer (4 ∷ 5 ∷ 6 ∷ []) (write toy buffer (4 ∷ 5 ∷ 6 ∷ [])).0
    × ((write toy buffer (4 ∷ 5 ∷ 6 ∷ [])).1 ≡ 3)
write-Appended_example = write-Appended toy toy-Documented buffer (4 ∷ 5 ∷ 6 ∷ [])

abbrev pieces : List (List ℕ)
pieces = (4 ∷ []) ∷ [] ∷ (5 ∷ 6 ∷ []) ∷ []

writev_run :
    Appended toy toy-Documented buffer
      (joined toy toy-Documented pieces)
      (writev toy buffer pieces).0
    × ((writev toy buffer pieces).1 ≡ 3)
writev_run = writev-Appended toy toy-Documented buffer pieces

write_coalesced_run :
    Appended toy toy-Documented buffer
      (4 ∷ 5 ∷ 6 ∷ [])
      (write_coalesced toy buffer (4 ∷ 5 ∷ 6 ∷ []) 8).0
    × ((write_coalesced toy buffer (4 ∷ 5 ∷ 6 ∷ []) 8).1 ≡ 3)
write_coalesced_run = write_coalesced-Appended toy toy-Documented buffer (4 ∷ 5 ∷ 6 ∷ []) 8

prepend_owned_run :
    (held toy (prepend_owned toy buffer (some two_block)) ≡ 3 ∷ 1 ∷ 2 ∷ 3 ∷ [])
    × ((prepend_owned toy buffer (some two_block)).size ≡ 4)
prepend_owned_run = prepend_owned-bytes toy toy-Documented buffer (some two_block)

append_owned_coalesced_run :
    Appended toy toy-Documented buffer
      (bytes_of toy toy-Documented (some one_block))
      (append_owned_coalesced toy buffer (some one_block) 8)
append_owned_coalesced_run =
    append_owned_coalesced-Appended toy toy-Documented buffer (some one_block) 8

reserve_run : Appended toy toy-Documented buffer (9 ∷ 9 ∷ []) (reserve toy buffer (9 ∷ 9 ∷ []) 16)
reserve_run = reserve-Appended toy toy-Documented buffer (9 ∷ 9 ∷ []) 16

gather_run :
    (held toy (gather toy buffer 5 (7 ∷ 8 ∷ 9 ∷ [])).0 ++ (gather toy buffer 5 (7 ∷ 8 ∷ 9 ∷ [])).1
      ≡ 1 ∷ 2 ∷ 3 ∷ 7 ∷ 8 ∷ 9 ∷ [])
    × (length (gather toy buffer 5 (7 ∷ 8 ∷ 9 ∷ [])).0.buf_list ≡ 1)
    × Inv toy (gather toy buffer 5 (7 ∷ 8 ∷ 9 ∷ [])).0
    × (5 ≤ (gather toy buffer 5 (7 ∷ 8 ∷ 9 ∷ [])).0.size)
gather_run = gather_lem toy toy-Documented buffer 5 (7 ∷ 8 ∷ 9 ∷ []) refl

discard-Discarded_example : Discarded toy toy-Documented buffer 2 (discard toy buffer 2)
discard-Discarded_example = discard-Discarded toy toy-Documented buffer 2 refl

read_lem_example :
    ((read toy buffer 3).1 ≡ 1 ∷ 2 ∷ 3 ∷ [])
    × (held toy (read toy buffer 3).0 ≡ [])
    × Inv toy (read toy buffer 3).0
read_lem_example = read_lem toy toy-Documented buffer 3 refl

peek_run : peek toy buffer 2 ≡ (read toy buffer 2).1
peek_run = peek-read toy toy-Documented buffer 2 refl

writev_coalesced_run :
    Appended toy toy-Documented buffer
      (joined toy toy-Documented pieces)
      (writev_coalesced toy buffer pieces 8).0
    × ((writev_coalesced toy buffer pieces 8).1 ≡ 3)
writev_coalesced_run = writev_coalesced-Appended toy toy-Documented buffer pieces 8

peek_vec_run :
    (joined_segments toy toy-Documented (peek_vec toy buffer []).0 ≡ 1 ∷ 2 ∷ 3 ∷ [])
    × ((peek_vec toy buffer []).1 ≡ 3)
    × (joined_segments toy toy-Documented (peek_vec_n toy buffer 1).0
          ++ contents toy (two_block ∷ [])
        ≡ 1 ∷ 2 ∷ 3 ∷ [])
    × ((peek_vec_n toy buffer 1).1
        ≡ length (joined_segments toy toy-Documented (peek_vec_n toy buffer 1).0))
peek_vec_run = peek_vec-held toy toy-Documented buffer 1 refl
