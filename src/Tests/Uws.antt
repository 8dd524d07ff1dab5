-- ===== src/Tests/Uws.antt =====
-- Tests for uws/internal/frame.
use uio.Prelude.{
  ℕ, ◌≡◌, ◌⊎◌, refl, true, false, Option, some, List, [], ◌∷◌, ◌++◌, length, map, inl, inr, arith,
  if◌then◌else◌, none,
}
use uio.Uws.Mask.{
  Avx2Ascii, unmask_ascii, ascii_bytes, ascii_words, ascii_blocks, Avx2, unmask, unmask_bytes,
  unmask_words, unmask_blocks, mask_word, key_word,
}
use uio.Uws.Mask.Words.{IsKey, MasksVectors, xor_from, xor_repeated, unmask-eq-xor_from}
use uio.Uws.Frame.{
  Frame, ParserConfig, parse_frame, parsed, failed, incomplete, protocol, message_too_big, append,
  append_header, parse_announced, parse_payload, payload_length, refuses_prefix,
  validate_close_payload, valid_opcode, invalid_utf8,
}
use uio.Uws.Frame.RoundTrip.{IsSendable, parse-append}
use uio.Uws.Frame.{announced}
use uio.Uws.Parser.{
  Parser, Fed, FeedError, Sink, feed_to, feed_from, round, take_header, after_copy, finish_early,
  take_body, take_payload, emit, prepare_header, prefix_error, finish_header, read_length,
  exceeds_limit, frame_of, close_error,
}
use uio.Uws.Parser.Header.{header_error, prepare_header-refuses_prefix, finish_header-header_error}
use uio.Uws.Parser.Progress.{feed_to-returns}
use uio.Uws.Assembler.{
  Assembler, AssemblerConfig, accept, accept_single, emit_message, run, reset, kept, refused,
}
use uio.Uws.Assembler.Laws.{
  Inv, accept-Inv, refused_keeps, accept_single-eq, fragmented_message, joined, outcome_of,
  both_set,
}

-- A vector routine that does what it should, on a processor that has it.
abbrev vectors : Avx2
vectors = record { use_avx2 = true; mask = λ p key64. xor_repeated key64 p }

vectors-MasksVectors : MasksVectors vectors
vectors-MasksVectors p key64 whole small = refl

abbrev key : List ℕ
key = 1 ∷ 2 ∷ 3 ∷ 4 ∷ []

key-IsKey : IsKey key
key-IsKey = record { size = refl; bytes = omega arith }

abbrev twenty : List ℕ
twenty =
    10 ∷ 20 ∷ 30 ∷ 40 ∷ 50 ∷ 60 ∷ 70 ∷ 80 ∷ 90 ∷ 100 ∷ 110 ∷ 120 ∷ 130 ∷ 140 ∷ 150 ∷ 160 ∷ 170 ∷ 180
    ∷ 190 ∷ 200 ∷ []

masked_words :
    unmask vectors twenty key 1
    ≡ 8 ∷ 23 ∷ 26 ∷ 41 ∷ 48 ∷ 63 ∷ 66 ∷ 81 ∷ 88 ∷ 103 ∷ 106 ∷ 121 ∷ 128 ∷ 143 ∷ 146 ∷ 161 ∷ 168
      ∷ 183 ∷ 186 ∷ 201 ∷ []
unfolding unmask unmask_bytes unmask_words unmask_blocks mask_word key_word
masked_words = refl

unmask-eq-xor_from_example : unmask vectors twenty key 1 ≡ xor_from key 1 twenty
unmask-eq-xor_from_example =
    unmask-eq-xor_from vectors twenty key 1 vectors-MasksVectors key-IsKey (omega arith)
      (omega arith)

-- A client's masked text frame.
abbrev hello : Frame
hello = record {
  fin = true;
  rsv1 = false;
  opcode = 1;
  masked = true;
  borrowed = false;
  payload = 72 ∷ 105 ∷ [];
}

abbrev server : Option ParserConfig
server = some (record { expect_mask = true; allow_rsv1 = false; max_frame_payload = 0 })

abbrev client : Option ParserConfig
client = some (record { expect_mask = false; allow_rsv1 = false; max_frame_payload = 1 })

hello_wire : append vectors [] hello key ≡ 129 ∷ 130 ∷ 1 ∷ 2 ∷ 3 ∷ 4 ∷ 73 ∷ 107 ∷ []
unfolding append append_header unmask unmask_bytes
hello_wire = refl

masked_to_client :
    parse_frame vectors (129 ∷ 130 ∷ 1 ∷ 2 ∷ 3 ∷ 4 ∷ 73 ∷ 107 ∷ []) client ≡ failed protocol
unfolding parse_frame parse_announced refuses_prefix valid_opcode
masked_to_client = refl

too_big : parse_frame vectors (129 ∷ 2 ∷ 72 ∷ 105 ∷ []) client ≡ failed message_too_big
unfolding parse_frame parse_announced refuses_prefix valid_opcode payload_length parse_payload
too_big = refl

one_byte : parse_frame vectors (129 ∷ []) client ≡ incomplete
unfolding parse_frame
one_byte = refl

close_of_one_byte : validate_close_payload (3 ∷ []) ≡ some protocol
unfolding validate_close_payload
close_of_one_byte = refl

hello-IsSendable : IsSendable server hello
unfolding valid_opcode
hello-IsSendable = record {
  opcode_ok = refl;
  control = λ h. absurd (omega arith);
  rsv1_ok = λ h. absurd cc;
  masked_eq = refl;
  fits = omega arith;
  fits_int = omega arith;
  close_ok = λ h. absurd (omega arith);
}

parse-append_example :
    parse_frame vectors (append vectors [] hello key ++ (7 ∷ [])) server
    ≡ parsed (record hello { borrowed = true }) (length (append vectors [] hello key))
parse-append_example =
    parse-append vectors server hello key vectors-MasksVectors key-IsKey (omega arith)
      hello-IsSendable (7 ∷ [])

abbrev limits : Option AssemblerConfig
limits = some (record { max_message = 5; max_compressed_payload = 0; validate_utf8 = true })

abbrev idle : Assembler
idle = record { cfg = limits; fragmented = false; opcode = 0; compressed = false; payload = [] }

abbrev within : Assembler
within = record {
  cfg = limits;
  fragmented = true;
  opcode = 1;
  compressed = false;
  payload = 72 ∷ [];
}

idle-Inv : Inv idle
idle-Inv = record { idle = λ h. refl; bounded = λ h. absurd cc; kind = λ h. absurd cc }

within-Inv : Inv within
within-Inv = record { idle = λ h. absurd cc; bounded = λ h. omega arith; kind = λ h. inl refl }

abbrev first_part : Frame
first_part = record hello { fin = false; payload = 72 ∷ [] }

abbrev ping_frame : Frame
ping_frame = record hello { opcode = 9; payload = [] }

abbrev middle_part : Frame
middle_part = record hello { fin = false; opcode = 0; payload = 101 ∷ [] }

abbrev last_part : Frame
last_part = record hello { opcode = 0; payload = 121 ∷ [] }

abbrev between : List Frame
between = ping_frame ∷ middle_part ∷ []

fragmented_message_example : run idle (first_part ∷ (between ++ (last_part ∷ []))) both_set ≡ (
  reset idle,
  kept
      ∷ (map outcome_of between
          ++ (emit_message limits (joined first_part between last_part) ∷ [])),
)
fragmented_message_example =
    fragmented_message idle first_part last_part between idle-Inv refl (inl refl) refl
      ((refl, inl (omega arith)), ((refl, inr (refl, refl)), tt)) refl refl refl (omega arith)

accept-Inv_example : Inv (accept within middle_part both_set).0
accept-Inv_example = accept-Inv within middle_part both_set within-Inv

-- A continuation outside a message.
orphan : (accept idle last_part both_set).1 ≡ refused protocol
unfolding accept
orphan = refl

refused_run :
    ((accept idle last_part both_set).0 ≡ idle)
    ⊎ ((protocol ≡ invalid_utf8) × ((accept idle last_part both_set).0 ≡ reset idle))
refused_run = refused_keeps idle last_part both_set orphan

accept_single_run : accept idle hello both_set ≡ (idle, accept_single hello limits both_set)
accept_single_run =
    accept_single-eq idle hello both_set idle-Inv refl (λ h. (refl, λ e. absurd (omega arith)))

abbrev boundary : Parser
boundary = record {
  cfg = server;
  header = [];
  header_need = 2;
  fin = false;
  rsv1 = false;
  opcode = 0;
  masked = false;
  payload_len = 0;
  payload_read = 0;
  mask_key = 0 ∷ 0 ∷ 0 ∷ 0 ∷ [];
  mask_offset = 0;
  payload = none;
  pooled = false;
}

abbrev accepts_all : Sink
accepts_all frames = false

-- The wire bytes of `hello` in two inputs: nothing from the first, the frame from the second.
abbrev split_frames : Option (Fed × Option FeedError) → List Frame
split_frames none = []
split_frames (some (t, error)) = t.frames

abbrev parser_after : Option (Fed × Option FeedError) → Parser
parser_after none = boundary
parser_after (some (t, error)) = t.parser

abbrev first_input : Option (Fed × Option FeedError)
first_input = feed_to vectors accepts_all false boundary (129 ∷ 130 ∷ 1 ∷ 2 ∷ 3 ∷ [])

split_input :
    (split_frames first_input ≡ [])
    × (split_frames
          (feed_to vectors accepts_all false (parser_after first_input) (4 ∷ 73 ∷ 107 ∷ []))
        ≡ record hello { borrowed = true } ∷ [])
unfolding feed_to feed_from round take_header after_copy finish_early take_body take_payload emit
    parse_frame parse_announced refuses_prefix valid_opcode payload_length parse_payload
    prepare_header prefix_error finish_header read_length exceeds_limit frame_of close_error unmask
    unmask_bytes
split_input = (refl, refl)

-- A parser with the header of `hello`.
abbrev with_header : Parser
with_header = record boundary {
  header = 129 ∷ 130 ∷ 1 ∷ 2 ∷ 3 ∷ 4 ∷ [];
  header_need = 6;
  fin = true;
  opcode = 1;
  masked = true;
  payload_len = 2;
}

prepare_header_run :
    (prepare_header with_header).1
    ≡ (if refuses_prefix server 129 (announced 129 130) 2 then some protocol else none)
prepare_header_run = prepare_header-refuses_prefix with_header

finish_header_run :
    (finish_header with_header).1 ≡ header_error server (129 ∷ 130 ∷ 1 ∷ 2 ∷ 3 ∷ 4 ∷ []) 6 2
finish_header_run = finish_header-header_error with_header (λ h. refl) (omega arith)

feed_to-returns_example :
    (r : Fed × Option FeedError) × (feed_to vectors accepts_all false with_header
        (73 ∷ 107 ∷ 129 ∷ [])
      ≡ some r)
feed_to-returns_example =
    feed_to-returns vectors accepts_all false with_header (73 ∷ 107 ∷ 129 ∷ []) (inr (omega arith))

-- Where the processor lacks the vector routine.
abbrev no_vectors : Avx2Ascii
no_vectors = record { use_avx2 = false; mask_ascii = λ p key64. (p, false) }

ascii_text : unmask_ascii no_vectors (73 ∷ 107 ∷ []) key ≡ (72 ∷ 105 ∷ [], true)
unfolding unmask_ascii ascii_bytes
ascii_text = refl

-- A high bit in the words.
not_ascii : unmask_ascii no_vectors twenty key ≡ (unmask vectors twenty key 0, false)
unfolding unmask_ascii ascii_bytes ascii_words ascii_blocks unmask unmask_bytes unmask_words
    unmask_blocks mask_word key_word
not_ascii = refl
