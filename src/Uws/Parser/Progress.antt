-- ===== src/Uws/Parser/Progress.antt =====
-- The loop of the incremental parser ends: each round consumes input or returns.
use uio.Prelude.Result.{Result, ok, err}
use uio.Prelude.Bytes.{byte_at}
use uio.Prelude.{
  ℕ, zero, suc, ◌+◌, ◌-◌, ◌≤◌, ◌<◌, ◌≡◌, ◌⊎◌, refl, ap, sym, ◌∙◌, Bool, Option, none, some, List,
  [], ◌∷◌, length, drop, min, bit_and, ltb, ◌==◌, if◌then◌else◌, Bool-cases, Option-cases, inl, inr,
  arith, ltb→lt, ltb→le, length-drop, ◌++◌, ◌&&◌,
}
use uio.Uws.Mask.{Avx2}
use uio.Uws.Frame.{
  WireError, Frame, ParseResult, parsed, failed, incomplete, parse_frame, parse_announced,
  parse_payload, payload_length, ParserConfig, announced, extended_size,
}
use uio.Uws.Parser.{
  Parser, reset_state, prepare_header, finish_header, Fed, Round, again, return_with, Sink,
  FeedError, deliver, deliver_checked, frame_of, close_error, emit, take_payload, take_body,
  finish_early, after_copy, take_header, after_parse, round, feed_from, feed_to, is_nil,
}

-- The header or the payload of the frame at hand is not complete.
abbrev pub Inv : Parser → Type 0
Inv p = (length p.header < p.header_need) ⊎ (p.payload_read < p.payload_len)

-- The loop goes on only with more than `k` bytes consumed.
abbrev Good : ℕ → Round → Type 0
Good k (again t) = Inv t.parser × (k < t.consumed)
Good k (return_with t error) = Unit

deliver-Good :
    (refuses : Sink) (k : ℕ) (s : Fed) (f : Frame)
    → Inv s.parser
    → k < s.consumed
    → Good k (deliver refuses s f)
deliver-Good refuses k s f v h = elim (Bool-cases (refuses (s.frames ++ (f ∷ [])))) [
  | inl e ↦ rw e tt
  | inr e ↦ rw e (v, h)
]

deliver_checked-Good :
    (refuses : Sink) (k : ℕ) (s : Fed) (f : Frame) (o : Option WireError)
    → Inv s.parser
    → k < s.consumed
    → Good k (deliver_checked refuses s f o)
deliver_checked-Good refuses k s f (some e) v h = tt
deliver_checked-Good refuses k s f none v h = deliver-Good refuses k s f v h

emit-Good : (refuses : Sink) (k : ℕ) (s : Fed) → k < s.consumed → Good k (emit refuses s)
unfolding emit
emit-Good refuses k s h =
    let f = frame_of s.parser in
    deliver_checked-Good refuses k (record s { parser = reset_state s.parser }) f (close_error f)
      (inl (omega arith)) h

take_payload-Good :
    (avx : Avx2) (refuses : Sink) (k : ℕ) (s : Fed) (src : List ℕ)
    → k ≤ s.consumed
    → (k < s.consumed) ⊎ ((0 < length src) × (s.parser.payload_read < s.parser.payload_len))
    → Good k (take_payload avx refuses s src)
unfolding take_payload
take_payload-Good avx refuses k s src h more =
    let p = s.parser in
    let n = min (length src) (p.payload_len - p.payload_read) in
    elim (Bool-cases (ltb 0 (p.payload_len - p.payload_read))) [
      | inl e ↦
          (let on : k < s.consumed + n = ground (arith, ltb→lt 0 _ e) in
            elim (Bool-cases (ltb (p.payload_read + n) p.payload_len)) [
              | inl f ↦ rw (e, f) (inr (ltb→lt _ _ f), on)
              | inr f ↦ rw (e, f) (emit-Good refuses k _ on)
            ])
      | inr e ↦ rw e (emit-Good refuses k s (ground (arith, ltb→le 0 _ e)))
    ]

-- A round has made progress, or can: its header is complete and payload is due and there.
abbrev Due : ℕ → Fed → List ℕ → Type 0
Due k s src =
    (k ≤ s.consumed)
    × (s.parser.header_need ≤ length s.parser.header)
    × (0 < length src)
    × (s.parser.payload_read < s.parser.payload_len)

take_body-Good :
    (avx : Avx2) (refuses : Sink) (k : ℕ) (s : Fed) (src : List ℕ)
    → (k < s.consumed) ⊎ Due k s src
    → Good k (take_body avx refuses s src)
unfolding take_body
take_body-Good avx refuses k s src h =
    elim (Bool-cases (ltb (length s.parser.header) s.parser.header_need)) [
      | inl e ↦ rw e (inl (ltb→lt _ _ e), ground (arith, ltb→lt _ _ e))
      | inr e ↦ elim (Bool-cases (is_nil s.parser.payload && s.parser.payload_len == 0)) [
        | inl f ↦
            (let on : k < s.consumed = ground arith in
              elim (Option-cases (finish_header s.parser).1) [
                | inl g ↦
                    rw (e, f, g)
                      (take_payload-Good avx refuses k
                        (record s { parser = (finish_header s.parser).0 }) src (omega arith)
                        (inl on))
                | inr (x, g) ↦ rw (e, f, g) tt
              ])
        | inr f ↦ rw (e, f) (take_payload-Good avx refuses k s src (ground arith) (ground arith))
      ]
    ]

finish_early-Good :
    (avx : Avx2) (refuses : Sink) (k : ℕ) (s : Fed) (src : List ℕ)
    → k < s.consumed
    → Good k (finish_early avx refuses s src)
unfolding finish_early
finish_early-Good avx refuses k s src h =
    elim (Bool-cases (is_nil s.parser.payload && ltb 0 s.parser.payload_len)) [
      | inl f ↦ elim (Option-cases (finish_header s.parser).1) [
        | inl g ↦
            rw (f, g)
              (take_body-Good avx refuses k (record s { parser = (finish_header s.parser).0 }) src
                (inl h))
        | inr (x, g) ↦ rw (f, g) tt
      ]
      | inr f ↦ rw f (take_body-Good avx refuses k s src (inl h))
    ]

after_copy-Good :
    (avx : Avx2) (refuses : Sink) (k : ℕ) (s : Fed) (src : List ℕ)
    → k < s.consumed
    → Good k (after_copy avx refuses s src)
unfolding after_copy
after_copy-Good avx refuses k s src h =
    elim (Bool-cases (ltb (length s.parser.header) s.parser.header_need)) [
      | inl e ↦ rw e (inl (ltb→lt _ _ e), h)
      | inr e ↦ elim (Bool-cases (s.parser.header_need == 2)) [
        | inr f ↦ rw (e, f) (finish_early-Good avx refuses k s src h)
        | inl f ↦
            (let q = (prepare_header s.parser).0 in
              elim (Option-cases (prepare_header s.parser).1) [
                | inr (x, g) ↦ rw (e, f, g) tt
                | inl g ↦ elim (Bool-cases (ltb (length q.header) q.header_need)) [
                  | inl i ↦ rw (e, f, g, i) (inl (ltb→lt _ _ i), h)
                  | inr i ↦
                      rw (e, f, g, i)
                        (finish_early-Good avx refuses k (record s { parser = q }) src h)
                ]
              ])
      ]
    ]

-- A frame that `ParseFrame` returns has at least its two header bytes.
parse_payload-size :
    (avx : Avx2) (src : List ℕ) (cfg : Option ParserConfig) (g : Frame) (hs n : ℕ) (f : Frame)
    (size : ℕ)
    → parse_payload avx src cfg g hs n ≡ parsed f size
    → hs ≤ size
unfolding parse_payload
parse_payload-size avx src cfg g hs n f size h = ground arith

abbrev value_of : Result WireError ℕ → ℕ
value_of (ok n) = n
value_of (err e) = 0

parse_announced-size :
    (avx : Avx2) (src : List ℕ) (cfg : Option ParserConfig) (b0 code : ℕ) (g f : Frame) (size : ℕ)
    → parse_announced avx src cfg b0 g code ≡ parsed f size
    → 2 ≤ size
unfolding parse_announced
parse_announced-size avx src cfg b0 code g f size h =
    let hs = 2 + extended_size code + (if g.masked then 4 else 0) in
    ground (arith, parse_payload-size avx src cfg g hs (value_of (payload_length src code)) f size)

parse_frame-size :
    (avx : Avx2) (src : List ℕ) (cfg : Option ParserConfig) (f : Frame) (size : ℕ)
    → parse_frame avx src cfg ≡ parsed f size
    → 2 ≤ size
unfolding parse_frame
parse_frame-size avx src cfg f size h = elim (Bool-cases (ltb (length src) 2)) [
  | inl e ↦ absurd (ground arith)
  | inr e ↦
      parse_announced-size avx src cfg (byte_at src 0) (bit_and (byte_at src 1) 0x7f)
        (announced (byte_at src 0) (byte_at src 1)) f size
        (ap
            (λ b.
              if b
              then incomplete
              else parse_announced avx src cfg (byte_at src 0)
                  (announced (byte_at src 0) (byte_at src 1)) (bit_and (byte_at src 1) 0x7f))
            (sym e)
          ∙ h)
]

take_header-Good :
    (avx : Avx2) (refuses : Sink) (s : Fed) (src : List ℕ)
    → Inv s.parser
    → 0 < length src
    → Good s.consumed (take_header avx refuses s src)
unfolding take_header
take_header-Good avx refuses s src v more =
    elim (Bool-cases (ltb (length s.parser.header) s.parser.header_need)) [
      | inl e ↦ rw e (after_copy-Good avx refuses s.consumed _ _ (ground (arith, ltb→lt _ _ e)))
      | inr e ↦
          rw e (take_body-Good avx refuses s.consumed s src (inr (ground (arith, ltb→le _ _ e))))
    ]

after_parse-Good :
    (avx : Avx2) (refuses : Sink) (s : Fed) (src : List ℕ) (r : ParseResult)
    → Inv s.parser
    → Good s.consumed (take_header avx refuses s src)
    → ((f : Frame) (size : ℕ) → r ≡ parsed f size → 2 ≤ size)
    → Good s.consumed (after_parse avx refuses s src r)
after_parse-Good avx refuses s src (failed e) v go big = tt
after_parse-Good avx refuses s src incomplete v go big = go
after_parse-Good avx refuses s src (parsed f size) v go big =
    deliver-Good refuses s.consumed (record s { consumed = s.consumed + size }) f v
      (omega (arith, big f size refl))

round-Good :
    (avx : Avx2) (refuses : Sink) (finish : Bool) (s : Fed) (src : List ℕ)
    → Inv s.parser
    → 0 < length src
    → Good s.consumed (round avx refuses finish s src)
unfolding round
round-Good avx refuses finish s src v more =
    let go = take_header-Good avx refuses s src v more in
    elim (Bool-cases (length s.parser.header == 0)) [
      | inr e ↦ rw e go
      | inl e ↦ elim (Bool-cases finish) [
        | inl f ↦ rw (e, f) tt
        | inr f ↦
            rw (e, f)
              (after_parse-Good avx refuses s src (parse_frame avx src s.parser.cfg) v go
                (λ f size h. parse_frame-size avx src s.parser.cfg f size h))
      ]
    ]

feed_from-returns :
    (fuel : ℕ) (avx : Avx2) (refuses : Sink) (finish : Bool) (src : List ℕ) (s : Fed)
    → Inv s.parser
    → length src ≤ s.consumed + fuel
    → (r : Fed × Option FeedError) × (feed_from fuel avx refuses finish src s ≡ some r)
unfolding feed_from
feed_from-returns zero avx refuses finish src s v enough =
    elim (Bool-cases (ltb s.consumed (length src))) [
      | inl e ↦ absurd (omega (arith, ltb→lt _ _ e))
      | inr e ↦ rw e ((s, none), refl)
    ]
feed_from-returns (suc fuel) avx refuses finish src s v enough =
    elim (Bool-cases (ltb s.consumed (length src))) [
      | inr e ↦ rw e ((s, none), refl)
      | inl e ↦
          (let left : 0 < length (drop s.consumed src) =
              omega (arith, ltb→lt _ _ e, length-drop s.consumed src) in
            rw e (
              go_on
                (λ t i on. feed_from-returns fuel avx refuses finish src t i (omega (arith, on)))
                (round avx refuses finish s (drop s.consumed src))
                (round-Good avx refuses finish s (drop s.consumed src) v left)))
    ]
  where
    go_on :
        ((t : Fed)
          → Inv t.parser
          → s.consumed < t.consumed
          → (q : Fed × Option FeedError) × (feed_from fuel avx refuses finish src t ≡ some q))
        → (r : Round) → Good s.consumed r
        → (q : Fed × Option FeedError) × (elim r as (λ x. Option (Fed × Option FeedError)) [
          | again t ↦ feed_from fuel avx refuses finish src t
          | return_with t error ↦ some (t, error)
        ]
            ≡ some q)
    go_on ih (return_with t error) g = ((t, error), refl)
    go_on ih (again t) g = ih t g.0 g.1

-- `feedTo` returns, on any input and with any sink, from every state that the loop leaves between
-- rounds: as many rounds as the input has bytes are enough.
pub feed_to-returns :
    (avx : Avx2) (refuses : Sink) (finish : Bool) (p : Parser) (src : List ℕ)
    → Inv p
    → (r : Fed × Option FeedError) × (feed_to avx refuses finish p src ≡ some r)
unfolding feed_to
feed_to-returns avx refuses finish p src v =
    feed_from-returns (length src) avx refuses finish src
      (record { parser = p; consumed = 0; frames = [] }) v (omega arith)
