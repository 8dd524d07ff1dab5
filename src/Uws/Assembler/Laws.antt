-- ===== src/Uws/Assembler/Laws.antt =====
-- What the assembler keeps and delivers.
use uio.Prelude.{
  ℕ, ◌+◌, ◌≤◌, ◌<◌, ◌≡◌, ◌≢◌, ◌⊎◌, refl, ap, sym, true, false, Option, List, [], ◌∷◌, ◌++◌,
  append_assoc, append-nil, map, length, length-append, arith, All, leb, if◌then◌else◌,
}
use uio.Uws.Frame.{Frame, WireError, text, binary, continuation, invalid_utf8}
use uio.Uws.Assembler.{
  Message, AssemblerConfig, Assembler, Outcome, Callbacks, to_control, kept, refused, reset, limit,
  emit_message, accept, accept_single, run, init,
}

-- Between messages nothing is kept; within one, at most the limit of its kind.
pub record Inv (a : Assembler) : Type 0 where
  pub idle : a.fragmented ≡ false → a.payload ≡ []
  pub bounded : a.fragmented ≡ true → length a.payload ≤ limit a.cfg a.compressed
  pub kind : a.fragmented ≡ true → (a.opcode ≡ text) ⊎ (a.opcode ≡ binary)

pub init-Inv : (a : Assembler) (cfg : Option AssemblerConfig) → Inv (init a cfg)
unfolding init
init-Inv a cfg = ground arith

-- Accepting any frame keeps the invariant: nothing is kept between messages, and within one at most the
-- limit of its kind, with the opcode text or binary.
pub accept-Inv : (a : Assembler) (f : Frame) (cb : Callbacks) → Inv a → Inv (accept a f cb).0
unfolding accept
accept-Inv a f cb v = ground (arith, length-append a.payload f.payload)

-- A refused frame leaves the assembler as it was, unless it ended a message whose text is invalid:
-- then the assembler is back at the message boundary.
pub refused_keeps :
    (a : Assembler) (f : Frame) (cb : Callbacks) {e : WireError}
    → (accept a f cb).1 ≡ refused e
    → ((accept a f cb).0 ≡ a) ⊎ ((e ≡ invalid_utf8) × ((accept a f cb).0 ≡ reset a))
unfolding accept
refused_keeps a f cb h = ground arith

-- Between messages, on a control frame or a complete data frame, the stateless `AcceptSingle` does what
-- `Accept` does, and `Accept` leaves the assembler as it was.
pub accept_single-eq :
    (a : Assembler) (f : Frame) (cb : Callbacks)
    → Inv a
    → a.fragmented ≡ false
    → (f.opcode < 8 → (f.fin ≡ true) × (f.opcode ≢ continuation))
    → accept a f cb ≡ (a, accept_single f a.cfg cb)
unfolding accept accept_single
accept_single-eq a f cb v idle complete = ground arith

-- What may stand between the first and the last frame of a message: control frames, and
-- continuations that do not end it.
abbrev pub IsPart : Frame → Type 0
IsPart f = (f.rsv1 ≡ false) × ((8 ≤ f.opcode) ⊎ ((f.opcode ≡ continuation) × (f.fin ≡ false)))

-- The message bytes of a frame, none for a control frame.
abbrev pub part_of : Frame → List ℕ
part_of f = if leb 8 f.opcode then [] else f.payload

abbrev pub parts_of : List Frame → List ℕ
parts_of [] = []
parts_of (f ∷ fs) = part_of f ++ parts_of fs

abbrev pub outcome_of : Frame → Outcome
outcome_of f = if leb 8 f.opcode then to_control f else kept

abbrev pub both_set : Callbacks
both_set = record { on_control = true; on_message = true }

abbrev pub grown : Assembler → List ℕ → Assembler
grown a p = record a { payload = a.payload ++ p }

accept-part :
    (a : Assembler) (f : Frame)
    → a.fragmented ≡ true
    → IsPart f
    → length a.payload + length (part_of f) ≤ limit a.cfg a.compressed
    → accept a f both_set ≡ (grown a (part_of f), outcome_of f)
unfolding accept
accept-part a f open_ part fits = ground (arith, append-nil a.payload)

run-parts :
    (a : Assembler) (fs : List Frame)
    → a.fragmented ≡ true
    → All IsPart fs
    → length a.payload + length (parts_of fs) ≤ limit a.cfg a.compressed
    → run a fs both_set ≡ (grown a (parts_of fs), map outcome_of fs)
unfolding run
run-parts a [] open_ parts fits =
    ap (λ p. (record a { payload = p }, [])) (sym (append-nil a.payload))
run-parts a (f ∷ fs) open_ parts fits =
    let here =
      accept-part a f open_ parts.0 (omega (arith, length-append (part_of f) (parts_of fs))) in
    let later = run-parts (grown a (part_of f)) fs open_ parts.1 (
      omega
        (arith, length-append (part_of f) (parts_of fs), length-append a.payload (part_of f))) in
    rw (here, later)
      (ap (λ p. (record a { payload = p }, outcome_of f ∷ map outcome_of fs))
        (append_assoc a.payload (part_of f) (parts_of fs)))

run-append :
    (a : Assembler) (fs gs : List Frame) (cb : Callbacks)
    → let (b, os) = run a fs cb in let (c, ps) = run b gs cb in run a (fs ++ gs) cb ≡ (c, os ++ ps)
unfolding run
run-append a [] gs cb = refl
run-append a (f ∷ fs) gs cb = rw (run-append (accept a f cb).0 fs gs cb)

-- The message that a first frame, the frames between and a last frame make up.
abbrev pub joined : Frame → List Frame → Frame → Message
joined first fs last = record {
  opcode = first.opcode;
  payload = first.payload ++ (parts_of fs ++ last.payload);
  compressed = first.rsv1;
  borrowed = false;
}

accept-first :
    (a : Assembler) (f : Frame)
    → Inv a
    → a.fragmented ≡ false
    → (f.opcode ≡ text) ⊎ (f.opcode ≡ binary)
    → f.fin ≡ false
    → length f.payload ≤ limit a.cfg f.rsv1
    → accept a f both_set ≡ (
      record a { fragmented = true; opcode = f.opcode; compressed = f.rsv1; payload = f.payload },
      kept,
    )
unfolding accept
accept-first a f v idle kind more fits = ground arith

accept-last :
    (a : Assembler) (f : Frame)
    → a.fragmented ≡ true
    → f.opcode ≡ continuation
    → f.fin ≡ true
    → f.rsv1 ≡ false
    → length a.payload + length f.payload ≤ limit a.cfg a.compressed
    → accept a f both_set ≡ (
      reset a,
      emit_message a.cfg (record {
        opcode = a.opcode;
        payload = a.payload ++ f.payload;
        compressed = a.compressed;
        borrowed = false;
      }),
    )
unfolding accept
accept-last a f open_ kind fin plain fits = ground arith

-- At a message boundary of an assembler that meets its invariant, with both callbacks set, a first
-- text or binary frame that is not final, any mix of control frames and continuations that are not
-- final, and a final continuation, where no frame behind the first has RSV1, deliver each control
-- frame at once and then exactly one message: the payloads joined in order, with the opcode and
-- compression of the first frame. The text check is `emit_message`'s. Afterwards the assembler is at
-- a message boundary again. The condition is that the joined payload keeps within the limit of its
-- kind.
pub fragmented_message :
    (a : Assembler) (first last : Frame) (fs : List Frame)
    → Inv a
    → a.fragmented ≡ false
    → (first.opcode ≡ text) ⊎ (first.opcode ≡ binary)
    → first.fin ≡ false
    → All IsPart fs
    → last.opcode ≡ continuation
    → last.fin ≡ true
    → last.rsv1 ≡ false
    → length (joined first fs last).payload ≤ limit a.cfg first.rsv1
    → run a (first ∷ (fs ++ (last ∷ []))) both_set
      ≡ (reset a, kept ∷ (map outcome_of fs ++ (emit_message a.cfg (joined first fs last) ∷ [])))
unfolding run
fragmented_message a first last fs v idle kind more parts ends fin plain fits =
    let size : length (joined first fs last).payload
        ≡ length first.payload + (length (parts_of fs) + length last.payload) =
      omega (
        arith,
        length-append first.payload (parts_of fs ++ last.payload),
        length-append (parts_of fs) last.payload,
      ) in
    let b : Assembler = record a {
      fragmented = true;
      opcode = first.opcode;
      compressed = first.rsv1;
      payload = first.payload;
    } in
    let opened = accept-first a first v idle kind more (omega arith) in
    let middle = run-parts b fs refl parts (omega arith) in
    let closed =
      accept-last (grown b (parts_of fs)) last refl ends fin plain
        (omega (arith, length-append first.payload (parts_of fs))) in
    rw (opened, run-append b fs (last ∷ []) both_set, middle, closed)
      (ap
        (λ p. (
          reset a,
          kept
              ∷ (map outcome_of fs
                  ++ (emit_message a.cfg (record {
                    opcode = first.opcode;
                    payload = p;
                    compressed = first.rsv1;
                    borrowed = false;
                  })
                      ∷ [])),
        ))
        (append_assoc first.payload (parts_of fs) last.payload))
