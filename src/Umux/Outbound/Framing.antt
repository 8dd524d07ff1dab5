-- ===== src/Umux/Outbound/Framing.antt =====
-- The frames that a write queues.
use uio.Prelude.Int64.{half, slt, sle}
use uio.Prelude.Store.{store-same}
use uio.Prelude.{
  ap₂, length-take, length-drop, ℕ, zero, suc, ◌^◌, ◌%◌, ◌≡◌, refl, ap, sym, ◌∙◌, Bool, true, false,
  not, ◌||◌, Option, none, some, List, [], ◌∷◌, ◌++◌, append_assoc, append-nil, length, take, drop,
  min, All, take-append-drop, ltb, ◌==◌, if◌then◌else◌, arith, ◌≤◌, ◌<◌, if-elim,
}
use uio.Prelude.Result.{ok}
use uio.Umux.Frame.{FrameHeader, encode_header, decode_header, type_data, proto_version}
use uio.Umux.Frame.Codec.{decode-encode}
use uio.Umux.Window as Window
use uio.Umux.Outbound.{
  Cause, outbound_overflow, closed_error, or_closed, write, Sender, Outbound, put_stream,
  header_bytes, chunk_frame, schedule, enqueue, frame_data,
}

abbrev data_header : ℕ → ℕ → FrameHeader
data_header id n = record {
  version = proto_version;
  typ = type_data;
  flags = 0;
  stream_id = id;
  length = n;
}

-- A data frame of the stream, whose header names the payload behind it.
pub record IsDataFrame (id max_frame : ℕ) (frame : List ℕ) : Type 0 where
  pub header :
      decode_header frame
      ≡ ok (record {
        version = proto_version;
        typ = type_data;
        flags = 0;
        stream_id = id;
        length = length (drop 12 frame);
      })
  pub nonempty : 0 < length (drop 12 frame)
  pub within : length (drop 12 frame) ≤ max_frame

abbrev pub payloads : List (List ℕ) → List ℕ
payloads [] = []
payloads (f ∷ fs) = drop 12 f ++ payloads fs

-- The twelve bytes of the header, whatever follows them.
header-bytes :
    (h : FrameHeader) (rest : List ℕ)
    → encode_header (0 ∷ 0 ∷ 0 ∷ 0 ∷ 0 ∷ 0 ∷ 0 ∷ 0 ∷ 0 ∷ 0 ∷ 0 ∷ 0 ∷ rest) h
      ≡ some (header_bytes h ++ rest)
unfolding encode_header
header-bytes h rest =
    if-elim (λ (o : Option (List ℕ)). o ≡ some (header_bytes h ++ rest))
      (ltb (length (0 ∷ 0 ∷ 0 ∷ 0 ∷ 0 ∷ 0 ∷ 0 ∷ 0 ∷ 0 ∷ 0 ∷ 0 ∷ 0 ∷ rest)) 12) none
      (some (header_bytes h ++ rest)) (λ e. absurd (ground (arith, e))) (λ e. refl)

header-decodes :
    (id n : ℕ) (rest : List ℕ)
    → id < 2 ^ 32
    → n < 2 ^ 32
    → decode_header (header_bytes (data_header id n) ++ rest) ≡ ok (data_header id n)
header-decodes id n rest i l =
    decode-encode (0 ∷ 0 ∷ 0 ∷ 0 ∷ 0 ∷ 0 ∷ 0 ∷ 0 ∷ 0 ∷ 0 ∷ 0 ∷ 0 ∷ rest) (data_header id n)
      (record {
        version_eq = refl;
        typ_le = omega arith;
        flags_lt = omega arith;
        stream_id_lt = i;
        length_lt = l;
      })
      (header-bytes (data_header id n) rest)

header-drops : (h : FrameHeader) (rest : List ℕ) → drop 12 (header_bytes h ++ rest) ≡ rest
unfolding encode_header
header-drops h rest = refl

chunk_frame-IsDataFrame :
    (id max_frame chunk : ℕ) (p : List ℕ)
    → id < 2 ^ 32
    → max_frame < 2 ^ 32
    → 0 < chunk
    → chunk ≤ max_frame
    → chunk ≤ length p
    → IsDataFrame id max_frame (chunk_frame id chunk p)
chunk_frame-IsDataFrame id max_frame chunk p i m pos le fits =
    let left = header-drops (data_header id (chunk % 2 ^ 32)) (take chunk p) in
    let size : length (drop 12 (chunk_frame id chunk p)) ≡ chunk =
      ap length left ∙ (length-take chunk p ∙ omega (arith, fits)) in
    record {
      header =
          header-decodes id (chunk % 2 ^ 32) (take chunk p) i (omega (arith, le, m))
          ∙ ap (λ n. ok (data_header id n)) (omega (arith, size, le, m));
      nonempty = omega (arith, size, pos);
      within = omega (arith, size, le);
    }

abbrev Joined : ℕ → List (List ℕ) → Outbound × Bool → Type 0
Joined id out (t, held) = held ≡ true × (t.streams id).live ≡ true × (t.streams id).out ≡ out

-- A frame joins the queue of a stream that the session holds.
enqueue-out :
    (s : Outbound) (id : ℕ) (frame : List ℕ)
    → (s.streams id).live ≡ true
    → Joined id ((s.streams id).out ++ (frame ∷ [])) (enqueue s id frame)
unfolding enqueue
enqueue-out s id frame live =
    let st = s.streams id in
    let longer = record st { out = st.out ++ (frame ∷ []) } in
    let queued = record longer { queued = true } in
    if-elim (Joined id (st.out ++ (frame ∷ []))) (not st.live) (s, false)
      (schedule s id longer, true) (λ e. absurd (ground (arith, e, live)))
      (λ e.
        if-elim (λ (t : Outbound). Joined id (st.out ++ (frame ∷ [])) (t, true)) st.queued
          (put_stream s id longer)
          (record (put_stream s id queued) { pending = s.pending ++ (id ∷ []) })
          (λ f.
            let h = store-same s.streams id longer in
            (refl, ap (λ (x : Sender). x.live) h ∙ live, ap (λ (x : Sender). x.out) h))
          (λ f.
            let h = store-same s.streams id queued in
            (refl, ap (λ (x : Sender). x.live) h ∙ live, ap (λ (x : Sender). x.out) h)))

-- What `frame_data` leaves: the frames of `p` behind those that waited.
abbrev pub Framed : ℕ → ℕ → List ℕ → List (List ℕ) → Outbound × Bool → Type 0
Framed id max_frame p out (t, held) =
    held ≡ true
    × ((frames : List (List ℕ)) × ((t.streams id).out ≡ out ++ frames
          × payloads frames ≡ p
          × All (IsDataFrame id max_frame) frames))

none_Framed :
    (max_frame : ℕ) (s : Outbound) (id : ℕ) (q : List ℕ)
    → length q ≤ 0
    → Framed id max_frame q (s.streams id).out (s, true)
none_Framed max_frame s id [] h = (refl, ([], (sym (append-nil (s.streams id).out), refl, tt)))
none_Framed max_frame s id (x ∷ xs) h = absurd (omega (arith, h))

pub frame_data-Framed :
    (fuel max_frame : ℕ) (s : Outbound) (id : ℕ) (p : List ℕ)
    → id < 2 ^ 32
    → 0 < max_frame
    → max_frame < 2 ^ 32
    → (s.streams id).live ≡ true
    → length p ≤ fuel
    → Framed id max_frame p (s.streams id).out (frame_data fuel max_frame s id p)
unfolding frame_data
frame_data-Framed zero max_frame s id p i pos m live le =
    none_Framed max_frame s id p (omega (arith, le))
frame_data-Framed (suc fuel) max_frame s id p i pos m live le =
    let chunk = min (length p) max_frame in
    let frame = chunk_frame id chunk p in
    let r = enqueue s id frame in
    let j = enqueue-out s id frame live in
    let more = frame_data fuel max_frame r.0 id (drop chunk p) in
    if-elim (Framed id max_frame p (s.streams id).out) (length p == 0) (s, true)
      (if r.1 then more else (r.0, false)) (λ e. none_Framed max_frame s id p (ground (arith, e)))
      (λ e.
        if-elim (Framed id max_frame p (s.streams id).out) r.1 more (r.0, false)
          (λ f.
            behind (s.streams id).out (r.0.streams id).out frame chunk p more
              (chunk_frame-IsDataFrame id max_frame chunk p i m (ground (arith, e, pos))
                (omega arith) (omega arith))
              (header-drops _ (take chunk p)) j.2
              (frame_data-Framed fuel max_frame r.0 id (drop chunk p) i pos m j.1
                (omega (arith, length-drop chunk p, le, ground_pos (length p) max_frame pos e))))
          (λ f. absurd (clash (sym j.0 ∙ f))))
  where
    clash : true ≡ false → ⊥
    clash h = cc

    ground_pos : (n k : ℕ) → 0 < k → (n == 0) ≡ false → 0 < min n k
    ground_pos n k pos e = ground (arith, pos, e)

    behind :
        (out mid : List (List ℕ)) (frame : List ℕ) (chunk : ℕ) (q : List ℕ) (r : Outbound × Bool)
        → IsDataFrame id max_frame frame
        → drop 12 frame ≡ take chunk q
        → mid ≡ out ++ (frame ∷ [])
        → Framed id max_frame (drop chunk q) mid r
        → Framed id max_frame q out r
    behind out mid frame chunk q r good payload e (held, (fs, (queue, bytes, all))) = (
      held,
      (
        frame ∷ fs,
        (
          queue ∙ (ap (λ o. o ++ fs) e ∙ append_assoc out (frame ∷ []) fs),
          ap₂ (λ a b. a ++ b) payload bytes ∙ take-append-drop chunk q,
          (good, all),
        ),
      ),
    )

-- Queueing the frames leaves the stream's credit alone.
enqueue-send_win :
    (s : Outbound) (id : ℕ) (frame : List ℕ)
    → ((enqueue s id frame).0.streams id).send_win ≡ (s.streams id).send_win
unfolding enqueue
enqueue-send_win s id frame =
    let st = s.streams id in
    let longer = record st { out = st.out ++ (frame ∷ []) } in
    let queued = record longer { queued = true } in
    if-elim (λ (r : Outbound × Bool). (r.0.streams id).send_win ≡ st.send_win) (not st.live)
      (s, false) (schedule s id longer, true) (λ e. refl)
      (λ e.
        if-elim (λ (t : Outbound). (t.streams id).send_win ≡ st.send_win) st.queued
          (put_stream s id longer)
          (record (put_stream s id queued) { pending = s.pending ++ (id ∷ []) })
          (λ f. ap (λ (x : Sender). x.send_win) (store-same s.streams id longer))
          (λ f. ap (λ (x : Sender). x.send_win) (store-same s.streams id queued)))

pub frame_data-send_win :
    (fuel max_frame : ℕ) (s : Outbound) (id : ℕ) (p : List ℕ)
    → ((frame_data fuel max_frame s id p).0.streams id).send_win ≡ (s.streams id).send_win
unfolding frame_data
frame_data-send_win zero max_frame s id p = refl
frame_data-send_win (suc fuel) max_frame s id p =
    let chunk = min (length p) max_frame in
    let frame = chunk_frame id chunk p in
    let r = enqueue s id frame in
    let more = frame_data fuel max_frame r.0 id (drop chunk p) in
    let same = enqueue-send_win s id frame in
    if-elim (λ (q : Outbound × Bool). (q.0.streams id).send_win ≡ (s.streams id).send_win)
      (length p == 0) (s, true) (if r.1 then more else (r.0, false)) (λ e. refl)
      (λ e.
        if-elim (λ (q : Outbound × Bool). (q.0.streams id).send_win ≡ (s.streams id).send_win) r.1
          more (r.0, false) (λ f. frame_data-send_win fuel max_frame r.0 id (drop chunk p) ∙ same)
          (λ f. same))

-- What a write reports and leaves, given the bytes that it could take.
abbrev pub Wrote : ℕ → ℕ → List ℕ → ℕ → List (List ℕ) → Outbound × ℕ × Option Cause → Type 0
Wrote id max_frame p avail out (t, n, err) =
    n ≡ min (length p) avail
    × err ≡ (if ltb n (length p) then some outbound_overflow else none)
    × ((frames : List (List ℕ)) × ((t.streams id).out ≡ out ++ frames
          × payloads frames ≡ take n p
          × All (IsDataFrame id max_frame) frames))

-- A write on an open stream with credit takes what the credit covers, reports an overflow when that
-- is not all, and queues frames behind the earlier ones: each is a data frame of the stream, not
-- empty and within `MaxFrame`, and their payloads are the bytes taken, in order. Counts are int64.
pub write-Wrote :
    (s : Outbound) (id : ℕ) (p : List ℕ) (max_frame : ℕ)
    → id < 2 ^ 32
    → 0 < max_frame
    → max_frame < 2 ^ 32
    → (s.streams id).live ≡ true
    → (s.streams id).closed_local ≡ false
    → (s.streams id).opening ≡ false
    → (s.streams id).local_fin ≡ false
    → 0 < (s.streams id).send_win.avail
    → (s.streams id).send_win.avail < half
    → length p < half
    → Wrote id max_frame p (s.streams id).send_win.avail (s.streams id).out (write s id p max_frame)
unfolding write
write-Wrote s id p max_frame i pos m live open_ acked unended credit small few =
    let st = s.streams id in
    let avail = st.send_win.avail in
    let n = if slt avail (length p) then avail else length p in
    let exact : n ≡ min (length p) avail = ground (arith, small, few) in
    let charged = record st { send_win = (Window.take st.send_win n).0 } in
    let taken = put_stream s id charged in
    let r = frame_data n max_frame taken id (take n p) in
    let same = store-same s.streams id charged in
    let framed =
      frame_data-Framed n max_frame taken id (take n p) i pos m
        (ap (λ (x : Sender). x.live) same ∙ live) (omega (arith, length-take n p)) in
    let T = Wrote id max_frame p avail st.out in
    let full : Outbound × ℕ × Option Cause =
      if ltb n (length p) then (r.0, n, some outbound_overflow) else (r.0, n, none) in
    let held : Outbound × ℕ × Option Cause =
      if not r.1 then (r.0, n, some closed_error) else full in
    let credited : Outbound × ℕ × Option Cause =
      if sle avail 0 then (s, 0, some outbound_overflow) else held in
    let writable : Outbound × ℕ × Option Cause =
      if st.local_fin then (s, 0, some closed_error) else credited in
    let acked_or_not : Outbound × ℕ × Option Cause =
      if st.closed_local || st.opening then (s, 0, some (or_closed st.closed_err)) else writable in
    let queue =
      after_same st.out (taken.streams id).out (ap (λ (x : Sender). x.out) same) n r framed in
    if-elim T (length p == 0) (s, 0, none) acked_or_not
      (λ e. (
        ground (arith, e),
        no_error 0 (ground (arith, e)),
        ([], (sym (append-nil st.out), refl, tt)),
      ))
      (λ e.
        if-elim T (st.closed_local || st.opening) (s, 0, some (or_closed st.closed_err)) writable
          (λ f. absurd (ground (arith, f, open_, acked)))
          (λ f.
            if-elim T st.local_fin (s, 0, some closed_error) credited
              (λ g. absurd (clash (sym g ∙ unended)))
              (λ g.
                if-elim T (sle avail 0) (s, 0, some outbound_overflow) held
                  (λ h. absurd (ground (arith, h, credit, small)))
                  (λ h.
                    if-elim T (not r.1) (r.0, n, some closed_error) full
                      (λ k. absurd (ground (arith, k, framed.0)))
                      (λ k.
                        if-elim T (ltb n (length p)) (r.0, n, some outbound_overflow) (r.0, n, none)
                          (λ l. (exact, an_error n l, queue))
                          (λ l. (exact, no_error n l, queue)))))))
  where
    clash : true ≡ false → ⊥
    clash h = cc

    if_true :
        (b : Bool)
        → b ≡ true
        → some outbound_overflow ≡ (if b then some outbound_overflow else none)
    if_true b h = rw h refl

    if_false : (b : Bool) → b ≡ false → none ≡ (if b then some outbound_overflow else none)
    if_false b h = rw h refl

    an_error :
        (n : ℕ)
        → ltb n (length p) ≡ true
        → some outbound_overflow ≡ (if ltb n (length p) then some outbound_overflow else none)
    an_error n h = if_true (ltb n (length p)) h

    no_error :
        (n : ℕ)
        → ltb n (length p) ≡ false
        → none ≡ (if ltb n (length p) then some outbound_overflow else none)
    no_error n h = if_false (ltb n (length p)) h

    after_same :
        (out mid : List (List ℕ))
        → mid ≡ out
        → (n : ℕ) (r : Outbound × Bool) → Framed id max_frame (take n p) mid r
        → (frames : List (List ℕ)) × ((r.0.streams id).out ≡ out ++ frames
            × payloads frames ≡ take n p
            × All (IsDataFrame id max_frame) frames)
    after_same out mid e n r (held, (fs, (queue, bytes, all))) =
        (fs, (queue ∙ ap (λ o. o ++ fs) e, bytes, all))
