-- ===== src/Umux/Outbound/Invariant.antt =====
-- What the flush keeps of each stream, and the parts of it that a round leaves alone.
use uio.Prelude.{
  ℕ, ◌≡◌, ◌≢◌, refl, ap, ◌∙◌, Bool, true, false, List, [], ◌∷◌, ◌++◌, append-nil, arith,
}
use uio.Umux.Outbound.{Sender, Sent, control_frame, Outbound}
use uio.Umux.Outbound.Flush.{Round, again, stop, Answer, accepted, overflow, failed, after_control}
use uio.Umux.Outbound.Queues.{
  mem, data_of, frames_of, is_fin, is_about, mem-snoc, frames_of-snoc, ended-snoc, fin_last-snoc,
  StreamInv, flow,
}

abbrev pub Inv : Outbound → Type 0
Inv s = (id : ℕ) → StreamInv id (s.streams id) s.pending s.wire

-- What a step does to a stream: the invariant holds after it, and no frame is lost, doubled or
-- reordered unless the transport failed.
abbrev pub Post : ℕ → Outbound → Outbound → Bool → Type 0
Post id s t broken =
    StreamInv id (t.streams id) t.pending t.wire × (broken ≡ false → flow id t ≡ flow id s)

abbrev pub Good : ℕ → Outbound → Round → Type 0
Good id s (again t) = Post id s t false
Good id s (stop t broken) = Post id s t broken

-- A stream that a step does not touch, when its place in the queue stays.
pub StreamInv-other :
    (id : ℕ) (st : Sender) (pending rest : List ℕ) (wire : List Sent)
    → StreamInv id st pending wire
    → (mem id pending ≡ true → mem id rest ≡ true)
    → StreamInv id st rest wire
StreamInv-other id st pending rest wire v keep = record {
  fin_local = v.fin_local;
  sent_empty = v.sent_empty;
  work_queued = v.work_queued;
  queued_pending = λ q. keep (v.queued_pending q);
  dead_idle = v.dead_idle;
  last = v.last;
  over = v.over;
}

-- A frame of another stream, or of none, goes out.
pub StreamInv-wire :
    (id : ℕ) (st : Sender) (pending : List ℕ) (wire : List Sent) (f : Sent)
    → StreamInv id st pending wire
    → is_about id f ≡ false
    → is_fin id f ≡ false
    → StreamInv id st pending (wire ++ (f ∷ []))
StreamInv-wire id st pending wire f v away no_fin = record {
  fin_local = v.fin_local;
  sent_empty = v.sent_empty;
  work_queued = v.work_queued;
  queued_pending = v.queued_pending;
  dead_idle = v.dead_idle;
  last = ground (arith, fin_last-snoc id wire f, v.last);
  over = λ e l. v.over (ground (arith, ended-snoc id wire f)) l;
}

-- What the wire holds of a stream after a frame of another.
pub frames_of-away :
    (id : ℕ) (wire : List Sent) (f : Sent)
    → data_of id f ≡ []
    → frames_of id (wire ++ (f ∷ [])) ≡ frames_of id wire
frames_of-away id wire f e =
    frames_of-snoc id wire f ∙ ap (λ q. frames_of id wire ++ q) e ∙ append-nil (frames_of id wire)

pub after_control-Good :
    (id : ℕ) (s : Outbound) (frame : List ℕ) (rest : List (List ℕ)) (a : Answer)
    → StreamInv id (s.streams id) s.pending s.wire
    → Good id s (after_control s frame rest a)
after_control-Good id s frame rest accepted v = (
  StreamInv-wire id (s.streams id) s.pending s.wire (control_frame frame) v refl refl,
  λ e. ap (λ w. w ++ (s.streams id).out) (frames_of-away id s.wire (control_frame frame) refl),
)
after_control-Good id s frame rest overflow v = (v, λ e. refl)
after_control-Good id s frame rest failed v = (v, λ e. refl)

-- The head of the queue is another stream's.
pub mem-tail : (id i : ℕ) (rest : List ℕ) → i ≢ id → mem id (i ∷ rest) ≡ true → mem id rest ≡ true
mem-tail id i rest ne h = ground arith

pub mem-rotate :
    (id i : ℕ) (rest : List ℕ) → mem id (i ∷ rest) ≡ true → mem id (rest ++ (i ∷ [])) ≡ true
mem-rotate id i rest h = ground (arith, mem-snoc id i rest)
