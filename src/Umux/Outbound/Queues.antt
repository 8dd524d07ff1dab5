-- ===== src/Umux/Outbound/Queues.antt =====
-- What the wire and the queues hold of one stream.
use uio.Prelude.{
  ℕ, ◌≡◌, ap, sym, ◌∙◌, Bool, true, false, not, ◌&&◌, ◌||◌, List, [], ◌∷◌, ◌++◌, append_assoc,
  append-nil, length, ◌==◌, if◌then◌else◌, arith,
}
use uio.Umux.Outbound.{
  Sender, FinState, fin_none, fin_queued, fin_sent, Sent, control_frame, data_frame, fin_frame,
  Outbound, is_queued, is_none,
}

abbrev pub mem : ℕ → List ℕ → Bool
mem id [] = false
mem id (i ∷ is) = i == id || mem id is

abbrev pub is_sent : FinState → Bool
is_sent fin_none = false
is_sent fin_queued = false
is_sent fin_sent = true

-- The data frames of a stream that the transport took, in order.
abbrev pub data_of : ℕ → Sent → List (List ℕ)
data_of id (control_frame f) = []
data_of id (data_frame i f) = if i == id then f ∷ [] else []
data_of id (fin_frame i) = []

abbrev pub frames_of : ℕ → List Sent → List (List ℕ)
frames_of id [] = []
frames_of id (f ∷ w) = data_of id f ++ frames_of id w

abbrev pub is_fin : ℕ → Sent → Bool
is_fin id (control_frame f) = false
is_fin id (data_frame i f) = false
is_fin id (fin_frame i) = i == id

-- A data frame or a FIN of the stream.
abbrev pub is_about : ℕ → Sent → Bool
is_about id (control_frame f) = false
is_about id (data_frame i f) = i == id
is_about id (fin_frame i) = i == id

abbrev pub ended : ℕ → List Sent → Bool
ended id [] = false
ended id (f ∷ w) = is_fin id f || ended id w

-- No data frame and no FIN of the stream follows its FIN; `over` is whether the FIN came before.
abbrev pub fin_last_from : ℕ → Bool → List Sent → Bool
fin_last_from id over [] = true
fin_last_from id over (f ∷ w) =
    not (over && is_about id f) && fin_last_from id (over || is_fin id f) w

abbrev pub fin_last : ℕ → List Sent → Bool
fin_last id w = fin_last_from id false w

pub mem-snoc : (id i : ℕ) (is : List ℕ) → mem id (is ++ (i ∷ [])) ≡ (mem id is || i == id)
mem-snoc id i [] = ground arith
mem-snoc id i (j ∷ is) = ground (arith, mem-snoc id i is)

pub frames_of-snoc :
    (id : ℕ) (w : List Sent) (f : Sent)
    → frames_of id (w ++ (f ∷ [])) ≡ frames_of id w ++ data_of id f
frames_of-snoc id [] f = append-nil (data_of id f)
frames_of-snoc id (g ∷ w) f =
    ap (◌++◌ (data_of id g)) (frames_of-snoc id w f)
    ∙ sym (append_assoc (data_of id g) (frames_of id w) (data_of id f))

pub ended-snoc :
    (id : ℕ) (w : List Sent) (f : Sent) → ended id (w ++ (f ∷ [])) ≡ (ended id w || is_fin id f)
ended-snoc id [] f = ground arith
ended-snoc id (g ∷ w) f = ground (arith, ended-snoc id w f)

fin_last_from-snoc :
    (id : ℕ) (over : Bool) (w : List Sent) (f : Sent)
    → fin_last_from id over (w ++ (f ∷ []))
      ≡ (fin_last_from id over w && not ((over || ended id w) && is_about id f))
fin_last_from-snoc id over [] f = ground arith
fin_last_from-snoc id over (g ∷ w) f =
    ground (arith, fin_last_from-snoc id (over || is_fin id g) w f)

pub fin_last-snoc :
    (id : ℕ) (w : List Sent) (f : Sent)
    → fin_last id (w ++ (f ∷ [])) ≡ (fin_last id w && not (ended id w && is_about id f))
fin_last-snoc id w f = fin_last_from-snoc id false w f

abbrev pub has_work : Sender → Bool
has_work st = not (length st.out == 0) || is_queued st.fin_state

-- What holds of a stream between the session's steps, given the round-robin queue and the wire.
pub record StreamInv (id : ℕ) (st : Sender) (pending : List ℕ) (wire : List Sent) : Type 0 where
  pub fin_local : is_none st.fin_state ≡ false → st.local_fin ≡ true
  pub sent_empty : is_sent st.fin_state ≡ true → st.out ≡ []
  pub work_queued : has_work st ≡ true → st.queued ≡ true
  pub queued_pending : st.queued ≡ true → mem id pending ≡ true
  pub dead_idle : st.live ≡ false → st.queued ≡ false
  pub last : fin_last id wire ≡ true
  pub over : ended id wire ≡ true → st.live ≡ true → is_sent st.fin_state ≡ true

-- A stream's frames: those that went and those that wait.
abbrev pub flow : ℕ → Outbound → List (List ℕ)
flow id s = frames_of id s.wire ++ (s.streams id).out
