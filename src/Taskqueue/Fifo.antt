-- ===== src/Taskqueue/Fifo.antt =====
-- The linked nodes are a first-in first-out list that takes nothing more once it is stopped.
use uio.Prelude.{
  ℕ, zero, suc, ◌≤◌, ◌≡◌, ◌≢◌, ◌↔◌, refl, ap, sym, subst, ◌∙◌, true, false, not, Option, none, some,
  List, [], ◌∷◌, ◌++◌, if◌then◌else◌, All, All-append, length, arith,
}
use uio.Taskqueue.{
  Links, set_next, take_next, Heap, is_linked, link_behind, push_locked, with_result, push, stop,
  drain, has_pending, walk,
}

abbrev pub NotIn : ℕ → List ℕ → Type 0
NotIn n ns = All (λ m. n ≢ m) ns

abbrev pub Distinct : List ℕ → Type 0
Distinct [] = Unit
Distinct (n ∷ ns) = NotIn n ns × Distinct ns

-- The chain that starts at `h` has exactly the nodes `ns` and ends there.
abbrev pub Chain : Links → Option ℕ → List ℕ → Type 0
Chain links h [] = h ≡ none
Chain links h (n ∷ ns) = (h ≡ some n) × Chain links (links n) ns

abbrev pub last_of : List ℕ → Option ℕ
last_of [] = none
last_of (n ∷ []) = some n
last_of (n ∷ (m ∷ ns)) = last_of (m ∷ ns)

-- The queue holds the nodes `ns`, the oldest first.
pub record Holds (h : Heap) (ns : List ℕ) : Type 0 where
  pub chain : Chain h.links h.queue.head ns
  pub tail_eq : h.queue.tail ≡ last_of ns
  pub distinct : Distinct ns

set_next-same : (links : Links) (n : ℕ) (v : Option ℕ) → set_next links n v n ≡ v
set_next-same links n v = ground arith

set_next-other : (links : Links) (n m : ℕ) (v : Option ℕ) → n ≢ m → set_next links n v m ≡ links m
set_next-other links n m v ne = ground arith

-- A write to another node leaves a chain as it is.
Chain-frame :
    (links : Links) (h : Option ℕ) (ns : List ℕ) (n : ℕ) (v : Option ℕ)
    → NotIn n ns
    → Chain links h ns
    → Chain (set_next links n v) h ns
Chain-frame links h [] n v away c = c
Chain-frame links h (m ∷ ns) n v away c = (
  c.0,
  subst (λ g. Chain (set_next links n v) g ns) (sym (set_next-other links n m v away.0))
      (Chain-frame links (links m) ns n v away.1 c.1),
)

last_of-snoc : (ns : List ℕ) (n : ℕ) → last_of (ns ++ (n ∷ [])) ≡ some n
last_of-snoc [] n = refl
last_of-snoc (m ∷ []) n = refl
last_of-snoc (m ∷ (k ∷ ns)) n = last_of-snoc (k ∷ ns) n

Distinct-snoc : (ns : List ℕ) (n : ℕ) → NotIn n ns → Distinct ns → Distinct (ns ++ (n ∷ []))
Distinct-snoc [] n away d = (tt, tt)
Distinct-snoc (m ∷ ns) n away d = (
  All-append (λ k. m ≢ k) ns (n ∷ []) d.0 (λ e. away.0 (sym e), tt),
  Distinct-snoc ns n away.1 d.1,
)

last_of-In : (ns : List ℕ) (m t : ℕ) → last_of ns ≡ some t → NotIn m ns → m ≢ t
last_of-In [] m t l away = absurd cc
last_of-In (k ∷ []) m t l away = λ e. away.0 (ground arith)
last_of-In (k ∷ (j ∷ ns)) m t l away = last_of-In (j ∷ ns) m t l away.1

-- Linking a new node behind the last one adds it at the end.
Chain-snoc :
    (links : Links) (h : Option ℕ) (m : ℕ) (ns : List ℕ) (t n : ℕ)
    → links n ≡ none
    → NotIn n (m ∷ ns)
    → Distinct (m ∷ ns)
    → last_of (m ∷ ns) ≡ some t
    → Chain links h (m ∷ ns)
    → Chain (set_next links t (some n)) h ((m ∷ ns) ++ (n ∷ []))
Chain-snoc links h m [] t n free away d l c =
    let eq : t ≡ m = ground arith in
    (c.0, (ground arith, set_next-other links t n (some n) (λ e. away.0 (sym e ∙ eq)) ∙ free))
Chain-snoc links h m (k ∷ ns) t n free away d l c =
    let ne : t ≢ m = λ e. last_of-In (k ∷ ns) m t l d.0 (sym e) in
    (
      c.0,
      subst (λ g. Chain (set_next links t (some n)) g ((k ∷ ns) ++ (n ∷ [])))
          (sym (set_next-other links t m (some n) ne))
          (Chain-snoc links (links m) k ns t n free away.1 d.1 l c.1),
    )

last_of-some : (m : ℕ) (ns : List ℕ) → (t : ℕ) × (last_of (m ∷ ns) ≡ some t)
last_of-some m [] = (m, refl)
last_of-some m (k ∷ ns) = last_of-some k ns

link_behind-Holds :
    (h : Heap) (ns : List ℕ) (n : ℕ)
    → Holds h ns
    → h.links n ≡ none
    → NotIn n ns
    → Holds (link_behind h h.queue.tail n) (ns ++ (n ∷ []))
link_behind-Holds h [] n v free away =
    subst (λ t. Holds (link_behind h t n) (n ∷ [])) (sym v.tail_eq)
      (record { chain = (refl, free); tail_eq = refl; distinct = (tt, tt) })
link_behind-Holds h (m ∷ ns) n v free away =
    let (t, e) = last_of-some m ns in
    subst (λ g. Holds (link_behind h g n) ((m ∷ ns) ++ (n ∷ []))) (sym (v.tail_eq ∙ e))
      (record {
        chain = Chain-snoc h.links h.queue.head m ns t n free away v.distinct e v.chain;
        tail_eq = sym (last_of-snoc (m ∷ ns) n);
        distinct = Distinct-snoc (m ∷ ns) n away v.distinct;
      })

link_behind-accepting :
    (h : Heap) (t : Option ℕ) (n : ℕ) → (link_behind h t n).queue.accepting ≡ h.queue.accepting
link_behind-accepting h none n = refl
link_behind-accepting h (some t) n = refl

open-push :
    (h d : Heap) (n : ℕ)
    → h.queue.accepting ≡ true
    → d.links n ≡ none
    → (if not h.queue.accepting then some (h, false) else with_result (push_locked d (some n)))
      ≡ some (link_behind d d.queue.tail n, true)
unfolding push_locked
open-push h d n acc free =
    ap (λ b. if not b then some (h, false) else with_result (push_locked d (some n))) acc
    ∙ ap (λ l. with_result (if is_linked l then none else some (link_behind d d.queue.tail n))) free

-- An accepting queue that holds `ns`, given a node `n` that is neither linked nor in it: a push succeeds,
-- puts `n` behind `ns` and leaves the queue accepting, and a stop succeeds, puts `n` behind `ns` and
-- leaves it refusing.
pub push-Holds :
    (h : Heap) (ns : List ℕ) (n : ℕ)
    → Holds h ns
    → h.queue.accepting ≡ true
    → h.links n ≡ none
    → NotIn n ns
    → ((d : Heap) × (push h (some n) ≡ some (d, true))
        × Holds d (ns ++ (n ∷ []))
        × (d.queue.accepting ≡ true))
      × ((d : Heap) × (stop h (some n) ≡ some (d, true))
          × Holds d (ns ++ (n ∷ []))
          × (d.queue.accepting ≡ false))
unfolding push stop
push-Holds h ns n v acc free away =
    let s : Heap = record h { queue = record h.queue { accepting = false } } in
    let w : Holds s ns = record { chain = v.chain; tail_eq = v.tail_eq; distinct = v.distinct } in
    (
      (
        link_behind h h.queue.tail n,
        open-push h h n acc free,
        link_behind-Holds h ns n v free away,
        link_behind-accepting h h.queue.tail n ∙ acc,
      ),
      (
        link_behind s h.queue.tail n,
        open-push h s n acc free,
        link_behind-Holds s ns n w free away,
        link_behind-accepting s h.queue.tail n,
      ),
    )

-- A queue that no longer accepts refuses every push and every stop, of any node, and does not change.
pub stopped-refuses :
    (h : Heap) (n : Option ℕ)
    → h.queue.accepting ≡ false
    → (push h n ≡ some (h, false)) × (stop h n ≡ some (h, false))
unfolding push stop
stopped-refuses h n e = rw e (refl, refl)

walk-Chain :
    (links : Links) (h : Option ℕ) (ns : List ℕ) (fuel : ℕ)
    → Chain links h ns
    → Distinct ns
    → length ns ≤ fuel
    → (walk fuel links h).1 ≡ ns
unfolding take_next
walk-Chain links h [] zero c d le = refl
walk-Chain links h [] (suc fuel) c d le = rw c refl
walk-Chain links h (n ∷ ns) zero c d le = absurd (omega arith)
walk-Chain links h (n ∷ ns) (suc fuel) c d le = rw c.0 (
    ap (◌∷◌ n) (
      walk-Chain (set_next links n none) (links n) ns fuel
        (Chain-frame links (links n) ns n none d.0 c.1) d.1 (omega arith)))

-- `Drain` of a queue that holds `ns` empties it, keeps whether it accepts, and returns a chain that the
-- consumer, detaching node after node, walks in the order of the pushes. As many steps as there are
-- nodes are enough.
pub drain-walk :
    (h : Heap) (ns : List ℕ) (fuel : ℕ)
    → Holds h ns
    → length ns ≤ fuel
    → Holds (drain h).0 []
      × ((drain h).0.queue.accepting ≡ h.queue.accepting)
      × ((walk fuel (drain h).0.links (drain h).1).1 ≡ ns)
unfolding drain
drain-walk h ns fuel v le = (
  record { chain = refl; tail_eq = refl; distinct = tt },
  refl,
  walk-Chain h.links h.queue.head ns fuel v.chain v.distinct le,
)

-- Of a queue that holds `ns`, work is pending exactly when `ns` is not empty.
has_pending_iff : (h : Heap) (ns : List ℕ) → Holds h ns → (has_pending h ≡ true) ↔ (ns ≢ [])
unfolding has_pending
has_pending_iff h [] v = rw v.chain (λ e. absurd cc, λ ne. absurd (ne refl))
has_pending_iff h (n ∷ ns) v = rw v.chain.0 (λ e. λ f. absurd cc, λ ne. refl)
