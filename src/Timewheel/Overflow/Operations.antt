-- ===== src/Timewheel/Overflow/Operations.antt =====
-- Pushing, popping and removing keep the heap, and change one entry.
use uio.Prelude.Store.{store}
use uio.Prelude.{
  subst, ℕ, suc, ◌+◌, ◌-◌, ◌/◌, ◌≡◌, ◌≢◌, refl, ap, sym, ◌∙◌, Bool, true, false, not, ◌&&◌, ◌||◌,
  ltb, leb, ◌==◌, if◌then◌else◌, arith, ◌≤◌, ◌<◌, if-elim,
}
use uio.Timewheel.Overflow.{Overflow, key, heap_up, heap_down, heap_push, heap_pop, heap_remove}
use uio.Timewheel.Overflow.Down.{down_sifts}
use uio.Timewheel.Overflow.Order.{Placed, IsOrdered, Sifted, UpInv, DownInv, parent}
use uio.Timewheel.Overflow.Up.{up_sifts}

-- The entry `e` came or left; the others stay.
pub record Others (o p : Overflow) (e : ℕ) : Type 0 where
  pub off : (x : ℕ) → x ≢ e → o.heap x ≡ 0 → p.heap x ≡ 0
  pub on : (x : ℕ) → x ≢ e → p.heap x ≡ 0 → o.heap x ≡ 0

module _ (when_of : ℕ → ℕ) where
  pub record IsHeap (o : Overflow) : Type 0 where
    pub placed : Placed o
    pub ordered : IsOrdered when_of o

  pub record Pushed (o p : Overflow) (e : ℕ) : Type 0 where
    pub heap : IsHeap p
    pub size : p.size ≡ o.size + 1
    pub here : p.heap e ≢ 0
    pub others : Others o p e

  pub record Removed (o p : Overflow) (e : ℕ) : Type 0 where
    pub heap : IsHeap p
    pub size : p.size + 1 ≡ o.size
    pub gone : p.heap e ≡ 0
    pub others : Others o p e

  pub heap_push-Pushed :
      (o : Overflow) (e : ℕ) → IsHeap o → o.heap e ≡ 0 → Pushed o (heap_push when_of o e) e
  unfolding heap_push heap_up
  heap_push-Pushed o e v off =
      let put = record o {
        slots = store o.slots o.size e;
        size = o.size + 1;
        heap = store o.heap e (o.size + 1);
      } in
      let s =
        up_sifts when_of o.size put o.size
          (record {
            noted = λ i h. ground (arith, v.placed.noted i, h, off);
            held = λ x h. ground (arith, v.placed.held x, h, off);
          })
          (record {
            edges = λ c p q ne. ground (arith, v.ordered c, p, q, ne);
            bridged = λ c pos p q r. absurd (omega (arith, pos, p, q, r));
          })
          (omega arith) (omega arith) in
      record {
        heap = record { placed = s.placed; ordered = s.ordered };
        size = s.same.size;
        here = λ z. absurd (ground (arith, s.same.on e z));
        others = record {
          off = λ x ne z. s.same.off x (ground (arith, ne, z));
          on = λ x ne z. ground (arith, ne, s.same.on x z);
        };
      }

  -- The last entry put in the place of another, with the notes that the code makes of both.
  abbrev moved_to : Overflow → ℕ → (ℕ → ℕ) → Overflow
  moved_to o i heap = record o {
    slots = store o.slots i (o.slots (o.size - 1));
    size = o.size - 1;
    heap = heap;
  }

  record Noted (o : Overflow) (i : ℕ) (heap : ℕ → ℕ) : Type 0 where
    gone : heap (o.slots i) ≡ 0
    moved : heap (o.slots (o.size - 1)) ≡ suc i
    same : (x : ℕ) → x ≢ o.slots i → x ≢ o.slots (o.size - 1) → heap x ≡ o.heap x

  moved_to-Placed :
      (o : Overflow) (i : ℕ) (heap : ℕ → ℕ)
      → Placed o
      → suc i < o.size
      → Noted o i heap
      → Placed (moved_to o i heap)
  moved_to-Placed o i heap v h n = record {
    noted = λ k q.
        ground
          (arith, v.noted i, v.noted k, v.noted (o.size - 1), q, h, n.moved, n.same (o.slots k));
    held = λ x on.
        ground (arith, v.noted i, v.noted (o.size - 1), v.held x, on, h, n.gone, n.moved, n.same x);
  }

  moved_to-bridged :
      (o : Overflow) (i : ℕ) (heap : ℕ → ℕ)
      → IsOrdered when_of o
      → suc i < o.size
      → (c : ℕ) → 0 < i
      → 0 < c
      → c < o.size - 1
      → parent c ≡ i
      → key when_of (moved_to o i heap) (parent i) ≤ key when_of (moved_to o i heap) c
  moved_to-bridged o i heap v h c pos p q r =
      ground (arith, v c, v i, ap (key when_of o) r, h, pos, p, q, r)

  moved_to-UpInv :
      (o : Overflow) (i : ℕ) (heap : ℕ → ℕ)
      → IsOrdered when_of o
      → suc i < o.size
      → 0 < i
      → when_of (o.slots (o.size - 1)) < key when_of (moved_to o i heap) (parent i)
      → UpInv when_of (moved_to o i heap) i
  moved_to-UpInv o i heap v h pos below = record {
    edges = λ c p q ne. ground (arith, v c, v i, ap (key when_of o), h, pos, p, q, ne, below);
    bridged = moved_to-bridged o i heap v h;
  }

  moved_to-DownInv :
      (o : Overflow) (i : ℕ) (heap : ℕ → ℕ)
      → IsOrdered when_of o
      → suc i < o.size
      → (0 < i → key when_of (moved_to o i heap) (parent i) ≤ when_of (o.slots (o.size - 1)))
      → DownInv when_of (moved_to o i heap) i
  moved_to-DownInv o i heap v h above = record {
    edges = λ c p q ne. ground (arith, v c, above, h, p, q, ne);
    bridged = moved_to-bridged o i heap v h;
  }

  -- The sifted heap without the entry that stood at `i`.
  Sifted-Removed :
      (o p : Overflow) (i : ℕ) (heap : ℕ → ℕ)
      → Placed o
      → suc i < o.size
      → Noted o i heap
      → Sifted when_of (moved_to o i heap) p
      → Removed o p (o.slots i)
  Sifted-Removed o p i heap v h n s = record {
    heap = record { placed = s.placed; ordered = s.ordered };
    size = omega (arith, s.same.size, h);
    gone = s.same.off (o.slots i) n.gone;
    others = record {
      off = λ x ne z.
          s.same.off x (ground (arith, n.same x, n.moved, v.noted (o.size - 1), ne, z, h));
      on = λ x ne z. (let y = s.same.on x z in ground (arith, n.same x, n.moved, ne, y, h));
    };
  }

  -- The last entry leaves.
  last-Removed :
      (o : Overflow) (heap : ℕ → ℕ)
      → IsHeap o
      → 0 < o.size
      → heap (o.slots (o.size - 1)) ≡ 0
      → ((x : ℕ) → x ≢ o.slots (o.size - 1) → heap x ≡ o.heap x)
      → Removed o (record o { size = o.size - 1; heap = heap }) (o.slots (o.size - 1))
  last-Removed o heap v pos gone same = record {
    heap = record {
      placed = record {
        noted = λ k q.
            ground (
              arith,
              v.placed.noted k,
              v.placed.noted (o.size - 1),
              q,
              same (o.slots k),
              gone,
              pos,
            );
        held = λ x on.
            ground (arith, v.placed.held x, v.placed.noted (o.size - 1), on, same x, gone, pos);
      };
      ordered = λ c p q. v.ordered c p (omega (arith, q));
    };
    size = omega (arith, pos);
    gone = gone;
    others = record { off = λ x ne z. same x ne ∙ z; on = λ x ne z. sym (same x ne) ∙ z };
  }

  -- The top leaves, and what is left is a heap of the others.
  pub heap_pop-Removed :
      (o : Overflow) → IsHeap o → 0 < o.size → Removed o (heap_pop when_of o) (o.slots 0)
  unfolding heap_pop heap_down
  heap_pop-Removed o v pos =
      let last = o.size - 1 in
      let moved = o.slots last in
      let heap = store (store o.heap (o.slots 0) 0) moved 1 in
      let put = moved_to o 0 heap in
      if-elim (λ p. Removed o p (o.slots 0)) (last == 0)
        (record o { size = 0; heap = store o.heap (o.slots 0) 0 }) (heap_down when_of put 0)
        (λ e. only o.slots o.heap o.size v (ground (arith, e, pos)))
        (λ e.
          let more : 1 < o.size = ground (arith, e, pos) in
          let n : Noted o 0 heap = record {
            gone = ground (arith, v.placed.noted 0, v.placed.noted last, more);
            moved = ground arith;
            same = λ x a b. ground (arith, a, b);
          } in
          Sifted-Removed o (heap_down when_of put 0) 0 heap v.placed more n (
            down_sifts when_of put.size put 0 (moved_to-Placed o 0 heap v.placed more n)
              (moved_to-DownInv o 0 heap v.ordered more (λ h. absurd (omega (arith, h))))
              (omega (arith, more)) (omega arith)))
    where
      only :
          (slots heap : ℕ → ℕ) (size : ℕ)
          → IsHeap (record { slots = slots; size = size; heap = heap })
          → size ≡ 1
          → Removed
              (record { slots = slots; size = size; heap = heap })
              (record { slots = slots; size = 0; heap = store heap (slots 0) 0 })
              (slots 0)
      only slots heap size v e = record {
        heap = record {
          placed = record {
            noted = λ k q. absurd (omega (arith, q));
            held = λ x on. absurd (ground (arith, v.placed.held x, e, on));
          };
          ordered = λ c p q. absurd (omega (arith, q));
        };
        size = omega (arith, e);
        gone = ground arith;
        others = record {
          off = λ x ne z. ground (arith, ne, z);
          on = λ x ne z. ground (arith, ne, z);
        };
      }

  -- An entry on a heap in order is removed from wherever it is: the heap is in order again and one
  -- shorter, the entry is off it, and the others are on it as before.
  pub heap_remove-Removed :
      (o : Overflow) (e : ℕ)
      → IsHeap o
      → o.heap e ≢ 0
      → (heap_remove when_of o e).1 ≡ true × Removed o (heap_remove when_of o e).0 e
  unfolding heap_remove heap_up heap_down
  heap_remove-Removed o e v on =
      let i = o.heap e - 1 in
      let h = v.placed.held e on in
      let last = o.size - 1 in
      let moved = o.slots last in
      let heap = store (store o.heap moved (i + 1)) e 0 in
      let put = moved_to o i heap in
      let sifted : Overflow × Bool =
        if ltb 0 i && ltb (when_of moved) (key when_of put ((i - 1) / 2))
        then (heap_up when_of put i, true)
        else (heap_down when_of put i, true) in
      let T = λ (r : Overflow × Bool). r.1 ≡ true × Removed o r.0 e in
      let cut = record o { size = last; heap = store o.heap e 0 } in
      let rest : Overflow × Bool = if i == last then (cut, true) else sifted in
      if-elim T (o.heap e == 0 || (leb o.size i || not (o.slots i == e))) (o, false) rest
        (λ q. absurd (ground (arith, q, h, on)))
        (λ q.
          if-elim T (i == last) (cut, true) sifted
            (λ r.
              let end : o.slots last ≡ e = ap o.slots (ground (arith, r)) ∙ h.1 in
              (
                refl,
                subst (λ x. Removed o cut x) end
                    (last-Removed o (store o.heap e 0) v (omega (arith, h, on))
                      (ground (arith, end)) (λ x ne. ground (arith, ne, end))),
              ))
            (λ r.
              let more : suc i < o.size = ground (arith, r, h, on) in
              let n : Noted o i heap = record {
                gone = ground (arith, h);
                moved = ground (arith, v.placed.noted last, h, more, on);
                same = λ x a b. ground (arith, h, a, b);
              } in
              let placed = moved_to-Placed o i heap v.placed more n in
              if-elim T (ltb 0 i && ltb (when_of moved) (key when_of put ((i - 1) / 2)))
                (heap_up when_of put i, true) (heap_down when_of put i, true)
                (λ a. (
                  refl,
                  subst (λ x. Removed o (heap_up when_of put i) x) h.1
                      (Sifted-Removed o (heap_up when_of put i) i heap v.placed more n (
                        up_sifts when_of i put i placed
                          (moved_to-UpInv o i heap v.ordered more (ground (arith, a))
                            (ground (arith, a)))
                          (omega (arith, more)) (omega arith))),
                ))
                (λ a. (
                  refl,
                  subst (λ x. Removed o (heap_down when_of put i) x) h.1
                      (Sifted-Removed o (heap_down when_of put i) i heap v.placed more n (
                        down_sifts when_of put.size put i placed
                          (moved_to-DownInv o i heap v.ordered more (λ pos. ground (arith, a, pos)))
                          (omega (arith, more)) (omega arith))),
                ))))
