-- ===== src/Timewheel/Overflow/Up.antt =====
-- Sifting up puts the heap in order when one entry may be too early.
use uio.Prelude.{ℕ, zero, suc, leb, ◌==◌, arith, ◌≤◌, ◌<◌, if-elim}
use uio.Timewheel.Overflow.{Overflow, swap, key, up}
-- Every place holds an entry that notes it, and every noted place is the entry's.
use uio.Timewheel.Overflow.Order.{
  Placed, parent, swap-Placed, SameEntries-refl, Sifted, UpInv, key-swap, Sifted-swap,
}

module _ (when_of : ℕ → ℕ) where
  swap-UpInv :
      (o : Overflow) (i : ℕ)
      → UpInv when_of o i
      → 0 < i
      → i < o.size
      → key when_of o i < key when_of o (parent i)
      → UpInv when_of (swap o i (parent i)) (parent i)
  swap-UpInv o i v pos hi below = record {
    edges = λ c p q ne. ground (
      arith,
      key-swap when_of o i (parent i) c,
      key-swap when_of o i (parent i) (parent c),
      v.edges c,
      v.bridged c,
      pos,
      p,
      q,
      ne,
      below,
      hi,
    );
    bridged = λ c p q r t. ground (
      arith,
      key-swap when_of o i (parent i) c,
      key-swap when_of o i (parent i) (parent (parent i)),
      v.edges c,
      v.edges (parent i),
      pos,
      p,
      q,
      r,
      t,
      below,
      hi,
    );
  }

  pub up_sifts :
      (fuel : ℕ) (o : Overflow) (i : ℕ)
      → Placed o
      → UpInv when_of o i
      → i < o.size
      → i ≤ fuel
      → Sifted when_of o (up when_of fuel o i)
  unfolding up
  up_sifts zero o i v u hi le = record {
    placed = v;
    same = SameEntries-refl o;
    ordered = λ c p q. u.edges c p q (λ e. absurd (omega (arith, e, p, le)));
  }
  up_sifts (suc fuel) o i v u hi le =
      if-elim (Sifted when_of o) (i == 0) _ _
        (λ e. record {
          placed = v;
          same = SameEntries-refl o;
          ordered = λ c p q. u.edges c p q (λ f. absurd (ground (arith, e, f, p)));
        })
        (λ e.
          if-elim (Sifted when_of o) (leb (key when_of o (parent i)) (key when_of o i)) _ _
            (λ f. record {
              placed = v;
              same = SameEntries-refl o;
              ordered = λ c p q. ground (arith, u.edges c, p, q, f);
            })
            (λ f.
              Sifted-swap when_of o (up when_of fuel (swap o i (parent i)) (parent i)) i (parent i)
                v hi (omega (arith, hi))
                (up_sifts fuel (swap o i (parent i)) (parent i)
                  (swap-Placed o i (parent i) v hi (omega (arith, hi)) (ground (arith, e)))
                  (swap-UpInv o i u (ground (arith, e)) hi (ground (arith, f))) (omega (arith, hi))
                  (ground (arith, e, le)))))
