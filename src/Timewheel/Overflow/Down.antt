-- ===== src/Timewheel/Overflow/Down.antt =====
-- Sifting down puts the heap in order when one entry may be too late.
use uio.Prelude.{
  ℕ, zero, suc, ◌+◌, ◌*◌, ◌≡◌, ◌≢◌, ◌⊎◌, inl, inr, refl, ap, ◌&&◌, ltb, ◌==◌, if◌then◌else◌, arith,
  ◌≤◌, ◌<◌, if-elim, ℕ_discrete,
}
use uio.Timewheel.Overflow.{Overflow, swap, key, smallest, down}
-- Every place holds an entry that notes it, and every noted place is the entry's.
use uio.Timewheel.Overflow.Order.{
  Placed, parent, swap-Placed, SameEntries-refl, Sifted, DownInv, key-swap, Sifted-swap,
}

module _ (when_of : ℕ → ℕ) where
  -- The earliest of an entry and its children.
  record IsSmallest (o : Overflow) (i s : ℕ) : Type 0 where
    inside : s < o.size
    which : (s ≡ i) ⊎ (0 < s × parent s ≡ i)
    least_child : (c : ℕ) → 0 < c → c < o.size → parent c ≡ i → key when_of o s ≤ key when_of o c
    least_self : (s ≢ i) → key when_of o s < key when_of o i

  abbrev IsNear : ℕ → ℕ → Type 0
  IsNear i s = (s ≡ i) ⊎ (0 < s × parent s ≡ i)

  abbrev first : Overflow → ℕ → ℕ
  first o i =
      if ltb (2 * i + 1) o.size && ltb (key when_of o (2 * i + 1)) (key when_of o i)
      then 2 * i + 1
      else i

  children : (i c : ℕ) → 0 < c → parent c ≡ i → (c ≡ 2 * i + 1) ⊎ (c ≡ 2 * i + 2)
  children i c p r = ground (arith, p, r)

  smallest-IsSmallest : (o : Overflow) (i : ℕ) → i < o.size → IsSmallest o i (smallest when_of o i)
  smallest-IsSmallest o i hi = record {
    inside = ground (arith, hi);
    which =
        if-elim (IsNear i)
          (ltb (2 * i + 2) o.size && ltb (key when_of o (2 * i + 2)) (key when_of o (first o i)))
          (2 * i + 2) (first o i) (λ e. inr (omega arith, omega arith))
          (λ e.
            if-elim (IsNear i)
              (ltb (2 * i + 1) o.size && ltb (key when_of o (2 * i + 1)) (key when_of o i))
              (2 * i + 1) i (λ f. inr (omega arith, omega arith)) (λ f. inl refl));
    least_child = λ c p q r. elim (children i c p r) [
      | inl e ↦ (let h = ap (key when_of o) e in ground (arith, h, e, q))
      | inr e ↦ (let h = ap (key when_of o) e in ground (arith, h, e, q))
    ];
    least_self = λ ne. ground (arith, ne);
  }

  swap-DownInv :
      (o : Overflow) (i s : ℕ)
      → DownInv when_of o i
      → IsSmallest o i s
      → i < o.size
      → s ≢ i
      → 0 < s
      → parent s ≡ i
      → DownInv when_of (swap o i s) s
  swap-DownInv o i s v m hi ne pos child = record {
    edges = λ c p q r. ground (
      arith,
      key-swap when_of o i s c,
      key-swap when_of o i s (parent c),
      v.edges c,
      v.bridged s,
      m.least_child c,
      m.least_self,
      m.inside,
      p,
      q,
      r,
      ne,
      pos,
      child,
    );
    bridged = λ c p q r t. ground (
      arith,
      key-swap when_of o i s c,
      key-swap when_of o i s (parent s),
      v.edges c,
      m.inside,
      p,
      q,
      r,
      t,
      ne,
      pos,
      child,
    );
  }

  pub down_sifts :
      (fuel : ℕ) (o : Overflow) (i : ℕ)
      → Placed o
      → DownInv when_of o i
      → i < o.size
      → o.size ≤ i + fuel
      → Sifted when_of o (down when_of fuel o i)
  unfolding down
  down_sifts zero o i v d hi le = absurd (omega (arith, hi, le))
  down_sifts (suc fuel) o i v d hi le =
      let s = smallest when_of o i in
      let m = smallest-IsSmallest o i hi in
      if-elim (Sifted when_of o) (s == i) _ _
        (λ e. record {
          placed = v;
          same = SameEntries-refl o;
          ordered = λ c p q. settled s c p q m (ground (arith, e));
        })
        (λ e.
          let c = child s m (ground (arith, e)) in
          Sifted-swap when_of o (down when_of fuel (swap o i s) s) i s v hi m.inside (
            down_sifts fuel (swap o i s) s (swap-Placed o i s v hi m.inside (ground (arith, e)))
              (swap-DownInv o i s d m hi (ground (arith, e)) c.0 c.1) m.inside
              (omega (arith, le, c.0, c.1))))
    where
      settled :
          (s c : ℕ)
          → 0 < c
          → c < o.size
          → IsSmallest o i s
          → s ≡ i
          → key when_of o (parent c) ≤ key when_of o c
      settled s c p q m e = elim (ℕ_discrete (parent c) i) [
        | yes f ↦
            (let h = ap (key when_of o) f in
              let k = ap (key when_of o) e in omega (arith, h, k, m.least_child c p q f))
        | no ne ↦ d.edges c p q ne
      ]

      child : (s : ℕ) → IsSmallest o i s → s ≢ i → 0 < s × parent s ≡ i
      child s m ne = elim m.which [ inl e ↦ absurd (ne e) | inr c ↦ c ]
