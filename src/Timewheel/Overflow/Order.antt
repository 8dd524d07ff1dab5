-- ===== src/Timewheel/Overflow/Order.antt =====
-- The overflow heap is in order, and each of its entries knows its place.
use uio.Prelude.{
  ℕ, zero, suc, ◌-◌, ◌/◌, ◌≡◌, ◌≢◌, refl, ap, ◌∙◌, ◌==◌, if◌then◌else◌, arith, ◌≤◌, ◌<◌, ℕ_discrete,
}
use uio.Timewheel.Overflow.{Overflow, swap, key}

-- Every place holds an entry that notes it, and every noted place is the entry's.
pub record Placed (o : Overflow) : Type 0 where
  pub noted : (i : ℕ) → i < o.size → o.heap (o.slots i) ≡ suc i
  pub held : (e : ℕ) → o.heap e ≢ 0 → (o.heap e ≤ o.size) × (o.slots (o.heap e - 1) ≡ e)

-- The same entries, perhaps in other places.
pub record SameEntries (o p : Overflow) : Type 0 where
  pub size : p.size ≡ o.size
  pub off : (e : ℕ) → o.heap e ≡ 0 → p.heap e ≡ 0
  pub on : (e : ℕ) → p.heap e ≡ 0 → o.heap e ≡ 0

abbrev pub parent : ℕ → ℕ
parent i = (i - 1) / 2

pub swap-Placed :
    (o : Overflow) (i j : ℕ) → Placed o → i < o.size → j < o.size → i ≢ j → Placed (swap o i j)
swap-Placed o i j v hi hj ne = record {
  noted = λ k h. ground (arith, v.noted i, v.noted j, v.noted k, hi, hj, h, ne);
  held = λ e on. ground (arith, v.noted i, v.noted j, v.held e, hi, hj, on, ne);
}

pub swap-SameEntries :
    (o : Overflow) (i j : ℕ) → Placed o → i < o.size → j < o.size → SameEntries o (swap o i j)
swap-SameEntries o i j v hi hj = record {
  size = refl;
  off = λ e z. ground (arith, v.noted i, v.noted j, hi, hj, z);
  on = λ e z. ground (arith, v.noted i, v.noted j, hi, hj, z);
}

pub SameEntries-trans : (o p q : Overflow) → SameEntries o p → SameEntries p q → SameEntries o q
SameEntries-trans o p q a b = record {
  size = b.size ∙ a.size;
  off = λ e z. b.off e (a.off e z);
  on = λ e z. a.on e (b.on e z);
}

pub SameEntries-refl : (o : Overflow) → SameEntries o o
SameEntries-refl o = record { size = refl; off = λ e z. z; on = λ e z. z }

module _ (when_of : ℕ → ℕ) where
  -- No entry is earlier than its parent.
  abbrev pub IsOrdered : Overflow → Type 0
  IsOrdered o = (c : ℕ) → 0 < c → c < o.size → key when_of o (parent c) ≤ key when_of o c

  -- What sifting leaves.
  pub record Sifted (o p : Overflow) : Type 0 where
    pub placed : Placed p
    pub same : SameEntries o p
    pub ordered : IsOrdered p

  -- Only the entry at `i` may be earlier than its parent.
  pub record UpInv (o : Overflow) (i : ℕ) : Type 0 where
    pub edges : (c : ℕ) → 0 < c → c < o.size → c ≢ i → key when_of o (parent c) ≤ key when_of o c
    pub bridged :
        (c : ℕ)
        → 0 < i
        → 0 < c
        → c < o.size
        → parent c ≡ i
        → key when_of o (parent i) ≤ key when_of o c

  -- Only the entry at `i` may be later than its children.
  pub record DownInv (o : Overflow) (i : ℕ) : Type 0 where
    pub edges :
        (c : ℕ) → 0 < c → c < o.size → parent c ≢ i → key when_of o (parent c) ≤ key when_of o c
    pub bridged :
        (c : ℕ)
        → 0 < i
        → 0 < c
        → c < o.size
        → parent c ≡ i
        → key when_of o (parent i) ≤ key when_of o c

  pub key-swap :
      (o : Overflow) (i j k : ℕ)
      → key when_of (swap o i j) k
        ≡ (if j == k then key when_of o i else if i == k then key when_of o j else key when_of o k)
  key-swap o i j k = ground arith

  -- A swap, then the rest of the sifting.
  pub Sifted-swap :
      (o p : Overflow) (i j : ℕ)
      → Placed o
      → i < o.size
      → j < o.size
      → Sifted (swap o i j) p
      → Sifted o p
  Sifted-swap o p i j v hi hj s = record {
    placed = s.placed;
    same = SameEntries-trans o (swap o i j) p (swap-SameEntries o i j v hi hj) s.same;
    ordered = s.ordered;
  }

  -- The top is the earliest.
  pub root_least :
      (fuel : ℕ) (o : Overflow) (i : ℕ)
      → IsOrdered o
      → i < o.size
      → i ≤ fuel
      → key when_of o 0 ≤ key when_of o i
  root_least zero o i v h le =
      (let z : i ≡ 0 = omega (arith, le) in let e = ap (key when_of o) z in omega (arith, e))
  root_least (suc fuel) o i v h le = elim (ℕ_discrete i 0) [
    | yes e ↦ (let f = ap (key when_of o) e in omega (arith, f))
    | no ne ↦ omega (
      arith,
      v i (omega (arith, ne)) h,
      root_least fuel o (parent i) v (omega (arith, h)) (omega (arith, le, ne)),
    )
  ]
