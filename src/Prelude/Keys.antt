-- ===== src/Prelude/Keys.antt =====
-- Lists of numbers that stand for things.
use Prim.Native.Nat.{ℕ, ◌+◌}
use mathlib.Core.Path.{◌≡◌, refl}
use mathlib.Core.Bool.{Bool, true, false, ◌&&◌, ◌||◌, not}
use mathlib.Core.List.{List, [], ◌∷◌, ◌++◌}
use native.Mathlib.Omega.{arith}
use uio.Prelude.Lists.{length}
use uio.Prelude.Tests.{◌==◌, if◌then◌else◌}

abbrev pub mem : ℕ → List ℕ → Bool
mem id [] = false
mem id (i ∷ is) = i == id || mem id is

-- Each of them once.
abbrev pub distinct : List ℕ → Bool
distinct [] = true
distinct (i ∷ is) = not (mem i is) && distinct is

-- The list without the first place of a number.
abbrev pub cut : ℕ → List ℕ → List ℕ
cut id [] = []
cut id (i ∷ is) = let rest = cut id is in if i == id then is else i ∷ rest

pub mem-snoc : (id i : ℕ) (is : List ℕ) → mem id (is ++ (i ∷ [])) ≡ (mem id is || i == id)
mem-snoc id i [] = ground arith
mem-snoc id i (j ∷ is) = ground (arith, mem-snoc id i is)

pub mem-append : (id : ℕ) (is js : List ℕ) → mem id (is ++ js) ≡ (mem id is || mem id js)
mem-append id [] js = refl
mem-append id (i ∷ is) js = ground (arith, mem-append id is js)

pub mem-cut : (id i : ℕ) (is : List ℕ) → mem id (cut i is) ≡ true → mem id is ≡ true
mem-cut id i [] m = m
mem-cut id i (j ∷ is) m = ground (arith, mem-cut id i is, m)

-- A cut takes nothing else.
pub mem-cut_other :
    (id i : ℕ) (is : List ℕ) → (i == id) ≡ false → mem id is ≡ true → mem id (cut i is) ≡ true
mem-cut_other id i [] ne m = m
mem-cut_other id i (j ∷ is) ne m = ground (arith, mem-cut_other id i is, ne, m)

pub distinct-cut : (i : ℕ) (is : List ℕ) → distinct is ≡ true → distinct (cut i is) ≡ true
distinct-cut i [] d = d
distinct-cut i (j ∷ is) d = ground (arith, distinct-cut i is, mem-cut j i is, d)

pub mem-cut_same : (i : ℕ) (is : List ℕ) → distinct is ≡ true → mem i (cut i is) ≡ false
mem-cut_same i [] d = refl
mem-cut_same i (j ∷ is) d = ground (arith, mem-cut_same i is, d)

pub length-cut : (i : ℕ) (is : List ℕ) → mem i is ≡ true → length (cut i is) + 1 ≡ length is
length-cut i [] m = absurd cc
length-cut i (j ∷ is) m = ground (arith, length-cut i is, m)
