-- ===== src/Umux/Inbound/Bytes.antt =====
-- The queue keeps the unread bytes in order, wherever it keeps them.
use uio.Prelude.{
  ℕ, zero, suc, ◌+◌, ◌-◌, ◌≤◌, ◌≡◌, refl, ap, sym, ◌∙◌, true, false, ◌&&◌, List, [], ◌∷◌, ◌++◌,
  length, drop, drop-drop, ltb, leb, ◌==◌, if◌then◌else◌, Bool-cases, inl, inr, arith,
  length-append, length-drop,
}
use uio.Umux.Inbound.{Inbound, set_owned, consume, cap_after, own, make_room, append_owned, append}

-- An owned run is the arena from `off` on, and the arena keeps within its capacity.
pub record Inv (b : Inbound) : Type 0 where
  pub tail : b.borrowed ≡ false → b.run ≡ drop b.off b.arena
  pub off_le : b.borrowed ≡ false → b.off ≤ length b.arena
  pub fits : b.borrowed ≡ false → length b.arena ≤ b.arena_cap

cap_after-fits :
    (grown : ℕ → ℕ → ℕ) (c n : ℕ) → ((c n : ℕ) → n ≤ grown c n) → n ≤ cap_after grown c n
cap_after-fits grown c n enough = ground (arith, enough c n)

drop-front : (n : ℕ) (xs ys : List ℕ) → n ≤ length xs → drop n (xs ++ ys) ≡ drop n xs ++ ys
drop-front zero xs ys h = refl
drop-front (suc n) [] ys h = absurd (omega arith)
drop-front (suc n) (x ∷ xs) ys h = drop-front n xs ys (omega arith)

pub own-run :
    (grown : ℕ → ℕ → ℕ) (b : Inbound)
    → ((c n : ℕ) → n ≤ grown c n)
    → Inv b
    → ((own grown b).run ≡ b.run) × ((own grown b).borrowed ≡ false) × Inv (own grown b)
unfolding own
own-run grown b enough v = elim (Bool-cases b.borrowed) [
  | inr e ↦ simp e (refl, refl, v)
  | inl e ↦ simp e (
    refl,
    refl,
    record {
      tail = λ o. refl;
      off_le = λ o. omega arith;
      fits = λ o.
          cap_after-fits grown (if b.borrows == 0 then b.arena_cap else 0) (length b.run) enough;
    },
  )
]

make_room-run :
    (b : Inbound) (n : ℕ)
    → Inv b
    → b.borrowed ≡ false
    → (drop (make_room b n).off (make_room b n).arena ≡ b.run)
      × ((make_room b n).off ≤ length (make_room b n).arena)
      × (length (make_room b n).arena + n ≤ (make_room b n).arena_cap)
      × ((make_room b n).borrowed ≡ false)
unfolding make_room
make_room-run b n v o =
    let size : length b.run ≡ length b.arena - b.off =
      ap length (v.tail o) ∙ length-drop b.off b.arena in
    elim (Bool-cases (leb (b.off + length b.run + n) b.arena_cap)) [
      | inl e ↦ rw e (sym (v.tail o), v.off_le o, ground (arith, size, v.off_le o), o)
      | inr e ↦
          elim (Bool-cases
            (b.borrows == 0 && (ltb 0 b.off && leb (length b.run + n) b.arena_cap))) [
              | inl f ↦ rw (e, f) (refl, omega arith, ground arith, o)
              | inr f ↦ rw (e, f) (refl, omega arith, ground arith, o)
            ]
    ]

append_owned-run :
    (grown : ℕ → ℕ → ℕ) (b : Inbound) (p : List ℕ) (p_cap : ℕ)
    → ((c n : ℕ) → n ≤ grown c n)
    → Inv b
    → b.borrowed ≡ false
    → length p ≤ p_cap
    → ((append_owned grown b p p_cap).run ≡ b.run ++ p)
      × ((append_owned grown b p p_cap).borrowed ≡ false)
      × Inv (append_owned grown b p p_cap)
unfolding append_owned set_owned
append_owned-run grown b p p_cap enough v o fits =
    let c = make_room b (length p) in
    let r = make_room-run b (length p) v o in
    elim (Bool-cases (length b.run == 0 && (b.off == 0 && b.arena_cap == 0))) [
      | inl e ↦ rw e (
        ap (λ q. q ++ p) (empty_of b.run (ground arith)),
        refl,
        record { tail = λ h. refl; off_le = λ h. omega arith; fits = λ h. fits },
      )
      | inr e ↦ rw e (
        drop-front c.off c.arena p r.1 ∙ ap (λ q. q ++ p) r.0,
        r.3,
        record {
          tail = λ h. refl;
          off_le = λ h. omega (arith, r.1, length-append c.arena p);
          fits = λ h. cap_after-fits grown c.arena_cap (length (c.arena ++ p)) enough;
        },
      )
    ]
  where
    empty_of : (xs : List ℕ) → length xs ≡ 0 → [] ≡ xs
    empty_of [] h = refl
    empty_of (x ∷ xs) h = absurd (omega arith)

-- `append` puts the bytes behind the unread ones, whether those were borrowed, copied, moved or
-- reallocated, and leaves the queue owning them. Go's `append` allocates at least what it needs.
pub append-run :
    (grown : ℕ → ℕ → ℕ) (b : Inbound) (p : List ℕ) (p_cap : ℕ)
    → ((c n : ℕ) → n ≤ grown c n)
    → Inv b
    → length p ≤ p_cap
    → ((append grown b p p_cap).run ≡ b.run ++ p)
      × ((append grown b p p_cap).borrowed ≡ false)
      × Inv (append grown b p p_cap)
unfolding append
append-run grown b p p_cap enough v fits =
    let o = own-run grown b enough v in
    let a = append_owned-run grown (own grown b) p p_cap enough o.2 o.1 fits in
    (a.0 ∙ ap (λ q. q ++ p) o.0, a.1, a.2)

-- `consume` drops the first bytes, borrowed or owned, and an owned queue that is empty starts its
-- arena over. The count is at most what is unread.
pub consume-run :
    (b : Inbound) (n : ℕ)
    → Inv b
    → n ≤ length b.run
    → ((consume b n).run ≡ drop n b.run) × Inv (consume b n)
unfolding consume
consume-run b n v fits = elim (Bool-cases b.borrowed) [
  | inl e ↦ simp e (
    refl,
    record {
      tail = λ o. absurd (omega (arith, true_false o));
      off_le = λ o. absurd (omega (arith, true_false o));
      fits = λ o. absurd (omega (arith, true_false o));
    },
  )
  | inr e ↦
      (let size : length b.run ≡ length b.arena - b.off =
          ap length (v.tail e) ∙ length-drop b.off b.arena in
        elim (Bool-cases (length (drop n b.run) == 0)) [
          | inl f ↦
              simp (e, f)
                (
                  empty_of (drop n b.run) (ground arith),
                  record { tail = λ o. refl; off_le = λ o. omega arith; fits = λ o. omega arith },
                )
          | inr f ↦
              simp (e, f)
                (
                  refl,
                  record {
                    tail = λ o. ap (drop n) (v.tail e) ∙ drop-drop n b.off b.arena;
                    off_le = λ o. omega (arith, size, v.off_le e);
                    fits = λ o. v.fits e;
                  },
                )
        ])
]
  where
    empty_of : (xs : List ℕ) → length xs ≡ 0 → [] ≡ xs
    empty_of [] h = refl
    empty_of (x ∷ xs) h = absurd (omega arith)

    true_false : true ≡ false → 1 ≤ 0
    true_false h = cc
