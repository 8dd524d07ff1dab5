-- ===== src/Composite/Contents.antt =====
-- The bytes that a composite buffer holds, in order, and the invariant of its length.
use uio.Prelude.{
  ℕ, ◌-◌, ◌≤◌, ◌<◌, ◌≡◌, refl, ap, sym, ◌∙◌, List, [], ◌∷◌, ◌++◌, append_assoc, append-nil, length,
  length-append, arith,
}
use uio.Composite.Interface.{Blocks, Documented}
use uio.Composite.{Composite, last_available, write_last, write_all, sizes}

module _ (io : Blocks) where
  open io use {Block, bytes, available, write_block, get_block}

  abbrev pub contents : List Block → List ℕ
  contents [] = []
  contents (b ∷ bs) = bytes b ++ contents bs

  abbrev pub held : Composite Block → List ℕ
  held c = contents c.buf_list

  abbrev pub Inv : Composite Block → Type 0
  Inv c = c.size ≡ length (held c)

  pub contents-append : (bs cs : List Block) → contents (bs ++ cs) ≡ contents bs ++ contents cs
  contents-append [] cs = refl
  contents-append (b ∷ bs) cs =
      ap (◌++◌ (bytes b)) (contents-append bs cs)
      ∙ sym (append_assoc (bytes b) (contents bs) (contents cs))

  pub sizes-contents : (bs : List Block) → sizes io bs ≡ length (contents bs)
  sizes-contents [] = refl
  sizes-contents (b ∷ bs) = omega (arith, sizes-contents bs, length-append (bytes b) (contents bs))

module _ (io : Blocks) (doc : Documented io) where
  open io use {Block, bytes, available, write_block, get_block}

  pub contents-write_last :
      (bs : List Block) (p : List ℕ)
      → 0 < last_available io bs
      → contents io (write_last io bs p) ≡ contents io bs ++ p
  unfolding last_available write_last
  contents-write_last [] p h = absurd (omega arith)
  contents-write_last (b ∷ []) p h =
      append-nil (bytes (write_block b p))
      ∙ doc.write_bytes b p
      ∙ ap (λ q. q ++ p) (sym (append-nil (bytes b)))
  contents-write_last (b ∷ (c ∷ bs)) p h =
      ap (◌++◌ (bytes b)) (contents-write_last (c ∷ bs) p h)
      ∙ sym (append_assoc (bytes b) (contents io (c ∷ bs)) p)

  pub available-write_last :
      (bs : List Block) (p : List ℕ)
      → 0 < last_available io bs
      → length p ≤ last_available io bs
      → last_available io (write_last io bs p) ≡ last_available io bs - length p
  unfolding last_available write_last
  available-write_last [] p h fits = absurd (omega arith)
  available-write_last (b ∷ []) p h fits = doc.write_available b p fits
  available-write_last (b ∷ (c ∷ [])) p h fits = doc.write_available c p fits
  available-write_last (b ∷ (c ∷ (d ∷ bs))) p h fits = available-write_last (c ∷ (d ∷ bs)) p h fits

  pub contents-new :
      (bs : List Block) (n : ℕ) (p : List ℕ)
      → contents io (bs ++ (write_block (get_block n) p ∷ [])) ≡ contents io bs ++ p
  contents-new bs n p =
      contents-append io bs (write_block (get_block n) p ∷ [])
      ∙ ap (◌++◌ (contents io bs))
          (append-nil _ ∙ doc.write_bytes (get_block n) p ∙ ap (λ q. q ++ p) (doc.get_bytes n))

  pub last_available-snoc :
      (bs : List Block) (b : Block) → last_available io (bs ++ (b ∷ [])) ≡ available b
  unfolding last_available
  last_available-snoc [] b = refl
  last_available-snoc (c ∷ []) b = refl
  last_available-snoc (c ∷ (d ∷ bs)) b = last_available-snoc (d ∷ bs) b

  pub bytes-write_all :
      (b : Block) (bs : List Block) → bytes (write_all io b bs) ≡ bytes b ++ contents io bs
  bytes-write_all b [] = sym (append-nil (bytes b))
  bytes-write_all b (c ∷ bs) =
      bytes-write_all (write_block b (bytes c)) bs
      ∙ ap (λ q. q ++ contents io bs) (doc.write_bytes b (bytes c))
      ∙ append_assoc (bytes b) (bytes c) (contents io bs)
