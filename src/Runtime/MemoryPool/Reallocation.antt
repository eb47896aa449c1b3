-- ===== src/Runtime/MemoryPool/Reallocation.antt =====
-- Resizing a block: its content and the budget.
use summer21_rusty_workers.Prelude.{
  ℕ, zero, suc, ◌+◌, ◌-◌, ◌^◌, ◌<◌, ◌≡◌, ◌⊎◌, inl, inr, refl, ap, min, Option, none, some, [], ◌∷◌,
  ◌++◌, length, arith, le_or_lt,
}
use summer21_rusty_workers.Bytes.{Bytes}
use summer21_rusty_workers.Runtime.MemoryPool.{
  MemoryPool, Block, Heap, release_bytes, take, adjust, resized, move_block, reallocated,
  reallocate,
}
use summer21_rusty_workers.Runtime.MemoryPool.Accounting.{
  live, Accounted, Owns, length-take, length-resized, take_block-live,
}

-- What `reallocate` does with a block of V8.
pub data Reallocated (prev oldlen newlen : ℕ) (h : Heap) (o : Owns prev oldlen h)
    (r : Option ℕ × Heap) : Type 0 where
  kept :
      oldlen < newlen
      → h.pool.remaining_bytes < newlen - oldlen
      → r ≡ (none, h)
      → Reallocated prev oldlen newlen h o r
  moved :
      (block : Block)
      → r.0 ≡ some block.address
      → r.1.blocks ≡ block ∷ o.others
      → take (min oldlen newlen) block.contents ≡ take (min oldlen newlen) o.block.contents
      → length block.contents ≡ newlen
      → r.1.pool.remaining_bytes + newlen ≡ h.pool.remaining_bytes + oldlen
      → Reallocated prev oldlen newlen h o r

take-append : (n : ℕ) (xs ys : Bytes) → length xs ≡ n → take n (xs ++ ys) ≡ xs
take-append zero [] ys h = refl
take-append zero (x ∷ xs) ys h = absurd (omega arith)
take-append (suc n) [] ys h = absurd (omega arith)
take-append (suc n) (x ∷ xs) ys h = ap (λ l. x ∷ l) (take-append n xs ys (omega arith))

take-resized :
    (oldlen newlen : ℕ) (old : Bytes)
    → length old ≡ oldlen
    → take (min oldlen newlen) (resized oldlen newlen old) ≡ take (min oldlen newlen) old
unfolding resized
take-resized oldlen newlen old h =
    take-append (min oldlen newlen) (take (min oldlen newlen) old) _
      (omega (arith, length-take (min oldlen newlen) old))

adjust-cases :
    (oldlen newlen : ℕ) (pool : MemoryPool)
    → pool.remaining_bytes + oldlen < 2 ^ 64
    → ((oldlen < newlen)
        × (pool.remaining_bytes < newlen - oldlen)
        × (adjust oldlen newlen pool ≡ none))
      ⊎ ((left : MemoryPool) × (adjust oldlen newlen pool ≡ some left)
          × (left.remaining_bytes + newlen ≡ pool.remaining_bytes + oldlen))
unfolding adjust
adjust-cases oldlen newlen pool h = elim (le_or_lt newlen oldlen) [
  | inl le ↦ inr (release_bytes (oldlen - newlen) pool, ground arith, ground arith)
  | inr gt ↦ elim (le_or_lt (newlen - oldlen) pool.remaining_bytes) [
    | inl fits ↦ inr (
      record { remaining_bytes = pool.remaining_bytes - (newlen - oldlen) },
      ground arith,
      ground arith,
    )
    | inr over ↦ inl (gt, over, ground arith)
  ]
]

-- A block is resized in place of the old one: it keeps the common part of its content and has the new
-- length, and the budget changes by the difference. A refusal comes only when a growth exceeds the
-- budget, and leaves all as it was.
pub reallocate-Reallocated :
    {budget : ℕ} (address prev oldlen newlen : ℕ) (h : Heap) (o : Owns prev oldlen h)
    → Accounted budget h
    → Reallocated prev oldlen newlen h o (reallocate address prev oldlen newlen h)
unfolding reallocate
reallocate-Reallocated address prev oldlen newlen h o a =
    elim (adjust-cases oldlen newlen h.pool
      (omega (arith, take_block-live prev h.blocks o.block o.others o.found))) [
        | inl (gt, over, e) ↦ rw (e, reallocated) (kept gt over refl)
        | inr (pool, e, books) ↦
            rw (e, reallocated, o.found, move_block)
              (moved _ refl refl (take-resized oldlen newlen o.block.contents o.size)
                (length-resized oldlen newlen o.block.contents o.size) books)
      ]

pub Reallocated-Accounted :
    {budget prev oldlen newlen : ℕ} {h : Heap} {o : Owns prev oldlen h} {r : Option ℕ × Heap}
    → Accounted budget h
    → Reallocated prev oldlen newlen h o r
    → Accounted budget r.1
Reallocated-Accounted a (kept _ _ e) = rw e a
Reallocated-Accounted {prev = prev} {h = h} {o = o} a (moved block _ bs _ size books) = record {
  total = omega (arith, ap live bs, take_block-live prev h.blocks o.block o.others o.found, o.size);
  fits = a.fits;
}
