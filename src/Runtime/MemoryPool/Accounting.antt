-- ===== src/Runtime/MemoryPool/Accounting.antt =====
-- The budget and the memory in use add up.
use summer21_rusty_workers.Prelude.{
  ◌≢◌, sym, subst, ℕ, zero, suc, ◌+◌, ◌-◌, ◌^◌, ◌≤◌, ◌<◌, ◌≡◌, inl, inr, refl, ap, min, Option,
  none, some, List, [], ◌∷◌, length, length-append, ◌==◌, arith, false, true, ◌≢◌, sym,
  Option-cases, le_or_lt, Bool-cases,
}
use summer21_rusty_workers.Bytes.{Bytes}
use summer21_rusty_workers.Runtime.MemoryPool.{
  release_bytes, Block, Heap, reset, take_bytes, replicate, take, take_block, grant, allocate,
  allocate_uninitialized, free, free_block, resized,
}

abbrev pub live : List Block → ℕ
live [] = 0
live (b ∷ bs) = length b.contents + live bs

-- What is left and what is in use make up the budget, which fits a usize.
pub record Accounted (budget : ℕ) (h : Heap) : Type 0 where
  pub total : h.pool.remaining_bytes + live h.blocks ≡ budget
  pub fits : budget < 2 ^ 64

pub length-replicate : (n b : ℕ) → length (replicate n b) ≡ n
length-replicate zero b = refl
length-replicate (suc n) b = ap suc (length-replicate n b)

pub length-take : (n : ℕ) (xs : Bytes) → length (take n xs) ≡ min n (length xs)
length-take zero xs = omega arith
length-take (suc n) [] = omega arith
length-take (suc n) (x ∷ xs) = omega (arith, length-take n xs)

pub length-resized :
    (oldlen newlen : ℕ) (old : Bytes)
    → length old ≡ oldlen
    → length (resized oldlen newlen old) ≡ newlen
unfolding resized
length-resized oldlen newlen old h = omega (
  arith,
  length-append (take (min oldlen newlen) old) (replicate (newlen - min oldlen newlen) 0),
  length-take (min oldlen newlen) old,
  length-replicate (newlen - min oldlen newlen) 0,
)

pub take_block-live :
    (a : ℕ) (bs : List Block) (b : Block) (others : List Block)
    → take_block a bs ≡ some (b, others)
    → live bs ≡ length b.contents + live others
unfolding take_block
take_block-live a [] b others h = cc
take_block-live a (x ∷ bs) b others h = elim (Bool-cases (x.address == a)) [
  | inl hit ↦ ground arith
  | inr miss ↦ elim (Option-cases (take_block a bs)) [
    | inl e ↦ absurd (ground arith)
    | inr (y, e) ↦ ground (arith, take_block-live a bs y.0 y.1 (e))
  ]
]

-- A grant takes its size off the budget; a refusal is given exactly when the budget is smaller, and
-- changes nothing.
data Granted (size : ℕ) (h : Heap) (r : Option ℕ × Heap) : Type 0 where
  refused : h.pool.remaining_bytes < size → r ≡ (none, h) → Granted size h r
  given :
      (block : Block)
      → size ≤ h.pool.remaining_bytes
      → length block.contents ≡ size
      → r.0 ≡ some block.address
      → r.1.blocks ≡ block ∷ h.blocks
      → r.1.pool.remaining_bytes + size ≡ h.pool.remaining_bytes
      → Granted size h r

grant-Granted :
    (address : ℕ) (contents : Bytes) (h : Heap)
    → Granted (length contents) h (grant address contents h (take_bytes (length contents) h.pool))
unfolding grant take_bytes
grant-Granted address contents h = elim (le_or_lt (length contents) h.pool.remaining_bytes) [
  | inl fits ↦
      given (record { address = address; contents = contents }) fits refl (ground arith)
        (ground arith) (ground arith)
  | inr over ↦ refused over (ground arith)
]

Granted-Accounted :
    {budget size : ℕ} {h : Heap} {r : Option ℕ × Heap}
    → Accounted budget h
    → Granted size h r
    → Accounted budget r.1
Granted-Accounted a (refused lt e) = rw e a
Granted-Accounted {r = r} a (given block le size ptr bs rem) = record {
  total = omega (arith, ap live bs);
  fits = a.fits;
}

-- The block that V8 gives back: it is there and has the length that V8 says.
pub record Owns (address len : ℕ) (h : Heap) : Type 0 where
  pub block : Block
  pub others : List Block
  pub found : take_block address h.blocks ≡ some (block, others)
  pub size : length block.contents ≡ len

-- Allocating keeps the books.
pub allocate-Accounted :
    {budget : ℕ} (address n : ℕ) (h : Heap)
    → Accounted budget h
    → Accounted budget (allocate address n h).1
unfolding allocate
allocate-Accounted address n h a = Granted-Accounted a (
    subst (λ k. Granted k h (grant address (replicate n 0) h (take_bytes k h.pool)))
      (length-replicate n 0) (grant-Granted address (replicate n 0) h))

pub allocate_uninitialized-Accounted :
    {budget : ℕ} (address : ℕ) (garbage : Bytes) (h : Heap)
    → Accounted budget h
    → Accounted budget (allocate_uninitialized address garbage h).1
unfolding allocate_uninitialized
allocate_uninitialized-Accounted address garbage h a =
    Granted-Accounted a (grant-Granted address garbage h)

-- So does giving a block back.
pub free-Accounted :
    {budget : ℕ} (address n : ℕ) (h : Heap)
    → Owns address n h
    → Accounted budget h
    → Accounted budget (free address n h)
unfolding free
free-Accounted address n h o a =
    rw (o.found, free_block)
      (record {
        total = omega (arith, take_block-live address h.blocks o.block o.others o.found);
        fits = a.fits;
      })

-- A buffer of n bytes is made, the limit is set anew, and a second buffer is made.
abbrev pub made : ℕ → ℕ → Heap → Heap
made a n h = (allocate a n h).1

abbrev pub reset_heap : ℕ → Heap → Heap
reset_heap limit h = record h { pool = reset limit h.pool }

-- What follows for the heap r after the second buffer, of the whole new limit.
pub record Exceeds (a b n limit : ℕ) (h : Heap) (r : Option ℕ × Heap) : Type 0 where
  pub granted : r.0 ≡ some b
  pub in_use : limit < live r.1.blocks
  pub left : (free a n r.1).pool.remaining_bytes ≡ n
  pub still_in_use : live (free a n r.1).blocks ≡ limit + live h.blocks

allocated :
    (address n : ℕ) (h : Heap)
    → n ≤ h.pool.remaining_bytes
    → allocate address n h ≡ (
      some address,
      record {
        pool = record { remaining_bytes = h.pool.remaining_bytes - n };
        blocks = record { address = address; contents = replicate n 0 } ∷ h.blocks;
      },
    )
unfolding allocate grant take_bytes
allocated address n h fits = ground arith

-- A limit that is set while memory is in use comes on top of that memory. On a heap whose books are
-- kept, let a buffer of n > 0 bytes be granted and then the limit be set. A buffer of the whole limit
-- is granted at another address, so that more than the limit is in use; and once the first buffer is
-- given back, n bytes more can be taken while the limit is still in use.
pub reset-Exceeds :
    {budget : ℕ} (a b n limit : ℕ) (h : Heap)
    → Accounted budget h
    → 0 < n
    → n ≤ h.pool.remaining_bytes
    → a ≢ b
    → Exceeds a b n limit h (allocate b limit (reset_heap limit (made a n h)))
unfolding free reset take_block free_block release_bytes
reset-Exceeds a b n limit h books positive fits other =
    let miss : (b == a) ≡ false = ground arith in
    let hit : (a == a) ≡ true = ground arith in
    let before : Heap = record {
      pool = record { remaining_bytes = limit };
      blocks = record { address = a; contents = replicate n 0 } ∷ h.blocks;
    } in
    subst (λ r. Exceeds a b n limit h (allocate b limit (reset_heap limit r.1)))
      (sym (allocated a n h fits))
      (subst (λ r. Exceeds a b n limit h r) (sym (allocated b limit before (omega arith)))
        (record {
          granted = refl;
          in_use = omega (arith, length-replicate limit 0, length-replicate n 0);
          left = rw (miss, hit) (ground (arith, books.fits, books.total));
          still_in_use = rw (miss, hit) (ap (λ k. k + live h.blocks) (length-replicate limit 0));
        }))
