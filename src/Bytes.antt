-- ===== src/Bytes.antt =====
-- Rust's `String` and `&str` as lists of bytes: equality, `starts_with` and the order of `Ord`,
-- which is the lexicographic one.
use summer21_rusty_workers.Prelude.{
  ℕ, ◌<◌, ◌≡◌, ◌↔◌, refl, Bool, true, false, ◌&&◌, List, [], ◌∷◌, arith, length, ltb, ◌==◌,
  if◌then◌else◌,
}

abbrev pub Bytes : Type 0
Bytes = List ℕ

unfoldable pub equals : Bytes → Bytes → Bool
equals [] [] = true
equals [] (y ∷ ys) = false
equals (x ∷ xs) [] = false
equals (x ∷ xs) (y ∷ ys) = x == y && equals xs ys

-- str::starts_with
unfoldable pub starts_with : Bytes → Bytes → Bool
starts_with s [] = true
starts_with [] (k ∷ ks) = false
starts_with (c ∷ s) (k ∷ ks) = c == k && starts_with s ks

-- Ord::cmp is Less
unfoldable pub precedes : Bytes → Bytes → Bool
precedes xs [] = false
precedes [] (y ∷ ys) = true
precedes (x ∷ xs) (y ∷ ys) = let rest = precedes xs ys in if x == y then rest else ltb x y

pub equals→eq : (xs ys : Bytes) → equals xs ys ≡ true → xs ≡ ys
unfolding equals
equals→eq [] [] h = refl
equals→eq [] (y ∷ ys) h = ground arith
equals→eq (x ∷ xs) [] h = ground arith
equals→eq (x ∷ xs) (y ∷ ys) h = ground (arith, equals→eq xs ys)

pub equals_refl : (xs : Bytes) → equals xs xs ≡ true
unfolding equals
equals_refl [] = refl
equals_refl (x ∷ xs) = ground (arith, equals_refl xs)

pub equals_iff : (xs ys : Bytes) → (equals xs ys ≡ true) ↔ (xs ≡ ys)
equals_iff xs ys = (equals→eq xs ys, λ e. rw e (equals_refl ys))

pub precedes_irrefl : (xs : Bytes) → precedes xs xs ≡ false
unfolding precedes
precedes_irrefl [] = refl
precedes_irrefl (x ∷ xs) = ground (arith, precedes_irrefl xs)

pub precedes_trans :
    (xs ys zs : Bytes) → precedes xs ys ≡ true → precedes ys zs ≡ true → precedes xs zs ≡ true
unfolding precedes
precedes_trans xs [] zs h k = cc
precedes_trans xs (y ∷ ys) [] h k = cc
precedes_trans [] (y ∷ ys) (z ∷ zs) h k = refl
precedes_trans (x ∷ xs) (y ∷ ys) (z ∷ zs) h k = ground (arith, precedes_trans xs ys zs)

-- Of two different keys one precedes the other.
pub precedes_total :
    (xs ys : Bytes) → equals xs ys ≡ false → precedes xs ys ≡ false → precedes ys xs ≡ true
unfolding equals precedes
precedes_total [] [] e h = cc
precedes_total [] (y ∷ ys) e h = cc
precedes_total (x ∷ xs) [] e h = refl
precedes_total (x ∷ xs) (y ∷ ys) e h = ground (arith, precedes_total xs ys)

-- Of two prefixes of one text, the one that precedes the other is the shorter.
pub prefix_order :
    (s xs ys : Bytes)
    → starts_with s xs ≡ true
    → starts_with s ys ≡ true
    → precedes xs ys ≡ true
    → length xs < length ys
unfolding starts_with precedes
prefix_order s xs [] hx hy h = absurd (ground arith)
prefix_order s [] (y ∷ ys) hx hy h = omega arith
prefix_order [] (x ∷ xs) (y ∷ ys) hx hy h = absurd (ground arith)
prefix_order (c ∷ s) (x ∷ xs) (y ∷ ys) hx hy h = ground (arith, prefix_order s xs ys)
