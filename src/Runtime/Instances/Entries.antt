-- ===== src/Runtime/Instances/Entries.antt =====
-- What the operations on the table of instances and on the lists of ids do.
use summer21_rusty_workers.Prelude.{
  ℕ, ◌+◌, ◌≡◌, refl, Bool, true, false, none, some, List, [], ◌∷◌, arith, inl, inr, Bool-cases,
  Option-cases,
}
use summer21_rusty_workers.Bytes.{Bytes, equals, equals→eq}
use summer21_rusty_workers.Runtime.Instances.{
  Table, peek, remove, is_some, occurs, drop_one, set_memory,
}

abbrev pub bit : Bool → ℕ
bit true = 1
bit false = 0

abbrev pub times : Bytes → List Bytes → ℕ
times k [] = 0
times k (j ∷ l) = bit (equals j k) + times k l

pub peek-remove_same : (k : Bytes) (table : Table) → peek k (remove k table) ≡ none
unfolding peek remove
peek-remove_same k [] = refl
peek-remove_same k ((j, w) ∷ table) = ground (arith, peek-remove_same k table)

pub peek-remove_other :
    (k h : Bytes) (table : Table) → equals k h ≡ false → peek h (remove k table) ≡ peek h table
unfolding peek remove
peek-remove_other k h [] n = refl
peek-remove_other k h ((j, w) ∷ table) n = elim (Bool-cases (equals j k)) [
  | inl e ↦ grind (arith, equals→eq j k e, peek-remove_other k h table n)
  | inr e ↦ ground (arith, peek-remove_other k h table n)
]

pub peek-set_memory :
    (k h : Bytes) (n : ℕ) (table : Table)
    → is_some (peek h (set_memory k n table)) ≡ is_some (peek h table)
unfolding peek set_memory is_some
peek-set_memory k h n [] = refl
peek-set_memory k h n ((j, w) ∷ table) = ground (arith, peek-set_memory k h n table)

pub occurs-times : (k : Bytes) (l : List Bytes) → occurs k l ≡ false → times k l ≡ 0
unfolding occurs
occurs-times k [] h = refl
occurs-times k (j ∷ l) h = ground (arith, occurs-times k l)

-- Another id is as often in the list as before.
pub drop_one-other :
    (k h : Bytes) (l rest : List Bytes)
    → equals k h ≡ false
    → drop_one k l ≡ some rest
    → occurs h rest ≡ occurs h l
unfolding drop_one occurs
drop_one-other k h [] rest n e = absurd cc
drop_one-other k h (j ∷ l) rest n e = elim (Bool-cases (equals j k)) [
  | inl f ↦ grind (arith, equals→eq j k f)
  | inr f ↦ elim (Option-cases (drop_one k l)) [
    | inl g ↦ absurd (ground arith)
    | inr (r, g) ↦ ground (arith, drop_one-other k h l r n g)
  ]
]

pub drop_one-occurs :
    (k : Bytes) (l rest : List Bytes) → drop_one k l ≡ some rest → occurs k l ≡ true
unfolding drop_one occurs
drop_one-occurs k [] rest e = absurd cc
drop_one-occurs k (j ∷ l) rest e = elim (Bool-cases (equals j k)) [
  | inl f ↦ ground arith
  | inr f ↦ elim (Option-cases (drop_one k l)) [
    | inl g ↦ absurd (ground arith)
    | inr (r, g) ↦ ground (arith, drop_one-occurs k l r g)
  ]
]
