-- ===== src/Data/Table/Tests.antt =====
-- A table as a list of known keys and a function from keys to rows: what the interface promises can
-- hold.
use summer21_rusty_workers.Prelude.{
  ℕ, zero, suc, ◌≡◌, ◌≤◌, ◌<◌, refl, ap, sym, ◌∙◌, inl, inr, Bool, true, false, Option, none, some,
  List, [], ◌∷◌, All, Member, length, if◌then◌else◌, arith, Bool-cases,
}
use summer21_rusty_workers.Bytes.{Bytes, equals, equals→eq, equals_refl}
use summer21_rusty_workers.Data.Table.{Table, Row, kept, unless_kept, same_key, Distinct}

-- Each key with a row is known.
pub record Rows : Type 0 where
  pub known : List (Bytes × Bytes)
  pub at : Bytes → Bytes → Option Row
  pub all_known : (ns k : Bytes) (r : Row) → at ns k ≡ some r → Member (ns, k) known

abbrev pub put_at : Bytes → Bytes → Option Row → Rows → Bytes → Bytes → Option Row
put_at ns k o db ns' k' = if same_key ns k ns' k' then o else db.at ns' k'

pub put-known :
    (ns k : Bytes) (o : Option Row) (db : Rows) (ns' k' : Bytes) (r : Row)
    → put_at ns k o db ns' k' ≡ some r
    → Member (ns', k') ((ns, k) ∷ db.known)
put-known ns k o db ns' k' r h = elim (Bool-cases (equals ns ns')) [
  | inr e ↦ inr (db.all_known ns' k' r (ground (arith, e, h)))
  | inl e ↦ elim (Bool-cases (equals k k')) [
    | inr f ↦ inr (db.all_known ns' k' r (ground (arith, e, f, h)))
    | inl f ↦ inl (rw (equals→eq ns ns' e, equals→eq k k' f) refl)
  ]
]

abbrev pub put_row : Bytes → Bytes → Option Row → Rows → Rows
put_row ns k o db = record {
  known = (ns, k) ∷ db.known;
  at = put_at ns k o db;
  all_known = put-known ns k o db;
}

abbrev pub absent : Bytes → Bytes → Option Row
absent ns k = none

pub absent-known :
    (ns k : Bytes) (r : Row) → absent ns k ≡ some r → Member {A = Bytes × Bytes} (ns, k) []
absent-known ns k r h = cc

abbrev pub no_rows : Rows
no_rows = record { known = []; at = absent; all_known = absent-known }

abbrev pub is_in : Bytes → List Bytes → Bool
is_in k [] = false
is_in k (x ∷ l) = if equals k x then true else is_in k l

is_in→Member : (k : Bytes) (l : List Bytes) → is_in k l ≡ true → Member k l
is_in→Member k [] h = absurd cc
is_in→Member k (x ∷ l) h = elim (Bool-cases (equals k x)) [
  | inl e ↦ inl (equals→eq k x e)
  | inr e ↦ inr (is_in→Member k l (ground (arith, e, h)))
]

Member→is_in : (k : Bytes) (l : List Bytes) → Member k l → is_in k l ≡ true
Member→is_in k [] m = absurd m
Member→is_in k (x ∷ l) (inl e) = rw (ap (equals k) (sym e) ∙ equals_refl k) refl
Member→is_in k (x ∷ l) (inr m) = ground (arith, Member→is_in k l m)

abbrev pub first : ℕ → List Bytes → List Bytes
first zero l = []
first (suc n) [] = []
first (suc n) (x ∷ l) = x ∷ first n l

pub length-first : (n : ℕ) (l : List Bytes) → length (first n l) ≤ n
length-first zero l = omega arith
length-first (suc n) [] = omega arith
length-first (suc n) (x ∷ l) = omega (arith, length-first n l)

pub first-short : (n : ℕ) (l : List Bytes) → length (first n l) < n → first n l ≡ l
first-short zero l h = absurd (omega arith)
first-short (suc n) [] h = refl
first-short (suc n) (x ∷ l) h = ap (λ r. x ∷ r) (first-short n l (omega arith))

pub first-All : (P : Bytes → Type 0) (n : ℕ) (l : List Bytes) → All P l → All P (first n l)
first-All P zero l h = tt
first-All P (suc n) [] h = tt
first-All P (suc n) (x ∷ l) h = (h.0, first-All P n l h.1)

first-Member : (k : Bytes) (n : ℕ) (l : List Bytes) → Member k (first n l) → Member k l
first-Member k zero l m = absurd m
first-Member k (suc n) [] m = absurd m
first-Member k (suc n) (x ∷ l) (inl e) = inl e
first-Member k (suc n) (x ∷ l) (inr m) = inr (first-Member k n l m)

pub first-Distinct : (n : ℕ) (l : List Bytes) → Distinct l → Distinct (first n l)
first-Distinct zero l h = tt
first-Distinct (suc n) [] h = tt
first-Distinct (suc n) (x ∷ l) h = (λ m. h.0 (first-Member x n l m), first-Distinct n l h.1)

module _ (ns : Bytes) (range : Bytes → Bool) (p : Row → Bool) (db : Rows) where
  abbrev pub holds_for : Option Row → Bool
  holds_for none = false
  holds_for (some r) = p r

  abbrev pub matches : Bytes × Bytes → Bool
  matches (ns', k) =
      if equals ns ns' then (if range k then holds_for (db.at ns k) else false) else false

  abbrev pub add : Bytes → Bool → List Bytes → List Bytes
  add k true l = if is_in k l then l else k ∷ l
  add k false l = l

  abbrev pub scan : List (Bytes × Bytes) → List Bytes
  scan [] = []
  scan (x ∷ l) = add (x.1) (matches x) (scan l)

  abbrev pub Found : Bytes → Type 0
  Found k = (range k ≡ true) × ((r : Row) × (db.at ns k ≡ some r) × (p r ≡ true))

  holds_for-row : (o : Option Row) → holds_for o ≡ true → (r : Row) × (o ≡ some r) × (p r ≡ true)
  holds_for-row none h = absurd cc
  holds_for-row (some r) h = (r, refl, h)

  matches-Found : (ns' k : Bytes) → matches (ns', k) ≡ true → Found k
  matches-Found ns' k h = (ground (arith, h), holds_for-row (db.at ns k) (ground (arith, h)))

  add-Found :
      (ns' k : Bytes) (b : Bool) (l : List Bytes)
      → matches (ns', k) ≡ b
      → All Found l
      → All Found (add k b l)
  add-Found ns' k false l e h = h
  add-Found ns' k true l e h = elim (Bool-cases (is_in k l)) [
    | inl y ↦ rw y h
    | inr n ↦ rw n (matches-Found ns' k e, h)
  ]

  pub scan-Found : (l : List (Bytes × Bytes)) → All Found (scan l)
  scan-Found [] = tt
  scan-Found ((ns', k) ∷ l) = add-Found ns' k (matches (ns', k)) (scan l) refl (scan-Found l)

  add-Distinct : (k : Bytes) (b : Bool) (l : List Bytes) → Distinct l → Distinct (add k b l)
  add-Distinct k false l h = h
  add-Distinct k true l h = elim (Bool-cases (is_in k l)) [
    | inl y ↦ rw y h
    | inr n ↦ rw n (λ m. absurd (ground (arith, n, Member→is_in k l m)), h)
  ]

  pub scan-Distinct : (l : List (Bytes × Bytes)) → Distinct (scan l)
  scan-Distinct [] = tt
  scan-Distinct (x ∷ l) = add-Distinct (x.1) (matches x) (scan l) (scan-Distinct l)

  add-Member : (k x : Bytes) (b : Bool) (l : List Bytes) → Member k l → Member k (add x b l)
  add-Member k x false l m = m
  add-Member k x true l m = elim (Bool-cases (is_in x l)) [ inl y ↦ rw y m | inr n ↦ rw n (inr m) ]

  added : (k : Bytes) (b : Bool) (l : List Bytes) → b ≡ true → Member k (add k b l)
  added k false l h = absurd cc
  added k true l h = elim (Bool-cases (is_in k l)) [
    | inl y ↦ rw y (is_in→Member k l y)
    | inr n ↦ rw n (inl refl)
  ]

  pub scan-all :
      (k : Bytes) (r : Row) (l : List (Bytes × Bytes))
      → range k ≡ true
      → db.at ns k ≡ some r
      → p r ≡ true
      → Member (ns, k) l
      → Member k (scan l)
  scan-all k r [] i e h m = absurd m
  scan-all k r (x ∷ l) i e h (inr m) =
      add-Member k (x.1) (matches x) (scan l) (scan-all k r l i e h m)
  scan-all k r (x ∷ l) i e h (inl q) =
      rw (sym q) (added k (matches (ns, k)) (scan l) (rw (equals_refl ns, i, e) h))

abbrev pub rows_table : Table
rows_table = record {
  Db = Rows;
  row = λ ns k db. db.at ns k;
  select_first = λ ns k p db. kept p (db.at ns k);
  insert_or_update = λ ns k r db. put_row ns k (some r) db;
  replace_unless = λ ns k r p db. put_row ns k (unless_kept p r (db.at ns k)) db;
  delete = λ ns k db. put_row ns k none db;
  select_keys = λ ns range p limit db. first limit (scan ns range p db db.known);
  select_first-row = λ ns k p db. refl;
  row-insert = λ ns k ns' k' r db. refl;
  row-replace = λ ns k ns' k' r p db. refl;
  row-delete = λ ns k ns' k' db. refl;
  select_keys-found = λ ns range p limit db.
      first-All (Found ns range p db) limit _ (scan-Found ns range p db db.known);
  select_keys-limit = λ ns range p limit db. length-first limit (scan ns range p db db.known);
  select_keys-Distinct =
      λ ns range p limit db. first-Distinct limit _ (scan-Distinct ns range p db db.known);
  select_keys-all = λ ns range p limit db short k r i e h.
      rw (first-short limit (scan ns range p db db.known) short)
        (scan-all ns range p db k r db.known i e h (db.all_known ns k r e));
}
