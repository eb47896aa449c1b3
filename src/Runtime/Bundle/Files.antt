-- ===== src/Runtime/Bundle/Files.antt =====
-- Which files and which script an instance has.
use summer21_rusty_workers.Types
use summer21_rusty_workers.Prelude.{
  subst, zero, suc, ◌≤◌, length, ℕ, ◌≡◌, refl, sym, ap, ◌∙◌, inl, inr, Option, none, some, List, [],
  ◌∷◌, arith, if◌then◌else◌, Option-cases, some-inj,
}
use summer21_rusty_workers.Bytes.{Bytes, equals}
use summer21_rusty_workers.BtreeMap
use summer21_rusty_workers.BtreeMap.{BtreeMap, get-insert}
use summer21_rusty_workers.Runtime.Bundle.{
  unpack, scripted, with_script, find_script, read_exact, Entry, index_js, dot_index_js, read_entry,
  read_entries, or_else,
}

-- What an entry holds under a path, if it can be read.
abbrev pub holds : Bytes → Option (Bytes × Bytes) → Option Bytes
holds k none = none
holds k (some (path, content)) = if equals path k then some content else none

-- What the last entry with a path holds.
abbrev pub last_of : ℕ → Bytes → List (Option Entry) → Option Bytes
last_of bundle_size k [] = none
last_of bundle_size k (entry ∷ entries) =
    or_else (last_of bundle_size k entries) (holds k (read_entry bundle_size entry))

-- Every entry can be read.
abbrev pub Readable : ℕ → List (Option Entry) → Type 0
Readable bundle_size [] = Unit
Readable bundle_size (entry ∷ entries) =
    ((e : Bytes × Bytes) × (read_entry bundle_size entry ≡ some e)) × Readable bundle_size entries

or_else_twice : (a b c : Option Bytes) → or_else a (or_else b c) ≡ or_else (or_else a b) c
unfolding or_else
or_else_twice none b c = refl
or_else_twice (some x) b c = refl

get-insert_else :
    (path k content : Bytes) (files : BtreeMap Bytes)
    → BtreeMap.get k (BtreeMap.insert path content files)
      ≡ or_else (holds k (some (path, content))) (BtreeMap.get k files)
unfolding or_else
get-insert_else path k content files = ground (arith, get-insert path k content files)

read_entries-get :
    (n : ℕ) (k : Bytes) (files all : BtreeMap Bytes) (entries : List (Option Entry))
    → read_entries n files entries ≡ some all
    → (BtreeMap.get k all ≡ or_else (last_of n k entries) (BtreeMap.get k files))
      × Readable n entries
unfolding read_entries or_else
read_entries-get n k files all [] h = (ap (BtreeMap.get k) (sym (some-inj h)), tt)
read_entries-get n k files all (entry ∷ entries) h = elim (Option-cases (read_entry n entry)) [
  | inl e ↦ absurd (ground arith)
  | inr ((path, content), e) ↦
      let (found, readable) =
        read_entries-get n k (BtreeMap.insert path content files) all entries (ground arith) in
      (
        found
            ∙ ap (or_else (last_of n k entries)) (get-insert_else path k content files)
            ∙ or_else_twice (last_of n k entries) (holds k (some (path, content)))
                (BtreeMap.get k files)
            ∙ ap (λ o. or_else (or_else (last_of n k entries) (holds k o)) (BtreeMap.get k files))
                (sym e),
        ((((path, content), e)), readable),
      )
]

or_else-none : (o : Option Bytes) → or_else o none ≡ o
unfolding or_else
or_else-none none = refl
or_else-none (some x) = refl

read_exact-length : (n : ℕ) (bytes x : Bytes) → read_exact n bytes ≡ some x → length x ≡ n
unfolding read_exact
read_exact-length zero bytes x h = ground arith
read_exact-length (suc n) [] x h = absurd cc
read_exact-length (suc n) (b ∷ bytes) x h = elim (Option-cases (read_exact n bytes)) [
  | inl e ↦ absurd (ground arith)
  | inr (rest, e) ↦ ground (arith, read_exact-length n bytes rest e)
]

content-small :
    (n : ℕ) (path : Bytes) (entry : Entry) (e : Bytes × Bytes)
    → entry.path ≡ some path
    → read_entry n (some entry) ≡ some e
    → length e.1 ≤ n
unfolding read_entry
content-small n path entry e there h = elim (Option-cases (read_exact entry.size entry.contents)) [
  | inl f ↦ absurd (ground arith)
  | inr (x, f) ↦ ground (arith, read_exact-length entry.size entry.contents x f)
]

read_entry-small :
    (n : ℕ) (entry : Option Entry) (e : Bytes × Bytes)
    → read_entry n entry ≡ some e
    → length e.1 ≤ n
unfolding read_entry
read_entry-small n none e h = absurd cc
read_entry-small n (some entry) e h = elim (Option-cases entry.path) [
  | inl f ↦ absurd (ground arith)
  | inr (path, f) ↦ content-small n path entry e f h
]

last_of-small :
    (n : ℕ) (k content : Bytes) (entries : List (Option Entry))
    → last_of n k entries ≡ some content
    → length content ≤ n
unfolding or_else
last_of-small n k content [] h = absurd cc
last_of-small n k content (entry ∷ entries) h = elim (Option-cases (last_of n k entries)) [
  | inr (x, e) ↦ ground (arith, last_of-small n k x entries e)
  | inl e ↦ elim (Option-cases (read_entry n entry)) [
    | inl f ↦ absurd (ground arith)
    | inr (x, f) ↦ ground (arith, read_entry-small n entry x f)
  ]
]

-- What an instance starts with: each file is what the last entry with its path holds, and all entries can
-- be read; the script is `./index.js`, or `index.js` if that is not there.
pub record Unpacked (bundle_size : ℕ) (entries : List (Option Entry)) (files : BtreeMap Bytes)
    (script : Bytes) : Type 0 where
  pub found : (k : Bytes) → BtreeMap.get k files ≡ last_of bundle_size k entries
  pub readable : Readable bundle_size entries
  pub is_script :
      or_else (last_of bundle_size dot_index_js entries) (last_of bundle_size index_js entries)
      ≡ some script
  pub small :
      (k content : Bytes) → BtreeMap.get k files ≡ some content → length content ≤ bundle_size

read_entries-Unpacked :
    (n : ℕ) (entries : List (Option Entry)) (files : BtreeMap Bytes) (script : Bytes)
    → read_entries n [] entries ≡ some files
    → find_script files ≡ some script
    → Unpacked n entries files script
unfolding find_script BtreeMap.get
read_entries-Unpacked n entries files script h s = record {
  found = found;
  readable = (read_entries-get n [] [] files entries h).1;
  is_script =
      ap (λ o. or_else o (last_of n index_js entries)) (sym (found dot_index_js))
      ∙ ap (or_else (BtreeMap.get dot_index_js files)) (sym (found index_js))
      ∙ s;
  small = λ k content e. last_of-small n k content entries (sym (found k) ∙ e);
}
  where
    found : (k : Bytes) → BtreeMap.get k files ≡ last_of n k entries
    found k = (read_entries-get n k [] files entries h).0 ∙ or_else-none (last_of n k entries)

with_script-ok :
    (files all : BtreeMap Bytes) (o : Option Bytes) (script : Bytes)
    → with_script files o ≡ Types.GenericResult.ok (all, script)
    → (files ≡ all) × (o ≡ some script)
unfolding with_script
with_script-ok files all none script h = absurd cc
with_script-ok files all (some x) script h = (grind arith, grind arith)

scripted-Unpacked :
    (n : ℕ) (entries : List (Option Entry)) (o : Option (BtreeMap Bytes)) (files : BtreeMap Bytes)
    (script : Bytes)
    → read_entries n [] entries ≡ o
    → scripted o ≡ Types.GenericResult.ok (files, script)
    → Unpacked n entries files script
unfolding scripted
scripted-Unpacked n entries none files script e h = absurd cc
scripted-Unpacked n entries (some all) files script e h =
    let (same, s) = with_script-ok all files (find_script all) script h in
    subst (λ m. Unpacked n entries m script) same (read_entries-Unpacked n entries all script e s)

-- An instance that can be made has read all entries of its bundle: a file is what the last entry with its
-- path holds, no file is larger than the bundle, and the script is `./index.js`, or `index.js` if
-- that is not there.
pub unpack-Unpacked :
    (n : ℕ) (entries : List (Option Entry)) (files : BtreeMap Bytes) (script : Bytes)
    → unpack n (some entries) ≡ Types.GenericResult.ok (files, script)
    → Unpacked n entries files script
unfolding unpack
unpack-Unpacked n entries files script h =
    scripted-Unpacked n entries (read_entries n [] entries) files script refl h
