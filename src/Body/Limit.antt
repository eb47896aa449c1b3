-- ===== src/Body/Limit.antt =====
-- The limit on the size of a body.
use summer21_rusty_workers.Prelude.{
  Option-cases, ◌∙◌, le_or_lt, lt→ltb, ℕ, ◌+◌, ◌≤◌, ◌<◌, ◌≡◌, inl, inr, refl, ap, Option, none,
  some, List, [], ◌∷◌, ◌++◌, append_assoc, append-nil, arith, length, length-append,
}
use summer21_rusty_workers.Bytes.{Bytes}
use summer21_rusty_workers.Body.{
  Chunk, bytes, broken, Body, ok, err, read_chunk, read_chunks, finish, read_request_body,
}

join : Bytes → Option Bytes → Option Bytes
join x none = none
join x (some rest) = some (x ++ rest)

-- The whole body that the client sent, if the connection did not break.
pub contents : List Chunk → Option Bytes
unfolding join
contents [] = some []
contents (bytes x ∷ xs) = join x (contents xs)
contents (broken ∷ xs) = none

join-some :
    (x : Bytes) (o : Option Bytes) {all : Bytes}
    → join x o ≡ some all
    → (rest : Bytes) × (o ≡ some rest) × (all ≡ x ++ rest)
unfolding join
join-some x none h = cc
join-some x (some rest) h = (rest, refl, ground arith)

join-none : (x : Bytes) (o : Option Bytes) → join x o ≡ none → o ≡ none
unfolding join
join-none x none h = refl
join-none x (some rest) h = cc

module _ {E : Type 0} (limit : ℕ) (too_large lost : E) where
  abbrev read : Bytes × Option E → List Chunk → Body E
  unfolding finish
  read s chunks = finish limit too_large lost (read_chunks limit too_large lost s chunks)

  chunk_over :
      (body x : Bytes) (e : Option E)
      → limit < length body + length x
      → read_chunk limit too_large lost (body, e) (bytes x) ≡ (body, some too_large)
  unfolding read_chunk
  chunk_over body x e h = rw (lt→ltb _ _ h)

  chunk_fits :
      (body x : Bytes) (e : Option E)
      → length body + length x ≤ limit
      → read_chunk limit too_large lost (body, e) (bytes x) ≡ (body ++ x, e)
  unfolding read_chunk
  chunk_fits body x e h = ground arith

  -- An error stays one.
  still_err :
      (chunks : List Chunk) (body : Bytes) (e : E)
      → (e' : E) × (read (body, some e) chunks ≡ err e')
  unfolding read_chunks finish
  still_err [] body e = (e, refl)
  still_err (bytes x ∷ xs) body e = elim (le_or_lt (length body + length x) limit) [
    | inl h ↦ rw (chunk_fits body x (some e) h) (still_err xs (body ++ x) e)
    | inr h ↦ rw (chunk_over body x (some e) h) (still_err xs body too_large)
  ]
  still_err (broken ∷ xs) body e = still_err xs body lost

  -- Without a broken connection the error stays `too_large`.
  still_too_large :
      (chunks : List Chunk) (body rest : Bytes)
      → contents chunks ≡ some rest
      → read (body, some too_large) chunks ≡ err too_large
  unfolding read_chunks finish contents
  still_too_large [] body rest c = refl
  still_too_large (bytes x ∷ xs) body rest c =
      let (tail, e, _) = join-some x (contents xs) c in
      elim (le_or_lt (length body + length x) limit) [
        | inl h ↦ rw (chunk_fits body x (some too_large) h) (still_too_large xs (body ++ x) tail e)
        | inr h ↦ rw (chunk_over body x (some too_large) h) (still_too_large xs body tail e)
      ]
  still_too_large (broken ∷ xs) body rest c = cc

  read-fits :
      (chunks : List Chunk) (body rest : Bytes)
      → contents chunks ≡ some rest
      → length body + length rest ≤ limit
      → read (body, none) chunks ≡ ok (body ++ rest)
  unfolding read_chunks finish contents
  read-fits [] body rest c h = ground (arith, append-nil body)
  read-fits (bytes x ∷ xs) body rest c h =
      let (tail, e, split) = join-some x (contents xs) c in
      let total : length rest ≡ length x + length tail = ap length split ∙ length-append x tail in
      rw (chunk_fits body x none (omega arith), split, ← append_assoc body x tail)
        (read-fits xs (body ++ x) tail e (omega (arith, length-append body x)))
  read-fits (broken ∷ xs) body rest c h = cc

  read-exceeds :
      (chunks : List Chunk) (body rest : Bytes)
      → contents chunks ≡ some rest
      → length body ≤ limit
      → limit < length body + length rest
      → read (body, none) chunks ≡ err too_large
  unfolding read_chunks finish contents
  read-exceeds [] body rest c b h = absurd (ground arith)
  read-exceeds (bytes x ∷ xs) body rest c b h =
      let (tail, e, split) = join-some x (contents xs) c in
      let total : length rest ≡ length x + length tail = ap length split ∙ length-append x tail in
      elim (le_or_lt (length body + length x) limit) [
        | inl fits ↦ rw (chunk_fits body x none fits) (
            read-exceeds xs (body ++ x) tail e (omega (arith, length-append body x))
              (omega (arith, length-append body x)))
        | inr over ↦ rw (chunk_over body x none over) (still_too_large xs body tail e)
      ]
  read-exceeds (broken ∷ xs) body rest c b h = cc

  read-breaks :
      (chunks : List Chunk) (body : Bytes)
      → contents chunks ≡ none
      → (e : E) × (read (body, none) chunks ≡ err e)
  unfolding read_chunks finish contents
  read-breaks [] body c = cc
  read-breaks (bytes x ∷ xs) body c = elim (le_or_lt (length body + length x) limit) [
    | inl fits ↦
        rw (chunk_fits body x none fits) (read-breaks xs (body ++ x) (join-none x (contents xs) c))
    | inr over ↦ rw (chunk_over body x none over) (still_err xs body too_large)
  ]
  read-breaks (broken ∷ xs) body c = still_err xs body lost

  -- What is read of a body: it is all that was sent, if the connection did not break and it is
  -- within the limit; a body above the limit is refused as too large; and a broken connection
  -- always gives an error.
  pub data Reading (chunks : List Chunk) : Type 0 where
    whole :
        (b : Bytes)
        → contents chunks ≡ some b
        → length b ≤ limit
        → read_request_body limit too_large lost chunks ≡ ok b
        → Reading chunks
    exceeds :
        (b : Bytes)
        → contents chunks ≡ some b
        → limit < length b
        → read_request_body limit too_large lost chunks ≡ err too_large
        → Reading chunks
    breaks :
        (e : E)
        → contents chunks ≡ none
        → read_request_body limit too_large lost chunks ≡ err e
        → Reading chunks

  -- A body is read whole exactly when the connection does not break and the body is within the
  -- limit; above the limit it is refused as too large; a broken connection gives some error.
  pub read_request_body-Reading : (chunks : List Chunk) → Reading chunks
  unfolding read_request_body
  read_request_body-Reading chunks = elim (Option-cases (contents chunks)) [
    | inl c ↦ let (e, r) = read-breaks chunks [] c in breaks e c r
    | inr (b, c) ↦ elim (le_or_lt (length b) limit) [
      | inl fits ↦ whole b c fits (read-fits chunks [] b c (omega arith))
      | inr over ↦ exceeds b c over (read-exceeds chunks [] b c (omega arith) (omega arith))
    ]
  ]
