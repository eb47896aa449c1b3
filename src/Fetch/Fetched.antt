-- ===== src/Fetch/Fetched.antt =====
-- What a response of the fetch service says of the request that was made.
use summer21_rusty_workers.Prelude.{
  ◌≤◌, ◌≡◌, refl, sym, ap, subst, ◌∙◌, inl, inr, false, Option, none, some, List, [], ◌∷◌, ◌++◌,
  length, ltb, arith, if◌then◌else◌, Bool-cases, append_assoc, append-nil, All,
}
use summer21_rusty_workers.Bytes.{Bytes, equals, equals→eq, equals_refl}
use summer21_rusty_workers.BtreeMap
use summer21_rusty_workers.BtreeMap.{BtreeMap, get-insert}
use summer21_rusty_workers.Types.{RequestObject, ResponseObject, binary}
use summer21_rusty_workers.Fetch.{
  max_response_body_size, host, Result, ok, err, ◌>>=◌, Outgoing, Incoming, Http, or_fail,
  append_headers, remove_all, body_of, target_request, read_chunks, or_empty, push, read_headers,
  target_response, run_fetch, not_a_text, not_sent, bad_url, bad_method, FetchError,
}

-- What a chain of steps that succeeds went through.
bind-ok :
    {A B : Type 0} (r : Result A) (f : A → Result B) (b : B)
    → r >>= f ≡ ok b
    → (a : A) × (r ≡ ok a) × (f a ≡ ok b)
bind-ok (ok a) f b h = (a, refl, h)
bind-ok (err e) f b h = absurd cc

ok-inj : {A : Type 0} {a b : A} → ok a ≡ ok b → a ≡ b
ok-inj h = grind arith

or_fail-ok : {A : Type 0} (e : FetchError) (o : Option A) (a : A) → or_fail e o ≡ ok a → o ≡ some a
unfolding or_fail
or_fail-ok e none a h = absurd cc
or_fail-ok e (some x) a h = grind arith

abbrev pub join : Bytes → Option Bytes → Option Bytes
join x none = none
join x (some rest) = some (x ++ rest)

-- The whole body, if the connection did not break.
abbrev pub contents : List (Option Bytes) → Option Bytes
contents [] = some []
contents (none ∷ chunks) = none
contents (some x ∷ chunks) = join x (contents chunks)

join-join : (x y : Bytes) (o : Option Bytes) → join x (join y o) ≡ join (x ++ y) o
join-join x y none = refl
join-join x y (some rest) = ap some (sym (append_assoc x y rest))

join-nil : (o : Option Bytes) → join [] o ≡ o
join-nil none = refl
join-nil (some rest) = refl

read_chunks-ok :
    (body all : Bytes) (chunks : List (Option Bytes))
    → length body ≤ max_response_body_size
    → read_chunks body chunks ≡ ok all
    → (length all ≤ max_response_body_size) × (join body (contents chunks) ≡ some all)
unfolding read_chunks
read_chunks-ok body all [] small h = (
  subst (λ b. length b ≤ max_response_body_size) (ok-inj h) small,
  ap some (append-nil body ∙ ok-inj h),
)
read_chunks-ok body all (none ∷ chunks) small h = absurd cc
read_chunks-ok body all (some x ∷ chunks) small h =
    elim (Bool-cases (ltb max_response_body_size (length (body ++ x)))) [
      | inl e ↦ absurd (ground arith)
      | inr e ↦
          let (small', there) =
            read_chunks-ok (body ++ x) all chunks (ground arith) (ground arith) in
          (small', join-join body x (contents chunks) ∙ there)
    ]

-- The texts of the lines with a name, in their order.
abbrev pub values : Http → Bytes → List (Bytes × Bytes) → List Bytes
values http k [] = []
values http k ((j, v) ∷ lines) =
    let rest = values http k lines in
    if equals j k then elim (http.to_str v) [ none ↦ rest | some x ↦ x ∷ rest ] else rest

abbrev pub lookup : Bytes → BtreeMap (List Bytes) → List Bytes
lookup k headers = or_empty (BtreeMap.get k headers)

lookup-push_same :
    (k v : Bytes) (headers : BtreeMap (List Bytes))
    → lookup k (push k v headers) ≡ lookup k headers ++ v ∷ []
unfolding push or_empty
lookup-push_same k v headers = ap or_empty (
    get-insert k k (lookup k headers ++ v ∷ []) headers
    ∙ ap (λ b. if b then some (lookup k headers ++ v ∷ []) else BtreeMap.get k headers)
        (equals_refl k))

lookup-push_other :
    (j k v : Bytes) (headers : BtreeMap (List Bytes))
    → equals j k ≡ false
    → lookup k (push j v headers) ≡ lookup k headers
unfolding push
lookup-push_other j k v headers n = ap or_empty (
    get-insert j k (lookup j headers ++ v ∷ []) headers
    ∙ ap (λ b. if b then some (lookup j headers ++ v ∷ []) else BtreeMap.get k headers) n)

values-line :
    (http : Http) (j k v x : Bytes) (headers : BtreeMap (List Bytes)) (lines : List (Bytes × Bytes))
    → http.to_str v ≡ some x
    → lookup k (push j x headers) ++ values http k lines
      ≡ lookup k headers ++ values http k ((j, v) ∷ lines)
values-line http j k v x headers lines t = elim (Bool-cases (equals j k)) [
  | inl e ↦ rw e rw t (
      ap (λ l. l ++ values http k lines)
        (subst (λ i. lookup k (push i x headers) ≡ lookup k headers ++ x ∷ [])
          (sym (equals→eq j k e)) (lookup-push_same k x headers))
      ∙ append_assoc (lookup k headers) (x ∷ []) (values http k lines))
  | inr e ↦ rw e (ap (λ l. l ++ values http k lines) (lookup-push_other j k x headers e))
]

read_headers-ok :
    (http : Http) (k : Bytes) (headers all : BtreeMap (List Bytes)) (lines : List (Bytes × Bytes))
    → read_headers http headers lines ≡ ok all
    → lookup k all ≡ lookup k headers ++ values http k lines
unfolding read_headers
read_headers-ok http k headers all [] h =
    sym (ap (lookup k) (ok-inj h)) ∙ sym (append-nil (lookup k headers))
read_headers-ok http k headers all ((j, v) ∷ lines) h =
    let (x, there, rest) =
      bind-ok (or_fail not_a_text (http.to_str v)) (λ x. read_headers http (push j x headers) lines)
        all h in
    read_headers-ok http k (push j x headers) all lines rest
    ∙ values-line http j k v x headers lines (or_fail-ok not_a_text (http.to_str v) x there)

remove_all-All :
    (name : Bytes) (headers : List (Bytes × Bytes))
    → All (λ e. equals e.0 name ≡ false) (remove_all name headers)
unfolding remove_all
remove_all-All name [] = tt
remove_all-All name ((k, v) ∷ headers) = ground (arith, remove_all-All name headers)

-- A response with what the answer holds.
pub record Answers (http : Http) (answer : Incoming) (res : ResponseObject) : Type 0 where
  pub status : res.status ≡ answer.status
  pub whole : contents answer.chunks ≡ some (body_of res.body)
  pub small : length (body_of res.body) ≤ max_response_body_size
  pub headers : (k : Bytes) → lookup k res.headers ≡ values http k answer.headers

-- What the response of a fetch says: a request was made with the body of the worker's request and without
-- a `host` header, it was answered whole, within 8 MiB, and each header has the texts of its lines.
pub record Fetched (http : Http) (req : RequestObject) (res : ResponseObject) : Type 0 where
  pub target : Outgoing
  pub answer : Incoming
  pub without_host : All (λ e. equals e.0 host ≡ false) target.headers
  pub same_body : target.body ≡ body_of req.body
  pub answered : http.execute target ≡ some answer
  pub answers : Answers http answer res

target-ok :
    (http : Http) (req : RequestObject) (target : Outgoing)
    → target_request http req ≡ ok target
    → All (λ e. equals e.0 host ≡ false) target.headers × (target.body ≡ body_of req.body)
unfolding target_request
target-ok http req target h =
    let (url, _, h1) = bind-ok (or_fail bad_url (http.parse_url req.url)) _ target h in
    let (method, _, h2) = bind-ok (or_fail bad_method (http.parse_method req.method)) _ target h1 in
    let (headers, _, h3) = bind-ok (append_headers http req.headers) _ target h2 in
    (
      subst (λ t. All (λ e. equals e.0 host ≡ false) t.headers) (ok-inj h3)
          (remove_all-All host headers),
      sym (ap (λ t. t.body) (ok-inj h3)),
    )

-- The response, made of what was read.
made-Answers :
    (http : Http) (answer : Incoming) (body : Bytes) (headers : BtreeMap (List Bytes))
    → read_chunks [] answer.chunks ≡ ok body
    → read_headers http [] answer.headers ≡ ok headers
    → Answers http answer (record { headers = headers; status = answer.status; body = binary body })
unfolding or_empty BtreeMap.get
made-Answers http answer body headers read lines =
    let (small, whole) = read_chunks-ok [] body answer.chunks (omega arith) read in
    record {
      status = refl;
      whole = sym (join-nil (contents answer.chunks)) ∙ whole;
      small = small;
      headers = λ k. read_headers-ok http k [] headers answer.headers lines;
    }

response-Answers :
    (http : Http) (answer : Incoming) (res : ResponseObject)
    → target_response http answer ≡ ok res
    → Answers http answer res
unfolding target_response
response-Answers http answer res h =
    let (body, read, h1) = bind-ok (read_chunks [] answer.chunks) _ res h in
    let (headers, lines, h2) = bind-ok (read_headers http [] answer.headers) _ res h1 in
    subst (Answers http answer) (ok-inj h2) (made-Answers http answer body headers read lines)

-- A fetch that succeeds returns the answer of a request with the worker's body and without a `host`
-- header: its status, its whole body, of at most 8 MiB, and for each header the texts of its
-- lines in their order.
pub run_fetch-Fetched :
    (http : Http) (req : RequestObject) (res : ResponseObject)
    → run_fetch http req ≡ ok res
    → Fetched http req res
unfolding run_fetch
run_fetch-Fetched http req res h =
    let (target, ready, h1) = bind-ok (target_request http req) _ res h in
    let (answer, sent, h2) = bind-ok (or_fail not_sent (http.execute target)) _ res h1 in
    let (without_host, same_body) = target-ok http req target ready in
    record {
      target = target;
      answer = answer;
      without_host = without_host;
      same_body = same_body;
      answered = or_fail-ok not_sent (http.execute target) answer sent;
      answers = response-Answers http answer res h2;
    }
