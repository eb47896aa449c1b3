-- ===== src/Body/Tests.antt =====
-- A body that meets each case of `read_request_body`.
use summer21_rusty_workers.Prelude.{ℕ, [], ◌∷◌}
use summer21_rusty_workers.Body.{bytes}
use summer21_rusty_workers.Body.Limit.{Reading, read_request_body-Reading}

read_request_body-Reading_example :
    Reading {E = ℕ} 4 1 2 (bytes (1 ∷ 2 ∷ []) ∷ bytes (3 ∷ 4 ∷ 5 ∷ []) ∷ bytes [] ∷ [])
read_request_body-Reading_example =
    read_request_body-Reading 4 1 2 (bytes (1 ∷ 2 ∷ []) ∷ bytes (3 ∷ 4 ∷ 5 ∷ []) ∷ bytes [] ∷ [])
