-- ===== src/Proxy/Response/Seal.antt =====
-- Every response that the proxy builds from a worker's is marked as its own.
use summer21_rusty_workers.Prelude.{
  Bool-cases, ◌≤◌, ◌<◌, ◌≡◌, inl, inr, true, Option, none, some, [], ◌∷◌, arith,
}
use summer21_rusty_workers.Types.{ResponseObject}
use summer21_rusty_workers.Proxy.State.{ok}
use summer21_rusty_workers.Proxy.Response.{
  Http, Response, server, rworkers, respond, sealed, is_status, body_bytes,
}

module _ (http : Http) where
  open http use {Headers, get_all, get_all-insert}

  -- What is known of a response built from that of a worker.
  pub record Sealed (res : ResponseObject) (out : Response http) : Type 0 where
    same_status : out.status ≡ res.status
    is_valid : (100 ≤ out.status) × (out.status < 1000)
    same_body : out.body ≡ body_bytes res.body
    one_server : get_all server out.headers ≡ rworkers ∷ []

  sealed-Sealed :
      (res : ResponseObject) (h : Option Headers) (out : Response http)
      → is_status res.status ≡ true
      → sealed http res.status (body_bytes res.body) h ≡ ok out
      → Sealed res out
  unfolding sealed is_status
  sealed-Sealed res none out v e = cc
  sealed-Sealed res (some h) out v e = record {
    same_status = ground arith;
    is_valid = ground arith;
    same_body = ground arith;
    one_server = ground (arith, get_all-insert server rworkers h);
  }

  -- A response of a worker is passed on with its status and body, only if the status is between 100
  -- and 999, and with the one `server` header of the proxy, whatever headers the worker sent.
  pub respond-Sealed :
      (res : ResponseObject) (out : Response http) → respond http res ≡ ok out → Sealed res out
  unfolding respond
  respond-Sealed res out e = elim (Bool-cases (is_status res.status)) [
    | inl v ↦ sealed-Sealed res _ out v (rw (v, respond) at e)
    | inr v ↦ cc (v, e)
  ]
