-- ===== src/Http2/Responses.antt =====
-- Invariants of the course of a response in src/http2.c.
use vless_core_cli.Prelude.{ℕ, ◌^◌, ◌≤◌, ◌<◌, Bool, true, false, length, ◌≡◌, arith}
use vless_core_cli.Http2.Response.{Response, Headers, response_headers, response_data, fresh}

-- A call that succeeds. After a failure the caller closes the stream.
pub data Step : Response → Response → Type 0 where
  on_headers :
      {r r' : Response} (h : Headers) (end : Bool)
      → response_headers r h end ≡ (true, r')
      → Step r r'
  on_data :
      {r r' : Response} (length : ℕ) (end : Bool)
      → response_data r length end ≡ (true, r')
      → Step r r'

pub data Reach (r : Response) : Response → Type 0 where
  here : Reach r r
  next : {s t : Response} → Reach r s → Step s t → Reach r t

pub record IsSound (r : Response) : Type 0 where
  pub fits : r.received < 2 ^ 64
  pub early :
      r.headers ≡ false → (r.received ≡ 0) × (r.ended ≡ false) × (r.has_content_length ≡ false)
  pub bodiless : r.headers ≡ true → r.no_body ≡ true → r.received ≡ 0
  pub bounded : r.has_content_length ≡ true → r.received ≤ r.content_length
  pub complete :
      r.ended ≡ true
      → r.has_content_length ≡ true
      → r.no_body ≡ false
      → r.received ≡ r.content_length

Step-IsSound : {r r' : Response} → Step r r' → IsSound r → IsSound r'
unfolding response_headers response_data
Step-IsSound (on_headers {r} h end e) v = record {
  fits = ground arith;
  early = λ p. ground arith;
  bodiless = λ p q. ground arith;
  bounded = λ p. ground arith;
  complete = λ p q s. ground arith;
}
Step-IsSound (on_data {r} length end e) v = record {
  fits = ground arith;
  early = λ p. ground arith;
  bodiless = λ p q. ground arith;
  bounded = λ p. ground arith;
  complete = λ p q s. ground arith;
}

-- In every response that is taken without an error, no body comes before the headers or where
-- none is allowed, the body stays within its Content-Length, and when the response has ended it
-- has exactly that length; the count of 64 bits does not wrap.
pub Reach-IsSound : {no_body : Bool} {r : Response} → Reach (fresh no_body) r → IsSound r
Reach-IsSound here = ground arith
Reach-IsSound (next r s) = Step-IsSound s (Reach-IsSound r)

-- After the end nothing is accepted, and nothing changes.
pub ended_refuses :
    (r : Response) (h : Headers) (length : ℕ) (end : Bool)
    → r.ended ≡ true
    → (response_headers r h end ≡ (false, r)) × (response_data r length end ≡ (false, r))
unfolding response_headers response_data
ended_refuses r h length end e = (ground arith, ground arith)
