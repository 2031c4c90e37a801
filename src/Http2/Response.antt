-- ===== src/Http2/Response.antt =====
use vless_core_cli.Prelude.{
  ℕ, ◌+◌, ◌-◌, ◌^◌, Bool, true, false, ◌&&◌, ◌||◌, not, ltb, leb, ◌==◌, if◌then◌else◌, length,
}

-- `core_http2_response_t`
pub record Response : Type 0 where
  pub content_length : ℕ
  pub received : ℕ
  pub headers : Bool
  pub ended : Bool
  pub has_content_length : Bool
  pub no_body : Bool

-- The fields of `core_hpack_headers_t` that are read here.
pub record Headers : Type 0 where
  pub status : ℕ
  pub status_seen : Bool
  pub other_pseudo : Bool
  pub has_te : Bool
  pub has_content_length : Bool
  pub content_length : ℕ

-- 0 is `true`, and -1 is `false`.
abbrev pub Outcome : Type 0
Outcome = Bool × Response

-- `finish_response`
unfoldable pub finish : Response → Bool → Outcome
finish r end =
    if not end
    then (true, r)
    else if r.has_content_length && not r.no_body && not (r.received == r.content_length)
    then (false, r)
    else (true, record r { ended = true })

-- `core_http2_response_headers`
unfoldable pub response_headers : Response → Headers → Bool → Outcome
unfolding finish
response_headers r h end =
    if r.ended || h.other_pseudo || h.has_te || h.status == 101
    then (false, r)
    else if leb 100 h.status && ltb h.status 200
    then (not (r.headers || end || h.has_content_length), r)
    else if not r.headers
    then (if not h.status_seen || ltb h.status 200 || ltb 599 h.status
        then (false, r)
        else (let r' = record r {
          headers = true;
          has_content_length = h.has_content_length;
          content_length = h.content_length;
          no_body = r.no_body || h.status == 204 || h.status == 304;
        } in
            if h.status == 204 && h.has_content_length then (false, r') else finish r' end))
    else if h.status_seen || not end || h.has_content_length
    then (false, r)
    else finish r end

-- `core_http2_response_data` at `length` bytes of DATA
unfoldable pub response_data : Response → ℕ → Bool → Outcome
unfolding finish
response_data r length end =
    if not r.headers
      || r.ended
      || (r.no_body && not (length == 0))
      || ltb (2 ^ 64 - 1 - r.received) length
    then (false, r)
    else (let r' = record r { received = r.received + length } in
        if r.has_content_length && ltb r.content_length r'.received
        then (false, r')
        else finish r' end)

-- `request` says whether the response is to a request that has no body, such as HEAD.
abbrev pub fresh : Bool → Response
fresh no_body = record {
  content_length = 0;
  received = 0;
  headers = false;
  ended = false;
  has_content_length = false;
  no_body = no_body;
}
