-- ===== src/Grpc/Trailers.antt =====
-- src/grpc.c: the headers and the trailers of a gRPC response.
use vless_core_cli.Prelude.{
  ℕ, Bool, true, false, ◌&&◌, ◌||◌, not, Option, none, some, ltb, ◌==◌, if◌then◌else◌, ◌≡◌, refl,
  ◌↔◌, arith,
}
use vless_core_cli.Hpack.Fields.{Headers}

-- The answers of `core_grpc_response_headers`: 0, or -1 with its reason or the status it reports.
pub data Verdict : Type 0 where
  accepted : Verdict
  bad_content_type : Verdict
  content_type_in_trailers : Verdict
  status_not_terminal : Verdict
  no_status : Verdict
  not_ok : ℕ → Option ℕ → Verdict
  peer_status : ℕ → Verdict

-- The gRPC status for a status of HTTP.
unfoldable pub mapped_status : ℕ → ℕ
mapped_status status =
    if status == 400
    then 13
    else if status == 401
    then 16
    else if status == 403
    then 7
    else if status == 404
    then 12
    else if status == 429 || status == 502 || status == 503 || status == 504
    then 14
    else 2

-- A status as it is reported: -1 and what is above 16 are 2.
unfoldable pub reported : Option ℕ → ℕ
reported none = 2
reported (some status) = if ltb 16 status then 2 else status

-- What the status at the end of a response says.
unfoldable pub final_status : Option ℕ → Verdict
unfolding reported
final_status none = peer_status (reported none)
final_status (some status) = if status == 0 then accepted else peer_status (reported (some status))

-- The status for the first headers of a response that are not those of status 200.
unfoldable pub failed_status : Headers → Bool → Option ℕ
unfolding mapped_status
failed_status h last =
    elim (if last && h.has_grpc_status then h.grpc_status else some (mapped_status h.status)) [
      | none ↦ none
      | some status ↦ some (if status == 0 then 2 else status)
    ]

-- `core_grpc_response_headers`; the first headers are `initial`, and the last ones `last`.
unfoldable pub response_headers : Headers → Bool → Bool → Verdict
response_headers h initial last =
    if initial && not (h.status == 200)
    then not_ok h.status (failed_status h last)
    else if initial && (not (h.content_type_seen == 1) || not h.grpc_content_type)
    then bad_content_type
    else if not initial && not (h.content_type_seen == 0)
    then content_type_in_trailers
    else if h.has_grpc_status && not last
    then status_not_terminal
    else if last && not h.has_grpc_status
    then no_status
    else if last
    then final_status h.grpc_status
    else accepted

-- What a response without an error has in its headers.
pub record IsAccepted (h : Headers) (initial last : Bool) : Type 0 where
  pub ok :
      initial ≡ true → (h.status ≡ 200) × (h.content_type_seen ≡ 1) × (h.grpc_content_type ≡ true)
  pub plain : initial ≡ false → h.content_type_seen ≡ 0
  pub terminal : h.has_grpc_status ≡ last
  pub zero_status : last ≡ true → h.grpc_status ≡ some 0

final_status-accepted : (status : Option ℕ) → final_status status ≡ accepted → status ≡ some 0
unfolding final_status
final_status-accepted none e = absurd (cc e)
final_status-accepted (some status) e = ground (arith, e)

-- Headers are accepted exactly when the first ones have the status 200 and one gRPC content type, later
-- ones have none, and the last ones, and no others, have the gRPC status 0.
pub response_headers_iff :
    (h : Headers) (initial last : Bool)
    → (response_headers h initial last ≡ accepted) ↔ IsAccepted h initial last
unfolding response_headers final_status
response_headers_iff h true true = (
  λ e. ground (arith, e, final_status-accepted h.grpc_status),
  λ v. ground (arith, v.ok refl, v.terminal, v.zero_status refl),
)
response_headers_iff h true false =
    (λ e. ground (arith, e), λ v. ground (arith, v.ok refl, v.terminal))
response_headers_iff h false true = (
  λ e. ground (arith, e, final_status-accepted h.grpc_status),
  λ v. ground (arith, v.plain refl, v.terminal, v.zero_status refl),
)
response_headers_iff h false false = (λ e. ground (arith, e), λ v. ground (arith, v))
