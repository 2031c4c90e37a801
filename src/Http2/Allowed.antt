-- ===== src/Http2/Allowed.antt =====
-- The settings that `core_http2_alps_parse` of src/http2.c lets through.
use vless_core_cli.Prelude.{
  ℕ, zero, suc, ◌+◌, ◌%◌, ◌^◌, ◌≤◌, true, ◌||◌, [], ◌∷◌, none, some, ltb, ◌==◌, take, drop, length,
  Bytes, ◌≡◌, refl, ap, ◌⊎◌, inl, inr, arith, Bool-cases, Option-cases, length-drop, bit, word16,
  word24, word32,
}
use vless_core_cli.Http2.{
  Verdict, accepted, connection_failed, stream_failed, setting_error, settings_error,
  validate_frame,
}
use vless_core_cli.Http2.Accepted.{validate_frame-IsFrame}
use vless_core_cli.Http2.Alps.{
  Settings, defaults, apply_setting, apply_settings, alps_state, settings_body, alps_body,
  alps_loop, alps_parse, IsAllowed, skip_field, skip_pairs,
}

apply_setting-IsAllowed :
    (t : Settings) (id value : ℕ)
    → IsAllowed t
    → setting_error id value ≡ none
    → IsAllowed (apply_setting t id value)
unfolding apply_setting setting_error
apply_setting-IsAllowed t id value v h = record {
  window = ground (arith, v.window);
  least = ground (arith, v.least);
  most = ground (arith, v.most);
}

settings_error_front :
    (a b c d e f : ℕ) (rest : Bytes)
    → settings_error (a ∷ b ∷ c ∷ d ∷ e ∷ f ∷ rest) ≡ none
    → (setting_error (word16 a b) (word32 c d e f) ≡ none) × (settings_error rest ≡ none)
unfolding settings_error
settings_error_front a b c d e f rest h = ground arith

apply_settings-IsAllowed :
    (t : Settings) (body : Bytes)
    → IsAllowed t
    → settings_error body ≡ none
    → IsAllowed (apply_settings t body)
unfolding apply_settings
apply_settings-IsAllowed t (a ∷ b ∷ c ∷ d ∷ e ∷ f ∷ rest) v h =
    let (first, later) = settings_error_front a b c d e f rest h in
    apply_settings-IsAllowed (apply_setting t (word16 a b) (word32 c d e f)) rest
      (apply_setting-IsAllowed t (word16 a b) (word32 c d e f) v first) later
apply_settings-IsAllowed t _ v h = v

Verdict-cases : (v : Verdict) → (v ≡ accepted) ⊎ ((v ≡ connection_failed) ⊎ (v ≡ stream_failed))
Verdict-cases accepted = inl refl
Verdict-cases connection_failed = inr (inl refl)
Verdict-cases stream_failed = inr (inr refl)

settings_body-IsAllowed :
    (t : Settings) (flags stream : ℕ) (body : Bytes) {u : Settings}
    → IsAllowed t
    → settings_body t flags stream body ≡ some u
    → IsAllowed u
unfolding settings_body
settings_body-IsAllowed t flags stream body {u} v h = elim (Bool-cases (bit flags 0)) [
  | inl e ↦ absurd (ground (arith, h, e))
  | inr e ↦
      let p = validate_frame alps_state 4 flags stream body in
      elim (Verdict-cases p.0) [
        | inl f ↦
            let frame =
              validate_frame-IsFrame alps_state 4 flags stream body {t = p.1}
                (ap (λ x. (x, p.1)) f) in
            let t' = record t { received = true } in
            let w : IsAllowed t' = record { window = v.window; least = v.least; most = v.most } in
            let kept = apply_settings-IsAllowed t' body w (frame.settings refl e).1 in
            let same : u ≡ apply_settings t' body = ground (arith, h, e, f) in rw same kept
        | inr (inl f) ↦ absurd (ground (arith, h, e, f))
        | inr (inr f) ↦ absurd (ground (arith, h, e, f))
      ]
]

alps_body-IsAllowed :
    (t : Settings) (type flags stream : ℕ) (body : Bytes) {u : Settings}
    → IsAllowed t
    → alps_body t type flags stream body ≡ some u
    → IsAllowed u
unfolding alps_body
alps_body-IsAllowed t type flags stream body {u} v h = elim (Bool-cases (type == 4)) [
  | inl e ↦
      let taken : settings_body t flags stream body ≡ some u = ground (arith, h, e) in
      settings_body-IsAllowed t flags stream body v taken
  | inr e ↦ let same : u ≡ t = ground (arith, h, e) in rw same v
]

alps_loop-IsAllowed :
    (n : ℕ) (t : Settings) (d : Bytes) {u : Settings}
    → IsAllowed t
    → alps_loop n t d ≡ some u
    → IsAllowed u
unfolding alps_loop
alps_loop-IsAllowed zero t [] {u} v h = let same : u ≡ t = ground (arith, h) in rw same v
alps_loop-IsAllowed (suc n) t [] {u} v h = let same : u ≡ t = ground (arith, h) in rw same v
alps_loop-IsAllowed zero t (x ∷ xs) v h = absurd (ground (arith, h))
alps_loop-IsAllowed (suc n) t (a ∷ b ∷ c ∷ type ∷ flags ∷ e ∷ f ∷ g ∷ i ∷ rest) {u} v h =
    let size = word24 a b c in
    let stream = word32 e f g i % 2 ^ 31 in
    elim (Bool-cases (ltb 16384 size || ltb (length rest) size)) [
      | inl p ↦ absurd (ground (arith, h, p))
      | inr p ↦ elim (Option-cases (alps_body t type flags stream (take size rest))) [
        | inl q ↦ absurd (ground (arith, h, p, q))
        | inr (w, q) ↦
            let later : alps_loop n w (drop size rest) ≡ some u = ground (arith, h, p, q) in
            alps_loop-IsAllowed n w (drop size rest)
              (alps_body-IsAllowed t type flags stream (take size rest) v q) later
      ]
    ]
alps_loop-IsAllowed (suc n) t _ v h = absurd (ground (arith, h))

-- The settings that `core_http2_alps_parse` returns are within the bounds of HTTP/2, whatever frames
-- and entries they come from: a window of at most 2 ^ 31 - 1, and frames of 2 ^ 14 to 2 ^ 24 - 1 bytes.
pub alps_parse-IsAllowed : (d : Bytes) {u : Settings} → alps_parse d ≡ some u → IsAllowed u
unfolding alps_parse
alps_parse-IsAllowed d {u} h = elim (Bool-cases (ltb 65535 (length d))) [
  | inl e ↦ absurd (ground (arith, h, e))
  | inr e ↦
      let loop : alps_loop (length d) defaults d ≡ some u = ground (arith, h, e) in
      alps_loop-IsAllowed (length d) defaults d
        (record { window = omega arith; least = omega arith; most = omega arith }) loop
]

skip_field_shorter :
    (d : Bytes) {rest : Bytes} → skip_field d ≡ some rest → length rest + 2 ≤ length d
unfolding skip_field
skip_field_shorter (a ∷ b ∷ d) h = ground (arith, h, length-drop (word16 a b) d)
skip_field_shorter [] h = absurd (ground (arith, h))
skip_field_shorter (a ∷ []) h = absurd (ground (arith, h))

-- The fuel of the loop over fields is enough: more of it changes nothing.
skip_pairs_fuel :
    (n m : ℕ) (d : Bytes) → length d ≤ n → length d ≤ m → skip_pairs n d ≡ skip_pairs m d
unfolding skip_pairs
skip_pairs_fuel zero zero d p q = refl
skip_pairs_fuel zero (suc m) d p q =
    let none_left : length d == 0 ≡ true = ground arith in rw none_left refl
skip_pairs_fuel (suc n) zero d p q =
    let none_left : length d == 0 ≡ true = ground arith in rw none_left refl
skip_pairs_fuel (suc n) (suc m) d p q = elim (Option-cases (skip_field d)) [
  | inl e ↦ rw (e, skip_pairs) refl
  | inr (middle, e) ↦ elim (Option-cases (skip_field middle)) [
    | inl f ↦ rw (e, f, skip_pairs) refl
    | inr (rest, f) ↦
        let same =
          skip_pairs_fuel n m rest
            (omega (arith, skip_field_shorter d e, skip_field_shorter middle f))
            (omega (arith, skip_field_shorter d e, skip_field_shorter middle f)) in
        rw (e, f, same, skip_pairs) refl
  ]
]

-- The fuel of the loop over frames is enough: any two amounts that are at least the length of the
-- input give the same result.
pub alps_loop_fuel :
    (n m : ℕ) (t : Settings) (d : Bytes)
    → length d ≤ n
    → length d ≤ m
    → alps_loop n t d ≡ alps_loop m t d
unfolding alps_loop
alps_loop_fuel zero zero t d p q = refl
alps_loop_fuel zero (suc m) t [] p q = refl
alps_loop_fuel (suc n) zero t [] p q = refl
alps_loop_fuel zero (suc m) t (x ∷ d) p q = absurd (omega arith)
alps_loop_fuel (suc n) zero t (x ∷ d) p q = absurd (omega arith)
alps_loop_fuel (suc n) (suc m) t (a ∷ b ∷ c ∷ type ∷ flags ∷ e ∷ f ∷ g ∷ i ∷ rest) p q =
    let size = word24 a b c in
    elim (Option-cases (alps_body t type flags (word32 e f g i % 2 ^ 31) (take size rest))) [
      | inl r ↦ rw (r, alps_loop) refl
      | inr (u, r) ↦
          let same =
            alps_loop_fuel n m u (drop size rest) (omega (arith, length-drop size rest))
              (omega (arith, length-drop size rest)) in
          rw (r, same, alps_loop) refl
    ]
alps_loop_fuel (suc n) (suc m) t _ p q = refl
