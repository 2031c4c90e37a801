-- ===== src/Grpc/Parameters.antt =====
-- src/grpc.c: the parameters of gRPC in a configuration.
use vless_core_cli.Prelude.{
  ℕ, ◌+◌, ◌-◌, ◌*◌, ◌/◌, ◌%◌, ◌^◌, ◌≤◌, ◌<◌, Bool, true, false, ◌&&◌, ◌||◌, not, [], ◌∷◌, Option,
  none, some, ltb, leb, ◌==◌, if◌then◌else◌, length, Bytes, ◌≡◌, ◌↔◌, refl, ap, inl, inr, arith,
  Bool-cases, map, codes, same_bytes,
}
use vless_core_cli.Grpc.{Decoder, release_message, fresh}
use native.Mathlib.Nat.{mod-eq_of_lt}
use vless_core_cli.Cli.Numbers.{AreDigits, decimal, refuses_digit_iff, number_iff}
use vless_core_cli.Cli.{number, number_loop, refuses_digit}

-- The fields of `vless_config_t` that a parameter sets.
pub record Options : Type 0 where
  pub user_agent : Bytes
  pub permit_without_stream : Bool
  pub idle_timeout : ℕ
  pub health_timeout : ℕ
  pub initial_window : ℕ

-- The answers of `core_grpc_parameter`: 0, 1 and -1.
pub data Setting : Type 0 where
  unknown : Setting
  taken : Options → Setting
  wrong : Setting

abbrev lower : ℕ → ℕ
lower c = if leb 65 c && leb c 90 then c + 32 else c

-- `strcasecmp`, against a text in lower case
abbrev same_text : Bytes → Bytes → Bool
same_text value text = same_bytes (map lower value) text

abbrev pub agent_bytes : Bytes → Bool
agent_bytes [] = true
agent_bytes (c ∷ cs) = not (ltb c 32 || c == 127) && agent_bytes cs

unfoldable pub set_agent : Bytes → Options → Setting
set_agent value o =
    if length value == 0 || leb 256 (length value)
    then wrong
    else if agent_bytes value
    then taken (record o { user_agent = value })
    else wrong

unfoldable pub set_permit : Bytes → Options → Setting
set_permit value o =
    if same_bytes value (codes "1") || same_text value (codes "true")
    then taken (record o { permit_without_stream = true })
    else if same_bytes value (codes "0") || same_text value (codes "false")
    then taken (record o { permit_without_stream = false })
    else wrong

-- The loop over the digits.
unfoldable pub digits_loop : ℕ → ℕ → Bytes → Option ℕ
digits_loop maximum result [] = some result
digits_loop maximum result (c ∷ cs) =
    let next = (result * 10 + (c - 48)) % 2 ^ 32 in
    let rest = digits_loop maximum next cs in
    if not (leb 48 c && leb c 57) || ltb (maximum / 10) result
    then none
    else if ltb maximum next
    then none
    else rest

unfoldable pub parameter_number : Bytes → ℕ → ℕ → Option ℕ
unfolding digits_loop
parameter_number [] minimum maximum = none
parameter_number (c ∷ cs) minimum maximum = elim (digits_loop maximum 0 (c ∷ cs)) [
  | none ↦ none
  | some result ↦ if ltb result minimum then none else some result
]

abbrev set_number : Option ℕ → (ℕ → Options) → Setting
set_number none write = wrong
set_number (some result) write = taken (write result)

-- `core_grpc_parameter`
unfoldable pub set_parameter : Bytes → Bytes → Options → Setting
unfolding set_agent set_permit parameter_number
set_parameter key value o =
    if same_bytes key (codes "useragent")
    then set_agent value o
    else if same_bytes key (codes "permitwithoutstream")
    then set_permit value o
    else if same_bytes key (codes "idletimeout")
    then set_number (parameter_number value 0 2147483647) (λ n. record o { idle_timeout = n })
    else if same_bytes key (codes "healthchecktimeout")
    then set_number (parameter_number value 0 2147483647) (λ n. record o { health_timeout = n })
    else if same_bytes key (codes "initialwindowssize")
    then set_number (parameter_number value 1 262144) (λ n. record o { initial_window = n })
    else unknown

-- `core_grpc_clear`: all of the state is zero but the memory that the others hold.
unfoldable pub clear_message : Decoder → Decoder
clear_message s = fresh false (release_message s).total

two_tests {ℓ} :
    {A : Type ℓ} (a b c : Bool) (x y : Option A)
    → (a || b) ≡ c
    → x ≡ y
    → (if a then none else if b then none else x) ≡ (if c then none else y)
two_tests true b c x y e f = rw (← e) refl
two_tests false true c x y e f = rw (← e) refl
two_tests false false c x y e f = rw (← e) f

-- The two tests against the overflow, before and after a digit, are the one of the startup arguments.
same_test :
    (maximum result c : ℕ)
    → maximum < 2 ^ 31
    → (not (leb 48 c && leb c 57)
        || ltb (maximum / 10) result
        || ltb maximum ((result * 10 + (c - 48)) % 2 ^ 32))
      ≡ refuses_digit maximum result c
same_test maximum result c small =
    elim (Bool-cases (not (leb 48 c && leb c 57) || ltb (maximum / 10) result)) [
      | inl e ↦ elim (Bool-cases (refuses_digit maximum result c)) [
        | inl f ↦ rw (e, f) refl
        | inr f ↦
            let (digit, fits) = (refuses_digit_iff maximum result c).0 f in
            absurd (ground (arith, e, digit, fits))
      ]
      | inr e ↦
          let digit : (48 ≤ c) × (c ≤ 57) = ground (arith, e) in
          let low : result ≤ maximum / 10 = ground (arith, e) in
          let whole : (result * 10 + (c - 48)) % 2 ^ 32 ≡ result * 10 + (c - 48) =
            mod-eq_of_lt (omega (arith, digit, low, small)) in
          elim (Bool-cases (refuses_digit maximum result c)) [
            | inl f ↦ elim (Bool-cases (ltb maximum (result * 10 + (c - 48)))) [
              | inl g ↦ rw (e, whole, f) g
              | inr g ↦
                  let kept = (refuses_digit_iff maximum result c).1 (digit, ground (arith, g)) in
                  absurd (cc (f, kept))
            ]
            | inr f ↦
                let (digit, fits) = (refuses_digit_iff maximum result c).0 f in
                rw (e, whole, f) (ground (arith, fits))
          ]
    ]

digits_loop-number_loop :
    (maximum : ℕ)
    → maximum < 2 ^ 31
    → (result : ℕ) (cs : Bytes) → digits_loop maximum result cs ≡ number_loop maximum result cs
unfolding digits_loop number_loop
digits_loop-number_loop maximum small result [] = refl
digits_loop-number_loop maximum small result (c ∷ cs) =
    let next : ℕ = (result * 10 + (c - 48)) % 2 ^ 32 in
    two_tests (not (leb 48 c && leb c 57) || ltb (maximum / 10) result) (ltb maximum next)
      (refuses_digit maximum result c) (digits_loop maximum next cs) (number_loop maximum next cs)
      (same_test maximum result c small) (digits_loop-number_loop maximum small next cs)

-- The two readers of decimal numbers, that of the startup arguments and that of the parameters, agree on
-- every text and every range within an `int`.
pub parameter_number-number :
    (text : Bytes) (minimum maximum : ℕ)
    → maximum < 2 ^ 31
    → parameter_number text minimum maximum ≡ number text minimum maximum
unfolding parameter_number number
parameter_number-number [] minimum maximum small = refl
parameter_number-number (c ∷ cs) minimum maximum small =
    ap
      (λ (r : Option ℕ). elim r [
        | none ↦ none
        | some result ↦ if ltb result minimum then none else some result
      ])
      (digits_loop-number_loop maximum small 0 (c ∷ cs))

-- The numbers of a parameter: a text is taken exactly when it is the decimal notation of a number in the
-- range, leading zeros allowed, for every range within an `int`; the wrap-around of the sum never hides
-- an overflow.
pub parameter_number_iff :
    (text : Bytes) (minimum maximum n : ℕ)
    → maximum < 2 ^ 31
    → (parameter_number text minimum maximum ≡ some n)
      ↔ ((0 < length text) × AreDigits text × (decimal 0 text ≡ n) × (minimum ≤ n) × (n ≤ maximum))
parameter_number_iff text minimum maximum n small =
    rw (parameter_number-number text minimum maximum small)
      (number_iff text minimum maximum n (omega (arith, small)))
