-- ===== src/Grpc/Media.antt =====
-- src/grpc.c: the content type of a gRPC response.
use vless_core_cli.Prelude.{
  ℕ, ◌+◌, Bool, true, false, ◌&&◌, ◌||◌, not, [], ◌∷◌, Option, none, some, ltb, leb, ◌==◌,
  if◌then◌else◌, take, drop, length, Bytes, ◌≡◌, refl, map, ◌>>=◌, codes, same_bytes, contains,
}
use vless_core_cli.Prelude.Loops.{Turn, failed, went, Read, done, read_loop}

-- The marks of a token in RFC 9110.
unfoldable pub token_mark : ℕ → Bool
token_mark c = contains c (codes "!#$%&'*+-.^_`|~")

-- `media_token`
unfoldable pub media_token : ℕ → Bool
unfolding token_mark
media_token c =
    leb 97 c && leb c 122 || leb 65 c && leb c 90 || leb 48 c && leb c 57 || token_mark c

-- What is behind the tokens, and behind the blanks.
unfoldable pub skip_tokens : Bytes → Bytes
unfolding media_token
skip_tokens [] = []
skip_tokens (c ∷ cs) = let rest = skip_tokens cs in if media_token c then rest else c ∷ cs

abbrev is_blank : ℕ → Bool
is_blank c = c == 32 || c == 9

unfoldable pub skip_blanks : Bytes → Bytes
skip_blanks [] = []
skip_blanks (c ∷ cs) = let rest = skip_blanks cs in if is_blank c then rest else c ∷ cs

-- What is behind at least one token.
unfoldable pub some_tokens : Bytes → Option Bytes
unfolding skip_tokens
some_tokens cs = let rest = skip_tokens cs in if length rest == length cs then none else some rest

abbrev is_control : ℕ → Bool
is_control c = ltb c 32 && not (c == 9) || c == 127

-- What is behind the closing quote.
unfoldable pub quoted : Bytes → Option Bytes
quoted [] = none
quoted (c ∷ []) = if c == 34 then some [] else none
quoted (c ∷ d ∷ cs) =
    let escaped = quoted cs in
    let plain = quoted (d ∷ cs) in
    if c == 34
    then some (d ∷ cs)
    else if c == 92
    then if is_control d then none else escaped
    else if is_control c
    then none
    else plain

-- The value of a parameter.
unfoldable pub parameter_value : Bytes → Option Bytes
unfolding quoted some_tokens
parameter_value [] = none
parameter_value (c ∷ cs) = if c == 34 then quoted cs else some_tokens (c ∷ cs)

-- What is behind the byte `c`.
unfoldable pub behind : ℕ → Bytes → Option Bytes
behind c [] = none
behind c (b ∷ bs) = if b == c then some bs else none

-- A parameter of `core_grpc_content_type`, from the blanks before its semicolon.
unfoldable pub parameter : Bytes → Option Bytes
unfolding behind some_tokens parameter_value skip_blanks
parameter cs = do
  named ← behind 59 (skip_blanks cs)
  equals ← some_tokens (skip_blanks named)
  value ← behind 61 equals
  parameter_value value

-- A round of the loop over the parameters.
unfoldable pub parameter_round : Unit {0} → Bytes → Turn (Unit {0})
unfolding parameter
parameter_round u cs = elim (parameter cs) [ none ↦ failed u | some rest ↦ went u rest ]

abbrev lower : ℕ → ℕ
lower c = if leb 65 c && leb c 90 then c + 32 else c

unfoldable pub parameters : Bytes → Read (Unit {0})
unfolding read_loop parameter_round
parameters cs = read_loop parameter_round (length cs) tt cs

-- What is behind the suffix of the subtype.
unfoldable pub subtype_suffix : Bytes → Option Bytes
unfolding some_tokens
subtype_suffix [] = some []
subtype_suffix (c ∷ cs) = if c == 43 then some_tokens cs else some (c ∷ cs)

-- `core_grpc_content_type`
unfoldable pub content_type : Bytes → Bool
unfolding parameters subtype_suffix
content_type value =
    if not (same_bytes (map lower (take 16 value)) (codes "application/grpc"))
    then false
    else elim (subtype_suffix (drop 16 value)) [
      | none ↦ false
      | some rest ↦ elim (parameters rest) [ done u ↦ true | _ ↦ false ]
    ]

plain_type : content_type (codes "application/grpc") ≡ true
unfolding content_type
plain_type = refl

long_type : content_type (codes "Application/gRPC+proto ;a=b; c=\"d\\\"e\"") ≡ true
unfolding content_type
long_type = refl

short_type : content_type (codes "application/grpc ") ≡ false
unfolding content_type
short_type = refl
