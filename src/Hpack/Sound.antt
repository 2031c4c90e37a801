-- ===== src/Hpack/Sound.antt =====
-- The fields that src/hpack.c notes stay in their ranges.
use vless_core_cli.Prelude.{
  ℕ, ◌+◌, ◌-◌, ◌*◌, ◌/◌, ◌≤◌, Bool, true, false, ◌&&◌, ◌||◌, not, [], ◌∷◌, Option, none, some, ltb,
  leb, ◌==◌, if◌then◌else◌, Bytes, size_max, ◌≡◌, refl, ◌⊎◌, inl, inr, arith, Bool-cases,
  Option-cases, choose, choose_option,
}
use vless_core_cli.Hpack.Fields.{
  Headers, emit_header, Noted, note_size, note_pseudo, note_named, note_te, note_content_type,
  note_status, note_content_length, note_grpc_status, read_status, length_digits, status_digits,
  read_grpc_status, header_limit, pseudo_flag,
}

unfoldable pub IsKnown : Option ℕ → Type 0
IsKnown none = Unit
IsKnown (some status) = status ≤ 16

-- The ranges of what is noted.
pub record IsSound (h : Headers) : Type 0 where
  pub size : h.decoded_size ≤ header_limit + 1
  pub status : (h.status ≡ 0) ⊎ ((100 ≤ h.status) × (h.status ≤ 599))
  pub content : h.content_length ≤ size_max
  pub known : IsKnown h.grpc_status

note_size-IsSound :
    (name value : Bytes) (h : Headers) → IsSound h → IsSound (note_size name value h).0
unfolding note_size
note_size-IsSound name value h v = ground (arith, v)

note_size_fits :
    (name value : Bytes) (h : Headers)
    → (note_size name value h).1 ≡ false
    → (note_size name value h).0.decoded_size ≤ header_limit
unfolding note_size
note_size_fits name value h e = ground (arith, e)

-- A step that leaves the size and the ranges.
unfoldable Keeps : Headers → Noted → Type 0
Keeps h r = IsSound r.0 × (r.0.decoded_size ≡ h.decoded_size)

same-Keeps : (h : Headers) (wrong : Bool) → IsSound h → Keeps h (h, wrong)
unfolding Keeps
same-Keeps h wrong v = (v, refl)

flags-Keeps :
    (h : Headers) (seen : Bool) (pseudo : ℕ) (wrong : Bool)
    → IsSound h
    → Keeps h (record h { regular_seen = seen; other_pseudo = pseudo }, wrong)
unfolding Keeps
flags-Keeps h seen pseudo wrong v =
    (record { size = v.size; status = v.status; content = v.content; known = v.known }, refl)

note_pseudo-Keeps : (name : Bytes) (h : Headers) → IsSound h → Keeps h (note_pseudo name h)
unfolding note_pseudo
note_pseudo-Keeps [] h v = flags-Keeps h true h.other_pseudo false v
note_pseudo-Keeps (c ∷ cs) h v =
    choose (Keeps h) _ _ _ (flags-Keeps h true h.other_pseudo false v) (
      choose (Keeps h) _ _ _ (same-Keeps h _ v) (
        choose_option (Keeps h) (pseudo_flag (c ∷ cs)) _ _ (flags-Keeps h h.regular_seen _ true v)
          (λ k. flags-Keeps h h.regular_seen _ _ v)))

note_te-Keeps : (value : Bytes) (h : Headers) → IsSound h → Keeps h (note_te value h)
unfolding note_te Keeps
note_te-Keeps value h v =
    (record { size = v.size; status = v.status; content = v.content; known = v.known }, refl)

note_content_type-Keeps :
    (value : Bytes) (h : Headers) → IsSound h → Keeps h (note_content_type value h)
unfolding note_content_type Keeps
note_content_type-Keeps value h v =
    (record { size = v.size; status = v.status; content = v.content; known = v.known }, refl)

digits_bound :
    (cs : Bytes) (parsed : ℕ) → parsed ≤ size_max → (length_digits parsed cs).0 ≤ size_max
unfolding length_digits
digits_bound [] parsed le = le
digits_bound (c ∷ cs) parsed le =
    elim (Bool-cases (not (leb 48 c && leb c 57) || ltb ((size_max - (c - 48)) / 10) parsed)) [
      | inl e ↦ rw e le
      | inr e ↦ rw e (digits_bound cs (parsed * 10 + (c - 48)) (ground (arith, e)))
    ]

read_status_range :
    (cs : Bytes) (status : ℕ) → read_status cs ≡ some status → (100 ≤ status) × (status ≤ 599)
unfolding read_status
read_status_range [] status e = absurd (cc e)
read_status_range (a ∷ []) status e = absurd (cc e)
read_status_range (a ∷ b ∷ []) status e = absurd (cc e)
read_status_range (a ∷ b ∷ c ∷ []) status e = ground (arith, e)
read_status_range (a ∷ b ∷ c ∷ d ∷ cs) status e = absurd (cc e)

none-IsKnown : IsKnown none
unfolding IsKnown
none-IsKnown = tt

capped-IsKnown : (status : ℕ) → IsKnown (some (if ltb 16 status then 2 else status))
unfolding IsKnown
capped-IsKnown status = ground arith

read_grpc_status-IsKnown : (cs : Bytes) → IsKnown (read_grpc_status cs)
unfolding read_grpc_status
read_grpc_status-IsKnown [] = none-IsKnown
read_grpc_status-IsKnown (c ∷ cs) =
    choose IsKnown _ _ _ none-IsKnown
      (choose_option IsKnown (status_digits 0 (c ∷ cs)) _ _ none-IsKnown capped-IsKnown)

note_status-Keeps : (value : Bytes) (h : Headers) → IsSound h → Keeps h (note_status value h)
unfolding note_status Keeps
note_status-Keeps value h v = elim (Bool-cases (h.status_seen == 0)) [
  | inl e ↦ elim (Option-cases (read_status value)) [
    | inl f ↦ rw e (
        rw f
          (record { size = v.size; status = v.status; content = v.content; known = v.known }, refl))
    | inr (status, f) ↦ rw e (
        rw f (
          record {
            size = v.size;
            status = inr (read_status_range value status f);
            content = v.content;
            known = v.known;
          },
          refl,
        ))
  ]
  | inr e ↦
      rw e (record { size = v.size; status = v.status; content = v.content; known = v.known }, refl)
]

note_content_length-Keeps :
    (value : Bytes) (h : Headers) → IsSound h → Keeps h (note_content_length value h)
unfolding note_content_length Keeps
note_content_length-Keeps value h v = (
  record {
    size = v.size;
    status = v.status;
    content = digits_bound value 0 (omega arith);
    known = v.known;
  },
  refl,
)

note_grpc_status-Keeps :
    (value : Bytes) (h : Headers) → IsSound h → Keeps h (note_grpc_status value h)
unfolding note_grpc_status Keeps
note_grpc_status-Keeps value h v = (
  record {
    size = v.size;
    status = v.status;
    content = v.content;
    known = read_grpc_status-IsKnown value;
  },
  refl,
)

note_named-Keeps :
    (name value : Bytes) (h : Headers) → IsSound h → Keeps h (note_named name value h)
unfolding note_named
note_named-Keeps name value h v = choose (Keeps h) _ _ _ (note_te-Keeps value h v) (
    choose (Keeps h) _ _ _ (note_content_type-Keeps value h v) (
      choose (Keeps h) _ _ _ (note_status-Keeps value h v) (
        choose (Keeps h) _ _ _ (note_content_length-Keeps value h v)
          (choose (Keeps h) _ _ _ (note_grpc_status-Keeps value h v) (same-Keeps h false v)))))

or_left : (a b : Bool) → (a || b) ≡ false → a ≡ false
or_left true b e = e
or_left false b e = refl

at_most : (a b c n : ℕ) → a ≡ b → b ≡ c → c ≤ n → a ≤ n
at_most a b c n e f le = omega arith

-- A field keeps the ranges, and one that is valid leaves the size within the limit.
pub emit_header-IsSound :
    (h : Headers) (name value : Bytes)
    → IsSound h
    → IsSound (emit_header h name value).0
      × ((emit_header h name value).1 ≡ false
          → (emit_header h name value).0.decoded_size ≤ header_limit)
unfolding emit_header Keeps
emit_header-IsSound h name value v =
    let sized = note_size name value h in
    let placed = note_pseudo-Keeps name sized.0 (note_size-IsSound name value h v) in
    let named = note_named-Keeps name value (note_pseudo name sized.0).0 placed.0 in
    (
      named.0,
      λ e.
          at_most _ _ _ header_limit named.1 placed.1
            (note_size_fits name value h (or_left sized.1 _ e)),
    )
