-- ===== src/Vision/Tls/Observed.antt =====
-- src/vision.c: what a wrapper observes leaves its readers as they have to be, and each observation ends.
use vless_core_cli.Prelude.{
  ℕ, suc, ◌-◌, ◌≤◌, ◌<◌, min, Bool, true, false, not, [], ◌∷◌, ◌++◌, ltb, ◌==◌, if◌then◌else◌,
  get_or, take, drop, length, Bytes, ◌≡◌, refl, sym, ap, ap₂, ◌∙◌, ◌⊎◌, inl, inr, arith, Bool-cases,
  length-append, length-take, word24,
}
use vless_core_cli.Prelude.Loops.{Read, stuck, bad, done, Anything, Good, Ended, read_loop-Ended}
use mathlib.Core.Path.{subst}
use vless_core_cli.Vision.Tls.{Reader, sub_word32, hello_body}
use vless_core_cli.Vision.Tls.Records.{
  Observed, start_hello, start_message, hello_complete, end_message, after_body, after_hello,
  read_message, handshake_round, handshake,
}
use vless_core_cli.Vision.Tls.Bounds.{Ready, Fits, outer, sub_word32-exact, shorter}
use vless_core_cli.Vision.Tls.Hello.{hello_body-Ended}

-- Between the bytes of a message's header, or inside a message.
abbrev pub InMessage : Bool → Reader → Type 0
InMessage server s =
    (length s.message_bytes < 4)
    ⊎ ((length s.message_bytes ≡ 4)
        × (0 < s.message_left)
        × (s.message_left ≤ 1048576)
        × (s.interested ≡ true → Ready server s.phase s))

-- What the rounds for a message leave alone.
abbrev pub Around : Type 0
Around = Bytes × ℕ × Bool

abbrev pub around : Observed → Around
around o = (o.reader.record_bytes, o.reader.record_left, o.flags.tls_disabled)

module _ (server : Bool) (f : Around) where
  abbrev pub Kept : Observed → ℕ → Type 0
  Kept o n = InMessage server o.reader × (around o ≡ f)

  end_message-Good :
      (o : Observed) (rest : Bytes) (n : ℕ)
      → length rest < n
      → around o ≡ f
      → Good Kept Anything n (end_message server o rest)
  unfolding end_message Good hello_complete
  end_message-Good o rest n less same =
      let fresh : length {A = ℕ} [] < 4 = omega arith in
      elim (Bool-cases o.reader.interested) [
        | inr z ↦ rw z (less, (inl fresh, same))
        | inl z ↦ elim (Bool-cases (hello_complete o.reader)) [
          | inr y ↦ rw z (rw y tt)
          | inl y ↦ elim (Bool-cases server) [
            | inr x ↦ rw z (rw y (rw x (less, (inl fresh, same))))
            | inl x ↦ elim (Bool-cases o.reader.retry) [
              | inl w ↦ rw z (rw y (rw x (rw w (less, (inl fresh, same)))))
              | inr w ↦ rw z (rw y (rw x (rw w (less, (inl fresh, same)))))
            ]
          ]
        ]
      ]

  after_body-Good :
      (o : Observed) (rest : Bytes) (n : ℕ)
      → length rest < n
      → around o ≡ f
      → length o.reader.message_bytes ≡ 4
      → o.reader.message_left ≤ 1048576
      → (o.reader.interested ≡ true → Ready server o.reader.phase o.reader)
      → Good Kept Anything n (after_body server o rest)
  unfolding after_body Good
  after_body-Good o rest n less same full high r = elim (Bool-cases (o.reader.message_left == 0)) [
    | inl z ↦ rw z (end_message-Good o rest n less same)
    | inr z ↦ rw z (less, (inr (full, ground (arith, z), high, r), same))
  ]

  start_message-Good :
      (o : Observed) (rest : Bytes) (n : ℕ)
      → length rest < n
      → around o ≡ f
      → length o.reader.message_bytes ≡ 4
      → Good Kept Anything n (start_message server o rest)
  unfolding start_message start_hello Good Ready
  start_message-Good o rest n less same full =
      let m = o.reader.message_bytes in
      let left : ℕ = word24 (get_or m 1 0) (get_or m 2 0) (get_or m 3 0) in
      let fresh : length {A = ℕ} [] < 4 = omega arith in
      let hello = get_or m 0 0 == (if server then 2 else 1) in
      elim (Bool-cases (ltb 1048576 left)) [
        | inl z ↦ rw z tt
        | inr z ↦ elim (Bool-cases hello) [
          | inl y ↦ elim (Bool-cases (ltb left 38)) [
            | inl x ↦ rw z (rw y (rw x tt))
            | inr x ↦
                let some_left : left == 0 ≡ false = ground (arith, x) in
                rw z (
                  rw y (
                    rw x (
                      rw some_left (
                        less,
                        (
                          inr (
                            full,
                            ground (arith, some_left),
                            ground (arith, z),
                            λ t. (refl, omega arith, omega arith),
                          ),
                          same,
                        ),
                      ))))
          ]
          | inr y ↦ elim (Bool-cases (left == 0)) [
            | inl x ↦ rw z (rw y (rw x (less, (inl fresh, same))))
            | inr x ↦ rw z (
                rw y (
                  rw x (
                    less,
                    (
                      inr (
                        full,
                        ground (arith, x),
                        ground (arith, z),
                        λ t. absurd (ground (arith, t)),
                      ),
                      same,
                    ),
                  )))
          ]
        ]
      ]

  after_hello-Good :
      (o : Observed) (rest : Bytes) (n k : ℕ) (h : Read Reader)
      → length rest < n
      → around o ≡ f
      → length o.reader.message_bytes ≡ 4
      → k ≤ 1048576
      → Ended (λ t. Fits server k (outer o.reader) t 0) Anything h
      → Good Kept Anything n (after_hello server o rest h)
  unfolding Good Ended
  after_hello-Good o rest n k stuck less same full high end = end
  after_hello-Good o rest n k (bad t) less same full high end = tt
  after_hello-Good o rest n k (done t) less same full high (left, le, r, frame) =
      let message : t.message_bytes ≡ o.reader.message_bytes = ap (λ x. x.1) frame in
      let bytes : t.record_bytes ≡ o.reader.record_bytes = ap (λ x. x.2) frame in
      let count : t.record_left ≡ o.reader.record_left = ap (λ x. x.3) frame in
      let same' : around (record o { reader = t }) ≡ f =
        ap₂ (λ x y. (x, y, o.flags.tls_disabled)) bytes count ∙ same in
      after_body-Good (record o { reader = t }) rest n less same'
        (ap (λ x. length x) message ∙ full) (omega (arith, left, high)) (λ i. r)

  read_message-Good :
      (o : Observed) (bytes : Bytes)
      → 0 < length bytes
      → around o ≡ f
      → length o.reader.message_bytes ≡ 4
      → 0 < o.reader.message_left
      → o.reader.message_left ≤ 1048576
      → (o.reader.interested ≡ true → Ready server o.reader.phase o.reader)
      → Good Kept Anything (length bytes) (read_message server o bytes)
  unfolding read_message Good
  read_message-Good o bytes some_bytes same full low high r =
      let s = o.reader in
      let count : ℕ = min (length bytes) s.message_left in
      let less = shorter count bytes (omega arith) (omega arith) in
      let left = sub_word32-exact s.message_left count (omega arith) high in
      elim (Bool-cases s.interested) [
        | inr z ↦ rw z (
            after_body-Good _ _ _ less same full (omega (arith, left))
              (λ t. absurd (ground (arith, t))))
        | inl z ↦
            let k : ℕ = s.message_left - count in
            let fits : Fits server k (outer s) s (length (take count bytes)) = (
              omega (arith, length-take count bytes),
              omega (arith, length-take count bytes),
              r z,
              refl,
            ) in
            let end = hello_body-Ended server k (outer s) s (take count bytes) fits in
            subst
              (λ v. Good Kept Anything (length bytes) (
                if not v
                then after_body server
                    (record o {
                      reader = record s { message_left = sub_word32 s.message_left count };
                    })
                    (drop count bytes)
                else after_hello server o (drop count bytes)
                    (hello_body server s (take count bytes))))
              (sym z)
              (after_hello-Good o (drop count bytes) (length bytes) k _ less same full (omega arith)
                end)
      ]

  handshake_round-Good :
      (o : Observed) (b : ℕ) (bytes : Bytes)
      → Kept o (suc (length bytes))
      → Good Kept Anything (suc (length bytes)) (handshake_round server o (b ∷ bytes))
  unfolding handshake_round Good
  handshake_round-Good o b bytes (inr (full, low, high, r), same) =
      let ready : ltb (length o.reader.message_bytes) 4 ≡ false = ground (arith, full) in
      rw ready (read_message-Good o (b ∷ bytes) (omega arith) same full low high r)
  handshake_round-Good o b bytes (inl few, same) =
      let s = o.reader in
      let all = b ∷ bytes in
      let count : ℕ = min (length all) (4 - length s.message_bytes) in
      let message = s.message_bytes ++ take count all in
      let kept = length-append s.message_bytes (take count all) in
      let less = shorter count all (omega arith) (omega arith) in
      let waits : ltb (length s.message_bytes) 4 ≡ true = ground arith in
      elim (Bool-cases (ltb (length message) 4)) [
        | inl z ↦ rw waits (rw z (less, (inl (ground (arith, z)), same)))
        | inr z ↦ rw waits (
            rw z
              (start_message-Good _ _ _ less same (ground (arith, z, kept, length-take count all))))
      ]

  pub handshake-Ended :
      (o : Observed) (bytes : Bytes)
      → Kept o (length bytes)
      → Ended (λ t. Kept t 0) Anything (handshake server o bytes)
  unfolding handshake
  handshake-Ended o bytes kept =
      read_loop-Ended Kept Anything (handshake_round server) handshake_round-Good (length bytes) o
        bytes (omega arith) kept
