-- ===== src/Hpack/Walks.antt =====
-- The loop of `core_hpack_decode` in src/hpack.c ends, and keeps the table.
use vless_core_cli.Prelude.{
  ℕ, suc, ◌+◌, ◌*◌, ◌/◌, ◌%◌, ◌^◌, ◌≤◌, ◌<◌, Bool, true, false, ◌&&◌, ◌||◌, not, [], ◌∷◌, Option,
  none, some, ltb, leb, ◌==◌, if◌then◌else◌, get_or, take, length, Bytes, ◌≡◌, refl, sym, ◌∙◌, inl,
  inr, arith, Bool-cases, Option-cases, length-drop, bit, choose, choose_option, option_by,
  choose_by,
}
use vless_core_cli.Prelude.Loops.{Turn, failed, went, Good, Ended, read_loop-Ended}
use vless_core_cli.Hpack.{Decoder, init, insert, resize, lookup, decode_int, decode_more}
use vless_core_cli.Hpack.Bounds.{IsTable, insert-IsTable, resize-IsTable}
use vless_core_cli.Hpack.Huffman.{read_allocated, read_string, string_body, decode_huffman}
use vless_core_cli.Hpack.Fields.{no_headers, header_limit}
use vless_core_cli.Hpack.Sound.{IsSound, IsKnown, emit_header-IsSound}
use vless_core_cli.Hpack.Decode.{
  static_table, Walk, noted, resize_round, indexed_round, literal_round, read_name, keep_field,
  field_round, begun, decode,
}

decode_more_shorter :
    (buf : Bytes) (m v : ℕ) (n : ℕ) (rest : Bytes)
    → decode_more buf m v ≡ some (n, rest)
    → length rest < length buf
unfolding decode_more
decode_more_shorter [] m v n rest e = absurd (cc e)
decode_more_shorter (b ∷ bs) m v n rest e =
    let next : ℕ = (v + b % 128 * 2 ^ m) % 2 ^ 32 in
    ground (arith, e, decode_more_shorter bs (m + 7) next n rest)

decode_int_shorter :
    (prefix : ℕ) (buf : Bytes) (n : ℕ) (rest : Bytes)
    → decode_int prefix buf ≡ some (n, rest)
    → length rest < length buf
unfolding decode_int
decode_int_shorter prefix [] n rest e = absurd (cc e)
decode_int_shorter prefix (b ∷ bs) n rest e =
    ground (arith, e, decode_more_shorter bs 0 (b % 2 ^ prefix) n rest)

string_body_shorter :
    (huffman : Bool) (cap size : ℕ) (buf text : Bytes) (n : ℕ) (rest : Bytes)
    → string_body huffman cap size buf ≡ some (text, n, rest)
    → length rest ≤ length buf
unfolding string_body
string_body_shorter huffman cap size buf text n rest e =
    ground (arith, e, length-drop size buf, Option-cases (decode_huffman (take size buf)))

read_string_shorter :
    (cap : ℕ) (buf text : Bytes) (n : ℕ) (rest : Bytes)
    → read_string cap buf ≡ some (text, n, rest)
    → length rest < length buf
unfolding read_string
read_string_shorter cap buf text n rest e = elim (Option-cases (decode_int 7 buf)) [
  | inl f ↦
      let gone : read_string cap buf ≡ none = rw (f, read_string) refl in absurd (cc (gone, e))
  | inr ((size, behind), f) ↦
      let opened : read_string cap buf ≡ string_body (leb 128 (get_or buf 0 0)) cap size behind =
        rw (f, read_string) refl in
      omega (
        arith,
        decode_int_shorter 7 buf size behind f,
        string_body_shorter (leb 128 (get_or buf 0 0)) cap size behind text n rest (sym opened ∙ e),
      )
]

same_rest :
    (xs ys : Bytes) (rest last : Bytes)
    → ◌≡◌ {A = Option (Bytes × Bytes)} (some (xs, rest)) (some (ys, last))
    → rest ≡ last
same_rest xs ys rest last e = cc

read_allocated_shorter :
    (granted : ℕ → ℕ → Bool) (buf text rest : Bytes)
    → read_allocated granted buf ≡ some (text, rest)
    → length rest < length buf
unfolding read_allocated
read_allocated_shorter granted buf text rest e = elim (Option-cases (read_string 0 buf)) [
  | inl f ↦
      let gone : read_allocated granted buf ≡ none = rw (f, read_allocated) refl in
      absurd (cc (gone, e))
  | inr ((nothing, size, behind), f) ↦
      elim (Bool-cases (ltb 65536 size || not (granted (length buf) (size + 1)))) [
        | inl g ↦
            let gone : read_allocated granted buf ≡ none = rw (f, read_allocated) (rw g refl) in
            absurd (cc (gone, e))
        | inr g ↦ elim (Option-cases (read_string (size + 1) buf)) [
          | inl h ↦
              let gone : read_allocated granted buf ≡ none =
                rw (f, read_allocated) (rw g (rw h refl)) in
              absurd (cc (gone, e))
          | inr ((found, actual, last), h) ↦ elim (Bool-cases (actual == size)) [
            | inl k ↦
                let whole : read_allocated granted buf ≡ some (found, last) =
                  rw (f, read_allocated) (rw g (rw h (rw k refl))) in
                rw (← same_rest found text last rest (sym whole ∙ e))
                  (read_string_shorter (size + 1) buf found actual last h)
            | inr k ↦
                let gone : read_allocated granted buf ≡ none =
                  rw (f, read_allocated) (rw g (rw h (rw k refl))) in
                absurd (cc (gone, e))
          ]
        ]
      ]
]

-- What holds between two fields.
pub record IsWalk (w : Walk) : Type 0 where
  pub table : IsTable w.decoder
  pub sound : IsSound w.headers
  pub limited : w.invalid ≡ false → w.headers.decoded_size ≤ header_limit

or_left : (a b : Bool) → (a || b) ≡ false → a ≡ false
or_left true b e = e
or_left false b e = refl

or_right : (a b : Bool) → (a || b) ≡ false → b ≡ false
or_right true b e = absurd (cc e)
or_right false b e = e

noted-IsWalk : (name value : Bytes) (w : Walk) → IsWalk w → IsWalk (noted name value w)
unfolding noted
noted-IsWalk name value w v =
    let (sound, fits) = emit_header-IsSound w.headers name value v.sound in
    record { table = v.table; sound = sound; limited = λ e. fits (or_right w.invalid _ e) }

placed-IsWalk : (w : Walk) (t : Decoder) → IsWalk w → IsTable t → IsWalk (record w { decoder = t })
placed-IsWalk w t v table = record { table = table; sound = v.sound; limited = v.limited }

abbrev Fine : ℕ → Turn Walk → Type 0
Fine n turn = Good (λ w k. IsWalk w) IsWalk n turn

failed-Fine : (n : ℕ) (w : Walk) → IsWalk w → Fine n (failed w)
unfolding Good
failed-Fine n w v = v

went-Fine : (n : ℕ) (w : Walk) (rest : Bytes) → IsWalk w → length rest < n → Fine n (went w rest)
unfolding Good
went-Fine n w rest v lt = (lt, v)

resize_round-Fine : (buf : Bytes) (w : Walk) → IsWalk w → Fine (length buf) (resize_round buf w)
unfolding resize_round
resize_round-Fine buf w v =
    let n = length buf in
    let stop = failed-Fine n w v in
    choose (Fine n) w.saw_header _ _ stop (
      option_by (Fine n) (decode_int 5 buf) _ _ stop (λ p e.
        option_by (Fine n) (resize w.decoder p.0) _ _ stop (λ t f.
          went-Fine n (record w { decoder = t }) p.1
            (placed-IsWalk w t v (resize-IsTable w.decoder p.0 v.table f).0)
            (decode_int_shorter 5 buf p.0 p.1 e))))

indexed_round-Fine : (buf : Bytes) (w : Walk) → IsWalk w → Fine (length buf) (indexed_round buf w)
unfolding indexed_round
indexed_round-Fine buf w v =
    let n = length buf in
    let stop = failed-Fine n w v in
    option_by (Fine n) (decode_int 7 buf) _ _ stop (λ p e.
      choose_option (Fine n) (lookup static_table w.decoder p.0) _ _ stop (λ q.
        went-Fine n (noted q.0 q.1 w) p.1 (noted-IsWalk q.0 q.1 w v)
          (decode_int_shorter 7 buf p.0 p.1 e)))

read_name_shorter :
    (granted : ℕ → ℕ → Bool) (t : Decoder) (index : ℕ) (buf name rest : Bytes)
    → read_name granted t index buf ≡ some (name, rest)
    → length rest ≤ length buf
unfolding read_name
read_name_shorter granted t index buf name rest =
    let P : Option (Bytes × Bytes) → Type 0 =
      λ o. o ≡ some (name, rest) → length rest ≤ length buf in
    choose P (index == 0) _ _ (λ e. omega (arith, read_allocated_shorter granted buf name rest e))
      (choose_option P (lookup static_table t index) _ _ (λ e. absurd (cc e))
        (λ q e. rw (same_rest q.0 name buf rest e) (omega arith)))

keep_field-Fine :
    (granted : ℕ → ℕ → Bool) (indexing : Bool) (name value rest : Bytes) (w : Walk) (n : ℕ)
    → IsWalk w
    → length rest < n
    → Fine n (keep_field granted indexing name value rest w)
unfolding keep_field
keep_field-Fine granted indexing name value rest w n v lt =
    let room =
      granted (length rest) (length name + 1) && granted (length rest) (length value + 1) in
    let t = (insert w.decoder name value room).1 in
    let moved = placed-IsWalk w t v (insert-IsTable w.decoder name value room v.table) in
    choose (Fine n) indexing _ _
      (choose (Fine n) (insert w.decoder name value room).0 _ _
        (went-Fine n (record w { decoder = t }) rest moved lt)
        (failed-Fine n (record w { decoder = t }) moved))
      (went-Fine n w rest v lt)

literal_round-Fine :
    (granted : ℕ → ℕ → Bool) (indexing : Bool) (buf : Bytes) (w : Walk)
    → IsWalk w
    → Fine (length buf) (literal_round granted indexing buf w)
unfolding literal_round
literal_round-Fine granted indexing buf w v =
    let n = length buf in
    let stop = failed-Fine n w v in
    let width = if indexing then 6 else 4 in
    option_by (Fine n) (decode_int width buf) _ _ stop (λ p e.
      option_by (Fine n) (read_name granted w.decoder p.0 p.1) _ _ stop (λ q f.
        option_by (Fine n) (read_allocated granted q.1) _ _ stop (λ r g.
          keep_field-Fine granted indexing q.0 r.0 r.1 (noted q.0 r.0 w) n
            (noted-IsWalk q.0 r.0 w v)
            (omega (
              arith,
              decode_int_shorter width buf p.0 p.1 e,
              read_name_shorter granted w.decoder p.0 p.1 q.0 q.1 f,
              read_allocated_shorter granted q.1 r.0 r.1 g,
            )))))

field_round-Fine :
    (granted : ℕ → ℕ → Bool) (w : Walk) (b : ℕ) (bytes : Bytes)
    → IsWalk w
    → Fine (suc (length bytes)) (field_round granted w (b ∷ bytes))
unfolding field_round
field_round-Fine granted w b bytes v =
    let n = suc (length bytes) in
    let buf : Bytes = b ∷ bytes in
    choose (Fine n) (b / 32 % 8 == 1) _ _ (resize_round-Fine buf w v) (
      choose (Fine n) (bit b 7) _ _ (indexed_round-Fine buf w v)
        (literal_round-Fine granted (bit b 6) buf w v))

init-IsTable : IsTable init
init-IsTable = record { total = refl; sized = tt; within = omega arith; limited = omega arith }

no_headers-IsSound : IsSound no_headers
unfolding IsKnown
no_headers-IsSound = record {
  size = omega arith;
  status = inl refl;
  content = omega arith;
  known = omega arith;
}

begun-IsTable : (t : Decoder) → (t.initialized ≡ true → IsTable t) → IsTable (begun t)
begun-IsTable t v = choose_by IsTable t.initialized t init v (λ e. init-IsTable)

-- On a decoder with a sound table, or one that is not initialised, every block comes to an end, and the
-- table is sound again, also after a failure in the middle of the block; the fields that were noted are
-- in their ranges.
pub decode-Ended :
    (granted : ℕ → ℕ → Bool) (t : Decoder) (block : Bytes)
    → (t.initialized ≡ true → IsTable t)
    → Ended IsWalk IsWalk (decode granted t block)
unfolding decode
decode-Ended granted t block v =
    read_loop-Ended (λ w n. IsWalk w) IsWalk (field_round granted)
      (λ w b bytes u. field_round-Fine granted w b bytes u) (length block) _ block (omega arith)
      (record { table = begun-IsTable t v; sound = no_headers-IsSound; limited = λ e. omega arith })
