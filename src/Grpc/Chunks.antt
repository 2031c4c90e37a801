-- ===== src/Grpc/Chunks.antt =====
-- The chunks of src/grpc.c as one sequence of bytes.
use vless_core_cli.Prelude.{
  ℕ, zero, suc, ◌+◌, ◌-◌, ◌≤◌, ◌<◌, min, Bool, true, false, ◌&&◌, List, [], ◌∷◌, ◌++◌, some, ◌==◌,
  if◌then◌else◌, take, drop, length, Bytes, ◌≡◌, refl, sym, ap, ap₂, ◌∙◌, arith, append-nil,
  append_assoc, length-append, length-take, length-drop, take-append-drop, choose_by,
  drop-append_le, drop-append_ge, take_all, drop_all, take-append_le,
}
use vless_core_cli.Grpc.{
  Chunk, is_full, room, fill, new_chunk, append_loop, append_data, read_chunks,
}

-- What is written and not yet read.
abbrev pub contents : List Chunk → Bytes
contents [] = []
contents (c ∷ cs) = drop c.start c.data_bytes ++ contents cs

abbrev pub AreChunks : List Chunk → Type 0
AreChunks [] = Unit
AreChunks (c ∷ cs) =
    (c.start ≤ length c.data_bytes) × (length c.data_bytes ≤ c.capacity) × AreChunks cs

-- A new chunk at the end holds nothing, and its room is the last.
with_chunk :
    (remaining : ℕ) (cs : List Chunk)
    → AreChunks cs
    → (contents (cs ++ new_chunk remaining ∷ []) ≡ contents cs)
      × AreChunks (cs ++ new_chunk remaining ∷ [])
      × (room (cs ++ new_chunk remaining ∷ []) ≡ min remaining 8192)
unfolding room
with_chunk remaining [] h = (refl, (omega arith, omega arith, tt), omega arith)
with_chunk remaining (c ∷ []) h = (refl, (h.0, h.1, (omega arith, omega arith, tt)), omega arith)
with_chunk remaining (c ∷ d ∷ cs) h =
    let (same, fine, free) = with_chunk remaining (d ∷ cs) h.2 in
    (ap (λ t. drop c.start c.data_bytes ++ t) same, (h.0, h.1, fine), free)

-- A write within the room of the last chunk.
fill-contents :
    (cs : List Chunk) (bytes : Bytes)
    → AreChunks cs
    → 0 < room cs
    → length bytes ≤ room cs
    → (contents (fill cs bytes) ≡ contents cs ++ bytes) × AreChunks (fill cs bytes)
unfolding room fill
fill-contents [] bytes h lt le = absurd (omega (arith, lt))
fill-contents (c ∷ []) bytes h lt le = (
  ap (λ t. t ++ []) (drop-append_le c.start c.data_bytes bytes h.0)
      ∙ append-nil (drop c.start c.data_bytes ++ bytes)
      ∙ ap (λ t. t ++ bytes) (sym (append-nil (drop c.start c.data_bytes))),
  (
    omega (arith, h.0, length-append c.data_bytes bytes),
    omega (arith, h.1, le, length-append c.data_bytes bytes),
    tt,
  ),
)
fill-contents (c ∷ d ∷ cs) bytes h lt le =
    let (same, fine) = fill-contents (d ∷ cs) bytes h.2 lt le in
    (
      ap (λ t. drop c.start c.data_bytes ++ t) same
          ∙ sym (append_assoc (drop c.start c.data_bytes) (contents (d ∷ cs)) bytes),
      (h.0, h.1, fine),
    )

room_positive : (cs : List Chunk) → AreChunks cs → is_full cs ≡ false → 0 < room cs
unfolding room is_full
room_positive [] h e = absurd (cc e)
room_positive (c ∷ []) h e = ground (arith, h.1, e)
room_positive (c ∷ d ∷ cs) h e = room_positive (d ∷ cs) h.2 e

drop-drop : (n m : ℕ) (xs : Bytes) → drop n (drop m xs) ≡ drop (m + n) xs
drop-drop n zero xs = ap (λ (k : ℕ). drop k xs) (omega arith)
drop-drop n (suc m) [] = drop_all n [] (omega arith) ∙ sym (drop_all (suc m + n) [] (omega arith))
drop-drop n (suc m) (x ∷ xs) =
    let step : suc (m + n) ≡ suc m + n = omega arith in
    drop-drop n m xs ∙ ap (λ (k : ℕ). drop k (x ∷ xs)) step

take-append_ge :
    (n : ℕ) (xs ys : Bytes) → length xs ≤ n → take n (xs ++ ys) ≡ xs ++ take (n - length xs) ys
take-append_ge n [] ys le = ap (λ (k : ℕ). take k ys) (omega arith)
take-append_ge zero (x ∷ xs) ys le = absurd (omega arith)
take-append_ge (suc n) (x ∷ xs) ys le =
    ap (λ t. x ∷ t)
      (take-append_ge n xs ys (omega arith) ∙ ap (λ (k : ℕ). xs ++ take k ys) (omega arith))

abbrev plenty : ℕ → Bool
plenty n = true

-- The chunks that a round writes to.
usable_lem :
    (remaining : ℕ) (cs : List Chunk)
    → AreChunks cs
    → 0 < remaining
    → (ds : List Chunk) × ((if is_full cs then cs ++ new_chunk remaining ∷ [] else cs) ≡ ds)
      × (contents ds ≡ contents cs)
      × AreChunks ds
      × (0 < room ds)
usable_lem remaining cs h lt =
    let P : List Chunk → Type 0 = λ r.
      (ds : List Chunk) × (r ≡ ds) × (contents ds ≡ contents cs) × AreChunks ds × (0 < room ds) in
    let (same, fine, free) = with_chunk remaining cs h in
    choose_by P (is_full cs) (cs ++ new_chunk remaining ∷ []) cs
      (λ e. (cs ++ new_chunk remaining ∷ [], refl, same, fine, omega (arith, free, lt)))
      (λ e. (cs, refl, refl, h, room_positive cs h e))

append_loop-contents :
    (n behind remaining : ℕ) (cs : List Chunk) (bytes : Bytes)
    → AreChunks cs
    → length bytes ≤ remaining
    → length bytes ≤ n
    → (ds : List Chunk) × (append_loop plenty n behind remaining cs bytes ≡ some ds)
      × (contents ds ≡ contents cs ++ bytes)
      × AreChunks ds
unfolding append_loop
append_loop-contents n behind remaining cs [] h le fuel =
    (cs, refl, sym (append-nil (contents cs)), h)
append_loop-contents zero behind remaining cs (b ∷ bs) h le fuel = absurd (omega arith)
append_loop-contents (suc n) behind remaining cs (b ∷ bs) h le fuel =
    let bytes : Bytes = b ∷ bs in
    let (ds, used, same, fine, free) = usable_lem remaining cs h (omega (arith, le)) in
    let taken : ℕ = min (room ds) (length bytes) in
    let front = length-take taken bytes in
    let behind_them = length-drop taken bytes in
    let (filled, sound) = fill-contents ds (take taken bytes) fine free (omega (arith, front)) in
    let (es, ended, whole, kept) =
      append_loop-contents n behind (remaining - taken) (fill ds (take taken bytes))
        (drop taken bytes) sound (omega (arith, behind_them, le))
        (omega (arith, behind_them, fuel, free)) in
    let allowed : (is_full cs && false) ≡ false = ground arith in
    (
      es,
      rw (used, allowed) ended,
      whole
          ∙ ap (λ t. t ++ drop taken bytes) (filled ∙ ap (λ t. t ++ take taken bytes) same)
          ∙ append_assoc (contents cs) (take taken bytes) (drop taken bytes)
          ∙ ap (λ t. contents cs ++ t) (take-append-drop taken bytes),
      kept,
    )

-- With memory, data are written behind what the chunks have.
pub append_data-contents :
    (behind remaining : ℕ) (cs : List Chunk) (bytes : Bytes)
    → AreChunks cs
    → length bytes ≤ remaining
    → (ds : List Chunk) × (append_data plenty behind remaining cs bytes ≡ some ds)
      × (contents ds ≡ contents cs ++ bytes)
      × AreChunks ds
append_data-contents behind remaining cs bytes h le =
    append_loop-contents (length bytes) behind remaining cs bytes h le (omega arith)

-- A read gives the first bytes, as many as there is room for, and leaves the others.
pub read_chunks-contents :
    (cap : ℕ) (cs : List Chunk)
    → AreChunks cs
    → ((read_chunks cap cs).0 ≡ take cap (contents cs))
      × (contents (read_chunks cap cs).1 ≡ drop cap (contents cs))
      × AreChunks (read_chunks cap cs).1
unfolding read_chunks
read_chunks-contents zero [] h = (refl, refl, tt)
read_chunks-contents (suc cap) [] h = (refl, refl, tt)
read_chunks-contents cap (c ∷ cs) h =
    let unread : Bytes = drop c.start c.data_bytes in
    let whole : Bytes = unread ++ contents cs in
    let size : ℕ = min (length c.data_bytes - c.start) cap in
    let long = length-drop c.start c.data_bytes in
    let (found, left, fine) = read_chunks-contents (cap - size) cs h.2 in
    let P : Bytes × List Chunk → Type 0 =
      λ r. (r.0 ≡ take cap whole) × (contents r.1 ≡ drop cap whole) × AreChunks r.1 in
    choose_by P (cap == 0) _ _
      (λ e. let none_wanted : 0 ≡ cap = ground (arith, e) in rw (← none_wanted) (refl, refl, h))
      (λ e.
        choose_by P (c.start + size == length c.data_bytes) _ _
          (λ f.
            let all : length unread ≡ size = ground (arith, long, f, h.0) in
            (
              ap₂ (λ s t. s ++ t) (take_all size unread (omega (arith, all)))
                    (found ∙ ap (λ (k : ℕ). take (cap - k) (contents cs)) (sym all))
                  ∙ sym (take-append_ge cap unread (contents cs) (omega (arith, all))),
              left
                  ∙ ap (λ (k : ℕ). drop (cap - k) (contents cs)) (sym all)
                  ∙ sym (drop-append_ge cap unread (contents cs) (omega (arith, all))),
              fine,
            ))
          (λ f.
            let full : size ≡ cap = ground (arith, f, h.0) in
            let le : cap ≤ length unread = ground (arith, long, f, h.0) in
            (
              ap (λ (k : ℕ). take k unread) full ∙ sym (take-append_le cap unread (contents cs) le),
              ap (λ t. t ++ contents cs)
                    (ap (λ (k : ℕ). drop (c.start + k) c.data_bytes) full
                      ∙ sym (drop-drop cap c.start c.data_bytes))
                  ∙ sym (drop-append_le cap unread (contents cs) le),
              (ground (arith, f, h.0), h.1, h.2),
            )))
