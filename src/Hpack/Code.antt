-- ===== src/Hpack/Code.antt =====
-- The decoder of src/hpack.c reads the canonical code that its counts and symbols describe.
use vless_core_cli.Prelude.{
  ℕ, zero, suc, ◌+◌, ◌-◌, ◌*◌, ◌/◌, ◌%◌, ◌^◌, ◌≤◌, ◌<◌, Bool, true, false, ◌&&◌, ◌||◌, [], ◌∷◌,
  ◌++◌, Option, none, some, ltb, ◌==◌, if◌then◌else◌, drop, length, Bytes, size_max, ◌≡◌, refl, sym,
  ap, ap₂, ◌∙◌, inl, inr, arith, Option-cases, Bool-cases, append-nil, length-append, same_bytes,
}
use vless_core_cli.Hpack.Huffman.{
  counts, symbols, Node, root, told, huffman_step, huffman_loop, all_bits, decode_huffman,
  symbol_width, bits_from, huffman_bits,
}

-- The number of a symbol in the order of the codes.
abbrev index_of : ℕ → Bytes → ℕ
index_of c [] = 0
index_of c (x ∷ xs) = let rest = index_of c xs in if x == c then 0 else rest + 1

abbrev bits_of : ℕ → ℕ → Bytes
bits_of zero n = []
bits_of (suc width) n = n / 2 ^ width % 2 ∷ bits_of width n

-- The canonical code: codes of one width are consecutive, and the first of a width is twice what follows
-- the last of the width before.
abbrev canonical : ℕ → ℕ → ℕ → Bytes → Bytes
canonical index width first [] = []
canonical index width first (count ∷ more) =
    let later = canonical (index - count) (width + 1) ((first + count) * 2) more in
    if ltb index count then bits_of width (first + index) else later

-- The bits for a symbol.
unfoldable pub code_of : ℕ → Bytes
code_of c = canonical (index_of c symbols) 1 0 (drop 1 counts)

abbrev pub codes_of : Bytes → Bytes
codes_of [] = []
codes_of (c ∷ cs) = code_of c ++ codes_of cs

abbrev pub ones : ℕ → Bytes
ones zero = []
ones (suc n) = 1 ∷ ones n

==_refl : (n : ℕ) → (n == n) ≡ true
==_refl n = ground arith

-- A test of the symbols below a bound, run one by one.
tested : (ℕ → Bool) → ℕ → Bool
tested test zero = true
tested test (suc c) = let rest = tested test c in if test c then rest else false

from_tested : (test : ℕ → Bool) (bound c : ℕ) → c < bound → tested test bound ≡ true → test c ≡ true
unfolding tested
from_tested test zero c below run = absurd (omega (arith, below))
from_tested test (suc bound) c below run = elim (Bool-cases (c == bound)) [
  | inl last ↦ let same : c ≡ bound = ground (arith, last) in rw same (ground (arith, run))
  | inr other ↦ from_tested test bound c (ground (arith, other, below)) (ground (arith, run))
]

-- The decoder reads the symbol, and is at the root again.
abbrev at_root : Node → Bool
at_root n = n.code == 0 && n.first == 0 && n.base == 0 && n.bits == 0

reads : ℕ → Bool
reads c = elim (huffman_loop root (code_of c)) [
  | none ↦ false
  | some (text, n) ↦ same_bytes text (c ∷ []) && at_root n
]

reads_table : tested reads 256 ≡ true
unfolding tested reads huffman_loop huffman_step code_of
reads_table = refl

widths_table :
    tested (λ c. symbol_width c == length (code_of c) && ltb 0 (symbol_width c)) 256 ≡ true
unfolding tested code_of symbol_width
widths_table = refl

same_bytes_sound : (xs ys : Bytes) → same_bytes xs ys ≡ true → xs ≡ ys
same_bytes_sound [] [] h = refl
same_bytes_sound [] (y ∷ ys) h = absurd (ground (arith, h))
same_bytes_sound (x ∷ xs) [] h = absurd (ground (arith, h))
same_bytes_sound (x ∷ xs) (y ∷ ys) h = ground (arith, h, same_bytes_sound xs ys)

root_only : (n : Node) → at_root n ≡ true → n ≡ root
root_only n h = ground (arith, h)

huffman_loop-code_of : (c : ℕ) → c < 256 → huffman_loop root (code_of c) ≡ some (c ∷ [], root)
unfolding reads
huffman_loop-code_of c lt =
    go (huffman_loop root (code_of c)) (from_tested reads 256 c lt reads_table)
  where
    go :
        (r : Option (Bytes × Node))
        → (elim r [ none ↦ false | some (text, n) ↦ same_bytes text (c ∷ []) && at_root n ]) ≡ true
        → r ≡ some (c ∷ [], root)
    go none h = absurd (ground (arith, h))
    go (some (text, n)) h =
        ap₂ (λ x y. some (x, y)) (same_bytes_sound text (c ∷ []) (ground (arith, h)))
          (root_only n (ground (arith, h)))

read_left :
    {s t : Bytes} {a b : Node} → ◌≡◌ {A = Option (Bytes × Node)} (some (s, a)) (some (t, b)) → s ≡ t
read_left e = cc

read_right :
    {s t : Bytes} {a b : Node} → ◌≡◌ {A = Option (Bytes × Node)} (some (s, a)) (some (t, b)) → a ≡ b
read_right e = cc

told-append :
    (emitted : Option ℕ) (text more : Bytes)
    → told emitted (text ++ more) ≡ told emitted text ++ more
told-append none text more = refl
told-append (some c) text more = refl

huffman_loop-append :
    (n m l : Node) (xs ys text more : Bytes)
    → huffman_loop n xs ≡ some (text, m)
    → huffman_loop m ys ≡ some (more, l)
    → huffman_loop n (xs ++ ys) ≡ some (text ++ more, l)
unfolding huffman_loop
huffman_loop-append n m l [] ys text more e f =
    let place : n ≡ m = read_right e in
    let none_yet : [] ≡ text = read_left e in rw (place, sym none_yet) f
huffman_loop-append n m l (x ∷ xs) ys text more e f = elim (Option-cases (huffman_step n x)) [
  | inl g ↦ let gone : huffman_loop n (x ∷ xs) ≡ none = rw (g, huffman_loop) refl in cc (gone, e)
  | inr ((u, emitted), g) ↦ elim (Option-cases (huffman_loop u xs)) [
    | inl h ↦
        let gone : huffman_loop n (x ∷ xs) ≡ none =
          rw (g, huffman_loop) (rw (h, huffman_loop) refl) in
        cc (gone, e)
    | inr ((text', m'), h) ↦
        let found : huffman_loop n (x ∷ xs) ≡ some (told emitted text', m') =
          rw (g, huffman_loop) (rw (h, huffman_loop) refl) in
        let place : m' ≡ m = read_right (sym found ∙ e) in
        let so_far : told emitted text' ≡ text = read_left (sym found ∙ e) in
        let rest = huffman_loop-append u m' l xs ys text' more h (rw place f) in
        rw (g, huffman_loop)
          (rw (rest, huffman_loop)
            (ap (λ t. some (t, l)) (told-append emitted text' more ∙ ap (λ t. t ++ more) so_far)))
  ]
]

-- Up to seven ones end no code.
pads : ℕ → Bool
pads n = elim (huffman_loop root (ones n)) [
  | none ↦ false
  | some (text, m) ↦ same_bytes text [] && (m.bits == n && m.code == 2 ^ n - 1)
]

pads_table : tested pads 8 ≡ true
unfolding tested pads huffman_loop huffman_step
pads_table = refl

huffman_loop-ones :
    (n : ℕ)
    → n ≤ 7
    → (m : Node) × (huffman_loop root (ones n) ≡ some ([], m)) × (m.bits ≡ n) × (m.code ≡ 2 ^ n - 1)
unfolding pads
huffman_loop-ones n le =
    go (huffman_loop root (ones n)) (from_tested pads 8 n (omega (arith, le)) pads_table)
  where
    go :
        (r : Option (Bytes × Node))
        → (elim r [
          | none ↦ false
          | some (text, m) ↦ same_bytes text [] && (m.bits == n && m.code == 2 ^ n - 1)
        ])
          ≡ true
        → (m : Node) × (r ≡ some ([], m)) × (m.bits ≡ n) × (m.code ≡ 2 ^ n - 1)
    go none h = absurd (ground (arith, h))
    go (some ([], m)) h = (m, refl, ground (arith, h), ground (arith, h))
    go (some (x ∷ xs, m)) h = absurd (ground (arith, h))

abbrev pub AreOctets : Bytes → Type 0
AreOctets [] = Unit
AreOctets (c ∷ cs) = (c < 256) × AreOctets cs

huffman_loop-codes_of :
    (text : Bytes) → AreOctets text → huffman_loop root (codes_of text) ≡ some (text, root)
unfolding huffman_loop
huffman_loop-codes_of [] h = refl
huffman_loop-codes_of (c ∷ cs) h =
    huffman_loop-append root root root (code_of c) (codes_of cs) (c ∷ []) cs
      (huffman_loop-code_of c h.0) (huffman_loop-codes_of cs h.1)

-- Bytes that hold the canonical codes of a text, and at most seven ones behind them, are read as that
-- text.
pub decode_huffman-codes_of :
    (text buf : Bytes) (n : ℕ)
    → AreOctets text
    → n ≤ 7
    → all_bits buf ≡ codes_of text ++ ones n
    → decode_huffman buf ≡ some text
unfolding decode_huffman
decode_huffman-codes_of text buf n octets le bits =
    let (m, padded, wide, full) = huffman_loop-ones n le in
    let read : huffman_loop root (all_bits buf) ≡ some (text ++ [], m) = rw bits (
      huffman_loop-append root root m (codes_of text) (ones n) text []
        (huffman_loop-codes_of text octets) padded) in
    let short : ltb 7 m.bits ≡ false = ground arith in
    let same : (m.code == 2 ^ m.bits - 1) ≡ true = rw (wide, full) (==_refl (2 ^ n - 1)) in
    rw (read, decode_huffman) (rw (short, same) (ap some (append-nil text)))

symbol_width_lem : (c : ℕ) → c < 256 → (symbol_width c ≡ length (code_of c)) × (0 < symbol_width c)
symbol_width_lem c lt =
    let h =
      from_tested (λ c. symbol_width c == length (code_of c) && ltb 0 (symbol_width c)) 256 c lt
        widths_table in
    (ground (arith, h), ground (arith, h))

bits_from-codes_of :
    (text : Bytes) (total : ℕ)
    → AreOctets text
    → total + length (codes_of text) ≤ size_max
    → bits_from total text ≡ total + length (codes_of text)
bits_from-codes_of [] total h le = omega arith
bits_from-codes_of (c ∷ cs) total h le =
    let (wide, positive) = symbol_width_lem c h.0 in
    let sum = length-append (code_of c) (codes_of cs) in
    let test : (symbol_width c == 0 || ltb (size_max - symbol_width c) total) ≡ false =
      ground arith in
    let rest = bits_from-codes_of cs (total + symbol_width c) h.1 (omega arith) in
    rw test (omega (arith, rest))

-- The width of a text that fits in a `size_t` is the number of bits of its codes.
pub huffman_bits-codes_of :
    (text : Bytes)
    → AreOctets text
    → length (codes_of text) ≤ size_max
    → huffman_bits text ≡ length (codes_of text)
unfolding huffman_bits
huffman_bits-codes_of text h le = omega (arith, bits_from-codes_of text 0 h (omega arith))
