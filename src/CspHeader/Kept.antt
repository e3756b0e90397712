-- ===== src/CspHeader/Kept.antt =====
-- What src/generate_csp_header.c keeps of its arguments.
use native.Mathlib.Nat.{pow-suc, div-eq_of_lt, div-div-eq-div-mul}
use uhf_gs_csp_software.Common.{
  ℕ, zero, suc, ◌+◌, ◌-◌, ◌*◌, ◌/◌, ◌%◌, ◌^◌, ◌<◌, ◌≡◌, ◌∙◌, ◌⊎◌, inl, refl, ap, sym, true, false,
  ◌||◌, arith, [], ◌∷◌, ◌++◌, All, Bytes, codes, length, get_or, replicate, length-replicate,
  length-append, ltb, ◌==◌, pos,
}
use uhf_gs_csp_software.World.{ok}
use uhf_gs_csp_software.Itoa.{itoa}
use uhf_gs_csp_software.Itoa.Digits.{itoa-IsBinary}
use uhf_gs_csp_software.CspHeader.{
  pad, strcat, strtol, print_hex, char_value, print_hex2, hex_of, header_bits, generate_csp_header,
}

-- The characters of a number in base 2.
abbrev IsBits : Bytes → Type 0
IsBits = All (λ c. (c ≡ b'0') ⊎ (c ≡ b'1'))

strtol-append : (n : ℕ) (t u : Bytes) → IsBits t → strtol n (t ++ u) ≡ strtol (strtol n t) u
unfolding strtol
strtol-append n [] u b = refl
strtol-append n (c ∷ t) u (h, b) = ground (arith, strtol-append (n * 2 + (c - b'0')) t u b)

IsBits-append : (t u : Bytes) → IsBits t → IsBits u → IsBits (t ++ u)
IsBits-append [] u bt bu = bu
IsBits-append (c ∷ t) u (h, bt) bu = (h, IsBits-append t u bt bu)

IsBits-zeros : (k : ℕ) → IsBits (replicate k b'0')
IsBits-zeros zero = tt
IsBits-zeros (suc k) = (inl refl, IsBits-zeros k)

strtol-zeros : (k : ℕ) → strtol 0 (replicate k b'0') ≡ 0
unfolding strtol
strtol-zeros zero = refl
strtol-zeros (suc k) = strtol-zeros k

-- The digits of `n` from place `length t` down, in base 2.
abbrev Spells : ℕ → Bytes → Type 0
Spells n t = (k : ℕ) → k < length t → get_or t k 0 ≡ b'0' + n / 2 ^ (length t - 1 - k) % 2

Spells-tail : (n c : ℕ) (t : Bytes) → Spells n (c ∷ t) → Spells n t
Spells-tail n c t h k l =
    h (suc k) (omega arith) ∙ ap (λ (e : ℕ). b'0' + n / 2 ^ e % 2) (omega arith)

Spells-IsBits : (n : ℕ) (t : Bytes) → Spells n t → IsBits t
Spells-IsBits n [] h = tt
Spells-IsBits n (c ∷ t) h =
    (ground (arith, h 0 (omega arith)), Spells-IsBits n t (Spells-tail n c t h))

halved : (n l : ℕ) → n / 2 ^ suc l ≡ n / 2 ^ l / 2
halved n l = ap (λ (m : ℕ). n / m) (pow-suc 2 l) ∙ sym (div-div-eq-div-mul n (2 ^ l) 2)

strtol-Spells : (n : ℕ) (t : Bytes) → Spells n t → strtol (n / 2 ^ length t) t ≡ n
unfolding strtol
strtol-Spells n [] h = omega arith
strtol-Spells n (c ∷ t) h =
    let q = n / 2 ^ length t in
    let head : c ≡ b'0' + q % 2 =
      h 0 (omega arith) ∙ ap (λ (e : ℕ). b'0' + n / 2 ^ e % 2) (omega arith) in
    let bit : ((c == b'0') || (c == b'1')) ≡ true = ground (arith, head) in
    let next : n / 2 ^ suc (length t) * 2 + (c - b'0') ≡ q =
      omega (arith, head, halved n (length t)) in
    rw (bit, next) (strtol-Spells n t (Spells-tail n c t h))

-- A field of `width` places that holds `n`.
record Field (width n : ℕ) (t : Bytes) : Type 0 where
  size : length t ≡ width
  bits : IsBits t
  value : strtol 0 t ≡ n

strtol-small : (n : ℕ) (t : Bytes) → n < 2 ^ length t → Spells n t → strtol 0 t ≡ n
strtol-small n t small h =
    ap (λ (v : ℕ). strtol v t) (sym (div-eq_of_lt small)) ∙ strtol-Spells n t h

pad-Field :
    (width n : ℕ)
    → 0 < width
    → n < 2 ^ width
    → n < 2 ^ 31
    → (t : Bytes) × (pad width (itoa (pos n) 2) ≡ ok t) × Field width n t
unfolding pad
pad-Field width n p h small =
    let (t, e, x) = itoa-IsBinary n small in
    let zeros : Bytes = replicate (width - length t) b'0' in
    let fits = x.fits width p h in
    let short : ltb width (length t) ≡ false = ground arith in
    (
      zeros ++ t,
      rw (e, short) refl,
      record {
        size = omega (
          arith,
          length-append {A = ℕ} zeros t,
          length-replicate {A = ℕ} (width - length t) b'0',
        );
        bits = IsBits-append zeros t (IsBits-zeros (width - length t)) (Spells-IsBits n t x.digit);
        value =
            strtol-append 0 zeros t (IsBits-zeros (width - length t))
            ∙ ap (λ (v : ℕ). strtol v t) (strtol-zeros (width - length t))
            ∙ strtol-small n t x.small x.digit;
      },
    )

eight_zeros : (n : ℕ) → strtol n (codes "00000000") ≡ n * 2 ^ 8
unfolding strtol
eight_zeros n = omega arith

header_value :
    (a b c d : Bytes)
    → IsBits a
    → IsBits b
    → IsBits c
    → IsBits d
    → strtol 0 (codes "00" ++ (a ++ (b ++ (c ++ (d ++ codes "00000000")))))
      ≡ strtol 0 (a ++ (b ++ (c ++ d))) * 2 ^ 8
unfolding strtol
header_value a b c d ba bb bc bd =
    rw
      (
        strtol-append 0 a (b ++ (c ++ (d ++ codes "00000000"))) ba,
        strtol-append (strtol 0 a) b (c ++ (d ++ codes "00000000")) bb,
        strtol-append (strtol (strtol 0 a) b) c (d ++ codes "00000000") bc,
        strtol-append (strtol (strtol (strtol 0 a) b) c) d (codes "00000000") bd,
        strtol-append 0 a (b ++ (c ++ d)) ba,
        strtol-append (strtol 0 a) b (c ++ d) bb,
        strtol-append (strtol (strtol 0 a) b) c d bc,
      )
      (eight_zeros _)

char_value-zero : (m : ℕ) → char_value (m * 2 ^ 8) ≡ 0
unfolding char_value
char_value-zero m = ground arith

-- The text of the header is `m` in base 2, and eight zeros.
header_bits_lem :
    (dst src sport dport : ℕ)
    → dst < 32
    → src < 32
    → sport < 64
    → dport < 64
    → (t : Bytes) × (m : ℕ) × (header_bits (pos dst) (pos src) (pos sport) (pos dport) ≡ ok t)
      × (strtol 0 t ≡ m * 2 ^ 8)
unfolding header_bits strcat
header_bits_lem dst src sport dport hd hs hsp hdp =
    let (a, ea, xa) = pad-Field 5 src (omega arith) (omega arith) (omega arith) in
    let (b, eb, xb) = pad-Field 5 dst (omega arith) (omega arith) (omega arith) in
    let (c, ec, xc) = pad-Field 6 dport (omega arith) (omega arith) (omega arith) in
    let (d, ed, xd) = pad-Field 6 sport (omega arith) (omega arith) (omega arith) in
    (
      codes "00" ++ (a ++ (b ++ (c ++ (d ++ codes "00000000")))),
      strtol 0 (a ++ (b ++ (c ++ d))),
      rw (ea, eb, ec, ed) refl,
      header_value a b c d xa.bits xb.bits xc.bits xd.bits,
    )

-- The two texts, as they are printed.
printed :
    (t u : Bytes) (m size : ℕ)
    → strtol 0 t ≡ m * 2 ^ 8
    → strtol 0 u ≡ size
    → strcat (hex_of (ok t) (λ n. print_hex (char_value n))) (hex_of (ok u) print_hex2)
      ≡ ok (b'0' ∷ print_hex2 size)
unfolding hex_of strcat print_hex
printed t u m size v w = rw (v, w, char_value-zero m) refl

-- Whatever the addresses, below 32, and the ports, below 64, with a length below 128: the text is a
-- single 0 and the digits of the length as `print_hex2` writes them, since `value` is a `char` and
-- keeps the eight lowest bits, which are 0.
pub generate_csp_header_lem :
    (dst src sport dport size : ℕ)
    → dst < 32
    → src < 32
    → sport < 64
    → dport < 64
    → size < 128
    → generate_csp_header (pos dst) (pos src) (pos sport) (pos dport) (pos size)
      ≡ ok (b'0' ∷ print_hex2 size)
unfolding generate_csp_header
generate_csp_header_lem dst src sport dport size hd hs hsp hdp h =
    let (t, m, e, v) = header_bits_lem dst src sport dport hd hs hsp hdp in
    let (u, eu, x) = pad-Field 8 size (omega arith) (omega arith) (omega arith) in
    rw (e, eu) (printed t u m size v x.value)
