-- ===== src/CspHeader.antt =====
-- src/generate_csp_header.c: the header of a packet as hexadecimal text. Its arguments point to
-- characters, which are signed.
pub mod Kept
use uhf_gs_csp_software.Common.{
  ℕ, zero, suc, ◌+◌, ◌-◌, ◌*◌, ◌/◌, ◌%◌, ◌^◌, Bool, true, false, ◌||◌, [], ◌∷◌, ◌++◌, Bytes, codes,
  length, replicate, ltb, ◌==◌, if◌then◌else◌, ℤ,
}
use uhf_gs_csp_software.World.{Result, ok, exit, undefined, no_fuel}
use uhf_gs_csp_software.Itoa.{itoa}

-- The three widths, in bits.
abbrev pub addr_original_bits : ℕ
addr_original_bits = 5

abbrev pub port_original_bits : ℕ
port_original_bits = 6

abbrev pub length_original_bits : ℕ
length_original_bits = 8

-- `text` behind zeros up to `width`: the count of zeros that are left starts below 0 for a longer
-- text, and the loop then writes past the end of the buffer.
unfoldable pub pad : ℕ → Result Bytes → Result Bytes
pad width (ok text) =
    if ltb width (length text) then undefined else ok (replicate (width - length text) b'0' ++ text)
pad width (exit n) = exit n
pad width undefined = undefined
pad width no_fuel = no_fuel

unfoldable pub strcat : Result Bytes → Result Bytes → Result Bytes
strcat (ok text) (ok more) = ok (text ++ more)
strcat (ok text) (exit n) = exit n
strcat (ok text) undefined = undefined
strcat (ok text) no_fuel = no_fuel
strcat (exit n) more = exit n
strcat undefined more = undefined
strcat no_fuel more = no_fuel

-- `strtol` in base 2 on a text without sign and blanks: it stops at the first other character.
unfoldable pub strtol : ℕ → Bytes → ℕ
strtol n [] = n
strtol n (c ∷ text) =
    let rest = strtol (n * 2 + (c - b'0')) text in if (c == b'0') || (c == b'1') then rest else n

-- `%X` of an unsigned number of 32 bits, which has at most eight digits.
abbrev pub hex_digit : ℕ → ℕ
hex_digit d = if ltb 9 d then b'A' + (d - 10) else b'0' + d

unfoldable pub hex_from : ℕ → ℕ → Bytes → Bytes
hex_from zero n out = out
hex_from (suc f) n out =
    let rest = hex_from f (n / 16) (hex_digit (n % 16) ∷ out) in if n == 0 then out else rest

unfoldable pub print_hex : ℕ → Bytes
print_hex n = if n == 0 then b'0' ∷ [] else hex_from 8 n []

-- `char value = (int)strtol(…)`, as `%X` prints it: the low eight bits, the sign carried on.
unfoldable pub char_value : ℕ → ℕ
char_value n = let low = n % 2 ^ 8 in if ltb low 128 then low else 2 ^ 32 - 2 ^ 8 + low

-- `%02X`
unfoldable pub print_hex2 : ℕ → Bytes
print_hex2 n = let d = print_hex n in replicate (2 - length d) b'0' ++ d

unfoldable pub hex_of : Result Bytes → (ℕ → Bytes) → Result Bytes
hex_of (ok text) format = ok (format (strtol 0 text))
hex_of (exit n) format = exit n
hex_of undefined format = undefined
hex_of no_fuel format = no_fuel

-- The text in base 2 of all fields but the length.
unfoldable pub header_bits : ℤ → ℤ → ℤ → ℤ → Result Bytes
header_bits dest_addr src_addr src_port dest_port = strcat (ok (codes "00")) (
    strcat (pad addr_original_bits (itoa src_addr 2)) (
      strcat (pad addr_original_bits (itoa dest_addr 2)) (
        strcat (pad port_original_bits (itoa dest_port 2))
          (strcat (pad port_original_bits (itoa src_port 2)) (ok (codes "00000000"))))))

unfoldable pub generate_csp_header : ℤ → ℤ → ℤ → ℤ → ℤ → Result Bytes
generate_csp_header dest_addr src_addr src_port dest_port data_length =
    strcat
      (hex_of (header_bits dest_addr src_addr src_port dest_port) (λ n. print_hex (char_value n)))
      (hex_of (pad length_original_bits (itoa data_length 2)) print_hex2)
