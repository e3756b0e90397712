-- ===== src/Receive/Names.antt =====
-- The names of the files that src/receive_packet.c saves.
use uhf_gs_csp_software.Common.{
  ℕ, ◌+◌, ◌%◌, ◌<◌, ◌≡◌, ◌≢◌, ap, sym, ◌∙◌, arith, ◌++◌, Bytes, codes, length, take, drop,
  take-append, append_cancel, pos,
}
use uhf_gs_csp_software.Common.Decimal.{print_zeros, scan}
use uhf_gs_csp_software.Common.Decimal.RoundTrip.{length-print_zeros, scan-print_zeros}
use uhf_gs_csp_software.Receive.{save_dir, saved_name}

-- The two digits in front of a text.
two_digits :
    (n : ℕ) (t : Bytes)
    → take 2 (print_zeros 2 (pos (n % 100)) ++ t) ≡ print_zeros 2 (pos (n % 100))
two_digits n t =
    let text : Bytes = print_zeros 2 (pos (n % 100)) in
    let size : length text ≡ 2 = length-print_zeros 2 (n % 100) (omega arith) (omega arith) in
    ap (λ (k : ℕ). take k (text ++ t)) (sym size) ∙ take-append text t

-- Among a hundred packets in a row, no two are saved under the same name, also if their times are
-- the same.
pub saved_name-distinct :
    (time_string_recv : Bytes) (i j : ℕ)
    → i < j
    → j < i + 100
    → saved_name time_string_recv i ≢ saved_name time_string_recv j
unfolding saved_name
saved_name-distinct t i j h near same =
    let behind = append_cancel t _ _ (append_cancel save_dir _ _ same) in
    let digits : print_zeros 2 (pos (i % 100)) ≡ print_zeros 2 (pos (j % 100)) =
      sym (two_digits i (codes ".bin"))
      ∙ ap (λ (s : Bytes). take 2 (drop 1 s)) behind
      ∙ two_digits j (codes ".bin") in
    let number : i % 100 ≡ j % 100 =
      sym (scan-print_zeros 2 (i % 100)) ∙ ap (scan 0) digits ∙ scan-print_zeros 2 (j % 100) in
    omega (arith, number)
