-- ===== src/Examples/Headers.antt =====
-- Headers as text.
use uhf_gs_csp_software.Common.{◌≡◌, arith, ◌∷◌, pos, negsuc}
use uhf_gs_csp_software.World.{ok}
use uhf_gs_csp_software.Itoa.{itoa}
use uhf_gs_csp_software.Common.Decimal.{print}
use uhf_gs_csp_software.Itoa.Decimal.{itoa-print}
use uhf_gs_csp_software.CspHeader.{generate_csp_header, print_hex2}
use uhf_gs_csp_software.CspHeader.Kept.{generate_csp_header_lem}

generate_csp_header_lem_example :
    generate_csp_header (pos 5) (pos 10) (pos 17) (pos 7) (pos 100) ≡ ok (b'0' ∷ print_hex2 100)
generate_csp_header_lem_example =
    generate_csp_header_lem 5 10 17 7 100 (omega arith) (omega arith) (omega arith) (omega arith)
      (omega arith)

itoa-print_example : itoa (negsuc 41) 10 ≡ ok (print (negsuc 41))
itoa-print_example = itoa-print (negsuc 41) (omega arith)
