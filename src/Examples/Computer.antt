-- ===== src/Examples/Computer.antt =====
-- The on-board computer: the image to boot.
use uhf_gs_csp_software.Common.{
  ℕ, ◌+◌, ◌/◌, ◌%◌, ◌^◌, ◌≡◌, refl, [], ◌∷◌, ◌++◌, Bytes, codes, length, leb, if◌then◌else◌,
  replicate, pos,
}
use uhf_gs_csp_software.World.{ok, undefined}
use uhf_gs_csp_software.Csp.{csp_prio_norm}
use uhf_gs_csp_software.PowerIf.{up_to_end}
use uhf_gs_csp_software.Obc.{obc_boot_conf}
use uhf_gs_csp_software.Obc.Boot.{obc_boot_conf-sent}
use uhf_gs_csp_software.Examples.Orders.{swap32, swapping}

-- The bytes of a word, the lowest first.
abbrev word : ℕ → Bytes
word n = n % 2 ^ 8 ∷ n / 2 ^ 8 % 2 ^ 8 ∷ n / 2 ^ 16 % 2 ^ 8 ∷ n / 2 ^ 24 % 2 ^ 8 ∷ []

abbrev path : Bytes
path = codes "/boot/nanomind.bin\0"

obc_boot_conf-sent_example : obc_boot_conf swapping 1 word (replicate 100 7) 0xCAFE 10 path ≡ (
    if leb (length (up_to_end path)) 91
    then ok (record {
      target = record { prio = csp_prio_norm; node = 1; port = 11; timeout = 0 };
      request = word (swap32 0xCAFE) ++ word (swap32 10) ++ up_to_end path ++ (0 ∷ []);
      outlen = length (up_to_end path) + 9;
      inlen = pos 0;
    })
    else undefined)
obc_boot_conf-sent_example =
    obc_boot_conf-sent swapping 1 word (replicate 100 7) 0xCAFE 10 path (λ n. refl)
