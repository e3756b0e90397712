-- ===== src/Examples/Bus.antt =====
-- A sun sensor below zero degrees.
use uhf_gs_csp_software.Common.{
  ◌≡◌, refl, arith, if◌then◌else◌, ◌==◌, [], ◌∷◌, ◌++◌, Bytes, pos, negsuc,
}
use uhf_gs_csp_software.Csp.{Link}
use uhf_gs_csp_software.PowerIf.{to_u16}
use uhf_gs_csp_software.Gssb.{sunsensor_get_data_csp, sunsensor_get_temp_csp}
use uhf_gs_csp_software.Gssb.Types.{GssbCmd, GssbResp}
use uhf_gs_csp_software.Gssb.Sensors.{word_bytes, sample, sunsensor-reads}

abbrev held : GssbCmd
held = record {
  gssb_csp_cmd = 9;
  addr = 0;
  buff = 1 ∷ 2 ∷ 3 ∷ 4 ∷ 5 ∷ 6 ∷ 7 ∷ 8 ∷ 9 ∷ [];
  tx_len = 0;
  rx_len = 0;
  timeout_ms = 0;
}

abbrev response : GssbResp
response = record { return_code = 0; buff = 0 ∷ 0 ∷ 0 ∷ 0 ∷ 0 ∷ 0 ∷ 0 ∷ 0 ∷ [] }

abbrev light : Bytes
light = word_bytes 512 ++ word_bytes 65535 ++ word_bytes 7 ++ word_bytes 1023

-- -320 thirty-seconds of a degree.
abbrev cold : Bytes
cold = word_bytes (to_u16 (sample (negsuc 319) 2)) ++ (0 ∷ [])

abbrev sensor : Link GssbCmd GssbResp
sensor c m = (pos 9, record m { buff = if c.request.gssb_csp_cmd == 1 then light else cold })

sunsensor-reads_example :
    ((sunsensor_get_data_csp sensor 1 (pos 1000) held 5 50 response (0 ∷ 0 ∷ 0 ∷ 0 ∷ [])).0 ≡ pos 9)
    × ((sunsensor_get_data_csp sensor 1 (pos 1000) held 5 50 response (0 ∷ 0 ∷ 0 ∷ 0 ∷ [])).2
        ≡ 512 ∷ 65535 ∷ 7 ∷ 1023 ∷ [])
    × ((sunsensor_get_temp_csp sensor 1 (pos 1000) held (λ t. t) 5 50 response).0 ≡ pos 9)
    × ((sunsensor_get_temp_csp sensor 1 (pos 1000) held (λ t. t) 5 50 response).2 ≡ negsuc 319)
sunsensor-reads_example =
    sunsensor-reads (λ t. t) sensor 1 5 50 512 65535 7 1023 0 0 0 0 2 (pos 1000) (pos 9)
      (negsuc 319) held response (0 ∷ []) (omega arith) (omega arith) (omega arith) (omega arith)
      (omega arith) (omega arith) (λ c asked. rw asked refl) (λ c asked. rw asked refl)
