-- ===== src/Gssb/Sensors.antt =====
-- What clients/libgssb/gssb_client.c reads from a sun sensor.
use uhf_gs_csp_software.Common.{
  ℕ, ◌+◌, ◌-◌, ◌*◌, ◌/◌, ◌%◌, ◌^◌, ◌<◌, ◌≡◌, refl, ◌∙◌, ap, arith, [], ◌∷◌, ◌++◌, Bytes, ℤ, pos,
  negsuc,
}
use uhf_gs_csp_software.Csp.{Call, Link}
use uhf_gs_csp_software.PowerIf.{to_i16, to_u16}
use uhf_gs_csp_software.Gssb.{
  sun_cmd, gssb_get_csp, gssb_call, buff_word, shift2, sun_transaction, sunsensor_get_data_csp,
  sunsensor_get_temp_csp,
}
use uhf_gs_csp_software.Gssb.Types.{GssbCmd, GssbResp, cmd_sun_get_sunsensor_data, cmd_sun_get_temp}

-- A word as its two bytes, the high one first.
abbrev pub word_bytes : ℕ → Bytes
word_bytes w = w / 2 ^ 8 ∷ w % 2 ^ 8 ∷ []

-- A temperature in the high 14 of 16 bits, above two bits `r`.
abbrev pub sample : ℤ → (r : ℕ) → ℤ
sample (pos n) r = pos (n * 4 + r)
sample (negsuc n) r = negsuc (n * 4 + 3 - r)

-- The temperatures of 14 bits.
abbrev pub IsTemp : ℤ → Type 0
IsTemp (pos n) = n < 2 ^ 13
IsTemp (negsuc n) = n < 2 ^ 13

shift2-sample : (t : ℤ) (r : ℕ) → IsTemp t → r < 4 → shift2 (to_i16 (to_u16 (sample t r))) ≡ t
unfolding shift2
shift2-sample (pos n) r h below =
    let bits : ℕ = (n * 4 + r) % 2 ^ 16 in
    let whole : bits ≡ n * 4 + r = omega (arith, h, below) in
    let positive : to_i16 bits ≡ pos (n * 4 + r) = rw whole (ground arith) in
    let quarter : (n * 4 + r) / 4 ≡ n = omega (arith, below) in rw (positive, quarter) refl
shift2-sample (negsuc n) r h below =
    let bits : ℕ = 2 ^ 16 - 1 - (n * 4 + 3 - r) % 2 ^ 16 in
    let whole : bits ≡ 2 ^ 16 - 1 - (n * 4 + 3 - r) = omega (arith, h, below) in
    let back : 2 ^ 16 - 1 - (2 ^ 16 - 1 - (n * 4 + 3 - r)) ≡ n * 4 + 3 - r =
      omega (arith, h, below) in
    let negative : to_i16 bits ≡ negsuc (n * 4 + 3 - r) = rw whole (ground (arith, back)) in
    let quarter : (n * 4 + 3 - r) / 4 ≡ n = omega (arith, below) in rw (negative, quarter) refl

to_u16-below : (z : ℤ) → to_u16 z < 2 ^ 16
to_u16-below (pos n) = omega arith
to_u16-below (negsuc n) = omega arith

word_back : (w : ℕ) → w < 2 ^ 16 → (w / 2 ^ 8 * 2 ^ 8 + w % 2 ^ 8) % 2 ^ 16 ≡ w
word_back w h = omega arith

-- A sun sensor that answers a request for its data with four words and one for its temperature
-- with 16 bits, whose high 14 are the temperature, the high byte first: the functions return what
-- libcsp returned, the four words in their order, and the temperature, whatever its sign and
-- whatever the low two bits are.
pub sunsensor-reads :
    {Float : Type 0}
    → (degrees : ℤ → Float) (l : Link GssbCmd GssbResp)
      (csp_node addr timeout_ms w0 w1 w2 w3 s0 s1 s2 s3 r : ℕ) (csp_timeout ret t : ℤ)
      (held : GssbCmd) (response : GssbResp) (rest : Bytes)
    → w0 < 2 ^ 16
    → w1 < 2 ^ 16
    → w2 < 2 ^ 16
    → w3 < 2 ^ 16
    → IsTemp t
    → r < 4
    → ((c : Call GssbCmd)
        → c.request.gssb_csp_cmd ≡ cmd_sun_get_sunsensor_data
        → l c response ≡ (
          ret,
          record response {
            buff = word_bytes w0 ++ word_bytes w1 ++ word_bytes w2 ++ word_bytes w3;
          },
        ))
    → ((c : Call GssbCmd)
        → c.request.gssb_csp_cmd ≡ cmd_sun_get_temp
        → l c response ≡ (ret, record response { buff = word_bytes (to_u16 (sample t r)) ++ rest }))
    → ((sunsensor_get_data_csp l csp_node csp_timeout held addr timeout_ms response
          (s0 ∷ s1 ∷ s2 ∷ s3 ∷ [])).0
        ≡ ret)
      × ((sunsensor_get_data_csp l csp_node csp_timeout held addr timeout_ms response
            (s0 ∷ s1 ∷ s2 ∷ s3 ∷ [])).2
          ≡ w0 ∷ w1 ∷ w2 ∷ w3 ∷ [])
      × ((sunsensor_get_temp_csp l csp_node csp_timeout held degrees addr timeout_ms response).0
          ≡ ret)
      × ((sunsensor_get_temp_csp l csp_node csp_timeout held degrees addr timeout_ms response).2
          ≡ degrees t)
unfolding sunsensor_get_data_csp sunsensor_get_temp_csp sun_transaction gssb_get_csp gssb_call
    sun_cmd buff_word
sunsensor-reads degrees l csp_node addr timeout_ms w0 w1 w2 w3 s0 s1 s2 s3 r csp_timeout ret t held
      response rest b0 b1 b2 b3 h below answered answered_temp =
    let asked : ℕ → ℕ → Call GssbCmd = λ command rx_len.
      gssb_get_csp csp_node csp_timeout (sun_cmd command rx_len addr timeout_ms held) in
    let word = to_u16 (sample t r) in
    (
      rw (answered (asked 1 8) refl) refl,
      rw (answered (asked 1 8) refl)
          (rw (word_back w0 b0, word_back w1 b1, word_back w2 b2, word_back w3 b3) refl),
      rw (answered_temp (asked 5 2) refl) refl,
      rw (answered_temp (asked 5 2) refl) (
          ap (λ (n : ℕ). degrees (shift2 (to_i16 n))) (word_back word (to_u16-below (sample t r)))
          ∙ ap degrees (shift2-sample t r h below)),
    )
