-- ===== src/Eps/Client.antt =====
-- clients/nanopower/src/nanopower2.c: what the power supply is asked. A function that only returns
-- what its transaction returns is the call that it makes.
use uhf_gs_csp_software.Common.{
  ℕ, ◌%◌, ◌^◌, not, [], ◌∷◌, Bytes, ltb_ℤ, if◌then◌else◌, ℤ, pos, negsuc, eqb_ℤ,
}
use uhf_gs_csp_software.Csp.{ByteOrder, csp_prio_high, Call, Link}
use uhf_gs_csp_software.Eps.{
  EpsHkVi, EpsHkOut, EpsHkWdt, EpsHkBasic, EpsHk, eps_hk_vi_unpack, eps_hk_out_unpack,
  eps_hk_wdt_unpack, eps_hk_basic_unpack, eps_hk_unpack, EpsConfig, EpsConfig2, EpsConfig3,
  eps_config_pack, eps_config_unpack, eps_config2_pack, eps_config2_unpack, eps_config3_pack,
  eps_config3_unpack,
}

abbrev pub eps_port_hk : ℕ
eps_port_hk = 8

abbrev pub eps_port_set_output : ℕ
eps_port_set_output = 9

abbrev pub eps_port_set_single_output : ℕ
eps_port_set_single_output = 10

abbrev pub eps_port_set_vboost : ℕ
eps_port_set_vboost = 11

abbrev pub eps_port_set_pptmode : ℕ
eps_port_set_pptmode = 12

abbrev pub eps_port_heater : ℕ
eps_port_heater = 13

abbrev pub eps_port_reset_counters : ℕ
eps_port_reset_counters = 15

abbrev pub eps_port_reset_wdt_gnd : ℕ
eps_port_reset_wdt_gnd = 16

abbrev pub eps_port_config_cmd : ℕ
eps_port_config_cmd = 17

abbrev pub eps_port_config_get : ℕ
eps_port_config_get = 18

abbrev pub eps_port_config_set : ℕ
eps_port_config_set = 19

abbrev pub eps_port_hardreset : ℕ
eps_port_hardreset = 20

abbrev pub eps_port_config2_cmd : ℕ
eps_port_config2_cmd = 21

abbrev pub eps_port_config2_get : ℕ
eps_port_config2_get = 22

abbrev pub eps_port_config2_set : ℕ
eps_port_config2_set = 23

abbrev pub eps_port_config3 : ℕ
eps_port_config3 = 25

abbrev pub eps_config_cmd_get : ℕ
eps_config_cmd_get = 3

abbrev pub eps_config_cmd_set : ℕ
eps_config_cmd_set = 4

-- The sizes of the packed structs.
abbrev pub sizeof_hk : ℕ
sizeof_hk = 131

abbrev pub sizeof_hk_vi : ℕ
sizeof_hk_vi = 20

abbrev pub sizeof_hk_out : ℕ
sizeof_hk_out = 64

abbrev pub sizeof_hk_wdt : ℕ
sizeof_hk_wdt = 26

abbrev pub sizeof_hk_basic : ℕ
sizeof_hk_basic = 21

abbrev pub sizeof_config : ℕ
sizeof_config = 58

abbrev pub sizeof_config2 : ℕ
sizeof_config2 = 20

abbrev pub sizeof_config3 : ℕ
sizeof_config3 = 25

-- `eps_node` and `eps_timeout`, and what they start with.
pub record Eps : Type 0 where
  pub eps_node : ℕ
  pub eps_timeout : ℕ

abbrev pub eps_start : Eps
eps_start = record { eps_node = 2; eps_timeout = 1000 }

unfoldable pub eps_set_node : (node : ℕ) → Eps → Eps
eps_set_node node e = record e { eps_node = node }

unfoldable pub eps_set_timeout : (timeout : ℕ) → Eps → Eps
eps_set_timeout timeout e = record e { eps_timeout = timeout }

-- A transaction with the power supply.
unfoldable pub eps_call :
    {Request : Type 0}
    → Eps
    → (port timeout : ℕ) → Request
    → (outlen : ℕ) → (inlen : ℕ) → Call Request
eps_call e port timeout request outlen inlen = record {
  target = record { prio = csp_prio_high; node = e.eps_node; port = port; timeout = timeout };
  request = request;
  outlen = outlen;
  inlen = pos inlen;
}

-- The body of the five functions for housekeeping: two bytes are sent from a variable of one, so
-- what stands behind it is sent, too.
unfoldable pub hk_get :
    {Hk : Type 0} → (size req : ℕ) → (Hk → Hk) → Eps → Link Bytes Hk → (behind : ℕ) → Hk → ℤ × Hk
hk_get size req unpack e csp_transaction behind hk =
    let (status, got) =
      csp_transaction (eps_call e eps_port_hk e.eps_timeout (req ∷ behind ∷ []) 2 size) hk in
    if not (eqb_ℤ status (pos size)) then (status, got) else (status, unpack got)

-- The end of the functions that read a configuration.
unfoldable pub config_got : {Config : Type 0} → (Config → Config) → ℤ × Config → ℤ × Config
config_got unpack (status, config) =
    if ltb_ℤ (pos 0) status then (status, unpack config) else (negsuc 0, config)

-- `eps_output_set_single_req`
pub record SingleReq : Type 0 where
  pub channel : ℕ
  pub mode : ℕ
  pub delay : ℕ

module _ (o : ByteOrder) (e : Eps) where
  unfoldable pub eps_hk_get : Link Bytes EpsHk → (behind : ℕ) → EpsHk → ℤ × EpsHk
  eps_hk_get = hk_get sizeof_hk 0 (eps_hk_unpack o) e

  unfoldable pub eps_hk_vi_get : Link Bytes EpsHkVi → (behind : ℕ) → EpsHkVi → ℤ × EpsHkVi
  eps_hk_vi_get = hk_get sizeof_hk_vi 1 (eps_hk_vi_unpack o) e

  unfoldable pub eps_hk_out_get : Link Bytes EpsHkOut → (behind : ℕ) → EpsHkOut → ℤ × EpsHkOut
  eps_hk_out_get = hk_get sizeof_hk_out 2 (eps_hk_out_unpack o) e

  unfoldable pub eps_hk_wdt_get : Link Bytes EpsHkWdt → (behind : ℕ) → EpsHkWdt → ℤ × EpsHkWdt
  eps_hk_wdt_get = hk_get sizeof_hk_wdt 3 (eps_hk_wdt_unpack o) e

  unfoldable pub eps_hk_basic_get :
      Link Bytes EpsHkBasic → (behind : ℕ) → EpsHkBasic → ℤ × EpsHkBasic
  eps_hk_basic_get = hk_get sizeof_hk_basic 4 (eps_hk_basic_unpack o) e

  -- Numbers are cast to an `uint16_t` in the call.
  unfoldable pub eps_vboost_set : (vboost1 vboost2 vboost3 : ℕ) → Call Bytes
  eps_vboost_set vboost1 vboost2 vboost3 =
      eps_call e eps_port_set_vboost e.eps_timeout
        (o.csp_hton16 (vboost1 % 2 ^ 16)
          ∷ o.csp_hton16 (vboost2 % 2 ^ 16)
          ∷ o.csp_hton16 (vboost3 % 2 ^ 16)
          ∷ [])
        6 0

  unfoldable pub eps_pptmode_set : (mode : ℕ) → Call Bytes
  eps_pptmode_set mode = eps_call e eps_port_set_pptmode e.eps_timeout (mode ∷ []) 1 0

  unfoldable pub eps_config_get : Link Unit EpsConfig → EpsConfig → ℤ × EpsConfig
  eps_config_get csp_transaction config =
      config_got (eps_config_unpack o)
        (csp_transaction (eps_call e eps_port_config_get e.eps_timeout tt 0 sizeof_config) config)

  unfoldable pub eps_config_set : EpsConfig → Call EpsConfig
  eps_config_set pconfig =
      eps_call e eps_port_config_set e.eps_timeout (eps_config_pack o pconfig) sizeof_config 0

  unfoldable pub eps_config_cmd : (cmd : ℕ) → Call Bytes
  eps_config_cmd cmd = eps_call e eps_port_config_cmd e.eps_timeout (cmd ∷ []) 1 0

  unfoldable pub eps_config2_get : Link Unit EpsConfig2 → EpsConfig2 → ℤ × EpsConfig2
  eps_config2_get csp_transaction config2 =
      config_got (eps_config2_unpack o) (
        csp_transaction (eps_call e eps_port_config2_get e.eps_timeout tt 0 sizeof_config2) config2)

  unfoldable pub eps_config2_set : EpsConfig2 → Call EpsConfig2
  eps_config2_set pconfig2 =
      eps_call e eps_port_config2_set e.eps_timeout (eps_config2_pack o pconfig2) sizeof_config2 0

  unfoldable pub eps_config2_cmd : (cmd : ℕ) → Call Bytes
  eps_config2_cmd cmd = eps_call e eps_port_config2_cmd e.eps_timeout (cmd ∷ []) 1 0

  -- The first four bytes of the struct are sent, and the reply comes into the struct.
  unfoldable pub eps_config3_get : Link EpsConfig3 EpsConfig3 → EpsConfig3 → ℤ × EpsConfig3
  eps_config3_get csp_transaction pconfig3 =
      let asked : EpsConfig3 = record pconfig3 {
        version = 1;
        cmd = eps_config_cmd_get;
        length = sizeof_config3;
        flags = 0;
      } in
      config_got (eps_config3_unpack o)
        (csp_transaction (eps_call e eps_port_config3 e.eps_timeout asked 4 sizeof_config3) asked)

  unfoldable pub eps_config3_set : EpsConfig3 → Call EpsConfig3
  eps_config3_set pconfig3 =
      eps_call e eps_port_config3 e.eps_timeout
        (eps_config3_pack o (record pconfig3 {
          version = 1;
          cmd = eps_config_cmd_set;
          length = sizeof_config3;
          flags = 0;
        }))
        sizeof_config3 0

  -- Only these four bytes are sent.
  unfoldable pub eps_config3_cmd : (cmd : ℕ) → Call Bytes
  eps_config3_cmd cmd = eps_call e eps_port_config3 e.eps_timeout (1 ∷ cmd ∷ 4 ∷ 0 ∷ []) 4 0

  unfoldable pub eps_output_set : (output : ℕ) → Call Bytes
  eps_output_set output = eps_call e eps_port_set_output 0 (output ∷ []) 1 0

  -- The delay is an `int16_t` by its bits.
  unfoldable pub eps_output_set_single : (channel mode delay : ℕ) → Call SingleReq
  eps_output_set_single channel mode delay =
      eps_call e eps_port_set_single_output 0
        (record { channel = channel; mode = mode; delay = o.csp_hton16 delay }) 4 0

  unfoldable pub eps_heater : Link Bytes Bytes → (heater mode : ℕ) → (state : Bytes) → ℤ × Bytes
  eps_heater csp_transaction heater mode state =
      csp_transaction (eps_call e eps_port_heater e.eps_timeout (0 ∷ heater ∷ mode ∷ []) 3 2) state

  unfoldable pub eps_counters_reset : Call Bytes
  eps_counters_reset = eps_call e eps_port_reset_counters 0 (0x42 ∷ []) 1 0

  unfoldable pub eps_hardreset : Call Unit
  eps_hardreset = eps_call e eps_port_hardreset 0 tt 0 0

  unfoldable pub eps_wdt_gnd_reset : Call Bytes
  eps_wdt_gnd_reset = eps_call e eps_port_reset_wdt_gnd 0 (0x78 ∷ []) 1 0
