-- ===== src/Eps/Settings.antt =====
-- The three configurations of the power supply in clients/nanopower/src/nanopower2.c.
use uhf_gs_csp_software.Common.{ℕ, suc, ◌≡◌, refl, ◌∙◌, arith, Bytes, ℤ, pos}
use uhf_gs_csp_software.Csp.{ByteOrder, IsInverse, Call, Link, each, each-inverse}
use uhf_gs_csp_software.Eps.{
  EpsConfig, EpsConfig2, EpsConfig3, swap_config, swap_config2, swap_config3, eps_config_pack,
  eps_config_unpack, eps_config2_pack, eps_config2_unpack, eps_config3_pack, eps_config3_unpack,
}
use uhf_gs_csp_software.Eps.Client.{
  Eps, eps_port_config_get, eps_port_config2_get, eps_port_config3, eps_config_cmd_get, eps_call,
  config_got, eps_config_get, eps_config_set, sizeof_config, sizeof_config2, sizeof_config3,
  eps_config2_get, eps_config2_set, eps_config3_get, eps_config3_set,
}

-- libcsp to a power supply, for each configuration that it answers with.
pub record ConfigLinks : Type 0 where
  pub config : Link Unit EpsConfig
  pub config2 : Link Unit EpsConfig2
  pub config3 : Link EpsConfig3 EpsConfig3

-- A power supply that answers a request for a configuration with what was last sent to set it, and
-- with some length.
pub record Keeps (sent : Call EpsConfig) (sent2 : Call EpsConfig2) (sent3 : Call EpsConfig3) (n : ℕ)
    (l : ConfigLinks) : Type 0 where
  pub config :
      (c : Call Unit) (m : EpsConfig)
      → c.target.port ≡ eps_port_config_get
      → l.config c m ≡ (pos (suc n), sent.request)
  pub config2 :
      (c : Call Unit) (m : EpsConfig2)
      → c.target.port ≡ eps_port_config2_get
      → l.config2 c m ≡ (pos (suc n), sent2.request)
  pub config3 :
      (c : Call EpsConfig3) (m : EpsConfig3)
      → c.target.port ≡ eps_port_config3
      → c.request.cmd ≡ eps_config_cmd_get
      → l.config3 c m ≡ (pos (suc n), sent3.request)

-- The struct when the third configuration is asked for.
abbrev asked3 : EpsConfig3 → EpsConfig3
asked3 m = record m { version = 1; cmd = 3; length = 25; flags = 0 }

config_got-answered :
    {Config : Type 0}
    → (unpack : Config → Config) (n : ℕ) (answer : ℤ × Config) (packed : Config)
    → answer ≡ (pos (suc n), packed)
    → config_got unpack answer ≡ (pos (suc n), unpack packed)
unfolding config_got
config_got-answered unpack n answer packed h = rw h (ground arith)

module _ (o : ByteOrder) where
  -- With functions of the byte order that undo each other: from a power supply that answers with
  -- what the three functions for setting a configuration sent, those for getting it return its
  -- status and the configurations that were set, the third with its version 1, the command for
  -- setting, its size, 25, and no flags, whatever stood in the structs before.
  pub eps_config_get-set :
      (e : Eps) (l : ConfigLinks) (n : ℕ) (config m : EpsConfig) (config2 m2 : EpsConfig2)
      (config3 m3 : EpsConfig3)
      → IsInverse o
      → Keeps
          (eps_config_set o e config)
          (eps_config2_set o e config2)
          (eps_config3_set o e config3)
          n
          l
      → (eps_config_get o e l.config m ≡ (pos (suc n), config))
        × (eps_config2_get o e l.config2 m2 ≡ (pos (suc n), config2))
        × (eps_config3_get o e l.config3 m3
            ≡ (pos (suc n), record config3 { version = 1; cmd = 4; length = 25; flags = 0 }))
  unfolding eps_config_get eps_config2_get eps_config3_get eps_config_set eps_config2_set
      eps_config3_set eps_call eps_config_pack eps_config_unpack eps_config2_pack eps_config2_unpack
      eps_config3_pack eps_config3_unpack swap_config swap_config2 swap_config3
  eps_config_get-set e l n config m config2 m2 config3 m3 inverse keeps =
      let back : (count : ℕ) (xs : Bytes)
          → each o.csp_ntoh16 count (each o.csp_hton16 count xs) ≡ xs =
        each-inverse o.csp_hton16 o.csp_ntoh16 inverse.back16 in
      (
        config_got-answered _ n _ _ (
              keeps.config (eps_call e eps_port_config_get e.eps_timeout tt 0 sizeof_config) m refl)
            ∙ simp back,
        config_got-answered _ n _ _ (
              keeps.config2 (eps_call e eps_port_config2_get e.eps_timeout tt 0 sizeof_config2) m2
                refl)
            ∙ simp inverse.back16,
        config_got-answered _ n _ _ (
              keeps.config3 (eps_call e eps_port_config3 e.eps_timeout (asked3 m3) 4 sizeof_config3)
                (asked3 m3) refl refl)
            ∙ simp back,
      )
