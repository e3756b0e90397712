-- ===== src/Eps/Housekeeping.antt =====
-- Housekeeping of the power supply in clients/nanopower/src/nanopower2.c: the whole struct and its
-- four parts.
use uhf_gs_csp_software.Common.{ℕ, ◌≡◌, refl, ◌∙◌, ap, arith, [], ◌∷◌, Bytes, get_or, pos}
use uhf_gs_csp_software.Csp.{ByteOrder, IsInverse, Call, Link, each, each-inverse}
use uhf_gs_csp_software.Eps.{
  EpsHkVi, EpsHkOut, EpsHkWdt, EpsHkBasic, EpsHk, swap_vi, swap_out, swap_wdt, swap_basic, swap_hk,
  eps_hk_vi_unpack, eps_hk_out_unpack, eps_hk_wdt_unpack, eps_hk_basic_unpack, eps_hk_pack,
  eps_hk_unpack,
}
use uhf_gs_csp_software.Eps.Client.{
  Eps, eps_port_hk, sizeof_hk, sizeof_hk_vi, sizeof_hk_out, sizeof_hk_wdt, sizeof_hk_basic,
  eps_call, hk_get, eps_hk_get, eps_hk_vi_get, eps_hk_out_get, eps_hk_wdt_get, eps_hk_basic_get,
}

-- The parts of the struct, as they stand in it.
abbrev pub vi_of : EpsHk → EpsHkVi
vi_of hk = record {
  vboost = hk.vboost;
  vbatt = hk.vbatt;
  curin = hk.curin;
  cursun = hk.cursun;
  cursys = hk.cursys;
  reserved = hk.reserved;
}

abbrev pub out_of : EpsHk → EpsHkOut
out_of hk = record {
  curout = hk.curout;
  output = hk.output;
  output_on_delta = hk.output_on_delta;
  output_off_delta = hk.output_off_delta;
  latchup = hk.latchup;
}

abbrev pub wdt_of : EpsHk → EpsHkWdt
wdt_of hk = record {
  wdt_i2c_time_left = hk.wdt_i2c_time_left;
  wdt_gnd_time_left = hk.wdt_gnd_time_left;
  wdt_csp_pings_left = hk.wdt_csp_pings_left;
  counter_wdt_i2c = hk.counter_wdt_i2c;
  counter_wdt_gnd = hk.counter_wdt_gnd;
  counter_wdt_csp = hk.counter_wdt_csp;
}

abbrev pub basic_of : EpsHk → EpsHkBasic
basic_of hk = record {
  counter_boot = hk.counter_boot;
  temp = hk.temp;
  bootcause = hk.bootcause;
  battmode = hk.battmode;
  pptmode = hk.pptmode;
  reserved2 = hk.reserved2;
}

-- libcsp to a power supply, for each struct that it answers with.
pub record HkLinks : Type 0 where
  pub whole : Link Bytes EpsHk
  pub vi : Link Bytes EpsHkVi
  pub out : Link Bytes EpsHkOut
  pub wdt : Link Bytes EpsHkWdt
  pub basic : Link Bytes EpsHkBasic

-- A request for housekeeping `i`.
abbrev pub AsksFor : (i : ℕ) → Call Bytes → Type 0
AsksFor i c = (c.target.port ≡ eps_port_hk) × (get_or c.request 0 5 ≡ i)

-- A power supply that answers from `hk`, packed as this file packs it.
pub record Serves (o : ByteOrder) (hk : EpsHk) (l : HkLinks) : Type 0 where
  pub whole :
      (c : Call Bytes) (m : EpsHk) → AsksFor 0 c → l.whole c m ≡ (pos sizeof_hk, eps_hk_pack o hk)
  pub vi :
      (c : Call Bytes) (m : EpsHkVi)
      → AsksFor 1 c
      → l.vi c m ≡ (pos sizeof_hk_vi, vi_of (eps_hk_pack o hk))
  pub out :
      (c : Call Bytes) (m : EpsHkOut)
      → AsksFor 2 c
      → l.out c m ≡ (pos sizeof_hk_out, out_of (eps_hk_pack o hk))
  pub wdt :
      (c : Call Bytes) (m : EpsHkWdt)
      → AsksFor 3 c
      → l.wdt c m ≡ (pos sizeof_hk_wdt, wdt_of (eps_hk_pack o hk))
  pub basic :
      (c : Call Bytes) (m : EpsHkBasic)
      → AsksFor 4 c
      → l.basic c m ≡ (pos sizeof_hk_basic, basic_of (eps_hk_pack o hk))

-- An answer of the length that is asked for is unpacked.
hk_get-answered :
    {Hk : Type 0}
    → (size req : ℕ) (unpack : Hk → Hk) (e : Eps) (l : Link Bytes Hk) (behind : ℕ) (m packed : Hk)
    → ((c : Call Bytes) (m : Hk) → AsksFor req c → l c m ≡ (pos size, packed))
    → hk_get size req unpack e l behind m ≡ (pos size, unpack packed)
unfolding hk_get eps_call
hk_get-answered size req unpack e l behind m packed h =
    rw (h (eps_call e eps_port_hk e.eps_timeout (req ∷ behind ∷ []) 2 size) m (refl, refl))
      (ground arith)

module _ (o : ByteOrder) where
  -- With a byte order whose functions are each other's inverses, and the same ones for 32 bits, as
  -- libcsp's are.
  eps_hk_unpack-pack :
      (hk : EpsHk)
      → IsInverse o
      → ((n : ℕ) → o.csp_ntoh32 n ≡ o.csp_hton32 n)
      → eps_hk_unpack o (eps_hk_pack o hk) ≡ hk
  unfolding eps_hk_unpack eps_hk_pack swap_hk
  eps_hk_unpack-pack hk inverse same =
      let back : (count : ℕ) (xs : Bytes)
          → each o.csp_ntoh16 count (each o.csp_hton16 count xs) ≡ xs =
        each-inverse o.csp_hton16 o.csp_ntoh16 inverse.back16 in
      let twice : (n : ℕ) → o.csp_ntoh32 (o.csp_ntoh32 n) ≡ n =
        λ n. ap o.csp_ntoh32 (same n) ∙ inverse.back32 n in
      simp (back, inverse.back16, inverse.back32, each-inverse o.csp_ntoh32 o.csp_ntoh32 twice)

  -- A power supply that answers every request from one struct, packed with `eps_hk_pack`: the five
  -- functions return the sizes of their structs, and give the struct and its four parts as they
  -- were, if the functions of the byte order undo each other, and those for 32 bits are the same.
  pub eps_hk_get-parts :
      (e : Eps) (hk : EpsHk) (l : HkLinks) (behind : ℕ) (m : EpsHk) (m_vi : EpsHkVi)
      (m_out : EpsHkOut) (m_wdt : EpsHkWdt) (m_basic : EpsHkBasic)
      → IsInverse o
      → ((n : ℕ) → o.csp_ntoh32 n ≡ o.csp_hton32 n)
      → Serves o hk l
      → (eps_hk_get o e l.whole behind m ≡ (pos 131, hk))
        × (eps_hk_vi_get o e l.vi behind m_vi ≡ (pos 20, vi_of hk))
        × (eps_hk_out_get o e l.out behind m_out ≡ (pos 64, out_of hk))
        × (eps_hk_wdt_get o e l.wdt behind m_wdt ≡ (pos 26, wdt_of hk))
        × (eps_hk_basic_get o e l.basic behind m_basic ≡ (pos 21, basic_of hk))
  unfolding eps_hk_get eps_hk_vi_get eps_hk_out_get eps_hk_wdt_get eps_hk_basic_get eps_hk_pack
      eps_hk_unpack eps_hk_vi_unpack eps_hk_out_unpack eps_hk_wdt_unpack eps_hk_basic_unpack swap_hk
      swap_vi swap_out swap_wdt swap_basic
  eps_hk_get-parts e hk l behind m m_vi m_out m_wdt m_basic inverse same serves =
      let whole = eps_hk_unpack-pack hk inverse same in
      (
        hk_get-answered 131 0 _ e l.whole behind m _ serves.whole
            ∙ ap (λ (h : EpsHk). (pos 131, h)) whole,
        hk_get-answered 20 1 _ e l.vi behind m_vi _ serves.vi
            ∙ ap (λ (h : EpsHk). (pos 20, vi_of h)) whole,
        hk_get-answered 64 2 _ e l.out behind m_out _ serves.out
            ∙ ap (λ (h : EpsHk). (pos 64, out_of h)) whole,
        hk_get-answered 26 3 _ e l.wdt behind m_wdt _ serves.wdt
            ∙ ap (λ (h : EpsHk). (pos 26, wdt_of h)) whole,
        hk_get-answered 21 4 _ e l.basic behind m_basic _ serves.basic
            ∙ ap (λ (h : EpsHk). (pos 21, basic_of h)) whole,
      )
