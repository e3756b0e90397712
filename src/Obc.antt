-- ===== src/Obc.antt =====
-- clients/a712/nanomind.c: the client of the on-board computer. A function that only returns what
-- its transaction returns, or nothing, is the call that it makes.
pub mod Boot
use uhf_gs_csp_software.Common.{
  ℕ, ◌+◌, ◌-◌, ◌%◌, ◌^◌, Bool, not, List, [], ◌∷◌, ◌++◌, Bytes, length, take, drop, leb, ltb_ℤ,
  if◌then◌else◌, ℤ, pos, eqb_ℤ, to_u32,
}
use uhf_gs_csp_software.World.{Result, ok, undefined}
use uhf_gs_csp_software.Csp.{ByteOrder, csp_prio_norm, Call, Link}
use uhf_gs_csp_software.PowerIf.{up_to_end, strncpy}

abbrev pub obc_port_timesync : ℕ
obc_port_timesync = 8

abbrev pub obc_port_load_img : ℕ
obc_port_load_img = 9

abbrev pub obc_port_jump : ℕ
obc_port_jump = 10

abbrev pub obc_port_boot_conf : ℕ
obc_port_boot_conf = 11

abbrev pub obc_port_ram_to_rom : ℕ
obc_port_ram_to_rom = 13

abbrev pub obc_port_boot_count : ℕ
obc_port_boot_count = 17

-- libutil's `timestamp_t`, two words.
pub record ObcTime : Type 0 where
  pub tv_sec : ℕ
  pub tv_nsec : ℕ

-- `obc_ram_to_rom_t`
pub record RamToRom : Type 0 where
  pub size : ℕ
  pub checksum : ℕ
  pub src : ℕ
  pub dst : ℕ

-- A transaction of normal priority; an `int` is cast to the time-out.
unfoldable pub obc_call :
    {Request : Type 0} → (node_obc port timeout : ℕ) → Request → (outlen inlen : ℕ) → Call Request
obc_call node_obc port timeout request outlen inlen = record {
  target = record { prio = csp_prio_norm; node = node_obc; port = port; timeout = timeout };
  request = request;
  outlen = outlen;
  inlen = pos inlen;
}

-- The behind of a call that brings a word: a failure sets it to 0.
unfoldable pub word_got : ByteOrder → ℤ × ℕ → ℤ × ℕ
word_got o (ret, word) = if ltb_ℤ (pos 0) ret then (ret, o.csp_ntoh32 word) else (ret, 0)

module _ (o : ByteOrder) (node_obc : ℕ) where
  -- The request and the reply are the same struct.
  unfoldable pub obc_timesync : Link ObcTime ObcTime → ObcTime → (timeout : ℤ) → ObcTime
  obc_timesync csp_transaction time timeout =
      let sent : ObcTime = record {
        tv_sec = o.csp_hton32 time.tv_sec;
        tv_nsec = o.csp_hton32 time.tv_nsec;
      } in
      let (status, got) =
        csp_transaction (obc_call node_obc obc_port_timesync (to_u32 timeout) sent 8 8) sent in
      if ltb_ℤ (pos 0) status
      then record { tv_sec = o.csp_ntoh32 got.tv_sec; tv_nsec = o.csp_ntoh32 got.tv_nsec }
      else record { tv_sec = 0; tv_nsec = 0 }

  unfoldable pub obc_jump_ram : (addr : ℕ) → Call ℕ
  obc_jump_ram addr = obc_call node_obc obc_port_jump 0 (o.csp_hton32 addr) 4 0

  -- The checksum that it shows, if it shows one.
  unfoldable pub obc_load_image : Link Bytes ℕ → (path : Bytes) → (remote_crc : ℕ) → List ℕ
  obc_load_image csp_transaction path remote_crc =
      let text = up_to_end path in
      let (status, got) =
        csp_transaction
          (obc_call node_obc obc_port_load_img 10000 (text ++ 0 ∷ []) (length text + 1) 4)
          remote_crc in
      if eqb_ℤ status (pos 0) then [] else o.csp_ntoh32 got ∷ []

  -- `word` has the bytes of a word in memory, and `buf` starts with what the stack held. More
  -- bytes than `buf` has are undefined.
  unfoldable pub obc_boot_conf :
      (word : ℕ → Bytes)
      → (buf : Bytes) → (checksum boot_counts : ℕ) → (path : Bytes) → Result (Call Bytes)
  obc_boot_conf word buf checksum boot_counts path =
      let filled : Bytes =
        word (o.csp_hton32 checksum)
        ++ word (o.csp_hton32 boot_counts)
        ++ strncpy (drop 8 buf) path 92 in
      let sent = length (up_to_end path) + 1 + 4 + 4 in
      if leb sent 100
      then ok (obc_call node_obc obc_port_boot_conf 0 (take sent filled) sent 0)
      else undefined

  unfoldable pub obc_boot_del : Call ℕ
  obc_boot_del = obc_call node_obc obc_port_boot_conf 0 (o.csp_hton32 0x80078007) 4 0

  unfoldable pub obc_boot_count_get : Link Unit ℕ → (boot_count : ℕ) → (timeout : ℤ) → ℤ × ℕ
  obc_boot_count_get csp_transaction boot_count timeout =
      word_got o
        (csp_transaction (obc_call node_obc obc_port_boot_count (to_u32 timeout) tt 0 4) boot_count)

  unfoldable pub obc_boot_count_reset : Link Bytes ℕ → (boot_count : ℕ) → (timeout : ℤ) → ℤ × ℕ
  obc_boot_count_reset csp_transaction boot_count timeout = word_got o (
      csp_transaction (obc_call node_obc obc_port_boot_count (to_u32 timeout) (0 ∷ []) 1 4)
        boot_count)

  unfoldable pub obc_ram_to_rom : (size checksum src dst : ℕ) → Call RamToRom
  obc_ram_to_rom size checksum src dst =
      obc_call node_obc obc_port_ram_to_rom 0
        (record {
          size = o.csp_hton32 size;
          checksum = o.csp_hton32 checksum;
          src = o.csp_hton32 src;
          dst = o.csp_hton32 dst;
        })
        16 0
