-- ===== src/Obc/Boot.antt =====
-- What clients/a712/nanomind.c sends to boot an image, and the time that it gets.
use uhf_gs_csp_software.Common.{
  ℕ, zero, suc, ◌+◌, ◌-◌, ◌≤◌, ◌<◌, ◌≡◌, refl, sym, ap, ◌∙◌, arith, true, false, [], ◌∷◌, ◌++◌,
  append_assoc, Bytes, length, length-append, take, drop, replicate, leb, Bool-cases, inl, inr,
  ltb_ℤ, to_u32, if◌then◌else◌, ℤ, pos,
}
use uhf_gs_csp_software.World.{ok, undefined}
use uhf_gs_csp_software.Csp.{ByteOrder, IsInverse, csp_prio_norm, Call, Link}
use uhf_gs_csp_software.PowerIf.{up_to_end, strncpy}
use uhf_gs_csp_software.Obc.{ObcTime, obc_port_timesync, obc_call, obc_timesync, obc_boot_conf}

take_all : (n : ℕ) (s : Bytes) → length s ≤ n → take n s ≡ s
take_all zero [] h = refl
take_all zero (c ∷ s) h = absurd (omega arith)
take_all (suc n) [] h = refl
take_all (suc n) (c ∷ s) h = ap (λ (t : Bytes). c ∷ t) (take_all n s (omega arith))

take_one_more : (s behind : Bytes) (c : ℕ) → take (length s + 1) (s ++ (c ∷ behind)) ≡ s ++ (c ∷ [])
take_one_more [] behind c = refl
take_one_more (b ∷ s) behind c =
    let longer : suc (length s) + 1 ≡ suc (length s + 1) = omega arith in
    rw longer (ap (λ (t : Bytes). b ∷ t) (take_one_more s behind c))

take_behind : (s t : Bytes) (n : ℕ) → take (length s + n) (s ++ t) ≡ s ++ take n t
take_behind [] t n = let same : 0 + n ≡ n = omega arith in rw same refl
take_behind (b ∷ s) t n =
    let longer : suc (length s) + n ≡ suc (length s + n) = omega arith in
    rw longer (ap (λ (u : Bytes). b ∷ u) (take_behind s t n))

-- A text below the size is copied with the zero that ends it.
take-strncpy :
    (dest src : Bytes) (n : ℕ)
    → length (up_to_end src) < n
    → take (length (up_to_end src) + 1) (strncpy dest src n) ≡ up_to_end src ++ 0 ∷ []
unfolding strncpy
take-strncpy dest src n h =
    let text = up_to_end src in
    let padded : n - length text ≡ suc (n - length text - 1) = omega (arith, h) in
    let rest : Bytes = replicate (n - length text - 1) 0 in
    rw (take_all n text (omega (arith, h)), padded)
      (ap (take (length text + 1)) (append_assoc text (0 ∷ rest) (drop n dest))
        ∙ take_one_more text (rest ++ drop n dest) 0)

module _ (o : ByteOrder) (node_obc : ℕ) where
  -- A path of 91 characters or fewer is sent with its end, behind the checksum and the count in
  -- the network's order of bytes, and whatever the stack held is not; with a longer path, the call
  -- reads behind the buffer.
  pub obc_boot_conf-sent :
      (word : ℕ → Bytes) (buf : Bytes) (checksum boot_counts : ℕ) (path : Bytes)
      → ((n : ℕ) → length (word n) ≡ 4)
      → obc_boot_conf o node_obc word buf checksum boot_counts path ≡ (
          if leb (length (up_to_end path)) 91
          then ok (record {
            target = record { prio = csp_prio_norm; node = node_obc; port = 11; timeout = 0 };
            request =
                word (o.csp_hton32 checksum)
                ++ word (o.csp_hton32 boot_counts)
                ++ up_to_end path
                ++ 0 ∷ [];
            outlen = length (up_to_end path) + 9;
            inlen = pos 0;
          })
          else undefined)
  unfolding obc_boot_conf obc_call
  obc_boot_conf-sent word buf checksum boot_counts path words =
      let text = up_to_end path in
      let first = word (o.csp_hton32 checksum) in
      let second = word (o.csp_hton32 boot_counts) in
      let copied = strncpy (drop 8 buf) path 92 in
      elim (Bool-cases (leb (length text) 91)) [
        | inl short ↦
            let fits : leb (length text + 1 + 4 + 4) 100 ≡ true = ground arith in
            let head = first ++ second in
            let counted : length text + 1 + 4 + 4 ≡ length head + (length text + 1) = omega (
              arith,
              length-append first second,
              words (o.csp_hton32 checksum),
              words (o.csp_hton32 boot_counts),
            ) in
            let cut : take (length text + 1 + 4 + 4) (head ++ copied) ≡ head ++ text ++ (0 ∷ []) =
              ap (λ (k : ℕ). take k (head ++ copied)) counted
              ∙ take_behind head copied (length text + 1)
              ∙ ap (λ (t : Bytes). head ++ t) (take-strncpy (drop 8 buf) path 92 (ground arith))
              ∙ sym (append_assoc head text (0 ∷ [])) in
            let outlen : length text + 1 + 4 + 4 ≡ length text + 9 = omega arith in
            rw (short, fits, cut, outlen) refl
        | inr long ↦
            let over : leb (length text + 1 + 4 + 4) 100 ≡ false = ground arith in
            rw (long, over) refl
      ]

  -- With functions of the byte order that undo each other: a computer that answers, with a
  -- positive status, with its time in the order of bytes of the network gives that time; for any
  -- other status the time is 0.
  pub obc_timesync-answered :
      (l failing : Link ObcTime ObcTime) (time answer : ObcTime) (timeout : ℤ) (n : ℕ) (status : ℤ)
      → IsInverse o
      → ((c : Call ObcTime) (m : ObcTime)
          → c.target.port ≡ obc_port_timesync
          → l c m ≡ (
            pos (suc n),
            record { tv_sec = o.csp_hton32 answer.tv_sec; tv_nsec = o.csp_hton32 answer.tv_nsec },
          ))
      → ltb_ℤ (pos 0) status ≡ false
      → ((c : Call ObcTime) (m : ObcTime) → failing c m ≡ (status, m))
      → (obc_timesync o node_obc l time timeout ≡ answer)
        × (obc_timesync o node_obc failing time timeout ≡ record { tv_sec = 0; tv_nsec = 0 })
  unfolding obc_timesync obc_call
  obc_timesync-answered l failing time answer timeout n status inverse answered low fails =
      let swapped : ObcTime = record {
        tv_sec = o.csp_hton32 time.tv_sec;
        tv_nsec = o.csp_hton32 time.tv_nsec;
      } in
      let call = obc_call node_obc obc_port_timesync (to_u32 timeout) swapped 8 8 in
      (
        rw (answered call swapped refl, inverse.back32 answer.tv_sec, inverse.back32 answer.tv_nsec)
            (ground arith),
        rw (fails call swapped, low) refl,
      )
