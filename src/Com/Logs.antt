-- ===== src/Com/Logs.antt =====
-- The logs that clients/nanocom/nanocom.c reads from the radio.
use uhf_gs_csp_software.Common.{
  ℕ, zero, suc, ◌*◌, ◌/◌, ◌%◌, ◌^◌, ◌+◌, ltb, ◌≤◌, ◌<◌, ◌≡◌, refl, ◌∙◌, ap, arith, List, [], ◌∷◌,
  ◌++◌, length, true, false, ◌==◌, pos, negsuc,
}
use uhf_gs_csp_software.World.{ok, undefined}
use uhf_gs_csp_software.Csp.{ByteOrder, IsInverse, csp_prio_norm, Call, Link}
use uhf_gs_csp_software.Com.{
  NanocomRssi, NanocomHk, to_size, com_port_log_rssi, com_port_log_hk, com_call, with_entry,
  each_entry, log_counted, log_got, swap_rssi, swap_com_hk, com_get_log_rssi, com_get_hk,
}

-- The entries as they stand in the radio's reply.
module _ {A : Type 0} where
  abbrev pub entries : (A → A) → List A → List A
  entries f [] = []
  entries f (a ∷ d) = f a ∷ entries f d

  each_entry-back :
      (f g : A → A)
      → ((a : A) → g (f a) ≡ a)
      → (d behind : List A) → each_entry g (length d) (entries f d ++ behind) ≡ ok (d ++ behind)
  unfolding each_entry with_entry
  each_entry-back f g back [] behind = refl
  each_entry-back f g back (a ∷ d) behind = rw (back a, each_entry-back f g back d behind) refl

  log_got-counted :
      (size status n count room : ℕ) (g : A → A) (d : List A)
      → ltb (room * size) status ≡ false
      → (status == 0) ≡ false
      → (to_size (pos status) % size == 0) ≡ true
      → to_size (pos status) / size ≡ n
      → log_got size g count room (pos status, d) ≡ log_counted (n % 2 ^ 8) (each_entry g n d)
  unfolding log_got
  log_got-counted size status n count room g d fits some whole is_n =
      rw (fits, some, whole, is_n) refl

  log_got-refused :
      (size status count room : ℕ) (g : A → A) (d : List A)
      → ltb (room * size) status ≡ false
      → (to_size (pos status) % size == 0) ≡ false
      → log_got size g count room (pos status, d) ≡ ok (0, d, count)
  unfolding log_got
  log_got-refused size zero count room g d fits odd = rw fits refl
  log_got-refused size (suc status) count room g d fits odd = rw (fits, odd) (ground arith)

module _ (o : ByteOrder) where
  -- The radio's order of bytes.
  abbrev pub rssi_sent : NanocomRssi → NanocomRssi
  rssi_sent logd = record {
    time = o.csp_hton32 logd.time;
    rssi = o.csp_hton16 logd.rssi;
    rferr = o.csp_hton16 logd.rferr;
  }

  abbrev pub hk_sent : NanocomHk → NanocomHk
  hk_sent hkd = record {
    time = o.csp_hton32 hkd.time;
    temp_a = o.csp_hton16 hkd.temp_a;
    temp_b = o.csp_hton16 hkd.temp_b;
    batt_volt = o.csp_hton16 hkd.batt_volt;
  }

  swap_rssi-sent : IsInverse o → (a : NanocomRssi) → swap_rssi o (rssi_sent a) ≡ a
  unfolding swap_rssi
  swap_rssi-sent inverse a =
      rw (inverse.back32 a.time, inverse.back16 a.rssi, inverse.back16 a.rferr) refl

  swap_com_hk-sent : IsInverse o → (a : NanocomHk) → swap_com_hk o (hk_sent a) ≡ a
  unfolding swap_com_hk
  swap_com_hk-sent inverse a =
      rw
        (
          inverse.back32 a.time,
          inverse.back16 a.temp_a,
          inverse.back16 a.temp_b,
          inverse.back16 a.batt_volt,
        )
        refl

  -- For a reply with one entry or more, in the order of bytes of the network, that the array of the
  -- caller has room for, and functions of the byte order that undo each other: both functions
  -- return 1, give all the entries of the reply in their order and leave what is behind them in the
  -- array, and count the entries in an `uint8_t`, so that 256 count as none. A reply of more bytes
  -- than the array has is written past it, which is undefined.
  pub com_get_log-all :
      (node timeout count : ℕ) (logs behind m : List NanocomRssi) (l : Link Unit (List NanocomRssi))
      (hks hk_behind m_hk : List NanocomHk) (l_hk : Link Unit (List NanocomHk)) (long : ℕ)
      (d : List NanocomRssi) (d_hk : List NanocomHk)
      → IsInverse o
      → 8 * length m < long
      → 10 * length m_hk < long
      → length logs + length behind ≡ length m
      → length hks + length hk_behind ≡ length m_hk
      → 0 < length logs
      → length logs < 2 ^ 24
      → 0 < length hks
      → length hks < 2 ^ 24
      → ((c : Call Unit)
          → c.target.port ≡ com_port_log_rssi
          → l c m ≡ (pos (8 * length logs), entries rssi_sent logs ++ behind))
      → ((c : Call Unit)
          → c.target.port ≡ com_port_log_hk
          → l_hk c m_hk ≡ (pos (10 * length hks), entries hk_sent hks ++ hk_behind))
      → (com_get_log_rssi o l m count node timeout ≡ ok (1, logs ++ behind, length logs % 256))
        × (com_get_hk o l_hk m_hk count node timeout ≡ ok (1, hks ++ hk_behind, length hks % 256))
        × (com_get_log_rssi o (λ c a. (pos long, d)) m count node timeout ≡ undefined)
        × (com_get_hk o (λ c a. (pos long, d_hk)) m_hk count node timeout ≡ undefined)
  unfolding com_get_log_rssi com_get_hk com_call log_counted log_got
  com_get_log-all node timeout count logs behind m l hks hk_behind m_hk l_hk long d d_hk inverse
        past past_hk room room_hk some short some_hk short_hk reply reply_hk =
      (
        rw (reply (com_call csp_prio_norm node com_port_log_rssi timeout tt 0 (negsuc 0)) refl) (
            log_got-counted 8 (8 * length logs) (length logs) count (length m) (swap_rssi o) _
              (ground (arith, room)) (ground arith) (ground arith) (omega arith)
            ∙ ap (log_counted (length logs % 2 ^ 8))
                (each_entry-back rssi_sent (swap_rssi o) (swap_rssi-sent inverse) logs behind)),
        rw (reply_hk (com_call csp_prio_norm node com_port_log_hk timeout tt 0 (negsuc 0)) refl) (
            log_got-counted 10 (10 * length hks) (length hks) count (length m_hk) (swap_com_hk o) _
              (ground (arith, room_hk)) (ground arith) (ground arith) (omega arith)
            ∙ ap (log_counted (length hks % 2 ^ 8))
                (each_entry-back hk_sent (swap_com_hk o) (swap_com_hk-sent inverse) hks hk_behind)),
        ground (arith, past),
        ground (arith, past_hk),
      )

  -- A reply that fits the array, whose length is no multiple of 8 and none of 10, the sizes of an
  -- entry of the two logs, is refused: both functions return 0, leave the count, and swap nothing
  -- of what the reply left in memory.
  pub com_get_log-refused :
      (node timeout count status : ℕ) (m d : List NanocomRssi) (l : Link Unit (List NanocomRssi))
      (m_hk d_hk : List NanocomHk) (l_hk : Link Unit (List NanocomHk))
      → status < 2 ^ 31
      → status ≤ length m * 8
      → status ≤ length m_hk * 10
      → 0 < status % 8
      → 0 < status % 10
      → ((c : Call Unit) → l c m ≡ (pos status, d))
      → ((c : Call Unit) → l_hk c m_hk ≡ (pos status, d_hk))
      → (com_get_log_rssi o l m count node timeout ≡ ok (0, d, count))
        × (com_get_hk o l_hk m_hk count node timeout ≡ ok (0, d_hk, count))
  unfolding com_get_log_rssi com_get_hk
  com_get_log-refused node timeout count status m d l m_hk d_hk l_hk fits room room_hk odd odd_hk
        reply reply_hk =
      (
        rw (reply (com_call csp_prio_norm node com_port_log_rssi timeout tt 0 (negsuc 0))) (
            log_got-refused 8 status count (length m) (swap_rssi o) d (ground arith)
              (ground arith)),
        rw (reply_hk (com_call csp_prio_norm node com_port_log_hk timeout tt 0 (negsuc 0))) (
            log_got-refused 10 status count (length m_hk) (swap_com_hk o) d_hk (ground arith)
              (ground arith)),
      )
