-- ===== src/Com/Session.antt =====
-- What a session on the console of clients/nanocom/cmd_com.c sends to the radio.
use uhf_gs_csp_software.Common.{
  ℕ, ◌%◌, ◌^◌, ◌≡◌, refl, sym, ◌∙◌, Bool, inl, inr, true, false, not, Option-cases, none, some,
  List, [], ◌∷◌, ◌++◌, All, length, take, get_or, ◌==◌, if◌then◌else◌, ℤ, pos, eqb_ℤ,
}
use uhf_gs_csp_software.Common.Decimal.{atoi}
use uhf_gs_csp_software.Csp.{ByteOrder, IsInverse, csp_prio_high, Call}
use uhf_gs_csp_software.Com.{
  NanocomConf, com_port_conf, com_call, swap_conf, com_get_conf, com_set_conf,
}
use uhf_gs_csp_software.Com.Console.{
  ComResult, cmd_error_none, cmd_error_syntax, CommandContext, Console, Env, conf_sent, ConfField,
  rx_baud_field, tx_baud_field, preamble_length_field, morse_enable_field, morse_mode_field,
  morse_cycle_field, morse_inter_delay_field, morse_wpm_field, morse_bat_level_field,
  morse_pospone_field, do_viterbi_field, do_random_field, hk_interval_field, put, with_conf,
  set_number, cmd_com_conf_do_rs, to_i16_bits, cmd_com_conf_max_temp, toggle,
  cmd_com_conf_morse_toggle, cmd_com_conf_morse_string, cmd_com_get_conf, cmd_com_set_conf, Command,
  cg, cs, cr, number, number_handler, cmd_com_conf_baud_rx, cmd_com_conf_baud_tx,
  cmd_com_conf_preamble, cmd_com_conf_morse_enable, cmd_com_conf_morse_mode,
  cmd_com_conf_morse_cycle, cmd_com_conf_morse_interval, cmd_com_conf_morse_wpm,
  cmd_com_conf_morse_batt_level, cmd_com_conf_morse_pospone, cmd_com_conf_do_viterbi,
  cmd_com_conf_do_random, cmd_com_conf_set_hkinterval, rs, maxtemp, mtoggle, mtext, set_node,
  handler, then_run, session,
}

-- A number in its field as it stands in the radio's struct: `f` swaps the wide fields.
abbrev pub put_sent : (ℕ → ℕ) → ConfField → ℕ → NanocomConf → NanocomConf
put_sent f rx_baud_field n c = record c { rx_baud = n % 2 ^ 8 }
put_sent f tx_baud_field n c = record c { tx_baud = n % 2 ^ 8 }
put_sent f preamble_length_field n c = record c { preamble_length = f (n % 2 ^ 16) }
put_sent f morse_enable_field n c = record c { morse_enable = n % 2 ^ 8 }
put_sent f morse_mode_field n c = record c { morse_mode = n % 2 ^ 8 }
put_sent f morse_cycle_field n c = record c { morse_cycle = n % 2 ^ 8 }
put_sent f morse_inter_delay_field n c = record c { morse_inter_delay = f (n % 2 ^ 16) }
put_sent f morse_wpm_field n c = record c { morse_wpm = n % 2 ^ 8 }
put_sent f morse_bat_level_field n c = record c { morse_bat_level = f (n % 2 ^ 16) }
put_sent f morse_pospone_field n c = record c { morse_pospone = f (n % 2 ^ 16) }
put_sent f do_viterbi_field n c = record c { do_viterbi = n % 2 ^ 8 }
put_sent f do_random_field n c = record c { do_random = n % 2 ^ 8 }
put_sent f hk_interval_field n c = record c { hk_interval = f (n % 2 ^ 16) }

swap_conf-put :
    (f : ℕ → ℕ) (field : ConfField) (n : ℕ) (c : NanocomConf)
    → swap_conf f (put field n c) ≡ put_sent f field n (swap_conf f c)
unfolding swap_conf put
swap_conf-put f rx_baud_field n c = refl
swap_conf-put f tx_baud_field n c = refl
swap_conf-put f preamble_length_field n c = refl
swap_conf-put f morse_enable_field n c = refl
swap_conf-put f morse_mode_field n c = refl
swap_conf-put f morse_cycle_field n c = refl
swap_conf-put f morse_inter_delay_field n c = refl
swap_conf-put f morse_wpm_field n c = refl
swap_conf-put f morse_bat_level_field n c = refl
swap_conf-put f morse_pospone_field n c = refl
swap_conf-put f do_viterbi_field n c = refl
swap_conf-put f do_random_field n c = refl
swap_conf-put f hk_interval_field n c = refl

-- A command that sets fields of the configuration.
abbrev pub IsEdit : Command → Type 0
IsEdit cg = ⊥
IsEdit cs = ⊥
IsEdit cr = ⊥
IsEdit (set_node ctx) = ⊥
IsEdit (number field ctx) = Unit
IsEdit (rs held ctx) = Unit
IsEdit (maxtemp ctx) = Unit
IsEdit (mtoggle ctx) = Unit
IsEdit (mtext ctx) = Unit

-- What such a command changes in the radio's struct.
abbrev pub edit_sent : (ℕ → ℕ) → Env → Command → NanocomConf → NanocomConf
edit_sent f env (number field ctx) c = elim (env.scan_u ctx.args) [
  | none ↦ c
  | some n ↦ put_sent f field n c
]
edit_sent f env (rs held ctx) c = record c {
  do_rs = (elim (env.scan_u ctx.args) [ none ↦ held | some n ↦ n ]) % 2 ^ 8;
}
edit_sent f env (maxtemp ctx) c =
    if length ctx.argv == 2
    then record c { tx_max_temp = f (to_i16_bits (atoi (get_or ctx.argv 1 []))) }
    else c
edit_sent f env (mtoggle ctx) c =
    if length ctx.argv == 8
    then record c {
      morse_en_voltage = toggle ctx.argv 1;
      morse_en_rx_count = toggle ctx.argv 2;
      morse_en_tx_count = toggle ctx.argv 3;
      morse_en_temp_a = toggle ctx.argv 4;
      morse_en_temp_b = toggle ctx.argv 5;
      morse_en_rssi = toggle ctx.argv 6;
      morse_en_rf_err = toggle ctx.argv 7;
    }
    else c
edit_sent f env (mtext ctx) c =
    if length ctx.argv == 2 then record c { morse_text = take 20 ctx.args } else c
edit_sent f env other c = c

abbrev pub edits_sent : (ℕ → ℕ) → Env → List Command → NanocomConf → NanocomConf
edits_sent f env [] c = c
edits_sent f env (e ∷ edits) c = edits_sent f env edits (edit_sent f env e c)

there :
    {o : ByteOrder}
    → (got : NanocomConf) → IsInverse o
    → swap_conf o.csp_hton16 (swap_conf o.csp_ntoh16 got) ≡ got
unfolding swap_conf
there got inverse = simp inverse.there16

module _ (o : ByteOrder) (env : Env) where
  -- What a command that sets fields does.
  record Edits (c : Command) (k : Console) : Type 0 where
    error : ComResult
    conf : NanocomConf
    done : handler o env c k ≡ (error, record k { com_conf = conf }, [])
    swapped :
        swap_conf o.csp_hton16 conf
        ≡ edit_sent o.csp_hton16 env c (swap_conf o.csp_hton16 k.com_conf)

  number_handler-set :
      (field : ConfField) (ctx : CommandContext) (k : Console)
      → handler o env (number field ctx) k ≡ set_number env field ctx k
  unfolding handler number_handler cmd_com_conf_baud_rx cmd_com_conf_baud_tx cmd_com_conf_preamble
      cmd_com_conf_morse_enable cmd_com_conf_morse_mode cmd_com_conf_morse_cycle
      cmd_com_conf_morse_interval cmd_com_conf_morse_wpm cmd_com_conf_morse_batt_level
      cmd_com_conf_morse_pospone cmd_com_conf_do_viterbi cmd_com_conf_do_random
      cmd_com_conf_set_hkinterval
  number_handler-set rx_baud_field ctx k = refl
  number_handler-set tx_baud_field ctx k = refl
  number_handler-set preamble_length_field ctx k = refl
  number_handler-set morse_enable_field ctx k = refl
  number_handler-set morse_mode_field ctx k = refl
  number_handler-set morse_cycle_field ctx k = refl
  number_handler-set morse_inter_delay_field ctx k = refl
  number_handler-set morse_wpm_field ctx k = refl
  number_handler-set morse_bat_level_field ctx k = refl
  number_handler-set morse_pospone_field ctx k = refl
  number_handler-set do_viterbi_field ctx k = refl
  number_handler-set do_random_field ctx k = refl
  number_handler-set hk_interval_field ctx k = refl

  number-Edits :
      (field : ConfField) (ctx : CommandContext) (k : Console) → Edits (number field ctx) k
  unfolding set_number with_conf
  number-Edits field ctx k = elim (Option-cases (env.scan_u ctx.args)) [
    | inl no_number ↦ record {
      error = cmd_error_syntax;
      conf = k.com_conf;
      done = number_handler-set field ctx k ∙ rw (set_number, no_number) refl;
      swapped = rw (edit_sent, no_number) refl;
    }
    | inr (n, is_n) ↦ record {
      error = cmd_error_none;
      conf = put field n k.com_conf;
      done = number_handler-set field ctx k ∙ rw (set_number, is_n) refl;
      swapped = rw (edit_sent, is_n) (swap_conf-put o.csp_hton16 field n k.com_conf);
    }
  ]

  -- A command that wants a number of words.
  counted-Edits :
      (c : Command) (k : Console) (conf : NanocomConf) (enough : Bool)
      → handler o env c k ≡ (if not enough then (cmd_error_syntax, k, []) else with_conf k conf)
      → edit_sent o.csp_hton16 env c (swap_conf o.csp_hton16 k.com_conf)
        ≡ (if enough then swap_conf o.csp_hton16 conf else swap_conf o.csp_hton16 k.com_conf)
      → Edits c k
  unfolding with_conf
  counted-Edits c k conf true done sent = record {
    error = cmd_error_none;
    conf = conf;
    done = done;
    swapped = sym sent;
  }
  counted-Edits c k conf false done sent = record {
    error = cmd_error_syntax;
    conf = k.com_conf;
    done = done;
    swapped = sym sent;
  }

  handler-Edits : (c : Command) (k : Console) → IsEdit c → Edits c k
  unfolding handler with_conf cmd_com_conf_do_rs cmd_com_conf_max_temp cmd_com_conf_morse_toggle
      cmd_com_conf_morse_string swap_conf
  handler-Edits (number field ctx) k e = number-Edits field ctx k
  handler-Edits (rs held ctx) k e =
      let n : ℕ = elim (env.scan_u ctx.args) [ none ↦ held | some n ↦ n ] in
      record {
        error = cmd_error_none;
        conf = record k.com_conf { do_rs = n % 2 ^ 8 };
        done = refl;
        swapped = refl;
      }
  handler-Edits (maxtemp ctx) k e = counted-Edits (maxtemp ctx) k _ (length ctx.argv == 2) refl refl
  handler-Edits (mtoggle ctx) k e = counted-Edits (mtoggle ctx) k _ (length ctx.argv == 8) refl refl
  handler-Edits (mtext ctx) k e = counted-Edits (mtext ctx) k _ (length ctx.argv == 2) refl refl
  handler-Edits cg k e = absurd e
  handler-Edits cs k e = absurd e
  handler-Edits cr k e = absurd e
  handler-Edits (set_node ctx) k e = absurd e

  -- The call for a configuration as the radio has it.
  abbrev pub conf_call : Console → NanocomConf → Call NanocomConf
  conf_call k conf = record {
    target = record { prio = csp_prio_high; node = k.com_node; port = 7; timeout = k.com_timeout };
    request = conf;
    outlen = 48;
    inlen = pos 0;
  }

  edits_then_set :
      (edits : List Command) (k : Console)
      → All IsEdit edits
      → (session o env (edits ++ (cs ∷ [])) k).1
        ≡ conf_sent
            (conf_call k (edits_sent o.csp_hton16 env edits (swap_conf o.csp_hton16 k.com_conf)))
          ∷ []
  unfolding session then_run handler cmd_com_set_conf com_set_conf com_call
  edits_then_set [] k all = refl
  edits_then_set (c ∷ edits) k (e, all) =
      let h = handler-Edits c k e in
      rw h.done (edits_then_set edits (record k { com_conf = h.conf }) all ∙ rw h.swapped refl)

  -- Behind a request for the configuration that the radio answers, with any status but 0, commands
  -- that set fields, and the command that sets the configuration: one call is sent, to the node
  -- and with the time-out of the console, and it brings the radio the struct that it answered
  -- with, in its order of bytes, with just the fields set that the commands named, the wide ones
  -- swapped. It takes a byte order whose functions undo each other.
  pub session-sends :
      (edits : List Command) (k : Console) (status : ℤ) (got : NanocomConf)
      → IsInverse o
      → All IsEdit edits
      → eqb_ℤ status (pos 0) ≡ false
      → ((c : Call Unit)
          → c.target.port ≡ com_port_conf
          → env.conf_link c k.com_conf ≡ (status, got))
      → (session o env (cg ∷ edits ++ (cs ∷ [])) k).1
        ≡ conf_sent (conf_call k (edits_sent o.csp_hton16 env edits got)) ∷ []
  unfolding session then_run handler cmd_com_get_conf com_get_conf with_conf com_call
  session-sends edits k status got inverse all alive answered =
      let call : Call Unit = com_call csp_prio_high k.com_node 7 k.com_timeout tt 0 (pos 48) in
      rw (answered call refl, alive)
        (edits_then_set edits (record k { com_conf = swap_conf o.csp_ntoh16 got }) all
          ∙ rw (there got inverse) refl)

  -- The command that sets the configuration leaves the console's struct in the radio's order of
  -- bytes: given twice, with a byte order that swaps back when it swaps again, it sends the second
  -- time the six wide fields as the machine has them, not as the radio reads them, whatever libcsp
  -- answered.
  pub session-set_twice :
      (k : Console)
      → ((n : ℕ) → o.csp_hton16 (o.csp_hton16 n) ≡ n)
      → session o env (cs ∷ cs ∷ []) k ≡ (
        k,
        conf_sent (conf_call k (swap_conf o.csp_hton16 k.com_conf))
            ∷ conf_sent (conf_call k k.com_conf)
            ∷ [],
      )
  unfolding session then_run handler cmd_com_set_conf com_set_conf com_call swap_conf
  session-set_twice k twice = simp twice
