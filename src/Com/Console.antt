-- ===== src/Com/Console.antt =====
-- clients/nanocom/cmd_com.c: the commands on the console. Its output is left out. `sscanf` with
-- "%u" is a parameter, and libcsp's answers are too.
use uhf_gs_csp_software.Common.{
  ℕ, ◌-◌, ◌%◌, ◌^◌, not, Option, none, some, List, [], ◌∷◌, ◌++◌, Bytes, length, take, get_or, ◌==◌,
  if◌then◌else◌, ℤ, pos, negsuc, eqb_ℤ,
}
use uhf_gs_csp_software.Common.Decimal.{atoi}
use uhf_gs_csp_software.Csp.{ByteOrder, Call, Link}
use uhf_gs_csp_software.Com.{NanocomConf, com_set_conf, com_get_conf, com_restore_conf}

-- What a handler returns: `CMD_ERROR_NONE`, `CMD_ERROR_FAIL` and `CMD_ERROR_SYNTAX`.
pub data ComResult : Type 0 where
  cmd_error_none : ComResult
  cmd_error_fail : ComResult
  cmd_error_syntax : ComResult

-- The command line: the memory at `command_args`, and the words.
pub record CommandContext : Type 0 where
  pub args : Bytes
  pub argv : List Bytes

-- `com_node`, `com_timeout` and `com_conf`
pub record Console : Type 0 where
  pub com_node : ℕ
  pub com_timeout : ℕ
  pub com_conf : NanocomConf

-- `sscanf`, with the number that it reads, and the transaction for the radio's configuration.
pub record Env : Type 0 where
  pub scan_u : Bytes → Option ℕ
  pub conf_link : Link Unit NanocomConf

-- What is sent to the radio.
pub data Sent : Type 0 where
  conf_sent : Call NanocomConf → Sent
  restore_sent : Call Unit → Sent

-- The fields of the configuration that a command sets to a number.
pub data ConfField : Type 0 where
  rx_baud_field : ConfField
  tx_baud_field : ConfField
  preamble_length_field : ConfField
  morse_enable_field : ConfField
  morse_mode_field : ConfField
  morse_cycle_field : ConfField
  morse_inter_delay_field : ConfField
  morse_wpm_field : ConfField
  morse_bat_level_field : ConfField
  morse_pospone_field : ConfField
  do_viterbi_field : ConfField
  do_random_field : ConfField
  hk_interval_field : ConfField

-- A number is cast to the field's width.
unfoldable pub put : ConfField → ℕ → NanocomConf → NanocomConf
put rx_baud_field n c = record c { rx_baud = n % 2 ^ 8 }
put tx_baud_field n c = record c { tx_baud = n % 2 ^ 8 }
put preamble_length_field n c = record c { preamble_length = n % 2 ^ 16 }
put morse_enable_field n c = record c { morse_enable = n % 2 ^ 8 }
put morse_mode_field n c = record c { morse_mode = n % 2 ^ 8 }
put morse_cycle_field n c = record c { morse_cycle = n % 2 ^ 8 }
put morse_inter_delay_field n c = record c { morse_inter_delay = n % 2 ^ 16 }
put morse_wpm_field n c = record c { morse_wpm = n % 2 ^ 8 }
put morse_bat_level_field n c = record c { morse_bat_level = n % 2 ^ 16 }
put morse_pospone_field n c = record c { morse_pospone = n % 2 ^ 16 }
put do_viterbi_field n c = record c { do_viterbi = n % 2 ^ 8 }
put do_random_field n c = record c { do_random = n % 2 ^ 8 }
put hk_interval_field n c = record c { hk_interval = n % 2 ^ 16 }

-- The result of a handler, the console behind it, and what was sent.
abbrev pub Done : Type 0
Done = ComResult × Console × List Sent

unfoldable pub with_conf : Console → NanocomConf → Done
with_conf k conf = (cmd_error_none, record k { com_conf = conf }, [])

-- The body of the handlers that read one number for a field.
unfoldable pub set_number : Env → ConfField → CommandContext → Console → Done
set_number env field ctx k = elim (env.scan_u ctx.args) [
  | none ↦ (cmd_error_syntax, k, [])
  | some n ↦ with_conf k (put field n k.com_conf)
]

unfoldable pub cmd_com_conf_baud_rx : Env → CommandContext → Console → Done
cmd_com_conf_baud_rx env = set_number env rx_baud_field

unfoldable pub cmd_com_conf_baud_tx : Env → CommandContext → Console → Done
cmd_com_conf_baud_tx env = set_number env tx_baud_field

unfoldable pub cmd_com_conf_preamble : Env → CommandContext → Console → Done
cmd_com_conf_preamble env = set_number env preamble_length_field

unfoldable pub cmd_com_conf_morse_enable : Env → CommandContext → Console → Done
cmd_com_conf_morse_enable env = set_number env morse_enable_field

unfoldable pub cmd_com_conf_morse_mode : Env → CommandContext → Console → Done
cmd_com_conf_morse_mode env = set_number env morse_mode_field

unfoldable pub cmd_com_conf_morse_cycle : Env → CommandContext → Console → Done
cmd_com_conf_morse_cycle env = set_number env morse_cycle_field

unfoldable pub cmd_com_conf_morse_interval : Env → CommandContext → Console → Done
cmd_com_conf_morse_interval env = set_number env morse_inter_delay_field

unfoldable pub cmd_com_conf_morse_wpm : Env → CommandContext → Console → Done
cmd_com_conf_morse_wpm env = set_number env morse_wpm_field

unfoldable pub cmd_com_conf_morse_batt_level : Env → CommandContext → Console → Done
cmd_com_conf_morse_batt_level env = set_number env morse_bat_level_field

unfoldable pub cmd_com_conf_morse_pospone : Env → CommandContext → Console → Done
cmd_com_conf_morse_pospone env = set_number env morse_pospone_field

unfoldable pub cmd_com_conf_do_viterbi : Env → CommandContext → Console → Done
cmd_com_conf_do_viterbi env = set_number env do_viterbi_field

unfoldable pub cmd_com_conf_do_random : Env → CommandContext → Console → Done
cmd_com_conf_do_random env = set_number env do_random_field

unfoldable pub cmd_com_conf_set_hkinterval : Env → CommandContext → Console → Done
cmd_com_conf_set_hkinterval env = set_number env hk_interval_field

-- The handler of the command that sets a field.
unfoldable pub number_handler : ConfField → Env → CommandContext → Console → Done
number_handler rx_baud_field = cmd_com_conf_baud_rx
number_handler tx_baud_field = cmd_com_conf_baud_tx
number_handler preamble_length_field = cmd_com_conf_preamble
number_handler morse_enable_field = cmd_com_conf_morse_enable
number_handler morse_mode_field = cmd_com_conf_morse_mode
number_handler morse_cycle_field = cmd_com_conf_morse_cycle
number_handler morse_inter_delay_field = cmd_com_conf_morse_interval
number_handler morse_wpm_field = cmd_com_conf_morse_wpm
number_handler morse_bat_level_field = cmd_com_conf_morse_batt_level
number_handler morse_pospone_field = cmd_com_conf_morse_pospone
number_handler do_viterbi_field = cmd_com_conf_do_viterbi
number_handler do_random_field = cmd_com_conf_do_random
number_handler hk_interval_field = cmd_com_conf_set_hkinterval

-- `cmd_com_conf_do_rs` does not test the scan, and stores what the variable held.
unfoldable pub cmd_com_conf_do_rs : Env → (held : ℕ) → CommandContext → Console → Done
cmd_com_conf_do_rs env held ctx k = with_conf k (record k.com_conf {
  do_rs = (elim (env.scan_u ctx.args) [ none ↦ held | some n ↦ n ]) % 2 ^ 8;
})

-- An `int` in 16 bits.
abbrev pub to_i16_bits : ℤ → ℕ
to_i16_bits (pos n) = n % 2 ^ 16
to_i16_bits (negsuc n) = 2 ^ 16 - 1 - n % 2 ^ 16

unfoldable pub cmd_com_conf_max_temp : CommandContext → Console → Done
cmd_com_conf_max_temp ctx k =
    if not (length ctx.argv == 2)
    then (cmd_error_syntax, k, [])
    else with_conf k (record k.com_conf { tx_max_temp = to_i16_bits (atoi (get_or ctx.argv 1 [])) })

-- `(atoi(argv[i])) ? 1 : 0`
unfoldable pub toggle : List Bytes → ℕ → ℕ
toggle argv i = if eqb_ℤ (atoi (get_or argv i [])) (pos 0) then 0 else 1

unfoldable pub cmd_com_conf_morse_toggle : CommandContext → Console → Done
cmd_com_conf_morse_toggle ctx k =
    if not (length ctx.argv == 8)
    then (cmd_error_syntax, k, [])
    else with_conf k (record k.com_conf {
      morse_en_voltage = toggle ctx.argv 1;
      morse_en_rx_count = toggle ctx.argv 2;
      morse_en_tx_count = toggle ctx.argv 3;
      morse_en_temp_a = toggle ctx.argv 4;
      morse_en_temp_b = toggle ctx.argv 5;
      morse_en_rssi = toggle ctx.argv 6;
      morse_en_rf_err = toggle ctx.argv 7;
    })

-- 20 bytes are copied, however long the text is.
unfoldable pub cmd_com_conf_morse_string : CommandContext → Console → Done
cmd_com_conf_morse_string ctx k =
    if not (length ctx.argv == 2)
    then (cmd_error_syntax, k, [])
    else with_conf k (record k.com_conf { morse_text = take 20 ctx.args })

unfoldable pub cmd_com_set_node : Env → CommandContext → Console → Done
cmd_com_set_node env ctx k = elim (env.scan_u ctx.args) [
  | none ↦ (cmd_error_syntax, k, [])
  | some n ↦ (cmd_error_none, record k { com_node = n % 2 ^ 8 }, [])
]

module _ (o : ByteOrder) where
  -- The result of `com_get_conf` is not tested.
  unfoldable pub cmd_com_get_conf : Env → Console → Done
  cmd_com_get_conf env k =
      with_conf k (com_get_conf o env.conf_link k.com_conf k.com_node k.com_timeout).1

  unfoldable pub cmd_com_set_conf : Console → Done
  cmd_com_set_conf k =
      let (call, conf) = com_set_conf o k.com_conf k.com_node k.com_timeout in
      (cmd_error_none, record k { com_conf = conf }, conf_sent call ∷ [])

unfoldable pub cmd_com_restore_conf : Console → Done
cmd_com_restore_conf k = (cmd_error_none, k, restore_sent (com_restore_conf k.com_node) ∷ [])

-- The commands of `com_subcommands` for the configuration and the node; the others only show what
-- they read.
pub data Command : Type 0 where
  cg : Command
  cs : Command
  cr : Command
  number : ConfField → CommandContext → Command
  rs : (held : ℕ) → CommandContext → Command
  maxtemp : CommandContext → Command
  mtoggle : CommandContext → Command
  mtext : CommandContext → Command
  set_node : CommandContext → Command

unfoldable pub handler : ByteOrder → Env → Command → Console → Done
handler o env cg k = cmd_com_get_conf o env k
handler o env cs k = cmd_com_set_conf o k
handler o env cr k = cmd_com_restore_conf k
handler o env (number field ctx) k = number_handler field env ctx k
handler o env (rs held ctx) k = cmd_com_conf_do_rs env held ctx k
handler o env (maxtemp ctx) k = cmd_com_conf_max_temp ctx k
handler o env (mtoggle ctx) k = cmd_com_conf_morse_toggle ctx k
handler o env (mtext ctx) k = cmd_com_conf_morse_string ctx k
handler o env (set_node ctx) k = cmd_com_set_node env ctx k

unfoldable pub then_run : Done → (Console → Console × List Sent) → Console × List Sent
then_run (error, k, calls) rest = (let (k', later) = rest k in (k', calls ++ later))

-- The console behind the commands, and what they sent.
unfoldable pub session : ByteOrder → Env → List Command → Console → Console × List Sent
session o env [] k = (k, [])
session o env (c ∷ commands) k = then_run (handler o env c k) (session o env commands)
