-- ===== src/Examples/Packets.antt =====
-- Packets of the MCS and of the satellite.
use uhf_gs_csp_software.Common.{◌+◌, ◌≡◌, refl, some, arith, [], ◌∷◌, codes, pos, negsuc, ◌%◌}
use uhf_gs_csp_software.World.{Call, Env, ok, initial}
use uhf_gs_csp_software.Timestamp.{Civil, date_text}
use uhf_gs_csp_software.Timestamp.Calendar.{Reads}
use uhf_gs_csp_software.Mcs.{decode_parameters, process_mcs_file}
use uhf_gs_csp_software.Mcs.Header.{numbers}
use uhf_gs_csp_software.Mcs.Files.{IsBalanced, process_mcs_file-IsBalanced}
use uhf_gs_csp_software.Receive.{csp_header, saved_name, receive_packet}
use uhf_gs_csp_software.Receive.Header.{decode_parameters-csp_header}
use uhf_gs_csp_software.Receive.Saved.{values_of, opening_calls, receive_packet-saves}
use uhf_gs_csp_software.Downlink.{downlink_client, send_blocks}
use uhf_gs_csp_software.Downlink.Session.{send_blocks-lost}
use uhf_gs_csp_software.Examples.Scene.{header, slot, table, scene}

process_mcs_file-IsBalanced_example :
    IsBalanced scene initial (process_mcs_file (codes "a.bin") scene initial)
process_mcs_file-IsBalanced_example = process_mcs_file-IsBalanced (codes "a.bin") scene initial

accepted :
    (process_mcs_file (codes "a.bin") scene initial).0
    ≡ ok (some (decode_parameters header, 1 ∷ 2 ∷ 3 ∷ 4 ∷ []))
unfolding process_mcs_file
accepted = ground arith

decode_parameters-csp_header_example :
    numbers (decode_parameters (csp_header (10 ∷ 5 ∷ 17 ∷ 7 ∷ 0 ∷ []) 300)) ≡ record {
      pri = pos 0;
      src = pos 5;
      dst = pos 10;
      dst_port = pos 7;
      src_port = pos 17;
      hmac = pos 0;
      xtea = pos 0;
      rdp = pos 0;
      crc = pos 0;
      data_length = pos (300 % 256);
    }
decode_parameters-csp_header_example =
    decode_parameters-csp_header 10 5 17 7 0 300 (omega arith) (omega arith) (omega arith)
      (omega arith)

-- A connection that takes no block.
abbrev deaf : Env
deaf = record scene { answer = λ t c. negsuc 0 }

send_blocks-lost_example : send_blocks ((1 ∷ []) ∷ (2 ∷ []) ∷ []) deaf initial ≡ (
  ok tt,
  record initial { ret = pos 1; trace = Call.close (pos 0) ∷ Call.send (pos 0) (1 ∷ []) ∷ [] },
)
send_blocks-lost_example = send_blocks-lost [] (1 ∷ []) ((2 ∷ []) ∷ []) deaf initial tt refl

receive_packet-saves_example :
    (d : Civil) × Reads (1700000000 + 28800) d
    × (receive_packet (record { length = 2; bytes = 8 ∷ 9 ∷ [] }) scene initial
        ≡ downlink_client (saved_name (date_text d) 0) 1 scene (record initial {
          count = 1;
          trace =
              Call.fclose (pos 3)
              ∷ Call.fwrite (pos 3) (8 ∷ 9 ∷ [])
              ∷ Call.fwrite (pos 3) (csp_header (values_of slot) 2)
              ∷ opening_calls (saved_name (date_text d) 0) [];
        }))
receive_packet-saves_example =
    receive_packet-saves (record { length = 2; bytes = 8 ∷ 9 ∷ [] }) 1700000000 0 table slot (pos 3)
      scene initial (omega arith) refl refl refl (λ name. refl) refl (λ name. refl)
