-- ===== src/Examples/Servers.antt =====
-- The two servers.
use uhf_gs_csp_software.Common.{◌≡◌, ◌≢◌, refl, true, arith, List, [], ◌∷◌, ℤ, pos}
use uhf_gs_csp_software.World.{Call, Env, Packet, Station, ok, no_fuel, initial}
use uhf_gs_csp_software.Send.Sockets.{net}
use uhf_gs_csp_software.Server.{start_server, round, serve, fd_set, fd_isset}
use uhf_gs_csp_software.Server.Descriptors.{IsCovered}
use uhf_gs_csp_software.Server.Waiting.{Joined, serve-waits}
use uhf_gs_csp_software.Server.Rounds.{round_ends}
use uhf_gs_csp_software.Examples.Scene.{answers, scene}

abbrev packet : Packet
packet = record { length = 2; bytes = 8 ∷ 9 ∷ [] }

started : (start_server scene initial).0 ≡ ok true
unfolding start_server fd_set
started = refl

-- The server's socket is 7, and a client is on descriptor 8.
abbrev serving : Station
serving = record initial { master = 8 ∷ 7 ∷ []; server_fd = pos 7; fdmax = 8 }

serving-IsCovered : IsCovered (net serving)
unfolding fd_isset
serving-IsCovered = record {
  socket = 7;
  is_socket = refl;
  listens = refl;
  covered = (omega arith, (omega arith, tt));
  small = omega arith;
}

-- Both are ready, and a new client gets descriptor 9.
abbrev busy_answers : List Call → Call → ℤ
busy_answers t (Call.accept f) = pos 9
busy_answers t c = answers t c

abbrev busy : Env
busy = record scene { answer = busy_answers; bytes = λ t c. 7 ∷ 8 ∷ [] }

serve-waits_example :
    IsCovered (net (serve 7 (7 ∷ 8 ∷ []) busy serving).1)
    × Joined 9 (net serving) (net (serve 7 (7 ∷ 8 ∷ []) busy serving).1)
unfolding fd_isset
serve-waits_example = serve-waits 7 (7 ∷ 8 ∷ []) busy serving serving-IsCovered refl

round_ends_example : (round busy serving).0 ≢ no_fuel
round_ends_example = round_ends busy serving serving-IsCovered
