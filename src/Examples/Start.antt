-- ===== src/Examples/Start.antt =====
-- Starts of the station, and the FIFO.
use uhf_gs_csp_software.Common.{
  ◌≡◌, refl, inl, inr, List, [], ◌∷◌, ◌++◌, Bytes, codes, ℕ, pos, negsuc,
}
use uhf_gs_csp_software.Common.Decimal.{atoi}
use uhf_gs_csp_software.World.{ok, exit}
use uhf_gs_csp_software.Start.{Opt, Config, Build, handlers, default_config, start, main}
use uhf_gs_csp_software.Start.Options.{chosen_config, help, main-chosen, main-Stops}
use uhf_gs_csp_software.Fifo.{Posix}

abbrev opt : ℕ → Bytes → Opt
opt c arg = record { c = c; optarg = arg }

abbrev opts : List Opt
opts =
    opt b'a' (codes "10")
    ∷ opt b'd' (codes "/dev/ttyUSB1")
    ∷ opt b'c' (codes "can1")
    ∷ opt b'a' (codes "9")
    ∷ []

abbrev build : Build
build = record { version = codes "2.6"; param_test_count = 9; param_test_size = 100; heap = 4096 }

main-chosen_example :
    main build atoi opts ≡ (ok 0, handlers ++ start build (chosen_config atoi opts default_config))
main-chosen_example =
    main-chosen build atoi opts
      (inl refl, (inr (inr (inr (inl refl))), (inr (inr (inl refl)), (inl refl, tt))))

main-Stops_example :
    main build atoi (opt b'b' (codes "9600") ∷ opt b'h' [] ∷ opts) ≡ (exit 0, handlers)
main-Stops_example =
    main-Stops build atoi (opt b'b' (codes "9600") ∷ []) opts (opt b'h' []) (exit 0)
      (inr (inl refl), tt) (help refl)

abbrev config : Config
config = chosen_config atoi opts default_config

-- A system whose descriptors take no bytes.
abbrev refusing : Posix
refusing = record { open_path = λ path flags mode. pos 3; write = λ fd bytes. negsuc 0 }
