-- ===== src/Examples/Lists.antt =====
-- A list of two planes in two packets.
use uhf_gs_csp_software.Common.{◌≡◌, refl, arith, true, List, [], ◌∷◌, All, pos}
use uhf_gs_csp_software.World.{ok}
use uhf_gs_csp_software.Gatoss.Client.{
  GatossCall, Reply, ListAnswers, PlaneShort, list_req, exchange, plane_short_line,
  gatoss_list_short,
}
use uhf_gs_csp_software.Gatoss.Exchange.{IsBalanced, exchange-IsBalanced}
use uhf_gs_csp_software.Gatoss.Shown.{Spells, last, next, lines_of}
use uhf_gs_csp_software.Gatoss.Planes.{
  Plane, IsPacked, plane_short, planes_short, plane_lines, gatoss_list_short-shows,
}
use uhf_gs_csp_software.Examples.Clients.{machine, plane}

abbrev first_plane : Plane machine
first_plane = record { icao24 = 0x4CA7B1; position = plane }

abbrev second_plane : Plane machine
second_plane = record { icao24 = 0x3C6444; position = record plane { altitude = 11277 } }

abbrev planes : List (Plane machine)
planes = first_plane ∷ second_plane ∷ []

-- The buffer of the first packet holds an element more.
abbrev first_packet : Reply PlaneShort
first_packet = record {
  count = 1;
  end_flag = 0;
  items = plane_short first_plane ∷ plane_short first_plane ∷ [];
  flag_behind = 0;
}

abbrev second_packet : Reply PlaneShort
second_packet = record {
  count = 1;
  end_flag = 1;
  items = plane_short second_plane ∷ [];
  flag_behind = 1;
}

abbrev answers : ListAnswers PlaneShort
answers = record {
  connection = true;
  buffer = true;
  sent = true;
  replies = first_packet ∷ second_packet ∷ [];
}

planes-AllPacked : All (IsPacked {m = machine}) planes
planes-AllPacked = (
  record { icao24 = omega arith; altitude = omega arith; swapped_back = refl },
  (record { icao24 = omega arith; altitude = omega arith; swapped_back = refl }, tt),
)

planes-Spells : Spells (planes_short planes) answers.replies
planes-Spells =
    next (plane_short first_plane ∷ []) (plane_short second_plane ∷ []) first_packet
      (second_packet ∷ [])
      (record {
        behind = plane_short first_plane ∷ [];
        is_count = refl;
        is_items = refl;
        is_end = refl;
      })
      (last (plane_short second_plane ∷ []) second_packet []
        (record { behind = []; is_count = refl; is_items = refl; is_end = refl }))

gatoss_list_short-shows_example :
    (calls : List (GatossCall machine)) × (gatoss_list_short machine 0 10 0 answers
      ≡ ok (pos 0, calls))
    × (lines_of calls ≡ plane_lines planes)
gatoss_list_short-shows_example =
    gatoss_list_short-shows 0 10 0 answers planes refl refl refl planes-AllPacked planes-Spells

exchange-IsBalanced_example :
    IsBalanced {m = machine} true true
      (exchange machine (plane_short_line machine) 20 12 (list_req 0 10 0) answers)
exchange-IsBalanced_example =
    exchange-IsBalanced (plane_short_line machine) 20 12 (list_req 0 10 0) answers
