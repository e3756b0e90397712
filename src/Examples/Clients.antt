-- ===== src/Examples/Clients.antt =====
-- The clients of the satellite's subsystems.
use uhf_gs_csp_software.Common.{
  ℕ, ◌+◌, ◌-◌, ◌*◌, ◌/◌, ◌%◌, ◌^◌, ◌≡◌, refl, arith, codes, true, List, [], ◌∷◌, if◌then◌else◌, pos,
  negsuc,
}
use uhf_gs_csp_software.World.{ok}
use uhf_gs_csp_software.PowerIf.{ChStatus, Cmd, Link, channel_cmd}
use uhf_gs_csp_software.PowerIf.Names.{IsName, channel_cmd-IsName}
use uhf_gs_csp_software.Gatoss.{
  Machine, GatossPos, GatossCompos, pack, lon_of, lat_of, alt_of, gatoss_position_compress,
  gatoss_positions_decompress,
}
use uhf_gs_csp_software.Gatoss.Fields.{AreBytes}
use uhf_gs_csp_software.Gatoss.Positions.{units, degrees, pack-unpack, decompress-compress}
use uhf_gs_csp_software.Csp.{ByteOrder}
use uhf_gs_csp_software.Nanocam.Types.{
  CamListElement, CamSnap, CamSnapReply, CamStore, CamStoreReply, CamReg, CamResult, CamFocusReply,
}
use uhf_gs_csp_software.Nanocam.Images.{ListCall, Answers, nanocam_img_list}
use uhf_gs_csp_software.Nanocam.Listing.{
  Spells, last, next, callbacks, frees, reads, numbered, nanocam_img_list-all,
}

-- A machine with the network's byte order, whole degrees, and numbers in tenths.
abbrev pub machine : Machine
machine = record {
  Float = ℕ;
  Double = ℕ;
  widen = λ d. d * 10;
  narrow = λ x. x / 10;
  tenths = λ n. n;
  plus = λ x y. x + y;
  minus = λ x y. x - y;
  times = λ x y. x * y / 10;
  over = λ x y. x * 10 / y;
  to_uint32 = λ x. x / 10 % 2 ^ 32;
  of_uint32 = λ n. n * 10;
  csp_hton16 = λ n. n;
  csp_ntoh16 = λ n. n;
  csp_hton32 = λ n. n;
  csp_ntoh32 = λ n. n;
}

abbrev pub plane : GatossPos machine
plane = record { lat = 55; lon = 12; altitude = 38010; timestamp = 1700000000 }

abbrev compos : GatossCompos
compos = record {
  compos0 = 213;
  compos1 = 159;
  compos2 = 129;
  compos3 = 110;
  compos4 = 54;
  compos5 = 5;
  compos6 = 240;
  timestamp = 1700000000;
}

compos-AreBytes : AreBytes compos
compos-AreBytes = record {
  byte0 = omega arith;
  byte1 = omega arith;
  byte2 = omega arith;
  byte3 = omega arith;
  byte4 = omega arith;
  byte5 = omega arith;
  byte6 = omega arith;
}

pack-unpack_example : pack (lon_of compos) (lat_of compos) (alt_of compos) 1700000000 ≡ compos
pack-unpack_example = pack-unpack compos compos-AreBytes

decompress-compress_example :
    gatoss_positions_decompress machine (gatoss_position_compress machine plane) ≡ record {
      lat = degrees machine 900 (units machine 900 55 % 2 ^ 22);
      lon = degrees machine 1800 (units machine 1800 12 % 2 ^ 23);
      altitude = 38000;
      timestamp = 1700000000;
    }
decompress-compress_example = decompress-compress machine plane (omega arith) refl

abbrev order : ByteOrder
order = record {
  csp_hton16 = λ n. n;
  csp_ntoh16 = λ n. n;
  csp_hton32 = λ n. n;
  csp_ntoh32 = λ n. n;
  csp_ntoh64 = λ n. n;
}

abbrev picture : ℕ → CamListElement
picture n = record {
  id = n;
  format = 2;
  flags = 0;
  width = 2048;
  height = 1536;
  ptr = 4096 + n;
  size = 100;
  time = 1700000000;
}

-- Two pictures in a first reply, and one in a second.
abbrev listed : Answers
listed = record {
  buffer = true;
  connection = true;
  sent = true;
  replies =
      record { total = 3; seq = 0; count = 2; images = picture 1 ∷ picture 2 ∷ [] }
      ∷ record { total = 3; seq = 2; count = 1; images = picture 3 ∷ [] }
      ∷ [];
}

abbrev pictures : List CamListElement
pictures = picture 1 ∷ picture 2 ∷ picture 3 ∷ []

listed-Spells : Spells order 3 0 pictures listed.replies
listed-Spells =
    next 0 (picture 1 ∷ picture 2 ∷ []) (picture 3 ∷ []) _ _
      (record { behind = []; is_total = refl; is_seq = refl; is_count = refl; is_images = refl })
      (omega arith)
      (last 2 (picture 3 ∷ []) _ []
        (record { behind = []; is_total = refl; is_seq = refl; is_count = refl; is_images = refl })
        refl)

nanocam_img_list-all_example :
    (calls : List ListCall) × (nanocam_img_list order listed 6 1000 ≡ ok (pos 0, calls))
    × (callbacks calls ≡ numbered order 0 pictures)
    × (frees calls ≡ reads calls + (if listed.sent then 0 else 1))
nanocam_img_list-all_example =
    nanocam_img_list-all order listed 6 1000 3 pictures refl refl (omega arith) listed-Spells

abbrev snap : CamSnap
snap = record {
  flags = 256;
  count = 1;
  format = 2;
  delay = 0;
  width = 0;
  height = 0;
  top = 0;
  left = 0;
}

abbrev snap_reply : CamSnapReply
snap_reply = record {
  result = 7;
  seq = 0;
  light_avg = [];
  light_peak = [];
  light_min = [];
  light_max = [];
  hist = [];
}

abbrev store : CamStore
store = record {
  format = 2;
  scale = 1;
  reserved0 = 9;
  reserved1 = 9;
  flags = 1;
  filename = 97 ∷ 0 ∷ [];
}

abbrev store_reply : CamStoreReply
store_reply = record { result = 7; image_ptr = 8; image_size = 9 }

abbrev register : CamReg
register = record { result = 7; reg_addr = 8; reg_value = 9 }

abbrev result : CamResult
result = record { result = 7 }

abbrev focus_reply : CamFocusReply
focus_reply = record { result = 7; focus = 8 }

-- A channel with a name that fills its bytes.
abbrev full : ChStatus
full = record {
  ch_idx = 1;
  mode = 1;
  on_cnt = 0;
  off_cnt = 0;
  cur_lu_lim = 0;
  cur_lim = 0;
  voltage = 3300;
  current = negsuc 4;
  latchup = 0;
  name = codes "CAMERA_A";
}

abbrev request : Cmd
request = record { cmd = 2; status = 0; ch_status = full }

-- A unit that answers with the request.
abbrev link : Link
link = record {
  csp_hton16 = λ n. n;
  csp_ntoh16 = λ n. n;
  transaction = λ r m. (pos 22, r);
  list_transaction = λ r m. (pos 0, m);
}

channel_cmd-IsName_example : IsName (channel_cmd link 1 request request full).1.name
channel_cmd-IsName_example = channel_cmd-IsName link 1 request request full refl
