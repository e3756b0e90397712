-- ===== src/Examples/Scene.antt =====
-- Surroundings in which everything works: files open, the radio and the line answer, and the
-- clock stands at 2023-11-14 22:13:20 UTC.
use uhf_gs_csp_software.Common.{
  none, ℕ, List, [], ◌∷◌, Bytes, codes, length, ℤ, pos, false, ◌==◌, if◌then◌else◌,
}
use uhf_gs_csp_software.World.{Call, ConnId, Env, Termios}

abbrev pub answers : List Call → Call → ℤ
answers t (Call.fopen n m) = pos 3
answers t (Call.file_size f) = pos 10
answers t (Call.fread f n) = pos n
answers t (Call.fwrite f b) = pos 6
answers t (Call.open_device d) = pos 5
answers t (Call.write f b) = pos 9
answers t Call.clock_get_time = pos 1700000000
answers t Call.csp_buffer_get = pos 1
answers t (Call.rparam_set_uint32 v a n m p o) = pos 1
answers t Call.get_azi = pos 120
answers t Call.get_ele = pos 45
answers t (Call.comp_dopp_frq f d) = pos f
answers t (Call.inet_pton a) = pos 1
answers t (Call.socket) = pos 7
answers t (Call.send f b) = pos (length b)
answers t (Call.set_tle a b) = pos 1
answers t (Call.curl_perform a b) = pos 0
answers t c = pos 0

-- The first file's header: priority 2, from node 10 to node 5, ports 7 and 17, four bytes of data.
abbrev pub header : Bytes
header = 0x94 ∷ 0x51 ∷ 0xd1 ∷ 0 ∷ 0 ∷ 4 ∷ []

abbrev pub contents : List Call → Call → Bytes
contents t (Call.fread f n) = if n == 6 then header else 1 ∷ 2 ∷ 3 ∷ 4 ∷ []
contents t c = []

abbrev pub slot : ConnId
slot = record { src = 5; dst = 10; sport = 17; dport = 7; flags = 0 }

abbrev pub table : List ConnId
table = slot ∷ slot ∷ slot ∷ []

abbrev pub elements : List (Bytes × ℕ)
elements =
    (codes "LUMELITE-4\r\n", 120)
    ∷ (codes "1 56309U 23057D\r\n", 120)
    ∷ (codes "2 56309  9.98\r\n", 120)
    ∷ []

abbrev pub settings : Termios
settings = record {
  ispeed = 13;
  ospeed = 13;
  char_size = 7;
  ignbrk = false;
  brkint = false;
  parmrk = false;
  istrip = false;
  inlcr = false;
  igncr = false;
  icrnl = false;
  ixon = false;
  ixoff = false;
  ixany = false;
  lflag = 0;
  opost = false;
  vmin = 1;
  vtime = 0;
  clocal = false;
  cread = false;
  parenb = false;
  parodd = false;
  cstopb = false;
  crtscts = false;
  other = 0;
}

abbrev pub scene : Env
scene = record {
  answer = answers;
  bytes = contents;
  blocks = λ t c. (1 ∷ 2 ∷ []) ∷ (3 ∷ []) ∷ [];
  lines = λ t c. elements;
  termios = λ t c. settings;
  conns = λ t c. table;
  packets = λ t c. none;
  room = 1000;
}
