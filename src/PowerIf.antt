-- ===== src/PowerIf.antt =====
-- clients/libp60/power_if.c: the channels of a power unit. `csp_transaction` and libcsp's byte
-- order are parameters, and the memory of local variables is what the stack held.
pub mod Channels
pub mod Names
use uhf_gs_csp_software.Common.{
  ℕ, zero, suc, ◌+◌, ◌-◌, ◌%◌, ◌^◌, Bool, true, false, ◌&&◌, ◌||◌, not, List, [], ◌∷◌, ◌++◌, Bytes,
  length, take, drop, set, replicate, get_or, ltb, leb, ◌==◌, if◌then◌else◌, ℤ, pos, negsuc, eqb_ℤ,
  to_u8,
}
use uhf_gs_csp_software.Common.Decimal.{is_digit, atoi}
use uhf_gs_csp_software.World.{Result, ok, undefined}

abbrev pub power_if_set : ℕ
power_if_set = 1

abbrev pub power_if_get : ℕ
power_if_get = 2

abbrev pub power_if_list : ℕ
power_if_list = 3

abbrev pub power_if_status_ok : ℕ
power_if_status_ok = 0

abbrev pub power_if_name_len : ℕ
power_if_name_len = 8

-- The loop over the characters of a name.
unfoldable pub is_number : Bytes → Bool
is_number [] = true
is_number (c ∷ name) = is_digit c && is_number name

-- The result and `*ch_no`. The length is an `uint8_t`, and so is the number.
unfoldable pub power_if_get_ch_idx : (ch_name : Bytes) (ch_no ch_no_max : ℕ) → ℕ × ℕ
power_if_get_ch_idx ch_name ch_no ch_no_max =
    let len = length ch_name % 2 ^ 8 in
    let number = to_u8 (atoi ch_name) in
    if is_number (take len ch_name)
    then (if leb ch_no_max number then 0 else 1, number)
    else (0, ch_no)

-- `power_if_ch_status_t`; a name has eight bytes.
pub record ChStatus : Type 0 where
  pub ch_idx : ℕ
  pub mode : ℕ
  pub on_cnt : ℕ
  pub off_cnt : ℕ
  pub cur_lu_lim : ℕ
  pub cur_lim : ℕ
  pub voltage : ℕ
  pub current : ℤ
  pub latchup : ℕ
  pub name : Bytes

-- `power_if_cmd_request_t` and `power_if_cmd_response_t`
pub record Cmd : Type 0 where
  pub cmd : ℕ
  pub status : ℕ
  pub ch_status : ChStatus

-- `power_if_list_t`
pub record Channel : Type 0 where
  pub ch_idx : ℕ
  pub mode : ℕ
  pub name : Bytes

-- `power_if_cmd_list_response_t`
pub record ChList : Type 0 where
  pub cmd : ℕ
  pub status : ℕ
  pub count : ℕ
  pub list : List Channel

-- What libcsp does: `csp_hton16` and `csp_ntoh16`, and a transaction for each of the two replies,
-- with what it returns and the memory of the reply then.
pub record Link : Type 0 where
  pub csp_hton16 : ℕ → ℕ
  pub csp_ntoh16 : ℕ → ℕ
  pub transaction : (request response : Cmd) → ℤ × Cmd
  pub list_transaction : (request : Cmd) (response : ChList) → ℤ × ChList

abbrev pub to_u16 : ℤ → ℕ
to_u16 (pos n) = n % 2 ^ 16
to_u16 (negsuc n) = 2 ^ 16 - 1 - n % 2 ^ 16

abbrev pub to_i16 : ℕ → ℤ
to_i16 n = if ltb n (2 ^ 15) then pos n else negsuc (2 ^ 16 - 1 - n)

-- The bytes in front of the first 0.
unfoldable pub up_to_end : Bytes → Bytes
up_to_end [] = []
up_to_end (zero ∷ s) = []
up_to_end (suc c ∷ s) = suc c ∷ up_to_end s

-- The C library's `strcpy`, and `strncpy`, which fills up with zeros.
unfoldable pub strcpy : (dest src : Bytes) → Bytes
strcpy dest src = up_to_end src ++ 0 ∷ drop (length (up_to_end src) + 1) dest

unfoldable pub strncpy : (dest src : Bytes) (n : ℕ) → Bytes
strncpy dest src n =
    let t = take n (up_to_end src) in t ++ replicate (n - length t) 0 ++ drop n dest

-- The request for a channel, from the memory `req`, and a name that is ended before.
unfoldable pub request_of : Link → (cmd : ℕ) → (req : Cmd) → ChStatus → Cmd
request_of l cmd req s =
    let setting = cmd == power_if_set in
    record {
      cmd = if setting then power_if_set else power_if_get;
      status = req.status;
      ch_status = record req.ch_status {
        mode = if setting then s.mode else 0;
        on_cnt = if setting then l.csp_hton16 s.on_cnt else 0;
        off_cnt = if setting then l.csp_hton16 s.off_cnt else 0;
        name = strcpy req.ch_status.name s.name;
      };
    }

unfoldable pub fill : Link → ChStatus → ChStatus → ChStatus
fill l s r = record {
  ch_idx = r.ch_idx;
  mode = r.mode;
  on_cnt = l.csp_ntoh16 r.on_cnt;
  off_cnt = l.csp_ntoh16 r.off_cnt;
  cur_lu_lim = l.csp_ntoh16 r.cur_lu_lim;
  cur_lim = l.csp_ntoh16 r.cur_lim;
  voltage = l.csp_ntoh16 r.voltage;
  current = to_i16 (l.csp_ntoh16 (to_u16 r.current));
  latchup = l.csp_ntoh16 r.latchup;
  name = set (strncpy s.name r.name (power_if_name_len - 1)) (power_if_name_len - 1) 0;
}

-- `power_if_cmd` with the commands for one channel: the result and `*ch_status`.
unfoldable pub channel_cmd : Link → (cmd : ℕ) → (req resp : Cmd) → ChStatus → ℕ × ChStatus
channel_cmd l cmd req resp ch_status =
    let s : ChStatus = record ch_status { name = set ch_status.name (power_if_name_len - 1) 0 } in
    let (status, got) = l.transaction (request_of l cmd req s) resp in
    if not (eqb_ℤ status (pos 0))
      && ((got.cmd == power_if_set || got.cmd == power_if_get) && got.status == power_if_status_ok)
    then (1, fill l s got.ch_status)
    else (0, s)

-- `power_if_cmd` with the command for the list: the result and `*ch_list`.
unfoldable pub list_cmd : Link → (req : Cmd) → ChList → ℕ × ChList
list_cmd l req ch_list =
    let request : Cmd = record req {
      cmd = power_if_list;
      ch_status = record req.ch_status {
        mode = 0;
        on_cnt = 0;
        off_cnt = 0;
        name = set req.ch_status.name 0 0;
      };
    } in
    let (status, got) = l.list_transaction request ch_list in
    if not (eqb_ℤ status (pos 0)) && (got.cmd == power_if_list && got.status == power_if_status_ok)
    then (1, got)
    else (0, got)

-- What `ch_status_p` points to.
pub data ChStatusP : Type 0 where
  channel : ChStatus → ChStatusP
  channels : ChList → ChStatusP

unfoldable pub on_channel : ℕ × ChStatus → Result (ℕ × ChStatusP)
on_channel (n, s) = ok (n, channel s)

unfoldable pub on_list : ℕ × ChList → Result (ℕ × ChStatusP)
on_list (n, s) = ok (n, channels s)

-- `power_if_cmd`; a pointer to the other struct is undefined.
unfoldable pub power_if_cmd :
    Link → (cmd : ℕ) → (req resp : Cmd) → ChStatusP → Result (ℕ × ChStatusP)
power_if_cmd l cmd req resp (channel s) =
    if cmd == power_if_set || cmd == power_if_get
    then on_channel (channel_cmd l cmd req resp s)
    else if cmd == power_if_list
    then undefined
    else ok (0, channel s)
power_if_cmd l cmd req resp (channels s) =
    if cmd == power_if_set || cmd == power_if_get
    then undefined
    else if cmd == power_if_list
    then on_list (list_cmd l req s)
    else ok (0, channels s)
