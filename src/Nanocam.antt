-- ===== src/Nanocam.antt =====
-- clients/nanocam2/nanocam.c: the client of the satellite's camera. A struct is a record of its
-- fields as they stand in memory; libcsp's byte order and its transactions are parameters.
pub mod Types
pub mod Images
pub mod Failures
pub mod Listing
use uhf_gs_csp_software.Common.{
  ℕ, Bool, false, not, ◌∷◌, [], Bytes, length, set, ◌-◌, ltb, ◌==◌, if◌then◌else◌, ℤ, pos, negsuc,
  is_neg, eqb_ℤ, to_u32,
}
use uhf_gs_csp_software.Csp.{ByteOrder, Priority, csp_prio_high, csp_prio_norm, Target, Transaction}
use Types.{
  CamSnap, CamSnapReply, CamStore, CamStoreReply, CamFocus, CamFocusReply, CamReg, CamCommand,
  CamResult,
}

abbrev pub nanocam_port_snap : ℕ
nanocam_port_snap = 20

abbrev pub nanocam_port_store : ℕ
nanocam_port_store = 21

abbrev pub nanocam_port_img_flush : ℕ
nanocam_port_img_flush = 23

abbrev pub nanocam_port_reg_read : ℕ
nanocam_port_reg_read = 24

abbrev pub nanocam_port_reg_write : ℕ
nanocam_port_reg_write = 25

abbrev pub nanocam_port_focus : ℕ
nanocam_port_focus = 26

abbrev pub nanocam_port_recoverfs : ℕ
nanocam_port_recoverfs = 28

abbrev pub nanocam_img_flush_magic : ℕ
nanocam_img_flush_magic = 0xCA11F155

abbrev pub nanocam_recoverfs_magic : ℕ
nanocam_recoverfs_magic = 0xD1EBADF5

-- The sizes of the packed structs of replies.
abbrev pub sizeof_snap_reply : ℕ
sizeof_snap_reply = 84

abbrev pub sizeof_store_reply : ℕ
sizeof_store_reply = 12

abbrev pub sizeof_focus_reply : ℕ
sizeof_focus_reply = 8

abbrev pub sizeof_result : ℕ
sizeof_result = 4

-- `sizeof(store->filename)`
abbrev pub filename_size : ℕ
filename_size = 40

-- The fields of `*snap` are swapped in place.
unfoldable pub swap_snap : ByteOrder → CamSnap → CamSnap
swap_snap o s = record s {
  flags = o.csp_hton32 s.flags;
  delay = o.csp_hton16 s.delay;
  width = o.csp_hton16 s.width;
  height = o.csp_hton16 s.height;
  top = o.csp_hton16 s.top;
  left = o.csp_hton16 s.left;
}

-- The result, `*snap` and `*reply` behind the call.
unfoldable pub nanocam_snap :
    ByteOrder
    → Transaction CamSnap CamSnapReply
    → (node_cam : ℕ) → CamSnap
    → CamSnapReply
    → (timeout : ℕ) → ℤ × CamSnap × CamSnapReply
nanocam_snap o csp_transaction node_cam snap reply timeout =
    let sent = swap_snap o snap in
    let target : Target = record {
      prio = csp_prio_norm;
      node = node_cam;
      port = nanocam_port_snap;
      timeout = timeout;
    } in
    let (status, got) = csp_transaction target sent reply in
    if not (eqb_ℤ status (pos sizeof_snap_reply))
    then (negsuc 0, sent, got)
    else (pos got.result, sent, got)

-- A status is an `unsigned int` here; returned as an `int` it is what libcsp gave.
unfoldable pub nanocam_store :
    ByteOrder
    → Transaction CamStore CamStoreReply
    → (node_cam : ℕ) → CamStore
    → CamStoreReply
    → (timeout : ℕ) → ℤ × CamStore × CamStoreReply
nanocam_store o csp_transaction node_cam store reply timeout =
    let sent : CamStore = record store {
      flags = o.csp_hton32 store.flags;
      filename = set store.filename (filename_size - 1) 0;
      reserved0 = 0;
      reserved1 = 0;
    } in
    let target : Target = record {
      prio = csp_prio_norm;
      node = node_cam;
      port = nanocam_port_store;
      timeout = timeout;
    } in
    let (status, got) = csp_transaction target sent reply in
    if not (to_u32 status == sizeof_store_reply) then (status, sent, got) else (
      pos 0,
      sent,
      record got {
        image_ptr = o.csp_ntoh32 got.image_ptr;
        image_size = o.csp_ntoh32 got.image_size;
      },
    )

-- The result and `*value`; `request` and `reply` start with what the stack held.
unfoldable pub nanocam_reg_read :
    ByteOrder
    → Transaction CamReg CamReg
    → (node_cam : ℕ) → (request reply : CamReg) → (reg value timeout : ℕ) → ℤ × ℕ
nanocam_reg_read o csp_transaction node_cam request reply reg value timeout =
    let target : Target = record {
      prio = csp_prio_high;
      node = node_cam;
      port = nanocam_port_reg_read;
      timeout = timeout;
    } in
    let (status, got) = csp_transaction target (record request { reg_addr = reg }) reply in
    if is_neg status then (negsuc 1, value) else (pos 0, o.csp_ntoh16 got.reg_value)

unfoldable pub nanocam_reg_write :
    ByteOrder
    → Transaction CamReg CamReg
    → (node_cam : ℕ) → (request reply : CamReg) → (reg value timeout : ℕ) → ℤ
nanocam_reg_write o csp_transaction node_cam request reply reg value timeout =
    let sent : CamReg = record request { reg_addr = reg; reg_value = o.csp_hton16 value } in
    let target : Target = record {
      prio = csp_prio_high;
      node = node_cam;
      port = nanocam_port_reg_write;
      timeout = timeout;
    } in
    let (status, got) = csp_transaction target sent reply in
    if is_neg status then negsuc 1 else pos got.result

unfoldable pub nanocam_img_list_flush :
    ByteOrder
    → Transaction CamCommand CamResult
    → (node_cam : ℕ) → (reply : CamResult) → (timeout : ℕ) → ℤ
nanocam_img_list_flush o csp_transaction node_cam reply timeout =
    let request : CamCommand = record {
      flags = o.csp_hton32 0;
      magic = o.csp_hton32 nanocam_img_flush_magic;
    } in
    let target : Target = record {
      prio = csp_prio_norm;
      node = node_cam;
      port = nanocam_port_img_flush;
      timeout = timeout;
    } in
    let (status, got) = csp_transaction target request reply in
    if ltb (to_u32 status) sizeof_result then status else pos got.result

-- The result and `*focus`.
unfoldable pub nanocam_focus :
    ByteOrder
    → Transaction CamFocus CamFocusReply
    → (node_cam : ℕ) → (reply : CamFocusReply) → (algorithm focus timeout : ℕ) → ℤ × ℕ
nanocam_focus o csp_transaction node_cam reply algorithm focus timeout =
    let request : CamFocus = record {
      algorithm = algorithm;
      reserved0 = 0;
      reserved1 = 0;
      reserved2 = 0;
    } in
    let target : Target = record {
      prio = csp_prio_norm;
      node = node_cam;
      port = nanocam_port_focus;
      timeout = timeout;
    } in
    let (status, got) = csp_transaction target request reply in
    if ltb (to_u32 status) sizeof_focus_reply
    then (status, focus)
    else (pos 0, o.csp_ntoh32 got.focus)

unfoldable pub nanocam_recoverfs :
    ByteOrder
    → Transaction CamCommand CamResult
    → (node_cam : ℕ) → (reply : CamResult) → (timeout : ℕ) → ℤ
nanocam_recoverfs o csp_transaction node_cam reply timeout =
    let request : CamCommand = record {
      flags = o.csp_hton32 0;
      magic = o.csp_hton32 nanocam_recoverfs_magic;
    } in
    let target : Target = record {
      prio = csp_prio_norm;
      node = node_cam;
      port = nanocam_port_recoverfs;
      timeout = timeout;
    } in
    let (status, got) = csp_transaction target request reply in
    if ltb (to_u32 status) sizeof_result then status else pos got.result
