-- ===== src/Nanocam/Types.antt =====
-- clients/nanocam2/nanocam_types.h: what the camera is sent and answers. Bytes that only pad a
-- reply are left out.
use uhf_gs_csp_software.Common.{ℕ, List, Bytes}

-- `cam_snap_t`
pub record CamSnap : Type 0 where
  pub flags : ℕ
  pub count : ℕ
  pub format : ℕ
  pub delay : ℕ
  pub width : ℕ
  pub height : ℕ
  pub top : ℕ
  pub left : ℕ

-- `cam_snap_reply_t`
pub record CamSnapReply : Type 0 where
  pub result : ℕ
  pub seq : ℕ
  pub light_avg : Bytes
  pub light_peak : Bytes
  pub light_min : Bytes
  pub light_max : Bytes
  pub hist : List Bytes

-- `cam_store_t`; a file name has 40 bytes.
pub record CamStore : Type 0 where
  pub format : ℕ
  pub scale : ℕ
  pub reserved0 : ℕ
  pub reserved1 : ℕ
  pub flags : ℕ
  pub filename : Bytes

-- `cam_store_reply_t`
pub record CamStoreReply : Type 0 where
  pub result : ℕ
  pub image_ptr : ℕ
  pub image_size : ℕ

-- `cam_focus_t`
pub record CamFocus : Type 0 where
  pub algorithm : ℕ
  pub reserved0 : ℕ
  pub reserved1 : ℕ
  pub reserved2 : ℕ

-- `cam_focus_reply_t`
pub record CamFocusReply : Type 0 where
  pub result : ℕ
  pub focus : ℕ

-- `cam_list_element_t`
pub record CamListElement : Type 0 where
  pub id : ℕ
  pub format : ℕ
  pub flags : ℕ
  pub width : ℕ
  pub height : ℕ
  pub ptr : ℕ
  pub size : ℕ
  pub time : ℕ

-- `cam_list_reply_t`; `images` has what the packet's buffer holds in their place.
pub record CamListReply : Type 0 where
  pub total : ℕ
  pub seq : ℕ
  pub count : ℕ
  pub images : List CamListElement

-- `cam_reg_t`
pub record CamReg : Type 0 where
  pub result : ℕ
  pub reg_addr : ℕ
  pub reg_value : ℕ

-- `cam_list_flush_t` and `cam_recoverfs_t`
pub record CamCommand : Type 0 where
  pub flags : ℕ
  pub magic : ℕ

-- `cam_list_flush_reply_t` and `cam_recoverfs_reply_t`
pub record CamResult : Type 0 where
  pub result : ℕ
