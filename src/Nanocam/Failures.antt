-- ===== src/Nanocam/Failures.antt =====
-- What the client of the camera in clients/nanocam2/nanocam.c returns.
use uhf_gs_csp_software.Common.{ℕ, ◌≡◌, refl, ℤ, pos, negsuc}
use uhf_gs_csp_software.Csp.{ByteOrder, Transaction}
use uhf_gs_csp_software.Nanocam.Types.{
  CamSnap, CamSnapReply, CamStore, CamStoreReply, CamFocusReply, CamReg, CamResult,
}
use uhf_gs_csp_software.Nanocam.{
  nanocam_snap, nanocam_store, nanocam_reg_read, nanocam_reg_write, nanocam_img_list_flush,
  nanocam_focus, nanocam_recoverfs,
}

-- A transaction that returns `status` and leaves the memory of the reply as it was.
abbrev pub failing : {Request Reply : Type 0} → ℤ → Transaction Request Reply
failing status target request reply = (status, reply)

-- If libcsp returns 0, for an error: only `nanocam_snap` returns an error. The others but
-- `nanocam_reg_write` return 0, as for success, which that returns too if the memory of the reply
-- holds a 0; `nanocam_reg_read` gives a value from memory that no reply was written to.
pub nanocam-unreported :
    (o : ByteOrder) (node_cam timeout : ℕ) (snap : CamSnap) (snap_reply : CamSnapReply)
    (store : CamStore) (store_reply : CamStoreReply) (request reg_reply : CamReg) (reg value : ℕ)
    (result : CamResult) (focus_reply : CamFocusReply) (algorithm focus : ℕ)
    → ((nanocam_snap o (failing (pos 0)) node_cam snap snap_reply timeout).0 ≡ negsuc 0)
      × ((nanocam_store o (failing (pos 0)) node_cam store store_reply timeout).0 ≡ pos 0)
      × (nanocam_reg_read o (failing (pos 0)) node_cam request reg_reply reg value timeout
          ≡ (pos 0, o.csp_ntoh16 reg_reply.reg_value))
      × (nanocam_reg_write o (failing (pos 0)) node_cam request reg_reply reg value timeout
          ≡ pos reg_reply.result)
      × (nanocam_img_list_flush o (failing (pos 0)) node_cam result timeout ≡ pos 0)
      × (nanocam_focus o (failing (pos 0)) node_cam focus_reply algorithm focus timeout
          ≡ (pos 0, focus))
      × (nanocam_recoverfs o (failing (pos 0)) node_cam result timeout ≡ pos 0)
unfolding nanocam_snap nanocam_store nanocam_reg_read nanocam_reg_write nanocam_img_list_flush
    nanocam_focus nanocam_recoverfs
nanocam-unreported o node_cam timeout snap snap_reply store store_reply request reg_reply reg value
      result focus_reply algorithm focus =
    (refl, refl, refl, refl, refl, refl, refl)

-- If libcsp returns -1, for a timeout: snap, store and the registers return an error, but flush,
-- focus and recoverfs, where the -1 is compared as an `unsigned int`, go on with memory that no
-- reply was written to.
pub nanocam-timeouts :
    (o : ByteOrder) (node_cam timeout : ℕ) (snap : CamSnap) (snap_reply : CamSnapReply)
    (store : CamStore) (store_reply : CamStoreReply) (request reg_reply : CamReg) (reg value : ℕ)
    (result : CamResult) (focus_reply : CamFocusReply) (algorithm focus : ℕ)
    → ((nanocam_snap o (failing (negsuc 0)) node_cam snap snap_reply timeout).0 ≡ negsuc 0)
      × ((nanocam_store o (failing (negsuc 0)) node_cam store store_reply timeout).0 ≡ negsuc 0)
      × (nanocam_reg_read o (failing (negsuc 0)) node_cam request reg_reply reg value timeout
          ≡ (negsuc 1, value))
      × (nanocam_reg_write o (failing (negsuc 0)) node_cam request reg_reply reg value timeout
          ≡ negsuc 1)
      × (nanocam_img_list_flush o (failing (negsuc 0)) node_cam result timeout ≡ pos result.result)
      × (nanocam_focus o (failing (negsuc 0)) node_cam focus_reply algorithm focus timeout
          ≡ (pos 0, o.csp_ntoh32 focus_reply.focus))
      × (nanocam_recoverfs o (failing (negsuc 0)) node_cam result timeout ≡ pos result.result)
unfolding nanocam_snap nanocam_store nanocam_reg_read nanocam_reg_write nanocam_img_list_flush
    nanocam_focus nanocam_recoverfs
nanocam-timeouts o node_cam timeout snap snap_reply store store_reply request reg_reply reg value
      result focus_reply algorithm focus =
    (refl, refl, refl, refl, refl, refl, refl)
