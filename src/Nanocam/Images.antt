-- ===== src/Nanocam/Images.antt =====
-- `nanocam_img_list` of clients/nanocam2/nanocam.c: the list of the camera's pictures.
use uhf_gs_csp_software.Common.{
  ℕ, zero, suc, ◌+◌, Bool, not, List, [], ◌∷◌, ◌++◌, ◌==◌, if◌then◌else◌, ℤ, pos, negsuc,
}
use uhf_gs_csp_software.World.{Result, ok, exit, undefined, no_fuel}
use uhf_gs_csp_software.Csp.{ByteOrder}
use uhf_gs_csp_software.Nanocam.Types.{CamListElement, CamListReply}

-- The calls that the function makes, and its calls of `cb`; 0 and NULL end a list.
pub data ListCall : Type 0 where
  csp_buffer_get : ListCall
  csp_buffer_free : ListCall
  csp_connect : (node timeout : ℕ) → ListCall
  csp_send : (elements flags : ℕ) → ListCall
  csp_read : (timeout : ℕ) → ListCall
  csp_close : ListCall
  cb : (seq : ℕ) → CamListElement → ListCall
  cb_null : ListCall

-- What libcsp answers: whether there is a buffer, a connection, and whether the request is taken;
-- and the packets that it reads, until one fails.
pub record Answers : Type 0 where
  pub buffer : Bool
  pub connection : Bool
  pub sent : Bool
  pub replies : List CamListReply

unfoldable pub host_element : ByteOrder → CamListElement → CamListElement
host_element o elm = record elm {
  flags = o.csp_ntoh16 elm.flags;
  width = o.csp_ntoh16 elm.width;
  height = o.csp_ntoh16 elm.height;
  ptr = o.csp_ntoh32 elm.ptr;
  size = o.csp_ntoh32 elm.size;
  time = o.csp_ntoh64 elm.time;
}

-- Calls, and then what follows them.
unfoldable pub calling : List ListCall → Result (List ListCall) → Result (List ListCall)
calling calls (ok rest) = ok (calls ++ rest)
calling calls (exit n) = exit n
calling calls undefined = undefined
calling calls no_fuel = no_fuel

-- The loop over the pictures of a packet, from the place `i` on; one that the buffer does not hold
-- is undefined.
unfoldable pub call_back :
    ByteOrder → (seq i count : ℕ) → List CamListElement → Result (List ListCall)
call_back o seq i zero images = ok []
call_back o seq i (suc count) [] = undefined
call_back o seq i (suc count) (elm ∷ images) =
    calling (cb (seq + i) (host_element o elm) ∷ []) (call_back o seq (i + 1) count images)

-- The loop over the packets.
unfoldable pub read_list : ByteOrder → (timeout : ℕ) → List CamListReply → Result (List ListCall)
read_list o timeout [] = ok (csp_read timeout ∷ [])
read_list o timeout (reply ∷ replies) =
    let total = o.csp_ntoh16 reply.total in
    let seq = o.csp_ntoh16 reply.seq in
    let rest = read_list o timeout replies in
    calling (csp_read timeout ∷ []) (
      if total == 0
      then ok (cb_null ∷ csp_buffer_free ∷ [])
      else elim (call_back o seq 0 reply.count reply.images) [
        | ok calls ↦
            calling (calls ++ csp_buffer_free ∷ [])
              (if seq + reply.count == total then ok [] else rest)
        | exit n ↦ exit n
        | undefined ↦ undefined
        | no_fuel ↦ no_fuel
      ])

-- What it returns, and its calls in their order.
unfoldable pub nanocam_img_list :
    ByteOrder → Answers → (node_cam timeout : ℕ) → Result (ℤ × List ListCall)
nanocam_img_list o a node_cam timeout =
    if not a.buffer
    then ok (negsuc 0, csp_buffer_get ∷ [])
    else if not a.connection
    then ok (negsuc 0, csp_buffer_get ∷ csp_connect node_cam timeout ∷ csp_buffer_free ∷ [])
    else elim (read_list o timeout a.replies) [
      | ok calls ↦ ok (
        pos 0,
        csp_buffer_get
              ∷ csp_connect node_cam timeout
              ∷ csp_send 3 0
              ∷ (if a.sent then [] else csp_buffer_free ∷ [])
            ++ calls
            ++ csp_close ∷ [],
      )
      | exit n ↦ exit n
      | undefined ↦ undefined
      | no_fuel ↦ no_fuel
    ]
