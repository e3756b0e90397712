-- ===== src/Downlink.antt =====
-- src/downlink_client.c: the connection to the MCS server on which saved packets are sent.
pub mod Session
pub mod Link
use uhf_gs_csp_software.Common.{
  ℕ, Bool, true, false, not, List, [], ◌∷◌, Bytes, codes, if◌then◌else◌, ℤ, pos, is_neg, ltb_ℤ,
  eqb_ℤ,
}
use uhf_gs_csp_software.World.{
  Call, Env, Station, Prog, pure, ◌>>=◌, ◌>>◌, get, modify, call, call_blocks,
}

-- `LENGTH` and `MCS_PORT`
abbrev pub block_size : ℕ
block_size = 32768

abbrev pub mcs_port : ℕ
mcs_port = 1025

-- A new connection, if the last one was lost (`ret == 1`); `true` if the function goes on.
unfoldable pub connect_mcs : Prog Bool
connect_mcs = do
  ret ← get (λ s. s.ret)
  if eqb_ℤ ret (pos 1)
      then (do
        fd ← call Call.socket
        modify (λ s. record s { sock = fd })
        if is_neg fd then pure false else do
          dest_server_address ← get (λ s. s.client_addr)
          valid ← call (Call.inet_pton dest_server_address)
          if ltb_ℤ valid (pos 1) then pure false else do
            linked ← call (Call.connect fd dest_server_address mcs_port)
            if is_neg linked
                then pure false
                else do modify (λ s. record s { ret = pos 0 }); pure true)
      else pure true

-- The loop over the blocks that `fread` returns, until one is empty: a `send` that fails marks the
-- connection as lost, closes it and breaks.
unfoldable pub send_blocks : List Bytes → Prog (Unit {0})
send_blocks [] = pure tt
send_blocks (sdbuf ∷ blocks) = do
  sock ← get (λ s. s.sock)
  sent ← call (Call.send sock sdbuf)
  let rest = send_blocks blocks
  if is_neg sent
      then (do modify (λ s. record s { ret = pos 1 }); call (Call.close sock); pure tt)
      else rest

-- The file goes out. The stream is not closed.
unfoldable pub send_file : Bytes → Prog (Unit {0})
send_file fs_name = do
  fs ← call (Call.fopen fs_name (codes "r"))
  if eqb_ℤ fs (pos 0)
      then pure tt
      else do blocks ← call_blocks (Call.read_blocks fs block_size); send_blocks blocks

-- `file_type` is not read.
unfoldable pub downlink_client : Bytes → ℕ → Prog (Unit {0})
downlink_client fs_name file_type = do
  connected ← connect_mcs
  if not connected then pure tt else send_file fs_name
