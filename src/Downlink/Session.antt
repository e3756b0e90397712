-- ===== src/Downlink/Session.antt =====
-- How src/downlink_client.c keeps its connection.
use uhf_gs_csp_software.Common.{
  ◌≡◌, refl, Bool, true, false, arith, List, [], ◌∷◌, ◌++◌, Bytes, if◌then◌else◌, ℤ, pos, is_neg,
  ◌⊎◌,
}
use uhf_gs_csp_software.World.{Call, Env, Station, Result, ok, exit, undefined, no_fuel, called}
use uhf_gs_csp_software.Downlink.{connect_mcs, send_blocks}

-- The sends of `blocks` on a socket, the last first.
abbrev pub sends : ℤ → List Bytes → List Call → List Call
sends sock [] t = t
sends sock (b ∷ blocks) t = sends sock blocks (Call.send sock b ∷ t)

-- Every `send` of the blocks is answered by a number that is not negative.
abbrev pub AllTaken : Env → ℤ → List Bytes → List Call → Type 0
AllTaken e sock [] t = Unit
AllTaken e sock (b ∷ blocks) t =
    (is_neg (e.answer t (Call.send sock b)) ≡ false) × AllTaken e sock blocks (Call.send sock b ∷ t)

-- While no `send` is answered by a negative number, all blocks of the file are given to `send` once
-- and in their order, on the socket of the connection, which stays up; how much of a block a call
-- took is not looked at.
pub send_blocks-all :
    (blocks : List Bytes) (e : Env) (s : Station)
    → AllTaken e s.sock blocks s.trace
    → send_blocks blocks e s ≡ (ok tt, record s { trace = sends s.sock blocks s.trace })
unfolding send_blocks
send_blocks-all [] e s h = refl
send_blocks-all (b ∷ blocks) e s (h, hs) =
    rw h (send_blocks-all blocks e (called (Call.send s.sock b) s) hs)

-- The first `send` that fails ends the loop: what was sent before stays, nothing of `rest`
-- follows, the socket is closed, and the connection is marked as lost.
pub send_blocks-lost :
    (sent : List Bytes) (b : Bytes) (rest : List Bytes) (e : Env) (s : Station)
    → AllTaken e s.sock sent s.trace
    → is_neg (e.answer (sends s.sock sent s.trace) (Call.send s.sock b)) ≡ true
    → send_blocks (sent ++ (b ∷ rest)) e s ≡ (
      ok tt,
      record s {
        ret = pos 1;
        trace = Call.close s.sock ∷ Call.send s.sock b ∷ sends s.sock sent s.trace;
      },
    )
unfolding send_blocks
send_blocks-lost [] b rest e s h lost = rw lost
send_blocks-lost (a ∷ sent) b rest e s (h, hs) lost =
    rw h (send_blocks-lost sent b rest e (called (Call.send s.sock a) s) hs lost)

-- `ret` is 0 on a connection that is up and 1 else.
abbrev pub IsFlag : ℤ → Type 0
IsFlag ret = (ret ≡ pos 0) ⊎ (ret ≡ pos 1)

-- What the answer of `connect_mcs` says of the connection.
abbrev pub Says : Result Bool → ℤ → Type 0
Says (ok up) ret = ret ≡ (if up then pos 0 else pos 1)
Says (exit n) ret = ⊥
Says undefined ret = ⊥
Says no_fuel ret = ⊥

-- The function goes on just when the connection is up, and a connection that could not be made is
-- tried again with the next packet.
pub connect_mcs-Says :
    (e : Env) (s : Station) → IsFlag s.ret → Says (connect_mcs e s).0 (connect_mcs e s).1.ret
unfolding connect_mcs
connect_mcs-Says e s flag = ground arith
