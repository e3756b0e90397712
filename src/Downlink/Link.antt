-- ===== src/Downlink/Link.antt =====
-- The sockets that src/downlink_client.c sends on.
use uhf_gs_csp_software.Common.{
  ℕ, ◌≡◌, refl, Bool, true, false, not, ◌⊎◌, inl, inr, arith, List, [], ◌∷◌, Bytes, codes, Option,
  none, some, ℤ, pos, is_neg, ltb_ℤ, eqb_ℤ, if◌then◌else◌, Bool-cases,
}
use uhf_gs_csp_software.World.{
  Call, Env, Station, Result, ok, exit, undefined, no_fuel, continue, called, pure,
}
use uhf_gs_csp_software.Downlink.{
  block_size, mcs_port, connect_mcs, send_blocks, send_file, downlink_client,
}
use uhf_gs_csp_software.Downlink.Session.{sends, AllTaken, send_blocks-all}

-- What closing `fd` leaves of a connection.
abbrev pub without : ℤ → Option ℤ → Option ℤ
without fd none = none
without fd (some sock) = if eqb_ℤ fd sock then none else some sock

-- The socket that was connected last, and not closed since.
abbrev pub linked : Env → List Call → Option ℤ
linked e [] = none
linked e (Call.connect fd address port ∷ t) =
    if is_neg (e.answer t (Call.connect fd address port)) then linked e t else some fd
linked e (Call.close fd ∷ t) = without fd (linked e t)
linked e (c ∷ t) = linked e t

-- Every `send` is on the socket that was connected last and not closed since.
abbrev pub OnLink : Env → List Call → Type 0
OnLink e [] = Unit
OnLink e (Call.send fd b ∷ t) = (linked e t ≡ some fd) × OnLink e t
OnLink e (c ∷ t) = OnLink e t

-- What the client keeps: `ret` is 0 only with a connection, whose socket is `sock`, and all sends
-- were on a connection.
pub record IsLinked (e : Env) (s : Station) : Type 0 where
  pub flag : (s.ret ≡ pos 0) ⊎ (s.ret ≡ pos 1)
  pub up : s.ret ≡ pos 0 → linked e s.trace ≡ some s.sock
  pub on_link : OnLink e s.trace

connect_mcs-IsLinked : (e : Env) (s : Station) → IsLinked e s → IsLinked e (connect_mcs e s).1
unfolding connect_mcs
connect_mcs-IsLinked e s h = record {
  flag = ground (arith, h.flag);
  up = ground (arith, h.flag, h.up);
  on_link = ground (arith, h.flag, h.on_link);
}

connect_mcs-up :
    (e : Env) (s : Station)
    → IsLinked e s
    → (connect_mcs e s).0 ≡ ok true
    → (connect_mcs e s).1.ret ≡ pos 0
unfolding connect_mcs
connect_mcs-up e s h c = ground (arith, h.flag)

send_blocks-IsLinked :
    (blocks : List Bytes) (e : Env) (s : Station)
    → s.ret ≡ pos 0
    → IsLinked e s
    → IsLinked e (send_blocks blocks e s).1
unfolding send_blocks
send_blocks-IsLinked [] e s r h = h
send_blocks-IsLinked (b ∷ blocks) e s r h =
    elim (Bool-cases (is_neg (e.answer s.trace (Call.send s.sock b)))) [
      | inl lost ↦ rw lost (record {
        flag = inr refl;
        up = λ x. absurd (ground arith);
        on_link = (h.up r, h.on_link);
      })
      | inr taken ↦ rw taken (
          send_blocks-IsLinked blocks e (called (Call.send s.sock b) s) r
            (record { flag = h.flag; up = h.up; on_link = (h.up r, h.on_link) }))
    ]

send_file-IsLinked :
    (name : Bytes) (e : Env) (s : Station)
    → s.ret ≡ pos 0
    → IsLinked e s
    → IsLinked e (send_file name e s).1
unfolding send_file
send_file-IsLinked name e s r h =
    let opening = Call.fopen name (codes "r") in
    let fs = e.answer s.trace opening in
    let reading = Call.read_blocks fs block_size in
    let h1 : IsLinked e (called opening s) = record {
      flag = h.flag;
      up = h.up;
      on_link = h.on_link;
    } in
    let h2 : IsLinked e (called reading (called opening s)) = record {
      flag = h.flag;
      up = h.up;
      on_link = h.on_link;
    } in
    elim (Bool-cases (eqb_ℤ fs (pos 0))) [
      | inl missing ↦ rw missing h1
      | inr found ↦ rw found (
          send_blocks-IsLinked (e.blocks (opening ∷ s.trace) reading) e
            (called reading (called opening s)) r h2)
    ]

send_behind :
    (name : Bytes) (e : Env) (r : Result Bool) (s : Station)
    → (r ≡ ok true → s.ret ≡ pos 0)
    → IsLinked e s
    → IsLinked e (continue e (λ connected. if not connected then pure tt else send_file name) r s).1
send_behind name e (ok true) s up h = send_file-IsLinked name e s (up refl) h
send_behind name e (ok false) s up h = h
send_behind name e (exit n) s up h = h
send_behind name e undefined s up h = h
send_behind name e no_fuel s up h = h

-- Whatever the sockets, the file and the MCS answer, and however often connections are lost: what
-- the client keeps of its connection stays true, so it sends on a socket only while that is
-- connected and open.
pub downlink_client-IsLinked :
    (name : Bytes) (kind : ℕ) (e : Env) (s : Station)
    → IsLinked e s
    → IsLinked e (downlink_client name kind e s).1
unfolding downlink_client
downlink_client-IsLinked name kind e s h =
    send_behind name e (connect_mcs e s).0 (connect_mcs e s).1 (connect_mcs-up e s h)
      (connect_mcs-IsLinked e s h)

-- The calls of a connection that is made, and of a file that is opened on it, the last first.
abbrev pub connecting_calls : ℤ → Bytes → List Call → List Call
connecting_calls fd address t =
    Call.connect fd address mcs_port ∷ Call.inet_pton address ∷ Call.socket ∷ t

abbrev pub opening_calls : Bytes → ℤ → List Call → List Call
opening_calls name fs t = Call.read_blocks fs block_size ∷ Call.fopen name (codes "r") ∷ t

-- The MCS can be reached at `client_addr`, the file `name` holds `blocks`, and all of them are
-- taken.
pub record Answers (e : Env) (s : Station) (name : Bytes) (blocks : List Bytes) : Type 0 where
  pub fd : ℤ
  pub fs : ℤ
  pub made : e.answer s.trace Call.socket ≡ fd
  pub made_valid : is_neg fd ≡ false
  pub address :
      ltb_ℤ (e.answer (Call.socket ∷ s.trace) (Call.inet_pton s.client_addr)) (pos 1) ≡ false
  pub connected :
      is_neg (
        e.answer
          (Call.inet_pton s.client_addr ∷ Call.socket ∷ s.trace)
          (Call.connect fd s.client_addr mcs_port))
      ≡ false
  pub opened :
      e.answer (connecting_calls fd s.client_addr s.trace) (Call.fopen name (codes "r")) ≡ fs
  pub valid : eqb_ℤ fs (pos 0) ≡ false
  pub holds :
      e.blocks
        (Call.fopen name (codes "r") ∷ connecting_calls fd s.client_addr s.trace)
        (Call.read_blocks fs block_size)
      ≡ blocks
  pub taken :
      AllTaken e fd blocks (opening_calls name fs (connecting_calls fd s.client_addr s.trace))

-- Behind a lost connection, the next packet makes a new one to the address of the MCS, and its
-- file goes out whole and in order on it; the connection then is up.
pub downlink_client-reconnects :
    (name : Bytes) (kind : ℕ) (blocks : List Bytes) (e : Env) (s : Station)
    → s.ret ≡ pos 1
    → (a : Answers e s name blocks)
    → downlink_client name kind e s ≡ (
      ok tt,
      record s {
        ret = pos 0;
        sock = a.fd;
        trace =
            sends a.fd blocks
              (opening_calls name a.fs (connecting_calls a.fd s.client_addr s.trace));
      },
    )
unfolding downlink_client connect_mcs send_file
downlink_client-reconnects name kind blocks e s lost a =
    rw (lost, a.made, a.made_valid, a.address, a.connected, a.opened, a.valid, a.holds)
      (send_blocks-all blocks e
        (record s {
          ret = pos 0;
          sock = a.fd;
          trace = opening_calls name a.fs (connecting_calls a.fd s.client_addr s.trace);
        })
        a.taken)
