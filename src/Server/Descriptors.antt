-- ===== src/Server/Descriptors.antt =====
-- The descriptors that src/tcp_server.c waits for.
use uhf_gs_csp_software.Common.{
  ℕ, zero, suc, ◌+◌, ◌<◌, ◌≤◌, ◌≡◌, ◌≢◌, Bool, true, false, ◌||◌, leb, ltb, ◌==◌, arith, List, [],
  ◌∷◌, All, Bytes, codes, take, if◌then◌else◌, pos, negsuc, is_neg, pos_part, eqb_ℤ, ltb_ℤ,
  Bool-cases, inl, inr,
}
use uhf_gs_csp_software.World.{
  Call, Env, Station, Prog, Result, ok, exit, undefined, no_fuel, continue, called, pure,
}
use uhf_gs_csp_software.World.Frame.{Keeps, keeps, kept, Keeps-bind, Keeps-pure}
use uhf_gs_csp_software.Timestamp.{get_time}
use uhf_gs_csp_software.Send.{send_packet}
use uhf_gs_csp_software.Send.Sockets.{Net, net, get_time-Keeps, send_packet-Keeps}
use uhf_gs_csp_software.Server.{
  fd_setsize, msg_size, fd_isset, fd_clr, fd_set, ready_of, accept_client, hand_on, message_name,
  save_message, serve_client, serve, visit, round, start_server,
}

-- The server's socket is in the set, and `select` looks at all of the set, which is as `FD_SET`
-- wants it.
pub record IsCovered (n : Net) : Type 0 where
  pub socket : ℕ
  pub is_socket : n.server_fd ≡ pos socket
  pub listens : fd_isset socket n.master ≡ true
  pub covered : All (λ fd. fd ≤ n.fdmax) n.master
  pub small : n.fdmax < fd_setsize

All-le : (m k : ℕ) (fds : List ℕ) → m ≤ k → All (λ fd. fd ≤ m) fds → All (λ fd. fd ≤ k) fds
All-le m k [] h a = tt
All-le m k (fd ∷ fds) h (a, more) = (omega arith, All-le m k fds h more)

All-fd_clr : (i m : ℕ) (fds : List ℕ) → All (λ fd. fd ≤ m) fds → All (λ fd. fd ≤ m) (fd_clr i fds)
unfolding fd_clr
All-fd_clr i m [] a = tt
All-fd_clr i m (fd ∷ fds) (a, more) = elim (Bool-cases (i == fd)) [
  | inl same ↦ rw same (All-fd_clr i m fds more)
  | inr other ↦ rw other (a, All-fd_clr i m fds more)
]

fd_isset-fd_clr :
    (i k : ℕ) (fds : List ℕ) → i ≢ k → fd_isset k fds ≡ true → fd_isset k (fd_clr i fds) ≡ true
unfolding fd_isset fd_clr
fd_isset-fd_clr i k [] d h = h
fd_isset-fd_clr i k (fd ∷ fds) d h = ground (arith, fd_isset-fd_clr i k fds d)

-- What holds of the server's variables and is kept by what follows, holds behind it.
behind :
    {A B : Type 0} (e : Env) (k : A → Prog B)
    → ((a : A) (s : Station) → IsCovered (net s) → IsCovered (net (k a e s).1))
    → (r : Result A) (s : Station) → IsCovered (net s)
    → IsCovered (net (continue e k r s).1)
behind e k h (ok a) s c = h a s c
behind e k h (exit n) s c = c
behind e k h undefined s c = c
behind e k h no_fuel s c = c

joined :
    (s : Station) (fd : ℕ)
    → IsCovered (net s)
    → fd < fd_setsize
    → IsCovered (record {
      master = fd ∷ s.master;
      server_fd = s.server_fd;
      fdmax = (if ltb s.fdmax fd then fd else s.fdmax);
    })
unfolding fd_isset
joined s fd c h = record {
  socket = c.socket;
  is_socket = c.is_socket;
  listens = ground (arith, c.listens);
  covered = (ground arith, All-le s.fdmax _ s.master (ground arith) c.covered);
  small = ground (arith, c.small);
}

accept_client-IsCovered :
    (e : Env) (s : Station) → IsCovered (net s) → IsCovered (net (accept_client e s).1)
unfolding accept_client fd_set
accept_client-IsCovered e s c =
    let newfd = e.answer s.trace (Call.accept s.server_fd) in
    elim (Bool-cases (eqb_ℤ newfd (negsuc 0))) [
      | inl failed ↦ rw failed c
      | inr accepted ↦ elim (Bool-cases (is_neg newfd || leb fd_setsize (pos_part newfd))) [
        | inl large ↦ rw (accepted, large) c
        | inr fits ↦ rw (accepted, fits) (joined s (pos_part newfd) c (ground arith))
      ]
    ]

hand_on-Keeps : (name : Bytes) (nbytes : ℕ) (msg : Bytes) → Keeps net (hand_on name nbytes msg)
unfolding hand_on
hand_on-Keeps name nbytes msg = keeps λ e s.
    let opening = Call.fopen name (codes "wb") in
    let fr = e.answer s.trace opening in
    let writing = Call.fwrite fr (take nbytes msg) in
    ground (
      arith,
      kept
          (Keeps-bind net (send_packet name) (λ _. pure tt) (send_packet-Keeps name)
            (λ _. Keeps-pure net tt))
          e (called (Call.fclose fr) (called writing (called opening s))),
    )

pub save_message-Keeps : (nbytes : ℕ) (msg : Bytes) → Keeps net (save_message nbytes msg)
unfolding save_message
save_message-Keeps nbytes msg = Keeps-bind net get_time _ get_time-Keeps λ t. keeps λ e s.
    kept (hand_on-Keeps (message_name t) nbytes msg) e (record s { fr_name = message_name t })

left :
    (i : ℕ) (s : Station)
    → eqb_ℤ (pos i) s.server_fd ≡ false
    → IsCovered (net s)
    → IsCovered (record { master = fd_clr i s.master; server_fd = s.server_fd; fdmax = s.fdmax })
left i s other c = record {
  socket = c.socket;
  is_socket = c.is_socket;
  listens =
      fd_isset-fd_clr i c.socket s.master (λ same. absurd (ground (arith, c.is_socket))) c.listens;
  covered = All-fd_clr i s.fdmax s.master c.covered;
  small = c.small;
}

serve_client-IsCovered :
    (i : ℕ) (e : Env) (s : Station)
    → eqb_ℤ (pos i) s.server_fd ≡ false
    → IsCovered (net s)
    → IsCovered (net (serve_client i e s).1)
unfolding serve_client
serve_client-IsCovered i e s other c =
    let receiving = Call.recv (pos i) msg_size in
    let nbytes = e.answer s.trace receiving in
    elim (Bool-cases (ltb_ℤ nbytes (pos 1))) [
      | inl ended ↦ rw ended (left i s other c)
      | inr more ↦
          rw
            (
              more,
              kept (save_message-Keeps (pos_part nbytes) (e.bytes s.trace receiving)) e
                  (called receiving s),
            )
            c
    ]

pub serve-IsCovered :
    (i : ℕ) (fds : List ℕ) (e : Env) (s : Station)
    → IsCovered (net s)
    → IsCovered (net (serve i fds e s).1)
unfolding serve
serve-IsCovered i fds e s c = elim (Bool-cases (fd_isset i fds)) [
  | inr idle ↦ rw idle c
  | inl ready ↦ elim (Bool-cases (eqb_ℤ (pos i) s.server_fd)) [
    | inl new ↦ rw (ready, new) (accept_client-IsCovered e s c)
    | inr old ↦
        rw (ready, old)
          (behind e (λ _. pure true) (λ _ s c. c) (serve_client i e s).0 (serve_client i e s).1
            (serve_client-IsCovered i e s old c))
  ]
]

goes_on :
    (k : Prog Bool) (e : Env)
    → ((s : Station) → IsCovered (net s) → IsCovered (net (k e s).1))
    → (more : Bool) (s : Station) → IsCovered (net s)
    → IsCovered (net ((if more then k else pure false) e s).1)
goes_on k e h true s c = h s c
goes_on k e h false s c = c

visit-IsCovered :
    (f i : ℕ) (fds : List ℕ) (e : Env) (s : Station)
    → IsCovered (net s)
    → IsCovered (net (visit f i fds e s).1)
unfolding visit
visit-IsCovered zero i fds e s c = ground (arith, c)
visit-IsCovered (suc f) i fds e s c = elim (Bool-cases (ltb s.fdmax i)) [
  | inl last ↦ rw last c
  | inr more ↦ rw more (
      behind e (λ more. if more then visit f (i + 1) fds else pure false)
        (goes_on (visit f (i + 1) fds) e (λ s. visit-IsCovered f (i + 1) fds e s))
        (serve i fds e s).0 (serve i fds e s).1 (serve-IsCovered i fds e s c))
]

started :
    (e : Env) (s : Station)
    → (start_server e s).0 ≡ ok true
    → (net (start_server e s).1 ≡ record {
      master = pos_part (e.answer s.trace Call.socket) ∷ [];
      server_fd = e.answer s.trace Call.socket;
      fdmax = pos_part (e.answer s.trace Call.socket);
    })
      × (is_neg (e.answer s.trace Call.socket)
            || leb fd_setsize (pos_part (e.answer s.trace Call.socket))
          ≡ false)
unfolding start_server fd_set
started e s h = ground arith

-- A server that enters its loop waits for its socket.
pub start_server-IsCovered :
    (e : Env) (s : Station) → (start_server e s).0 ≡ ok true → IsCovered (net (start_server e s).1)
unfolding fd_isset
start_server-IsCovered e s h =
    let (is, fits) = started e s h in
    rw is (record {
      socket = pos_part (e.answer s.trace Call.socket);
      is_socket = ground arith;
      listens = ground arith;
      covered = (omega arith, tt);
      small = ground arith;
    })

-- From descriptors that are covered, whatever is ready in a round, whoever connects, sends or
-- leaves, and whatever becomes of the packets: behind the round the server still waits for its
-- socket, and for every descriptor of its set.
pub round-IsCovered : (e : Env) (s : Station) → IsCovered (net s) → IsCovered (net (round e s).1)
unfolding round
round-IsCovered e s c =
    let waiting = Call.select (pos (s.fdmax + 1)) in
    elim (Bool-cases (eqb_ℤ (e.answer s.trace waiting) (negsuc 0))) [
      | inl failed ↦ rw failed c
      | inr found ↦ rw found (
          visit-IsCovered fd_setsize 0 (ready_of s.master (e.bytes s.trace waiting)) e
            (called waiting s) c)
    ]
