-- ===== src/Server/Waiting.antt =====
-- What src/tcp_server.c does with a descriptor that is ready.
use uhf_gs_csp_software.Common.{
  ℕ, ◌<◌, ◌≤◌, ◌≡◌, refl, Bool, true, false, ◌&&◌, ◌||◌, not, leb, ◌==◌, arith, List, [], ◌∷◌, ℤ,
  pos, negsuc, pos_part, eqb_ℤ, ltb_ℤ, Bool-cases, inl, inr,
}
use uhf_gs_csp_software.World.{
  Call, Env, Station, Result, ok, exit, undefined, no_fuel, continue, called, pure,
}
use uhf_gs_csp_software.World.Frame.{kept}
use uhf_gs_csp_software.Send.Sockets.{Net, net}
use uhf_gs_csp_software.Server.{
  fd_setsize, msg_size, fd_isset, fd_clr, fd_set, accept_client, serve_client, serve,
}
use uhf_gs_csp_software.Server.Descriptors.{IsCovered, serve-IsCovered, save_message-Keeps}

fd_isset-clr : (i k : ℕ) (fds : List ℕ) → fd_isset k (fd_clr i fds) ≡ not (k == i) && fd_isset k fds
unfolding fd_isset fd_clr
fd_isset-clr i k [] = ground arith
fd_isset-clr i k (fd ∷ fds) = ground (arith, fd_isset-clr i k fds)

-- Behind a connection on the descriptor `fd`: it is in the set with those that were, and `select`
-- looks at it and at all that it looked at.
pub record Joined (fd : ℕ) (n n' : Net) : Type 0 where
  pub members : (k : ℕ) → fd_isset k n'.master ≡ (k == fd) || fd_isset k n.master
  pub looked_at : fd ≤ n'.fdmax
  pub grown : n.fdmax ≤ n'.fdmax

-- An accepted descriptor joins if a set can have it; else, and after a failure, nothing changes.
abbrev pub Joins : (large : Bool) → ℕ → Net → Net → Type 0
Joins true fd n n' = n' ≡ n
Joins false fd n n' = Joined fd n n'

abbrev pub Accepts : ℤ → Net → Net → Type 0
Accepts (pos fd) n n' = Joins (leb fd_setsize fd) fd n n'
Accepts (negsuc k) n n' = n' ≡ n

-- A client that leaves or fails is just taken out; one that sends changes nothing.
abbrev pub Stays : (ended : Bool) → ℕ → Net → Net → Type 0
Stays true i n n' = (k : ℕ) → fd_isset k n'.master ≡ not (k == i) && fd_isset k n.master
Stays false i n n' = n' ≡ n

-- The server's socket gives a client, another descriptor is one.
abbrev pub Changes : (is_server : Bool) → (newfd nbytes : ℤ) → ℕ → Net → Net → Type 0
Changes true newfd nbytes i n n' = Accepts newfd n n'
Changes false newfd nbytes i n n' = Stays (ltb_ℤ nbytes (pos 1)) i n n'

accept_client-Joined :
    (fd : ℕ) (e : Env) (s : Station)
    → e.answer s.trace (Call.accept s.server_fd) ≡ pos fd
    → fd < fd_setsize
    → Joined fd (net s) (net (accept_client e s).1)
unfolding accept_client fd_set fd_isset
accept_client-Joined fd e s got fits =
    let small : leb fd_setsize fd ≡ false = ground (arith, fits) in
    rw (got, small) (record { members = λ k. refl; looked_at = ground arith; grown = ground arith })

then_true :
    (e : Env) (r : Result (Unit {0})) (s : Station) → (continue e (λ _. pure true) r s).1 ≡ s
then_true e (ok a) s = refl
then_true e (exit n) s = refl
then_true e undefined s = refl
then_true e no_fuel s = refl

serve_client-left :
    (i k : ℕ) (e : Env) (s : Station)
    → ltb_ℤ (e.answer s.trace (Call.recv (pos i) msg_size)) (pos 1) ≡ true
    → fd_isset k (serve_client i e s).1.master ≡ not (k == i) && fd_isset k s.master
unfolding serve_client
serve_client-left i k e s ended = rw ended (fd_isset-clr i k s.master)

serve_client-stays :
    (i : ℕ) (e : Env) (s : Station)
    → ltb_ℤ (e.answer s.trace (Call.recv (pos i) msg_size)) (pos 1) ≡ false
    → net (serve_client i e s).1 ≡ net s
unfolding serve_client
serve_client-stays i e s more =
    let receiving = Call.recv (pos i) msg_size in
    rw more (
      kept (save_message-Keeps (pos_part (e.answer s.trace receiving)) (e.bytes s.trace receiving))
        e (called receiving s))

accept_client-Accepts :
    (e : Env) (s : Station) (newfd : ℤ)
    → e.answer s.trace (Call.accept s.server_fd) ≡ newfd
    → Accepts newfd (net s) (net (accept_client e s).1)
unfolding accept_client fd_set
accept_client-Accepts e s (pos fd) got = elim (Bool-cases (leb fd_setsize fd)) [
  | inl large ↦ rw (got, large) refl
  | inr fits ↦ rw fits (accept_client-Joined fd e s got (ground (arith, fits)))
]
accept_client-Accepts e s (negsuc k) got = elim (Bool-cases (eqb_ℤ (negsuc k) (negsuc 0))) [
  | inl failed ↦ rw (got, failed) refl
  | inr other ↦ rw (got, other) refl
]

serve_client-Stays :
    (i : ℕ) (e : Env) (s : Station)
    → Stays
        (ltb_ℤ (e.answer s.trace (Call.recv (pos i) msg_size)) (pos 1))
        i
        (net s)
        (net (serve_client i e s).1)
serve_client-Stays i e s =
    elim (Bool-cases (ltb_ℤ (e.answer s.trace (Call.recv (pos i) msg_size)) (pos 1))) [
      | inl ended ↦ rw ended (λ k. serve_client-left i k e s ended)
      | inr more ↦ rw more (serve_client-stays i e s more)
    ]

-- For a ready descriptor, from descriptors that are covered: they are covered behind it, and the
-- set is what the two calls say. If it is the server's socket and a client is accepted on a
-- descriptor that a set can have, this is in the set from then on, beside just those that were, and
-- `select` looks at it; else nothing changes. If it is a client that leaves or fails, just its
-- descriptor is taken out. If it is a client that sends, the set, its bound and the server's socket
-- stay as they are, whatever becomes of the message.
pub serve-waits :
    (i : ℕ) (fds : List ℕ) (e : Env) (s : Station)
    → IsCovered (net s)
    → fd_isset i fds ≡ true
    → IsCovered (net (serve i fds e s).1)
      × Changes
          (eqb_ℤ (pos i) s.server_fd)
          (e.answer s.trace (Call.accept s.server_fd))
          (e.answer s.trace (Call.recv (pos i) msg_size))
          i
          (net s)
          (net (serve i fds e s).1)
unfolding serve
serve-waits i fds e s c ready = (
  serve-IsCovered i fds e s c,
  elim (Bool-cases (eqb_ℤ (pos i) s.server_fd)) [
    | inl new ↦ rw (ready, new) (accept_client-Accepts e s _ refl)
    | inr old ↦
        let (r, s') = serve_client i e s in
        rw (ready, old, then_true e r s') (serve_client-Stays i e s)
  ],
)
