-- ===== src/Server/Rounds.antt =====
-- The rounds of src/tcp_server.c have an end.
use uhf_gs_csp_software.Common.{
  ℕ, zero, suc, ◌+◌, ◌≤◌, ◌≢◌, Bool, true, false, arith, List, Bytes, codes, take, ltb, eqb_ℤ, pos,
  negsuc, pos_part, if◌then◌else◌, Bool-cases, inl, inr, refl,
}
use uhf_gs_csp_software.World.{
  Call, Env, Station, Prog, Result, ok, exit, undefined, no_fuel, continue, called, pure,
}
use uhf_gs_csp_software.World.Ends.{Ends, ends, ended, Ends-pure, Ends-bind}
use uhf_gs_csp_software.Timestamp.{get_time}
use uhf_gs_csp_software.Timestamp.Ends.{get_time-Ends}
use uhf_gs_csp_software.Send.{send_packet}
use uhf_gs_csp_software.Send.Sockets.{net}
use uhf_gs_csp_software.Send.Ends.{send_packet-Ends}
use uhf_gs_csp_software.Server.{
  fd_setsize, msg_size, fd_set, ready_of, accept_client, hand_on, message_name, save_message,
  serve_client, serve, visit, round,
}
use uhf_gs_csp_software.Server.Descriptors.{IsCovered, serve-IsCovered}

accept_client-Ends : Ends accept_client
unfolding accept_client fd_set
accept_client-Ends = ends λ e s. ground arith

hand_on-Ends : (name : Bytes) (nbytes : ℕ) (msg : Bytes) → Ends (hand_on name nbytes msg)
unfolding hand_on
hand_on-Ends name nbytes msg = ends λ e s.
    let opening = Call.fopen name (codes "wb") in
    let fr = e.answer s.trace opening in
    let writing = Call.fwrite fr (take nbytes msg) in
    ground (
      arith,
      ended
          (Ends-bind (send_packet name) (λ _. pure tt) (send_packet-Ends name) (λ _. Ends-pure tt))
          e (called (Call.fclose fr) (called writing (called opening s))),
    )

save_message-Ends : (nbytes : ℕ) (msg : Bytes) → Ends (save_message nbytes msg)
unfolding save_message
save_message-Ends nbytes msg = Ends-bind get_time _ get_time-Ends λ t. ends λ e s.
    ended (hand_on-Ends (message_name t) nbytes msg) e (record s { fr_name = message_name t })

serve_client-Ends : (i : ℕ) → Ends (serve_client i)
unfolding serve_client
serve_client-Ends i = ends λ e s.
    let receiving = Call.recv (pos i) msg_size in
    ground (
      arith,
      ended (save_message-Ends (pos_part (e.answer s.trace receiving)) (e.bytes s.trace receiving))
          e (called receiving s),
    )

serve-Ends : (i : ℕ) (fds : List ℕ) → Ends (serve i fds)
unfolding serve
serve-Ends i fds = ends λ e s. ground (
  arith,
  ended accept_client-Ends e s,
  ended (Ends-bind (serve_client i) (λ _. pure true) (serve_client-Ends i) (λ _. Ends-pure true)) e
      s,
)

goes_on :
    (k : Prog Bool) (e : Env)
    → ((s : Station) → IsCovered (net s) → (k e s).0 ≢ no_fuel)
    → (r : Result Bool) (s : Station) → r ≢ no_fuel
    → IsCovered (net s)
    → (continue e (λ more. if more then k else pure false) r s).0 ≢ no_fuel
goes_on k e h (ok true) s d c = h s c
goes_on k e h (ok false) s d c = λ x. absurd (cc)
goes_on k e h (exit n) s d c = λ x. absurd (cc)
goes_on k e h undefined s d c = λ x. absurd (cc)
goes_on k e h no_fuel s d c = absurd (d refl)

visit_ends :
    (f i : ℕ) (fds : List ℕ) (e : Env) (s : Station)
    → fd_setsize ≤ i + f
    → IsCovered (net s)
    → (visit f i fds e s).0 ≢ no_fuel
unfolding visit
visit_ends zero i fds e s h c = ground (arith, c.small)
visit_ends (suc f) i fds e s h c = elim (Bool-cases (ltb s.fdmax i)) [
  | inl last ↦ rw last (λ x. absurd (cc))
  | inr more ↦ rw more (
      goes_on (visit f (i + 1) fds) e (λ s. visit_ends f (i + 1) fds e s (omega arith))
        (serve i fds e s).0 (serve i fds e s).1 (ended (serve-Ends i fds) e s)
        (serve-IsCovered i fds e s c))
]

-- From descriptors that are covered, every round of the server comes to an end, also if `fdmax`
-- grows in it: `fd_setsize` steps are enough, and the packets that are handled in it are ended
-- too.
pub round_ends : (e : Env) (s : Station) → IsCovered (net s) → (round e s).0 ≢ no_fuel
unfolding round
round_ends e s c =
    let waiting = Call.select (pos (s.fdmax + 1)) in
    elim (Bool-cases (eqb_ℤ (e.answer s.trace waiting) (negsuc 0))) [
      | inl failed ↦ rw failed (λ x. absurd (cc))
      | inr found ↦ rw found (
          visit_ends fd_setsize 0 (ready_of s.master (e.bytes s.trace waiting)) e (called waiting s)
            (omega arith) c)
    ]
