-- ===== src/Tracker/Following.antt =====
-- The pass in src/doppler_freq_correction.c has an end, if the clock runs.
use uhf_gs_csp_software.Common.{
  ℕ, zero, suc, ◌+◌, ◌*◌, ◌^◌, ◌<◌, ◌≤◌, ◌≡◌, ◌≢◌, refl, arith, List, [], ◌∷◌, ltb_ℤ, ℤ, pos,
  to_u32, Bool-cases, inl, inr,
}
use uhf_gs_csp_software.World.{
  Call, Env, Station, Prog, Result, ok, exit, undefined, no_fuel, continue, called, call, ◌>>◌,
}
use uhf_gs_csp_software.World.Frame.{Keeps, keeps, kept, Keeps-bind}
use uhf_gs_csp_software.World.Ends.{Ends, ends, ended, Ends-bind}
use uhf_gs_csp_software.Rotator.{serial_set_az_el, point, set_interface, command}
use uhf_gs_csp_software.Tracker.Radio.{ping_sat_func, ax100_set_tx_freq, ax100_set_rx_freq}
use uhf_gs_csp_software.Tracker.Pass.{
  aim, tune, ping_high, correct, doppler_tracking, seconds_now, follow,
}

-- The seconds slept, among the calls.
abbrev pub slept : List Call → ℕ
slept [] = 0
slept (Call.sleep n ∷ t) = slept t + n
slept (c ∷ t) = slept t

abbrev slept_by : Station → ℕ
slept_by s = slept s.trace

-- A `sleep` takes its time: from `base` on, the clock's seconds are at least those that were slept,
-- as long as they fit 32 bits.
pub record IsClock (e : Env) (base : ℕ) : Type 0 where
  pub runs :
      (t : List Call)
      → base + slept t < 2 ^ 32
      → base + slept t ≤ to_u32 (e.answer t Call.clock_get_time)

aim-Keeps : (azi eli : ℤ) → Keeps slept_by (aim azi eli)
unfolding aim serial_set_az_el point set_interface command
aim-Keeps azi eli = keeps λ e s. ground arith

aim-Ends : (azi eli : ℤ) → Ends (aim azi eli)
unfolding aim serial_set_az_el point set_interface command
aim-Ends azi eli = ends λ e s. ground arith

tune-Keeps : (eli : ℤ) (tx rx : ℕ) → Keeps slept_by (tune eli tx rx)
unfolding tune ax100_set_tx_freq ax100_set_rx_freq
tune-Keeps eli tx rx = keeps λ e s. ground arith

tune-Ends : (eli : ℤ) (tx rx : ℕ) → Ends (tune eli tx rx)
unfolding tune ax100_set_tx_freq ax100_set_rx_freq
tune-Ends eli tx rx = ends λ e s. ground arith

ping_high-Keeps : Keeps slept_by ping_high
unfolding ping_high ping_sat_func
ping_high-Keeps = keeps λ e s. ground arith

ping_high-Ends : Ends ping_high
unfolding ping_high ping_sat_func
ping_high-Ends = ends λ e s. ground arith

correct-Keeps : (tx rx : ℕ) (eli : ℤ) → Keeps slept_by (correct tx rx eli)
unfolding correct
correct-Keeps tx rx eli = keeps λ e s.
    kept
      (Keeps-bind slept_by (tune eli _ _) (λ _. ping_high) (tune-Keeps eli _ _)
        (λ _. ping_high-Keeps))
      e _

correct-Ends : (tx rx : ℕ) (eli : ℤ) → Ends (correct tx rx eli)
unfolding correct
correct-Ends tx rx eli = ends λ e s.
    ended (Ends-bind (tune eli _ _) (λ _. ping_high) (tune-Ends eli _ _) (λ _. ping_high-Ends)) e _

doppler_tracking-Keeps : (tx rx now : ℕ) → Keeps slept_by (doppler_tracking tx rx now)
unfolding doppler_tracking
doppler_tracking-Keeps tx rx now = keeps λ e s.
    kept
      (Keeps-bind slept_by (aim _ _) (λ _. correct tx rx _) (aim-Keeps _ _)
        (λ _. correct-Keeps tx rx _))
      e _

doppler_tracking-Ends : (tx rx now : ℕ) → Ends (doppler_tracking tx rx now)
unfolding doppler_tracking
doppler_tracking-Ends tx rx now = ends λ e s.
    ended (Ends-bind (aim _ _) (λ _. correct tx rx _) (aim-Ends _ _) (λ _. correct-Ends tx rx _)) e
      _

-- What follows the tracking of a round: the sleep, and the rounds that are left.
slept_on :
    (e : Env) (k : Prog (Unit {0})) (n : ℕ)
    → ((s : Station) → slept s.trace ≡ n + 2 → (k e s).0 ≢ no_fuel)
    → (r : Result (Unit {0})) (s : Station) → r ≢ no_fuel
    → slept s.trace ≡ n
    → (continue e (λ _. call (Call.sleep 2) >> k) r s).0 ≢ no_fuel
slept_on e k n h (ok a) s d l = h (called (Call.sleep 2) s) (omega arith)
slept_on e k n h (exit m) s d l = λ x. absurd (cc)
slept_on e k n h undefined s d l = λ x. absurd (cc)
slept_on e k n h no_fuel s d l = absurd (d refl)

-- On a clock that runs, with the loss of signal below 2^32 - 2: the loop of a pass ends within as
-- many rounds of two seconds as there are to the loss of signal, and one more, whatever the
-- rotator and the radio answer.
pub follow_ends :
    (fuel base time_los tnow : ℕ) (e : Env) (s : Station)
    → IsClock e base
    → time_los + 2 < 2 ^ 32
    → base + slept s.trace ≤ tnow + 2
    → time_los + 2 ≤ base + slept s.trace + 2 * fuel
    → (follow fuel (pos time_los) tnow e s).0 ≢ no_fuel
unfolding follow seconds_now
follow_ends zero base los tnow e s clock top near enough = ground arith
follow_ends (suc f) base los tnow e s clock top near enough =
    let now = to_u32 (e.answer s.trace Call.clock_get_time) in
    let here = called Call.clock_get_time s in
    elim (Bool-cases (ltb_ℤ (pos tnow) (pos los))) [
      | inr over ↦ rw over (λ x. absurd (cc))
      | inl going ↦
          let early : tnow < los = ground arith in
          let later : base + slept s.trace ≤ now = clock.runs s.trace (omega arith) in
          rw going (
            slept_on e (follow f (pos los) now) (slept s.trace)
              (λ s2 more. follow_ends f base los now e s2 clock top (omega arith) (omega arith))
              (doppler_tracking s.tx_freq s.rx_freq now e here).0
              (doppler_tracking s.tx_freq s.rx_freq now e here).1
              (ended (doppler_tracking-Ends s.tx_freq s.rx_freq now) e here)
              (kept (doppler_tracking-Keeps s.tx_freq s.rx_freq now) e here))
    ]
