-- ===== src/Tracker/Tracking.antt =====
-- The limits of elevation within which `doppler_tracking` of src/doppler_freq_correction.c tunes
-- the radio and turns the antenna.
use uhf_gs_csp_software.Common.{ℕ, ◌≡◌, true, arith, List, [], ◌∷◌, ℤ, pos, ltb_ℤ}
use uhf_gs_csp_software.World.{Call, Env, Station, called}
use uhf_gs_csp_software.World.Frame.{Keeps, keeps, kept, Keeps-bind}
use uhf_gs_csp_software.Rotator.{serial_set_az_el, point, set_interface, command}
use uhf_gs_csp_software.Tracker.Radio.{ping_sat_func, ax100_set_tx_freq, ax100_set_rx_freq}
use uhf_gs_csp_software.Tracker.Pass.{aim, tune, ping_high, correct, doppler_tracking}

-- The settings of the radio among the calls.
abbrev pub radio_settings : List Call → List Call
radio_settings [] = []
radio_settings (Call.rparam_set_uint32 v a t n p o ∷ t') =
    Call.rparam_set_uint32 v a t n p o ∷ radio_settings t'
radio_settings (c ∷ t) = radio_settings t

-- The uses of the rotator's line among the calls.
abbrev pub rotator_uses : List Call → List Call
rotator_uses [] = []
rotator_uses (Call.open_device d ∷ t) = Call.open_device d ∷ rotator_uses t
rotator_uses (c ∷ t) = rotator_uses t

abbrev settings_of : Station → List Call
settings_of s = radio_settings s.trace

abbrev uses_of : Station → List Call
uses_of s = rotator_uses s.trace

aim-Keeps : (azi eli : ℤ) → Keeps settings_of (aim azi eli)
unfolding aim serial_set_az_el point set_interface command
aim-Keeps azi eli = keeps λ e s. ground arith

correct-Keeps :
    (txfreq rxfreq : ℕ) (eli : ℤ)
    → ltb_ℤ eli (pos 1) ≡ true
    → Keeps settings_of (correct txfreq rxfreq eli)
unfolding correct tune ping_high ping_sat_func
correct-Keeps txfreq rxfreq eli low = keeps λ e s. rw low (ground arith)

tune-Keeps : (ele : ℤ) (tx rx : ℕ) → Keeps uses_of (tune ele tx rx)
unfolding tune ax100_set_tx_freq ax100_set_rx_freq
tune-Keeps ele tx rx = keeps λ e s. ground arith

ping_high-Keeps : Keeps uses_of ping_high
unfolding ping_high ping_sat_func
ping_high-Keeps = keeps λ e s. ground arith

correct-Keeps_uses : (txfreq rxfreq : ℕ) (eli : ℤ) → Keeps uses_of (correct txfreq rxfreq eli)
unfolding correct
correct-Keeps_uses txfreq rxfreq eli = keeps λ e s.
    kept
      (Keeps-bind uses_of (tune eli _ _) (λ _. ping_high) (tune-Keeps eli _ _)
        (λ _. ping_high-Keeps))
      e _

-- The station behind the questions for azimuth and elevation.
abbrev asked : ℕ → Station → Station
asked tnow s = called Call.get_ele (called Call.get_azi (called (Call.predict_at tnow) s))

-- The elevation that the predictor gives for the moment `tnow`, cut to an integer.
abbrev pub elevation_at : ℕ → Env → Station → ℤ
elevation_at tnow e s = e.answer (Call.get_azi ∷ Call.predict_at tnow ∷ s.trace) Call.get_ele

-- Below one degree the radio is not tuned, whatever the rotator and the ping do.
pub doppler_tracking-low :
    (txfreq rxfreq tnow : ℕ) (e : Env) (s : Station)
    → ltb_ℤ (elevation_at tnow e s) (pos 1) ≡ true
    → radio_settings (doppler_tracking txfreq rxfreq tnow e s).1.trace ≡ radio_settings s.trace
unfolding doppler_tracking
doppler_tracking-low txfreq rxfreq tnow e s low =
    let azi = e.answer (Call.predict_at tnow ∷ s.trace) Call.get_azi in
    let eli = elevation_at tnow e s in
    kept
      (Keeps-bind settings_of (aim azi eli) (λ _. correct txfreq rxfreq eli) (aim-Keeps azi eli)
        (λ _. correct-Keeps txfreq rxfreq eli low))
      e (asked tnow s)

-- Above ninety degrees the antenna is not turned, whatever the radio and the ping do.
pub doppler_tracking-above :
    (txfreq rxfreq tnow : ℕ) (e : Env) (s : Station)
    → ltb_ℤ (pos 90) (elevation_at tnow e s) ≡ true
    → rotator_uses (doppler_tracking txfreq rxfreq tnow e s).1.trace ≡ rotator_uses s.trace
unfolding doppler_tracking aim
doppler_tracking-above txfreq rxfreq tnow e s high =
    rw high (kept (correct-Keeps_uses txfreq rxfreq (elevation_at tnow e s)) e (asked tnow s))
