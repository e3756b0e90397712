-- ===== src/Tracker/Tuning.antt =====
-- The satellite that is tracked and the frequencies that the GS100 is given, by
-- src/doppler_freq_correction.c.
use uhf_gs_csp_software.Common.{
  ℕ, leb, if◌then◌else◌, ◌≤◌, ◌≡◌, refl, ap, ltb_ℤ, Bool, take, false, arith, List, [], ◌∷◌, codes,
  Bytes, ℤ, pos,
}
use uhf_gs_csp_software.World.{
  Call, Env, Station, Result, exit, undefined, no_fuel, continue, called, ok,
}
use uhf_gs_csp_software.World.Frame.{Keeps, keeps, kept, Keeps-bind}
use uhf_gs_csp_software.Tracker.Radio.{ax100_set_tx_freq, ax100_set_rx_freq}
use uhf_gs_csp_software.Tracker.Elements.{
  cubesat_tle_url, use_lines, search_file, keep_line, put_tle1, put_tle2, match_line, match_lines,
  on_stream, hand_over, tleupdate,
}
use uhf_gs_csp_software.Tracker.Select.{Lumelite, lumelite, chosen, set_both, retune, mcs_sat_sel}

-- The frequencies in use are those of the satellite in use, and its number is one that is taken: 1
-- to 3, or 0, which stands for the first satellite too.
pub record IsTuned (s : Station) : Type 0 where
  pub number : s.sat_no ≤ 3
  pub tx : s.tx_freq ≡ (lumelite s.sat_no).tx
  pub rx : s.rx_freq ≡ (lumelite s.sat_no).rx

-- All but the calls and the elements.
abbrev pub settled : Station → Station
settled s = record s { trace = []; tle1 = []; tle2 = [] }

keep_line-Keeps :
    (b : Bool) (put : Bytes → Station → Station) (line : Bytes) (len : ℕ)
    → ((t : Bytes) (s : Station) → settled (put t s) ≡ settled s)
    → Keeps settled (keep_line b put line len)
unfolding keep_line
keep_line-Keeps b put line len h = keeps λ e s. ground (arith, h (take len line) s)

match_line-Keeps : (id : ℕ) (text : Bytes) (len : ℕ) → Keeps settled (match_line id text len)
unfolding match_line
match_line-Keeps id text len =
    Keeps-bind settled _ _ (keep_line-Keeps _ put_tle1 _ len (λ t s. refl))
      (λ _. keep_line-Keeps _ put_tle2 _ len (λ t s. refl))

match_lines-Keeps : (id : ℕ) (lines : List (Bytes × ℕ)) → Keeps settled (match_lines id lines)
unfolding match_lines
match_lines-Keeps id [] = keeps λ e s. refl
match_lines-Keeps id ((text, len) ∷ lines) =
    Keeps-bind settled _ _ (match_line-Keeps id text len) (λ _. match_lines-Keeps id lines)

pub on_stream-Keeps : (stream : ℤ) (c : Call) → Keeps settled (on_stream stream c)
unfolding on_stream
on_stream-Keeps stream c = keeps λ e s. ground arith

hand_over-Keeps : Keeps settled hand_over
unfolding hand_over
hand_over-Keeps = keeps λ e s. ground arith

use_lines-Keeps : (id : ℕ) (f : ℤ) (lines : List (Bytes × ℕ)) → Keeps settled (use_lines id f lines)
unfolding use_lines
use_lines-Keeps id f lines = Keeps-bind settled _ _ (match_lines-Keeps id lines) λ _.
    Keeps-bind settled (on_stream f (Call.fclose f)) (λ _. hand_over) (on_stream-Keeps f _)
      λ _. hand_over-Keeps

search_file-Keeps : (id : ℕ) (f : ℤ) → Keeps settled (search_file id f)
unfolding search_file
search_file-Keeps id f = keeps λ e s. ground (
  arith,
  kept (use_lines-Keeps id f (e.lines (Call.rewind f ∷ s.trace) (Call.getlines f))) e
      (called (Call.getlines f) (called (Call.rewind f) s)),
)

pub tleupdate-Keeps : (id : ℕ) → Keeps settled (tleupdate id)
unfolding tleupdate
tleupdate-Keeps id = keeps λ e s.
    let opening = Call.fopen (codes "tle.txt") (codes "wb+") in
    let f = e.answer s.trace opening in
    let download = Call.curl_perform cubesat_tle_url f in
    let here = called download (called opening s) in
    ground
      (arith, kept (on_stream-Keeps f (Call.fclose f)) e here, kept (search_file-Keeps id f) e here)

set_both-Keeps : (sat : Lumelite) → Keeps settled (set_both sat)
unfolding set_both ax100_set_rx_freq ax100_set_tx_freq
set_both-Keeps sat = keeps λ e s. ground arith

-- `mcs_sat_sel` behind the choice.
pub retune-Keeps : (sat : Lumelite) → Keeps settled (retune sat)
unfolding retune
retune-Keeps sat =
    Keeps-bind settled (tleupdate sat.element_id) (λ _. set_both sat)
      (tleupdate-Keeps sat.element_id) λ _. set_both-Keeps sat

-- Whatever number is asked for, from a number of at most 3 on, and whether or not the download and
-- the radio answer: the number in use is the one that was asked for if that is at most 3 (0 is
-- taken too) and the one before else, and the frequencies in use are those of its satellite, which
-- are those of number 1 for number 0.
pub mcs_sat_sel-IsTuned :
    (sat_no_sel : ℕ) (e : Env) (s : Station)
    → s.sat_no ≤ 3
    → IsTuned (mcs_sat_sel sat_no_sel e s).1
      × ((mcs_sat_sel sat_no_sel e s).1.sat_no
          ≡ (if leb sat_no_sel 3 then sat_no_sel else s.sat_no))
      × (lumelite 0 ≡ lumelite 1)
unfolding mcs_sat_sel lumelite
mcs_sat_sel-IsTuned sel e s h =
    let no = chosen sel s.sat_no in
    let sat = lumelite no in
    let here = record s { sat_no = no; tx_freq = sat.tx; rx_freq = sat.rx } in
    let same = kept (retune-Keeps sat) e here in
    (ground (arith, same), ap (λ (c : Station). c.sat_no) same, refl)

-- The settings of the two tables of the radio.
abbrev pub set_tx : ℕ → Call
set_tx freq = Call.rparam_set_uint32 freq 0 5 29 7 1000

abbrev pub set_rx : ℕ → Call
set_rx freq = Call.rparam_set_uint32 freq 0 1 29 7 1000

-- The radio took both frequencies of `sat` behind the calls `before`, the newest calls of all.
pub record TookBoth (e : Env) (sat : Lumelite) (s : Station) : Type 0 where
  pub before : List Call
  pub last : s.trace ≡ set_rx sat.rx ∷ set_tx sat.tx ∷ before
  pub tx_taken : ltb_ℤ (e.answer before (set_tx sat.tx)) (pos 1) ≡ false
  pub rx_taken : ltb_ℤ (e.answer (set_tx sat.tx ∷ before) (set_rx sat.rx)) (pos 1) ≡ false

set_both-TookBoth :
    (sat : Lumelite) (e : Env) (s : Station)
    → (set_both sat e s).0 ≡ ok (pos 1)
    → TookBoth e sat (set_both sat e s).1
unfolding set_both ax100_set_rx_freq ax100_set_tx_freq
set_both-TookBoth sat e s h = record {
  before = s.trace;
  last = ground arith;
  tx_taken = ground arith;
  rx_taken = ground arith;
}

retune-TookBoth :
    (sat : Lumelite) (e : Env) (s : Station)
    → (retune sat e s).0 ≡ ok (pos 1)
    → TookBoth e sat (retune sat e s).1
unfolding retune
retune-TookBoth sat e s = behind (tleupdate sat.element_id e s).0 (tleupdate sat.element_id e s).1
  where
    behind :
        (r : Result (Unit {0})) (s' : Station)
        → (continue e (λ _. set_both sat) r s').0 ≡ ok (pos 1)
        → TookBoth e sat (continue e (λ _. set_both sat) r s').1
    behind (ok a) s' h = set_both-TookBoth sat e s' h
    behind (exit n) s' h = absurd (cc)
    behind undefined s' h = absurd (cc)
    behind no_fuel s' h = absurd (cc)

-- A choice returns 1 only if the radio's last two settings are the transmit and the receive
-- frequency of the satellite now in use, and it took both.
pub mcs_sat_sel-TookBoth :
    (sat_no_sel : ℕ) (e : Env) (s : Station)
    → (mcs_sat_sel sat_no_sel e s).0 ≡ ok (pos 1)
    → TookBoth e (lumelite (mcs_sat_sel sat_no_sel e s).1.sat_no) (mcs_sat_sel sat_no_sel e s).1
unfolding mcs_sat_sel
mcs_sat_sel-TookBoth sel e s h =
    let no = chosen sel s.sat_no in
    let sat = lumelite no in
    let here = record s { sat_no = no; tx_freq = sat.tx; rx_freq = sat.rx } in
    let number : (retune sat e here).1.sat_no ≡ no =
      ap (λ (c : Station). c.sat_no) (kept (retune-Keeps sat) e here) in
    rw number (retune-TookBoth sat e here h)
