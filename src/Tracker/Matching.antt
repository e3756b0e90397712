-- ===== src/Tracker/Matching.antt =====
-- Which elements `tleupdate` of src/doppler_freq_correction.c hands to the predictor.
use uhf_gs_csp_software.Common.{
  ℕ, ◌≤◌, ◌≡◌, refl, false, arith, List, [], ◌∷◌, ◌++◌, codes, take, All, Bytes, ◌==◌,
  if◌then◌else◌, ℤ, pos, eqb_ℤ,
}
use uhf_gs_csp_software.Common.Decimal.{digits}
use uhf_gs_csp_software.World.{Call, Env, Station, called, ok}
use uhf_gs_csp_software.Tracker.Elements.{
  strtok, strstr, keep_line, match_line, match_lines, on_stream, is_empty, hand_over, use_lines,
  search_file, cubesat_tle_url, tleupdate,
}

-- The last of the lines that holds `key`, or `old` if none does.
abbrev pub last_match : Bytes → List (Bytes × ℕ) → Bytes → Bytes
last_match key [] old = old
last_match key ((text, len) ∷ lines) old =
    last_match key lines (if strstr (strtok text) key then take len (strtok text) else old)

-- The keys of the two lines of a satellite.
abbrev pub key1 : ℕ → Bytes
key1 id = digits id ++ codes "U "

abbrev pub key2 : ℕ → Bytes
key2 id = digits id ++ codes " "

-- Every line fits the variables that keep the elements.
abbrev pub Fits : List (Bytes × ℕ) → Type 0
Fits lines = All (λ l. l.1 ≤ 120) lines

match_line_lem :
    (id : ℕ) (text : Bytes) (len : ℕ) (e : Env) (s : Station)
    → len ≤ 120
    → match_line id text len e s ≡ (
      ok tt,
      record s {
        tle1 = (if strstr (strtok text) (key1 id) then take len (strtok text) else s.tle1);
        tle2 = (if strstr (strtok text) (key2 id) then take len (strtok text) else s.tle2);
      },
    )
unfolding match_line keep_line
match_line_lem id text len e s h = ground arith

match_lines_lem :
    (id : ℕ) (lines : List (Bytes × ℕ)) (e : Env) (s : Station)
    → Fits lines
    → match_lines id lines e s ≡ (
      ok tt,
      record s {
        tle1 = last_match (key1 id) lines s.tle1;
        tle2 = last_match (key2 id) lines s.tle2;
      },
    )
unfolding match_lines
match_lines_lem id [] e s h = refl
match_lines_lem id ((text, len) ∷ lines) e s (h, hs) =
    rw (match_line_lem id text len e s h) (match_lines_lem id lines e _ hs)

-- The download is written to the stream `f`, and `lines` are read back from it.
pub record Fetched (e : Env) (s : Station) (f : ℤ) (lines : List (Bytes × ℕ)) : Type 0 where
  pub opened : e.answer s.trace (Call.fopen (codes "tle.txt") (codes "wb+")) ≡ f
  pub valid : eqb_ℤ f (pos 0) ≡ false
  pub loaded :
      e.answer
        (Call.fopen (codes "tle.txt") (codes "wb+") ∷ s.trace)
        (Call.curl_perform cubesat_tle_url f)
      ≡ pos 0
  pub has :
      e.lines
        (Call.rewind f
          ∷ Call.curl_perform cubesat_tle_url f
          ∷ Call.fopen (codes "tle.txt") (codes "wb+")
          ∷ s.trace)
        (Call.getlines f)
      ≡ lines

-- The calls up to the closed file, the last first.
abbrev pub file_calls : ℤ → List Call → List Call
file_calls f t =
    Call.fclose f
    ∷ Call.getlines f
    ∷ Call.rewind f
    ∷ Call.curl_perform cubesat_tle_url f
    ∷ Call.fopen (codes "tle.txt") (codes "wb+")
    ∷ t

-- The call that hands elements over, if there is a first line.
abbrev pub hand_over_call : Bytes → Bytes → List Call → List Call
hand_over_call tle1 tle2 t = if is_empty tle1 then t else Call.set_tle tle1 tle2 ∷ t

hand_over_lem :
    (e : Env) (s : Station)
    → hand_over e s ≡ (ok tt, record s { trace = hand_over_call s.tle1 s.tle2 s.trace })
unfolding hand_over
hand_over_lem e s = ground arith

close_stream :
    (f : ℤ) (e : Env) (s : Station)
    → eqb_ℤ f (pos 0) ≡ false
    → on_stream f (Call.fclose f) e s ≡ (ok tt, called (Call.fclose f) s)
unfolding on_stream
close_stream f e s h = rw h

-- For a satellite that is named, a download that succeeds and lines that fit: the station keeps
-- the last line with each key, the file is closed, and these elements go to the predictor.
pub tleupdate_lem :
    (id : ℕ) (f : ℤ) (lines : List (Bytes × ℕ)) (e : Env) (s : Station)
    → (id == 0) ≡ false
    → Fetched e s f lines
    → Fits lines
    → tleupdate id e s ≡ (
      ok tt,
      record s {
        tle1 = last_match (key1 id) lines s.tle1;
        tle2 = last_match (key2 id) lines s.tle2;
        trace =
            hand_over_call
              (last_match (key1 id) lines s.tle1)
              (last_match (key2 id) lines s.tle2)
              (file_calls f s.trace);
      },
    )
unfolding tleupdate search_file use_lines
tleupdate_lem id f lines e s named got fits =
    rw
      (
        got.opened,
        got.loaded,
        named,
        got.valid,
        got.has,
        match_lines_lem id lines e _ fits,
        close_stream f e _ got.valid,
      )
      (hand_over_lem e _)

last_match-none :
    (key : Bytes) (lines : List (Bytes × ℕ)) (old : Bytes)
    → All (λ l. strstr (strtok l.0) key ≡ false) lines
    → last_match key lines old ≡ old
last_match-none key [] old h = refl
last_match-none key ((text, len) ∷ lines) old (h, hs) = rw h (last_match-none key lines old hs)

-- For a download that succeeds and lines that fit: if no line names the new satellite, and the
-- station has elements of one before, these go to the predictor.
pub tleupdate-stale :
    (id : ℕ) (f : ℤ) (lines : List (Bytes × ℕ)) (e : Env) (s : Station)
    → (id == 0) ≡ false
    → Fetched e s f lines
    → Fits lines
    → All (λ l. strstr (strtok l.0) (key1 id) ≡ false) lines
    → All (λ l. strstr (strtok l.0) (key2 id) ≡ false) lines
    → is_empty s.tle1 ≡ false
    → (tleupdate id e s).1.trace ≡ Call.set_tle s.tle1 s.tle2 ∷ file_calls f s.trace
tleupdate-stale id f lines e s named got fits none1 none2 kept = rw (
  tleupdate_lem id f lines e s named got fits,
  last_match-none _ lines s.tle1 none1,
  last_match-none _ lines s.tle2 none2,
  kept,
)
