-- ===== src/Rotator/Wire.antt =====
-- The command that src/serial_rotator.c writes to the GS232B, and the calls around it.
use uhf_gs_csp_software.Common.{
  ℕ, List, ◌+◌, ◌<◌, ◌≡◌, refl, ap, ◌∙◌, le→leb, false, arith, [], ◌∷◌, ◌++◌, Bytes, length,
  length-append, take, drop, ℤ, pos, ◌+ℤ◌,
}
use native.Mathlib.Nat.{le_of_eq}
use uhf_gs_csp_software.Common.Decimal.{scan, print_zeros}
use uhf_gs_csp_software.Common.Decimal.RoundTrip.{length-print_zeros, scan-print_zeros}
use uhf_gs_csp_software.World.{Call, Env, Station, Termios, ok}
use uhf_gs_csp_software.Rotator.{
  b4800, serial_port, raw_settings, set_interface, angles, command, point, is_near,
  serial_set_az_el,
}

-- What the rotator reads of a command behind its `W`: three digits, a blank and three digits.
abbrev pub azimuth_field : Bytes → ℕ
azimuth_field text = scan 0 (take 3 text)

abbrev pub elevation_field : Bytes → ℕ
elevation_field text = scan 0 (take 3 (drop 4 text))

three_bytes :
    (p r : Bytes) (c : ℕ) → length p ≡ 3 → (take 3 (p ++ r) ≡ p) × (drop 4 (p ++ c ∷ r) ≡ r)
three_bytes (x ∷ y ∷ z ∷ []) r c h = (refl, refl)
three_bytes [] r c h = absurd (omega arith)
three_bytes (x ∷ []) r c h = absurd (omega arith)
three_bytes (x ∷ y ∷ []) r c h = absurd (omega arith)
three_bytes (x ∷ y ∷ z ∷ w ∷ p) r c h = absurd (omega arith)

-- The rotator reads back the azimuth, eighty degrees on, and the elevation.
pub record Reads (azi ele : ℕ) (text : Bytes) : Type 0 where
  pub width : length text ≡ 8
  pub azimuth : azimuth_field text ≡ azi + 80
  pub elevation : elevation_field text ≡ ele

offset : (a : ℕ) → pos a +ℤ pos 80 ≡ pos (a + 80)
unfolding ◌+ℤ◌
offset a = ground arith

angles-pos :
    (a b : ℕ)
    → angles (pos a) (pos b)
      ≡ print_zeros 3 (pos (a + 80)) ++ (b' ' ∷ (print_zeros 3 (pos b) ++ (b'\r' ∷ [])))
unfolding angles
angles-pos a b =
    ap (λ (z : ℤ). print_zeros 3 z ++ (b' ' ∷ (print_zeros 3 (pos b) ++ (b'\r' ∷ [])))) (offset a)

angles-Reads : (a b : ℕ) → a + 80 < 1000 → b < 1000 → Reads a b (angles (pos a) (pos b))
angles-Reads a b ha hb = rw angles-pos (record {
  width = omega (
    arith,
    wide,
    tall,
    length-append {A = ℕ} p (b' ' ∷ (q ++ (b'\r' ∷ []))),
    length-append {A = ℕ} q (b'\r' ∷ []),
  );
  azimuth =
      ap (scan 0) ((three_bytes p (b' ' ∷ (q ++ (b'\r' ∷ []))) 0 wide).0)
      ∙ scan-print_zeros 3 (a + 80);
  elevation =
      ap (λ t. scan 0 (take 3 t)) ((three_bytes p (q ++ (b'\r' ∷ [])) b' ' wide).1)
      ∙ ap (scan 0) ((three_bytes q (b'\r' ∷ []) 0 tall).0)
      ∙ scan-print_zeros 3 b;
})
  where
    p : Bytes
    p = print_zeros 3 (pos (a + 80))

    q : Bytes
    q = print_zeros 3 (pos b)

    wide : length p ≡ 3
    wide = length-print_zeros 3 (a + 80) (omega arith) ha

    tall : length q ≡ 3
    tall = length-print_zeros 3 b (omega arith) hb

-- The calls of a pointing that succeeds, the last first.
abbrev pub pointing_calls : ℤ → Termios → Bytes → List Call
pointing_calls fd options text =
    Call.close fd
    ∷ Call.write fd (b'W' ∷ text)
    ∷ Call.tcflush fd
    ∷ Call.tcsetattr fd (raw_settings b4800 options)
    ∷ Call.tcgetattr fd
    ∷ Call.open_device serial_port
    ∷ []

module _ (e : Env) (s : Station) where
  -- The rotator's line answers: it opens, and it takes the settings.
  pub record IsUp (fd : ℕ) (options : Termios) : Type 0 where
    pub opened : e.answer s.trace (Call.open_device serial_port) ≡ pos fd
    pub got : e.answer (Call.open_device serial_port ∷ s.trace) (Call.tcgetattr (pos fd)) ≡ pos 0
    pub has : e.termios (Call.open_device serial_port ∷ s.trace) (Call.tcgetattr (pos fd)) ≡ options
    pub takes :
        e.answer
          (Call.tcgetattr (pos fd) ∷ Call.open_device serial_port ∷ s.trace)
          (Call.tcsetattr (pos fd) (raw_settings b4800 options))
        ≡ pos 0

  -- On a line that is up, new angles below 920 and 1000 degrees are sent, in one command that the
  -- rotator reads back, on a port that was set up before and is closed after; the call returns 1.
  pub serial_set_az_el-sends :
      (a b fd : ℕ) (options : Termios)
      → a < 920
      → b < 1000
      → is_near (pos a) (pos b) s ≡ false
      → IsUp fd options
      → (serial_set_az_el (pos a) (pos b) e s ≡ (
        ok (pos 1),
        record s {
          azi_old = pos a;
          ele_old = pos b;
          trace = pointing_calls (pos fd) options (angles (pos a) (pos b)) ++ s.trace;
        },
      ))
        × Reads a b (angles (pos a) (pos b))
  unfolding serial_set_az_el point set_interface command
  serial_set_az_el-sends a b fd options ha hb far up =
      (rw (far, up.opened, up.got, up.has, up.takes, le→leb _ _ (le_of_eq (reads.width))), reads)
    where
      reads : Reads a b (angles (pos a) (pos b))
      reads = angles-Reads a b (omega arith) hb
