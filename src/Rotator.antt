-- ===== src/Rotator.antt =====
-- src/serial_rotator.c: the GS232B antenna rotator on a serial line.
pub mod Pointing
pub mod Wire
use uhf_gs_csp_software.Common.{
  ℕ, Bool, true, false, ◌&&◌, ◌||◌, not, [], ◌∷◌, ◌++◌, Bytes, codes, length, ltb, leb, ◌==◌,
  if◌then◌else◌, ℤ, pos, negsuc, ◌+ℤ◌, ◌-ℤ◌, is_neg, eqb_ℤ, abs,
}
use uhf_gs_csp_software.Common.Decimal.{print_zeros}
use uhf_gs_csp_software.World.{
  Call, Station, Termios, Prog, undefined, pure, stop, ◌>>=◌, ◌>>◌, get, modify, call, call_termios,
  call_bytes,
}

abbrev pub azimmuth_angle_offset : ℕ
azimmuth_angle_offset = 80

abbrev pub min_angle_threshold : ℕ
min_angle_threshold = 2

abbrev pub azel_track_cmd_lock : ℕ
azel_track_cmd_lock = 0

-- `B4800` of <termios.h>
abbrev pub b4800 : ℕ
b4800 = 12

abbrev pub serial_port : Bytes
serial_port = codes "/dev/ttyUSB1"

-- The settings that `set_interface` makes of those it read; `parity` is 0 in every call.
unfoldable pub raw_settings : ℕ → Termios → Termios
raw_settings speed o = record o {
  ospeed = speed;
  ispeed = speed;
  char_size = 8;
  ignbrk = false;
  brkint = false;
  parmrk = false;
  istrip = false;
  inlcr = false;
  igncr = false;
  icrnl = false;
  lflag = 0;
  opost = false;
  vmin = 15;
  vtime = 255;
  ixon = false;
  ixoff = false;
  ixany = false;
  clocal = true;
  cread = true;
  parenb = false;
  parodd = false;
  cstopb = false;
  crtscts = false;
}

unfoldable pub set_interface : ℤ → ℕ → Prog ℤ
set_interface fd speed = do
  (got, options) ← call_termios (Call.tcgetattr fd)
  if not (eqb_ℤ got (pos 0)) then pure (negsuc 0) else do
    done ← call (Call.tcsetattr fd (raw_settings speed options))
    pure (if eqb_ℤ done (pos 0) then pos 0 else negsuc 0)

-- The text that `sprintf` puts into the command buffer behind its `W`.
unfoldable pub angles : ℤ → ℤ → Bytes
unfolding print_zeros
angles azi ele =
    print_zeros 3 (azi +ℤ pos azimmuth_angle_offset) ++ (b' ' ∷ (print_zeros 3 ele ++ (b'\r' ∷ [])))

-- The command buffer holds ten bytes, its first `W` and its last the terminator: a text of more
-- than eight bytes is written past its end.
unfoldable pub command : ℤ → ℤ → Prog Bytes
command azi ele =
    if leb (length (angles azi ele)) 8 then pure (b'W' ∷ angles azi ele) else stop undefined

-- The calls of `serial_set_az_el` from `open` on.
unfoldable pub point : ℤ → ℤ → Prog ℤ
point azi ele = do
  fd ← call (Call.open_device serial_port)
  if is_neg fd then pure (pos 0) else do
    set ← set_interface fd b4800
    if not (eqb_ℤ set (pos 0)) then pure (pos 0) else do
      call (Call.tcflush fd)
      set_az_el ← command azi ele
      call (Call.write fd set_az_el)
      call (Call.close fd)
      pure (pos 1)

-- `azi_old` and `ele_old` keep the angles of the last command, unless the new ones are near them.
unfoldable pub is_near : ℤ → ℤ → Station → Bool
is_near azi ele s =
    not (is_neg s.azi_old || is_neg s.ele_old)
    && (ltb (abs (azi -ℤ s.azi_old)) min_angle_threshold
        && ltb (abs (ele -ℤ s.ele_old)) min_angle_threshold)

unfoldable pub serial_set_az_el : ℤ → ℤ → Prog ℤ
serial_set_az_el azi ele = if azel_track_cmd_lock == 1 then pure (pos 1) else do
  near ← get (is_near azi ele)
  if near
      then pure (pos 0)
      else do modify (λ s. record s { azi_old = azi; ele_old = ele }); point azi ele

unfoldable pub serial_read : Prog ℤ
serial_read = do
  fd ← call (Call.open_device serial_port)
  if is_neg fd then pure (pos 0) else do
    set ← set_interface fd b4800
    if not (eqb_ℤ set (pos 0)) then pure (pos 0) else do
      call (Call.tcflush fd)
      call (Call.write fd (codes "C2\r"))
      call_bytes (Call.read fd 100)
      call (Call.close fd)
      pure (pos 1)
