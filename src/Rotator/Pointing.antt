-- ===== src/Rotator/Pointing.antt =====
-- What `serial_set_az_el` of src/serial_rotator.c does to the rotator, whatever the serial line
-- answers.
use uhf_gs_csp_software.Common.{ℕ, ◌<◌, ◌≡◌, arith, ℤ, ◌-ℤ◌, abs}
use uhf_gs_csp_software.World.{Env, Station}
use uhf_gs_csp_software.Rotator.{set_interface, command, point, is_near, serial_set_az_el}

-- The two angles that the station remembers are less than two degrees from `azi` and `ele`.
abbrev pub IsAimed : ℤ → ℤ → Station → Type 0
IsAimed azi ele s = (abs (azi -ℤ s.azi_old) < 2) × (abs (ele -ℤ s.ele_old) < 2)

abs-sub_self : (a : ℤ) → abs (a -ℤ a) ≡ 0
unfolding ◌-ℤ◌
abs-sub_self a = ground arith

set_interface_keeps :
    (fd : ℤ) (speed : ℕ) (e : Env) (s : Station)
    → ((set_interface fd speed e s).1.azi_old ≡ s.azi_old)
      × ((set_interface fd speed e s).1.ele_old ≡ s.ele_old)
unfolding set_interface
set_interface_keeps fd speed e s = ground arith

point_keeps :
    (azi ele : ℤ) (e : Env) (s : Station)
    → ((point azi ele e s).1.azi_old ≡ s.azi_old) × ((point azi ele e s).1.ele_old ≡ s.ele_old)
unfolding point set_interface command
point_keeps azi ele e s = ground arith

-- After every call, also one that failed, the remembered angles are less than two degrees from
-- those that were asked for.
pub serial_set_az_el-IsAimed :
    (azi ele : ℤ) (e : Env) (s : Station) → IsAimed azi ele (serial_set_az_el azi ele e s).1
unfolding serial_set_az_el is_near
serial_set_az_el-IsAimed azi ele e s = ground (
  arith,
  abs-sub_self azi,
  abs-sub_self ele,
  point_keeps azi ele e (record s { azi_old = azi; ele_old = ele }),
)
