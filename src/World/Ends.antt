-- ===== src/World/Ends.antt =====
-- Programs that have an end: rules that follow their text.
use uhf_gs_csp_software.Common.{Bool, true, false, ◌≢◌, refl, if◌then◌else◌}
use uhf_gs_csp_software.World.{
  Env, Station, Prog, Result, ok, exit, undefined, no_fuel, pure, continue, ◌>>=◌,
}

-- `m` does not run out of fuel.
pub data Ends {A : Type 0} (m : Prog A) : Type 0 where
  ends : ((e : Env) (s : Station) → (m e s).0 ≢ no_fuel) → Ends m

pub ended : {A : Type 0} {m : Prog A} → Ends m → (e : Env) (s : Station) → (m e s).0 ≢ no_fuel
ended (ends h) = h

pub Ends-pure : {A : Type 0} (a : A) → Ends (pure a)
Ends-pure a = ends λ e s h. absurd (cc)

continue-Ends :
    {A B : Type 0} (e : Env) (k : A → Prog B)
    → ((a : A) → Ends (k a))
    → (r : Result A) (s : Station) → r ≢ no_fuel
    → (continue e k r s).0 ≢ no_fuel
continue-Ends e k h (ok a) s d = ended (h a) e s
continue-Ends e k h (exit n) s d = λ h. absurd (cc)
continue-Ends e k h undefined s d = λ h. absurd (cc)
continue-Ends e k h no_fuel s d = absurd (d refl)

pub Ends-bind :
    {A B : Type 0} (m : Prog A) (k : A → Prog B) → Ends m → ((a : A) → Ends (k a)) → Ends (m >>= k)
Ends-bind m k hm hk = ends λ e s. continue-Ends e k hk (m e s).0 (m e s).1 (ended hm e s)

pub Ends-if : {A : Type 0} (b : Bool) (m k : Prog A) → Ends m → Ends k → Ends (if b then m else k)
Ends-if true m k hm hk = hm
Ends-if false m k hm hk = hk
