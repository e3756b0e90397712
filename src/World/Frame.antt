-- ===== src/World/Frame.antt =====
-- What a function leaves alone, whatever the outside answers: rules that follow its text.
use uhf_gs_csp_software.Common.{Bool, true, false, ◌≡◌, refl, ◌∙◌, if◌then◌else◌}
use uhf_gs_csp_software.World.{
  Call, Env, Station, Prog, Result, ok, exit, undefined, no_fuel, pure, stop, continue, ◌>>=◌, get,
  call, called,
}

-- `f` of the station is the same behind `m`.
pub data Keeps {B : Type 0} (f : Station → B) {A : Type 0} (m : Prog A) : Type 0 where
  keeps : ((e : Env) (s : Station) → f (m e s).1 ≡ f s) → Keeps f m

pub kept :
    {A B : Type 0} {f : Station → B} {m : Prog A}
    → Keeps f m
    → (e : Env) (s : Station) → f (m e s).1 ≡ f s
kept (keeps h) = h

module _ {B : Type 0} (f : Station → B) where
  continue_kept :
      {A C : Type 0} (e : Env) (k : A → Prog C)
      → ((a : A) → Keeps f (k a))
      → (r : Result A) (s : Station) → f (continue e k r s).1 ≡ f s
  continue_kept e k h (ok a) s = kept (h a) e s
  continue_kept e k h (exit n) s = refl
  continue_kept e k h undefined s = refl
  continue_kept e k h no_fuel s = refl

  pub Keeps-pure : {A : Type 0} (a : A) → Keeps f (pure a)
  Keeps-pure a = keeps λ e s. refl

  pub Keeps-stop : {A : Type 0} (r : Result A) → Keeps f (stop r)
  Keeps-stop r = keeps λ e s. refl

  pub Keeps-get : {A : Type 0} (g : Station → A) → Keeps f (get g)
  Keeps-get g = keeps λ e s. refl

  pub Keeps-call : (c : Call) → ((s : Station) → f (called c s) ≡ f s) → Keeps f (call c)
  Keeps-call c h = keeps λ e s. h s

  pub Keeps-bind :
      {A C : Type 0} (m : Prog A) (k : A → Prog C)
      → Keeps f m
      → ((a : A) → Keeps f (k a))
      → Keeps f (m >>= k)
  Keeps-bind m k hm hk = keeps λ e s. continue_kept e k hk (m e s).0 (m e s).1 ∙ kept hm e s

  pub Keeps-if :
      {A : Type 0} (b : Bool) (m k : Prog A) → Keeps f m → Keeps f k → Keeps f (if b then m else k)
  Keeps-if true m k hm hk = hm
  Keeps-if false m k hm hk = hk
