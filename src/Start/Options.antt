-- ===== src/Start/Options.antt =====
-- Which of the options of src/main.c count.
use uhf_gs_csp_software.Common.{
  ℕ, ◌<◌, ◌≡◌, refl, sym, false, ◌⊎◌, inl, inr, List, [], ◌∷◌, ◌++◌, Bytes, codes, length, le→leb,
  append-nil, ◌≤◌, All, arith, Option, none, some, ◌==◌, if◌then◌else◌, ℤ, to_u8, to_u32,
}
use uhf_gs_csp_software.World.{Result, ok, exit, undefined}
use uhf_gs_csp_software.Start.{
  Opt, Config, default_config, zmqhost_size, option, go_on, parse, Build, handlers, start, started,
  main,
}

abbrev pub or_else {ℓ} : {A : Type ℓ} → Option A → Option A → Option A
or_else none o = o
or_else (some a) o = some a

-- The argument of the last option `c`.
abbrev pub last_of : ℕ → List Opt → Option Bytes
last_of c [] = none
last_of c (o ∷ opts) = or_else (last_of c opts) (if o.c == c then some o.optarg else none)

abbrev pub value {ℓ} : {A : Type ℓ} → A → (Bytes → A) → Option Bytes → A
value d f none = d
value d f (some arg) = f arg

-- Every setting has the argument of its last option, and the value before where it has none.
abbrev pub chosen_config : (Bytes → ℤ) → List Opt → Config → Config
chosen_config atoi opts s = record {
  addr = value s.addr (λ arg. to_u8 (atoi arg)) (last_of b'a' opts);
  device = value s.device (λ arg. arg) (last_of b'd' opts);
  baud = value s.baud (λ arg. to_u32 (atoi arg)) (last_of b'b' opts);
  use_kiss = value s.use_kiss (λ arg. 1) (last_of b'd' opts);
  ifc = value s.ifc (λ arg. arg) (last_of b'c' opts);
  use_can = value s.use_can (λ arg. 1) (last_of b'c' opts);
  zmqhost = value s.zmqhost (λ arg. arg) (last_of b'z' opts);
  use_zmq = value s.use_zmq (λ arg. 1) (last_of b'z' opts);
}

-- An option that sets something; the name of a ZMQ server fits its buffer.
abbrev pub IsSetting : Opt → Type 0
IsSetting o =
    (o.c ≡ b'a')
    ⊎ (o.c ≡ b'b')
    ⊎ (o.c ≡ b'c')
    ⊎ (o.c ≡ b'd')
    ⊎ ((o.c ≡ b'z') × length o.optarg < zmqhost_size)

value-last_of {ℓ} :
    {A : Type ℓ} (d : A) (f : Bytes → A) (c : ℕ) (o : Opt) (opts : List Opt)
    → value d f (last_of c (o ∷ opts))
      ≡ value (if o.c == c then f o.optarg else d) f (last_of c opts)
value-last_of d f c o opts = ground arith

-- What one option makes of the settings, each looked at for itself.
set_by : (Bytes → ℤ) → Opt → Config → Config
set_by atoi o s = record {
  addr = if o.c == b'a' then to_u8 (atoi o.optarg) else s.addr;
  device = if o.c == b'd' then o.optarg else s.device;
  baud = if o.c == b'b' then to_u32 (atoi o.optarg) else s.baud;
  use_kiss = if o.c == b'd' then 1 else s.use_kiss;
  ifc = if o.c == b'c' then o.optarg else s.ifc;
  use_can = if o.c == b'c' then 1 else s.use_can;
  zmqhost = if o.c == b'z' then o.optarg else s.zmqhost;
  use_zmq = if o.c == b'z' then 1 else s.use_zmq;
}

chosen_config-set_by :
    (atoi : Bytes → ℤ) (o : Opt) (opts : List Opt) (s : Config)
    → chosen_config atoi (o ∷ opts) s ≡ chosen_config atoi opts (set_by atoi o s)
unfolding set_by
chosen_config-set_by atoi o opts s =
    rw
      (
        value-last_of s.addr (λ arg. to_u8 (atoi arg)) b'a' o opts,
        value-last_of s.device (λ arg. arg) b'd' o opts,
        value-last_of s.baud (λ arg. to_u32 (atoi arg)) b'b' o opts,
        value-last_of s.use_kiss (λ arg. 1) b'd' o opts,
        value-last_of s.ifc (λ arg. arg) b'c' o opts,
        value-last_of s.use_can (λ arg. 1) b'c' o opts,
        value-last_of s.zmqhost (λ arg. arg) b'z' o opts,
        value-last_of s.use_zmq (λ arg. 1) b'z' o opts,
      )
      refl

option-set_by :
    (atoi : Bytes → ℤ) (o : Opt) (s : Config) → IsSetting o → option atoi o s ≡ ok (set_by atoi o s)
unfolding option set_by
option-set_by atoi o s (inl h) = rw h refl
option-set_by atoi o s (inr (inl h)) = rw h refl
option-set_by atoi o s (inr (inr (inl h))) = rw h refl
option-set_by atoi o s (inr (inr (inr (inl h)))) = rw h refl
option-set_by atoi o s (inr (inr (inr (inr (h, short))))) = rw h (ground arith)

-- Options that set something, in any order and number, and then any other ones: the settings are
-- those of the last option of each kind, and then the loop goes on with the others.
pub parse-append :
    (atoi : Bytes → ℤ) (opts others : List Opt) (s : Config)
    → All IsSetting opts
    → parse atoi (opts ++ others) s ≡ parse atoi others (chosen_config atoi opts s)
unfolding parse go_on
parse-append atoi [] others s tt = refl
parse-append atoi (o ∷ opts) others s (h, hs) =
    rw (option-set_by atoi o s h, chosen_config-set_by atoi o opts s)
      (parse-append atoi opts others (set_by atoi o s) hs)

-- An option at which `main` ends, and how it ends there.
pub data Stops (o : Opt) : Result ℕ → Type 0 where
  help : o.c ≡ b'h' → Stops o (exit 0)
  long_host : o.c ≡ b'z' → zmqhost_size ≤ length o.optarg → Stops o undefined
  unknown : All (λ (c : ℕ). (o.c == c) ≡ false) (codes "abcdhz") → Stops o (exit 1)

-- Behind options that set something, in any order and number, with names of ZMQ servers below 100
-- bytes: without more options `main` starts the station with the setting of the last option of
-- each kind, or its default, and returns 0.
pub main-chosen :
    (b : Build) (atoi : Bytes → ℤ) (opts : List Opt)
    → All IsSetting opts
    → main b atoi opts ≡ (ok 0, handlers ++ start b (chosen_config atoi opts default_config))
unfolding main started parse
main-chosen b atoi opts h =
    rw (sym (append-nil opts), parse-append atoi opts [] default_config h)
      (rw (append-nil opts) refl)

-- Behind such options: option h ends `main` by `exit(0)`, an unknown one by 1, and the name of a
-- ZMQ server of 100 bytes or more is undefined; nothing of the station is started, whatever
-- options follow.
pub main-Stops :
    (b : Build) (atoi : Bytes → ℤ) (opts others : List Opt) (o : Opt) (r : Result ℕ)
    → All IsSetting opts
    → Stops o r
    → main b atoi (opts ++ o ∷ others) ≡ (r, handlers)
unfolding main started parse option go_on
main-Stops b atoi opts others o _ h (help is_h) =
    rw (parse-append atoi opts (o ∷ others) default_config h, is_h) refl
main-Stops b atoi opts others o _ h (long_host is_z long) =
    rw
      (
        parse-append atoi opts (o ∷ others) default_config h,
        is_z,
        le→leb zmqhost_size (length o.optarg) long,
      )
      refl
main-Stops b atoi opts others o _ h
      (unknown (not_a, (not_b, (not_c, (not_d, (not_h, (not_z, _))))))) =
    rw
      (
        parse-append atoi opts (o ∷ others) default_config h,
        not_a,
        not_b,
        not_c,
        not_d,
        not_h,
        not_z,
      )
      refl
