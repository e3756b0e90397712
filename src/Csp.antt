-- ===== src/Csp.antt =====
-- What the clients of subsystems ask of libcsp: a transaction with a node, and the order of bytes.
-- Both are parameters of the clients.
use uhf_gs_csp_software.Common.{ℕ, zero, suc, ◌≡◌, refl, List, [], ◌∷◌, ℤ}

-- Functions of libcsp between the order of bytes in the machine and in the network.
pub record ByteOrder : Type 0 where
  pub csp_hton16 : ℕ → ℕ
  pub csp_ntoh16 : ℕ → ℕ
  pub csp_hton32 : ℕ → ℕ
  pub csp_ntoh32 : ℕ → ℕ
  pub csp_ntoh64 : ℕ → ℕ

-- The functions to the network and back undo each other.
pub record IsInverse (o : ByteOrder) : Type 0 where
  pub back16 : (n : ℕ) → o.csp_ntoh16 (o.csp_hton16 n) ≡ n
  pub there16 : (n : ℕ) → o.csp_hton16 (o.csp_ntoh16 n) ≡ n
  pub back32 : (n : ℕ) → o.csp_ntoh32 (o.csp_hton32 n) ≡ n
  pub there32 : (n : ℕ) → o.csp_hton32 (o.csp_ntoh32 n) ≡ n

-- `CSP_PRIO_HIGH` and `CSP_PRIO_NORM` of libcsp are taken by their names.
pub data Priority : Type 0 where
  csp_prio_high : Priority
  csp_prio_norm : Priority

-- Where a transaction goes.
pub record Target : Type 0 where
  pub prio : Priority
  pub node : ℕ
  pub port : ℕ
  pub timeout : ℕ

-- `csp_transaction` on a request and the memory of a reply: what it returns, and the reply then.
abbrev pub Transaction : Type 0 → Type 0 → Type 0
Transaction Request Reply = Target → Request → Reply → ℤ × Reply

-- The arguments of `csp_transaction` but for the memory of the reply; its length may be -1, for
-- any.
pub record Call (Request : Type 0) : Type 0 where
  pub target : Target
  pub request : Request
  pub outlen : ℕ
  pub inlen : ℤ

-- `csp_transaction` by its arguments.
abbrev pub Link : Type 0 → Type 0 → Type 0
Link Request Reply = Call Request → Reply → ℤ × Reply

-- A loop over the first elements of an array.
abbrev pub each : (ℕ → ℕ) → (count : ℕ) → List ℕ → List ℕ
each f zero xs = xs
each f (suc count) [] = []
each f (suc count) (x ∷ xs) = f x ∷ each f count xs

pub each-inverse :
    (f g : ℕ → ℕ)
    → ((n : ℕ) → g (f n) ≡ n)
    → (count : ℕ) (xs : List ℕ) → each g count (each f count xs) ≡ xs
each-inverse f g back zero xs = refl
each-inverse f g back (suc count) [] = refl
each-inverse f g back (suc count) (x ∷ xs) = rw (back x, each-inverse f g back count xs) refl
