-- ===== src/PowerIf/Names.antt =====
-- Names of channels in clients/libp60/power_if.c.
use uhf_gs_csp_software.Common.{
  ℕ, zero, suc, ◌+◌, ◌-◌, ◌<◌, ◌≤◌, ◌≡◌, ◌∙◌, refl, arith, Bool-cases, ◌&&◌, ◌||◌, not, inl, inr,
  [], ◌∷◌, ◌++◌, Bytes, length, take, drop, set, replicate, get_or, ◌==◌, length-append, length-set,
  length-replicate, length-take, length-drop, pos, eqb_ℤ,
}
use native.Mathlib.Nat.{min-le_left}
use uhf_gs_csp_software.PowerIf.{
  ChStatus, Cmd, Link, power_if_set, power_if_get, power_if_name_len, up_to_end, strcpy, strncpy,
  request_of, fill, channel_cmd,
}

-- A name in its eight bytes, with its end.
pub record IsName (name : Bytes) : Type 0 where
  pub size : length name ≡ 8
  pub ended : get_or name 7 1 ≡ 0

get_or-set_same : (s : Bytes) (i v d : ℕ) → i < length s → get_or (set s i v) i d ≡ v
get_or-set_same [] i v d h = absurd (omega arith)
get_or-set_same (c ∷ s) zero v d h = refl
get_or-set_same (c ∷ s) (suc i) v d h = get_or-set_same s i v d (omega arith)

set-IsName : (s : Bytes) → length s ≡ 8 → IsName (set s 7 0)
set-IsName s h = record {
  size = length-set s 7 0 ∙ h;
  ended = get_or-set_same s 7 0 1 (omega (arith, h));
}

length-strncpy :
    (dest src : Bytes) (n : ℕ) → n ≤ length dest → length (strncpy dest src n) ≡ length dest
unfolding strncpy
length-strncpy dest src n h =
    let t = take n (up_to_end src) in
    let padding : Bytes = replicate (n - length t) 0 in
    let padded : length padding ≡ n - length t = length-replicate (n - length t) 0 in
    let whole : length (t ++ padding ++ drop n dest) ≡ length dest = omega (
      arith,
      length-append {A = ℕ} (t ++ padding) (drop n dest),
      length-append {A = ℕ} t padding,
      padded,
      length-drop n dest,
      length-take {A = ℕ} n (up_to_end src),
      min-le_left n (length (up_to_end src)),
    ) in
    whole

-- A text ends at the first 0.
length-up_to_end : (s : Bytes) (k : ℕ) → get_or s k 1 ≡ 0 → length (up_to_end s) ≤ k
unfolding up_to_end
length-up_to_end [] k h = omega arith
length-up_to_end (zero ∷ s) k h = omega arith
length-up_to_end (suc c ∷ s) zero h = absurd (omega (arith, h))
length-up_to_end (suc c ∷ s) (suc k) h = omega (arith, length-up_to_end s k h)

up_to_end-strcpy : (dest src : Bytes) → up_to_end (strcpy dest src) ≡ up_to_end src
unfolding strcpy up_to_end
up_to_end-strcpy dest src = copied src (drop (length (up_to_end src) + 1) dest)
  where
    copied : (s rest : Bytes) → up_to_end (up_to_end s ++ 0 ∷ rest) ≡ up_to_end s
    copied [] rest = refl
    copied (zero ∷ s) rest = refl
    copied (suc c ∷ s) rest = rw (copied s rest) refl

fill-IsName : (l : Link) (s r : ChStatus) → length s.name ≡ 8 → IsName (fill l s r).name
unfolding fill
fill-IsName l s r h =
    set-IsName (strncpy s.name r.name 7) (length-strncpy s.name r.name 7 (omega (arith, h)) ∙ h)

-- The channel with an end of its name, as it is behind the first change.
abbrev pub ended : ChStatus → ChStatus
ended s = record s { name = set s.name (power_if_name_len - 1) 0 }

-- From names of eight bytes on, whatever the power unit answers, and whether or not it does: the
-- name in `*ch_status` stays in its eight bytes with an end.
pub channel_cmd-IsName :
    (l : Link) (cmd : ℕ) (req resp : Cmd) (s : ChStatus)
    → length s.name ≡ 8
    → IsName (channel_cmd l cmd req resp s).1.name
unfolding channel_cmd
channel_cmd-IsName l cmd req resp s h =
    let answer = l.transaction (request_of l cmd req (ended s)) resp in
    let done =
      not (eqb_ℤ answer.0 (pos 0))
      && ((answer.1.cmd == power_if_set || answer.1.cmd == power_if_get) && answer.1.status == 0) in
    elim (Bool-cases done) [
      | inl filled ↦
          rw filled (fill-IsName l (ended s) answer.1.ch_status (length-set s.name 7 0 ∙ h))
      | inr kept ↦ rw kept (set-IsName s.name h)
    ]

-- From names of eight bytes on: the name in the request has its eight bytes, and spells the one
-- that was given up to its end.
pub request_of-name :
    (l : Link) (cmd : ℕ) (req : Cmd) (s : ChStatus)
    → length s.name ≡ 8
    → length req.ch_status.name ≡ 8
    → (length (request_of l cmd req (ended s)).ch_status.name ≡ 8)
      × (up_to_end (request_of l cmd req (ended s)).ch_status.name ≡ up_to_end (ended s).name)
unfolding request_of strcpy
request_of-name l cmd req s h hr =
    let name = (ended s).name in
    let t = up_to_end name in
    let short = length-up_to_end name 7 (set-IsName s.name h).ended in
    (
      omega (
        arith,
        length-append {A = ℕ} t (0 ∷ drop (length t + 1) req.ch_status.name),
        length-drop (length t + 1) req.ch_status.name,
        short,
        hr,
      ),
      up_to_end-strcpy req.ch_status.name name,
    )
