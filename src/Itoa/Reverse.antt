-- ===== src/Itoa/Reverse.antt =====
-- What `reverse_String` of src/itoa.c makes of a text.
use uhf_gs_csp_software.Common.{
  ℕ, zero, suc, ◌+◌, ◌-◌, ◌/◌, ◌<◌, ◌≤◌, ◌≡◌, ◌∙◌, refl, sym, arith, [], ◌∷◌, Bytes, length, get_or,
  set, length-set, ◌==◌, if◌then◌else◌, Bool-cases, inl, inr,
}
use uhf_gs_csp_software.World.{ok}
use uhf_gs_csp_software.Itoa.{swap, reverse_string}

get_or-set :
    (s : Bytes) (i j v : ℕ)
    → i < length s
    → get_or (set s i v) j 0 ≡ (if i == j then v else get_or s j 0)
get_or-set [] i j v h = absurd (omega arith)
get_or-set (x ∷ s) zero zero v h = refl
get_or-set (x ∷ s) zero (suc j) v h = ground arith
get_or-set (x ∷ s) (suc i) zero v h = ground arith
get_or-set (x ∷ s) (suc i) (suc j) v h = ground (arith, get_or-set s i j v (omega arith))

length-swap : (s : Bytes) (i j : ℕ) → length (swap s i j) ≡ length s
unfolding swap
length-swap s i j = length-set _ j _ ∙ length-set s i _

get_or-swap :
    (s : Bytes) (i j k : ℕ)
    → i < length s
    → j < length s
    → get_or (swap s i j) k 0
      ≡ (if j == k then get_or s i 0 else if i == k then get_or s j 0 else get_or s k 0)
unfolding swap
get_or-swap s i j k hi hj = rw (
  get_or-set (set s i (get_or s j 0)) j k (get_or s i 0)
      (omega (arith, length-set s i (get_or s j 0))),
  get_or-set s i k (get_or s j 0) hi,
)

-- `cur` is `old` with the places before `i` and behind `len - i` exchanged.
record Exchanged (old : Bytes) (len i : ℕ) (cur : Bytes) : Type 0 where
  size : length cur ≡ len + 1
  low : (j : ℕ) → j < i → get_or cur j 0 ≡ get_or old (len - j) 0
  high : (j : ℕ) → j ≤ len → len < j + i → get_or cur j 0 ≡ get_or old (len - j) 0
  middle : (j : ℕ) → i ≤ j → j + i ≤ len → get_or cur j 0 ≡ get_or old j 0

swap-Exchanged :
    (old : Bytes) (len i : ℕ) (cur : Bytes)
    → i ≤ len / 2
    → Exchanged old len i cur
    → Exchanged old len (i + 1) (swap cur i (len - i))
swap-Exchanged old len i cur h x = record {
  size = length-swap cur i (len - i) ∙ x.size;
  low = λ j hj. ground (arith, at j, x.low j, x.middle i, x.middle (len - i));
  high = λ j hj hi. ground (arith, at j, x.high j, x.middle i, x.middle (len - i));
  middle = λ j hj hi. ground (arith, at j, x.middle j);
}
  where
    at :
        (k : ℕ)
        → get_or (swap cur i (len - i)) k 0 ≡ (
            if len - i == k
            then get_or cur i 0
            else if i == k
            then get_or cur (len - i) 0
            else get_or cur k 0)
    at k = get_or-swap cur i (len - i) k (omega (arith, x.size)) (omega (arith, x.size))

-- A text of the same length, from its end to its start.
pub record IsReverse (old r : Bytes) : Type 0 where
  pub size : length r ≡ length old
  pub reads : (j : ℕ) → j < length old → get_or r j 0 ≡ get_or old (length old - 1 - j) 0

reverse_string_lem :
    (f i len : ℕ) (old cur : Bytes)
    → length old ≡ len + 1
    → len / 2 < i + f
    → i ≤ len / 2
    → Exchanged old len i cur
    → (r : Bytes) × (reverse_string f cur i len ≡ ok r) × IsReverse old r
unfolding reverse_string
reverse_string_lem zero i len old cur n h hi x = absurd (omega arith)
reverse_string_lem (suc f) i len old cur n h hi x =
    let x' = swap-Exchanged old len i cur hi x in
    elim (Bool-cases (i == len / 2)) [
      | inl last ↦ (
        swap cur i (len - i),
        rw last refl,
        record {
          size = x'.size ∙ sym n;
          reads = λ j hj. ground (arith, n, last, x'.low j, x'.high j);
        },
      )
      | inr more ↦ rw more (
          reverse_string_lem f (i + 1) len old (swap cur i (len - i)) n (omega arith) (ground arith)
            x')
    ]

-- The reversal in place of a text that is not empty ends.
pub reverse_string-IsReverse :
    (old : Bytes)
    → 0 < length old
    → (r : Bytes) × (reverse_string (length old) old 0 (length old - 1) ≡ ok r) × IsReverse old r
reverse_string-IsReverse old some_char =
    reverse_string_lem (length old) 0 (length old - 1) old old (omega arith) (omega arith)
      (omega arith)
      (record {
        size = omega arith;
        low = λ j hj. absurd (omega arith);
        high = λ j hj hi. absurd (omega arith);
        middle = λ j hj hi. refl;
      })
