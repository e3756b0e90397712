-- ===== src/Gatoss/Exchange.antt =====
-- The lists of clients/gatoss-uc/gatoss_client.c: buffers, connections and lines.
use uhf_gs_csp_software.Common.{
  ℕ, zero, suc, ◌+◌, ◌≡◌, refl, arith, Bool, Bool-cases, inl, inr, true, ◌&&◌, List, [], ◌∷◌, ◌++◌,
  ◌==◌, if◌then◌else◌, ℤ,
}
use uhf_gs_csp_software.World.{Result, ok, exit, undefined, no_fuel}
use uhf_gs_csp_software.Gatoss.{Machine}
use uhf_gs_csp_software.Gatoss.Client.{
  Request, Line, GatossCall, csp_connect, csp_buffer_get, csp_send, csp_read, color_printf,
  csp_buffer_free, csp_close, Reply, ListAnswers, calls_then, then_close, show_items, read_replies,
  exchange,
}

module _ {A : Type 0} where
  abbrev pub sum : (A → ℕ) → List A → ℕ
  sum f [] = 0
  sum f (a ∷ rest) = f a + sum f rest

  sum-append : (f : A → ℕ) (xs ys : List A) → sum f (xs ++ ys) ≡ sum f xs + sum f ys
  sum-append f [] ys = omega arith
  sum-append f (x ∷ xs) ys = omega (arith, sum-append f xs ys)

module _ {m : Machine} where
  abbrev pub is_free : GatossCall m → ℕ
  is_free csp_buffer_free = 1
  is_free c = 0

  -- A buffer that was taken for a request or came with a packet.
  abbrev pub is_got : GatossCall m → ℕ
  is_got csp_buffer_get = 1
  is_got (csp_read true) = 1
  is_got c = 0

  abbrev pub is_closed : GatossCall m → ℕ
  is_closed csp_close = 1
  is_closed c = 0

  -- Calls that free `k` buffers more than they get, and close nothing.
  abbrev IsEven : ℕ → Result (List (GatossCall m)) → Type 0
  IsEven k (ok calls) = (sum is_free calls ≡ sum is_got calls + k) × (sum is_closed calls ≡ 0)
  IsEven k r = Unit

  calls_then-IsEven :
      (k j : ℕ) (calls : List (GatossCall m)) (r : Result (List (GatossCall m)))
      → sum is_free calls + k ≡ sum is_got calls + j
      → sum is_closed calls ≡ 0
      → IsEven k r
      → IsEven j (calls_then m calls r)
  unfolding calls_then
  calls_then-IsEven k j calls (ok rest) h c (even, open_still) = (
    omega (arith, sum-append is_free calls rest, sum-append is_got calls rest),
    omega (arith, sum-append is_closed calls rest),
  )
  calls_then-IsEven k j calls (exit n) h c even = tt
  calls_then-IsEven k j calls undefined h c even = tt
  calls_then-IsEven k j calls no_fuel h c even = tt

  -- What the calls of a list function leave: the connection that was made is closed, just once,
  -- and every buffer that was got is freed, just once, but for a request that libcsp took.
  abbrev pub IsBalanced : (connection sent : Bool) → Result (ℤ × List (GatossCall m)) → Type 0
  IsBalanced connection sent (ok (n, calls)) =
      (sum is_closed calls ≡ (if connection then 1 else 0))
      × (sum is_free calls + (if connection && sent then 1 else 0) ≡ sum is_got calls)
  IsBalanced connection sent r = Unit

  module _ {A : Type 0} (line : A → Line m) where
    show_items-IsEven : (count : ℕ) (items : List A) → IsEven 0 (show_items m line count items)
    unfolding show_items
    show_items-IsEven zero items = (refl, refl)
    show_items-IsEven (suc count) [] = tt
    show_items-IsEven (suc count) (a ∷ items) =
        calls_then-IsEven 0 0 (color_printf (line a) ∷ []) (show_items m line count items) refl refl
          (show_items-IsEven count items)

    -- A packet is freed behind its elements.
    freed_behind :
        (r : Reply A) (behind shown : Result (List (GatossCall m)))
        → IsEven 0 behind
        → IsEven 0 shown
        → IsEven 1 (elim shown [
          | ok calls ↦ calls_then m (calls ++ (csp_buffer_free ∷ [])) behind
          | exit n ↦ exit n
          | undefined ↦ undefined
          | no_fuel ↦ no_fuel
        ])
    freed_behind r behind (ok calls) even (h, c) =
        calls_then-IsEven 0 1 (calls ++ (csp_buffer_free ∷ [])) behind
          (omega (
            arith,
            h,
            sum-append is_free calls (csp_buffer_free ∷ []),
            sum-append is_got calls (csp_buffer_free ∷ []),
          ))
          (omega (arith, c, sum-append is_closed calls (csp_buffer_free ∷ []))) even
    freed_behind r behind (exit n) even h = tt
    freed_behind r behind undefined even h = tt
    freed_behind r behind no_fuel even h = tt

    read_replies-IsEven : (replies : List (Reply A)) → IsEven 0 (read_replies m line replies)
    unfolding read_replies
    read_replies-IsEven [] = (refl, refl)
    read_replies-IsEven (r ∷ replies) =
        let behind : Result (List (GatossCall m)) =
          if r.flag_behind == 0 then read_replies m line replies else ok [] in
        let even : IsEven 0 behind = elim (Bool-cases (r.flag_behind == 0)) [
          | inl goes_on ↦ rw goes_on (read_replies-IsEven replies)
          | inr ends ↦ rw ends (refl, refl)
        ] in
        calls_then-IsEven 1 0 (csp_read true ∷ []) _ refl refl (
          freed_behind r behind (show_items m line r.count r.items) even
            (show_items-IsEven r.count r.items))

    closed_behind :
        (port n : ℕ) (request : Request) (r : Result (List (GatossCall m)))
        → IsEven 0 r
        → IsBalanced true true
            (then_close m (csp_connect port ∷ csp_buffer_get ∷ csp_send n request ∷ []) r)
    unfolding then_close
    closed_behind port n request (ok rest) (h, c) = (
      omega (arith, c, sum-append is_closed rest (csp_close ∷ [])),
      omega (
        arith,
        h,
        sum-append is_free rest (csp_close ∷ []),
        sum-append is_got rest (csp_close ∷ []),
      ),
    )
    closed_behind port n request (exit k) h = tt
    closed_behind port n request undefined h = tt
    closed_behind port n request no_fuel h = tt

    -- For every list function, whatever libcsp answers and whatever stands in the packets: a run
    -- that is defined closes the connection that was made, just once, and frees every buffer that
    -- it got, just once, but for a request that libcsp took.
    pub exchange-IsBalanced :
        (port n : ℕ) (request : Request) (a : ListAnswers A)
        → IsBalanced a.connection a.sent (exchange m line port n request a)
    unfolding exchange
    exchange-IsBalanced port n request a = elim (Bool-cases a.connection) [
      | inr none_made ↦ rw none_made (refl, refl)
      | inl connected ↦ elim (Bool-cases a.buffer) [
        | inr no_buffer ↦ rw (connected, no_buffer) tt
        | inl buffer ↦ elim (Bool-cases a.sent) [
          | inr refused ↦ rw (connected, buffer, refused) (refl, refl)
          | inl sent ↦
              rw (connected, buffer, sent)
                (closed_behind port n request (read_replies m line a.replies)
                  (read_replies-IsEven a.replies))
        ]
      ]
    ]
