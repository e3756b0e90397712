-- ===== src/Gatoss/Shown.antt =====
-- What the lists of clients/gatoss-uc/gatoss_client.c show of the planes that are sent.
use uhf_gs_csp_software.Common.{
  ℕ, ◌≡◌, refl, ap, sym, ◌∙◌, arith, Bool, true, false, List, [], ◌∷◌, ◌++◌, append-nil,
  append_assoc, length, ◌==◌, if◌then◌else◌, pos,
}
use uhf_gs_csp_software.World.{ok}
use uhf_gs_csp_software.Gatoss.{Machine}
use uhf_gs_csp_software.Gatoss.Client.{
  Request, Line, GatossCall, csp_connect, csp_buffer_get, csp_send, csp_read, color_printf,
  csp_buffer_free, csp_close, Reply, ListAnswers, calls_then, then_close, show_items, read_replies,
  exchange,
}

module _ {A : Type 0} where
  -- A packet with the elements `chunk`; `end` tells whether the flag that is read from its buffer
  -- behind the free, whatever was sent there, is found set.
  pub record Has (chunk : List A) (end : Bool) (r : Reply A) : Type 0 where
    pub behind : List A
    pub is_count : r.count ≡ length chunk
    pub is_items : r.items ≡ chunk ++ behind
    pub is_end : (r.flag_behind == 0) ≡ (if end then false else true)

  -- Packets with some elements in their order, up to the first whose flag is found set; what comes
  -- behind is not read.
  pub data Spells : List A → List (Reply A) → Type 0 where
    last :
        (chunk : List A) (r : Reply A) (more : List (Reply A))
        → Has chunk true r
        → Spells chunk (r ∷ more)
    next :
        (chunk items : List A) (r : Reply A) (replies : List (Reply A))
        → Has chunk false r
        → Spells items replies
        → Spells (chunk ++ items) (r ∷ replies)

module _ {m : Machine} where
  -- The lines among calls.
  abbrev pub lines_of : List (GatossCall m) → List (Line m)
  lines_of [] = []
  lines_of (color_printf l ∷ calls) = l ∷ lines_of calls
  lines_of (c ∷ calls) = lines_of calls

  lines_of-append : (xs ys : List (GatossCall m)) → lines_of (xs ++ ys) ≡ lines_of xs ++ lines_of ys
  lines_of-append [] ys = refl
  lines_of-append (c ∷ xs) ys = ground (arith, lines_of-append xs ys)

  module _ {A : Type 0} (line : A → Line m) where
    -- A line for each element.
    abbrev pub lines : List A → List (Line m)
    lines [] = []
    lines (a ∷ items) = line a ∷ lines items

    lines-append : (xs ys : List A) → lines (xs ++ ys) ≡ lines xs ++ lines ys
    lines-append [] ys = refl
    lines-append (x ∷ xs) ys = ap (λ (l : List (Line m)). line x ∷ l) (lines-append xs ys)

    abbrev printed : List A → List (GatossCall m)
    printed [] = []
    printed (a ∷ items) = color_printf (line a) ∷ printed items

    show_items-printed :
        (chunk behind : List A)
        → show_items m line (length chunk) (chunk ++ behind) ≡ ok (printed chunk)
    unfolding show_items calls_then
    show_items-printed [] behind = refl
    show_items-printed (a ∷ chunk) behind = rw (show_items-printed chunk behind) refl

    lines_of-printed : (chunk : List A) → lines_of (printed chunk) ≡ lines chunk
    lines_of-printed [] = refl
    lines_of-printed (a ∷ chunk) = ap (λ (l : List (Line m)). line a ∷ l) (lines_of-printed chunk)

    -- The calls for a packet.
    abbrev chunk_calls : List A → List (GatossCall m)
    chunk_calls chunk = csp_read true ∷ (printed chunk ++ (csp_buffer_free ∷ []))

    heard_chunk :
        (chunk : List A) (rest : List (GatossCall m))
        → lines_of (chunk_calls chunk ++ rest) ≡ lines chunk ++ lines_of rest
    heard_chunk chunk rest =
        ap lines_of (append_assoc (printed chunk) (csp_buffer_free ∷ []) rest)
        ∙ lines_of-append (printed chunk) (csp_buffer_free ∷ rest)
        ∙ ap (λ (l : List (Line m)). l ++ lines_of rest) (lines_of-printed chunk)

    read_replies-shows :
        (items : List A) (replies : List (Reply A))
        → Spells items replies
        → (calls : List (GatossCall m)) × (read_replies m line replies ≡ ok calls)
          × (lines_of calls ≡ lines items)
    unfolding read_replies calls_then
    read_replies-shows _ _ (last chunk r more h) = (
      chunk_calls chunk ++ [],
      rw (h.is_count, h.is_items, show_items-printed chunk h.behind) (rw h.is_end refl),
      heard_chunk chunk [] ∙ append-nil (lines chunk),
    )
    read_replies-shows _ _ (next chunk items r replies h spells) =
        let (calls, ends, shown) = read_replies-shows items replies spells in
        (
          chunk_calls chunk ++ calls,
          rw (h.is_count, h.is_items, show_items-printed chunk h.behind) (rw (h.is_end, ends) refl),
          heard_chunk chunk calls
              ∙ ap (λ (l : List (Line m)). lines chunk ++ l) shown
              ∙ sym (lines-append chunk items),
        )

    -- With a connection and a buffer, and a request that is taken: if the packets up to the first
    -- whose flag is found set behind the free have these elements in their order, in any division,
    -- the function returns 0, and shows every one of them once, in their order.
    pub exchange-shows :
        (port n : ℕ) (request : Request) (a : ListAnswers A) (items : List A)
        → a.connection ≡ true
        → a.buffer ≡ true
        → a.sent ≡ true
        → Spells items a.replies
        → (calls : List (GatossCall m)) × (exchange m line port n request a ≡ ok (pos 0, calls))
          × (lines_of calls ≡ lines items)
    unfolding exchange then_close
    exchange-shows port n request a items connected buffer sent spells =
        let (calls, ends, shown) = read_replies-shows items a.replies spells in
        (
          csp_connect port ∷ csp_buffer_get ∷ csp_send n request ∷ (calls ++ (csp_close ∷ [])),
          rw (connected, buffer, sent, ends) refl,
          lines_of-append calls (csp_close ∷ []) ∙ append-nil (lines_of calls) ∙ shown,
        )
