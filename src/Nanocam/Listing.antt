-- ===== src/Nanocam/Listing.antt =====
-- What the callback of `nanocam_img_list` of clients/nanocam2/nanocam.c gets.
use uhf_gs_csp_software.Common.{
  ℕ, suc, ◌+◌, ◌<◌, ◌≡◌, refl, ap, sym, ◌∙◌, arith, Bool-cases, inl, inr, true, false, List, [],
  ◌∷◌, ◌++◌, append_assoc, append-nil, length, ◌==◌, if◌then◌else◌, pos,
}
use uhf_gs_csp_software.World.{Result, ok, exit, undefined, no_fuel}
use uhf_gs_csp_software.Csp.{ByteOrder}
use uhf_gs_csp_software.Nanocam.Types.{CamListElement, CamListReply}
use uhf_gs_csp_software.Nanocam.Images.{
  ListCall, csp_buffer_get, csp_connect, csp_send, csp_close, csp_buffer_free, csp_read, cb,
  cb_null, Answers, host_element, calling, call_back, read_list, nanocam_img_list,
}

-- A reply that has the pictures `chunk` from number `seq` on, of `total`.
pub record Has (o : ByteOrder) (total seq : ℕ) (chunk : List CamListElement) (reply : CamListReply)
    : Type 0 where
  pub behind : List CamListElement
  pub is_total : o.csp_ntoh16 reply.total ≡ total
  pub is_seq : o.csp_ntoh16 reply.seq ≡ seq
  pub is_count : reply.count ≡ length chunk
  pub is_images : reply.images ≡ chunk ++ behind

-- Replies that have pictures in their order, from number `seq` up to the `total`; what the camera
-- sends behind the last one is not read.
pub data Spells (o : ByteOrder) (total : ℕ)
    : ℕ → List CamListElement → List CamListReply → Type 0 where
  last :
      (seq : ℕ) (chunk : List CamListElement) (reply : CamListReply) (more : List CamListReply)
      → Has o total seq chunk reply
      → seq + length chunk ≡ total
      → Spells o total seq chunk (reply ∷ more)
  next :
      (seq : ℕ) (chunk pictures : List CamListElement) (reply : CamListReply)
      (replies : List CamListReply)
      → Has o total seq chunk reply
      → seq + length chunk < total
      → Spells o total (seq + length chunk) pictures replies
      → Spells o total seq (chunk ++ pictures) (reply ∷ replies)

-- The calls of the callback, the frees of buffers and the reads.
abbrev pub callbacks : List ListCall → List ListCall
callbacks [] = []
callbacks (ListCall.cb n elm ∷ calls) = cb n elm ∷ callbacks calls
callbacks (ListCall.cb_null ∷ calls) = cb_null ∷ callbacks calls
callbacks (c ∷ calls) = callbacks calls

abbrev pub frees : List ListCall → ℕ
frees [] = 0
frees (ListCall.csp_buffer_free ∷ calls) = frees calls + 1
frees (c ∷ calls) = frees calls

abbrev pub reads : List ListCall → ℕ
reads [] = 0
reads (ListCall.csp_read t ∷ calls) = reads calls + 1
reads (c ∷ calls) = reads calls

-- One call of the callback for each picture, with its number from `k` on.
abbrev pub numbered : ByteOrder → ℕ → List CamListElement → List ListCall
numbered o k [] = []
numbered o k (elm ∷ pictures) = cb k (host_element o elm) ∷ numbered o (k + 1) pictures

numbered-append :
    (o : ByteOrder) (k : ℕ) (chunk pictures : List CamListElement)
    → numbered o k (chunk ++ pictures)
      ≡ numbered o k chunk ++ numbered o (k + length chunk) pictures
numbered-append o k [] pictures = ap (λ (n : ℕ). numbered o n pictures) (omega arith)
numbered-append o k (elm ∷ chunk) pictures =
    let same : k + 1 + length chunk ≡ k + suc (length chunk) = omega arith in
    rw (numbered-append o (k + 1) chunk pictures, same) refl

call_back-numbered :
    (o : ByteOrder) (seq i : ℕ) (chunk behind : List CamListElement)
    → call_back o seq i (length chunk) (chunk ++ behind) ≡ ok (numbered o (seq + i) chunk)
unfolding call_back calling
call_back-numbered o seq i [] behind = refl
call_back-numbered o seq i (elm ∷ chunk) behind =
    let same : seq + (i + 1) ≡ seq + i + 1 = omega arith in
    rw (call_back-numbered o seq (i + 1) chunk behind, same) refl

callbacks-numbered :
    (o : ByteOrder) (k : ℕ) (pictures : List CamListElement) (rest : List ListCall)
    → callbacks (numbered o k pictures ++ rest) ≡ numbered o k pictures ++ callbacks rest
callbacks-numbered o k [] rest = refl
callbacks-numbered o k (elm ∷ pictures) rest = rw (callbacks-numbered o (k + 1) pictures rest) refl

frees-numbered :
    (o : ByteOrder) (k : ℕ) (pictures : List CamListElement) (rest : List ListCall)
    → frees (numbered o k pictures ++ rest) ≡ frees rest
frees-numbered o k [] rest = refl
frees-numbered o k (elm ∷ pictures) rest = frees-numbered o (k + 1) pictures rest

reads-numbered :
    (o : ByteOrder) (k : ℕ) (pictures : List CamListElement) (rest : List ListCall)
    → reads (numbered o k pictures ++ rest) ≡ reads rest
reads-numbered o k [] rest = refl
reads-numbered o k (elm ∷ pictures) rest = reads-numbered o (k + 1) pictures rest

calling_twice :
    (calls more : List ListCall) (r : Result (List ListCall))
    → calling calls (calling more r) ≡ calling (calls ++ more) r
unfolding calling
calling_twice calls more (ok rest) = ap ok (sym (append_assoc calls more rest))
calling_twice calls more (exit n) = refl
calling_twice calls more undefined = refl
calling_twice calls more no_fuel = refl

-- The calls for a reply with some pictures.
abbrev chunk_calls : ByteOrder → ℕ → ℕ → List CamListElement → List ListCall
chunk_calls o timeout seq chunk = csp_read timeout ∷ (numbered o seq chunk ++ csp_buffer_free ∷ [])

read_list-chunk :
    (o : ByteOrder) (timeout total seq : ℕ) (chunk : List CamListElement) (reply : CamListReply)
    (replies : List CamListReply)
    → 0 < total
    → Has o total seq chunk reply
    → read_list o timeout (reply ∷ replies)
      ≡ calling
          (chunk_calls o timeout seq chunk)
          (if seq + length chunk == total then ok [] else read_list o timeout replies)
unfolding read_list
read_list-chunk o timeout total seq chunk reply replies some_pictures h =
    let some_total : (total == 0) ≡ false = ground arith in
    let from_first : seq + 0 ≡ seq = omega arith in
    rw
      (
        h.is_total,
        h.is_seq,
        h.is_count,
        h.is_images,
        some_total,
        call_back-numbered o seq 0 chunk h.behind,
      )
      (rw (h.is_total, h.is_seq, h.is_count, from_first)
        (calling_twice (csp_read timeout ∷ []) (numbered o seq chunk ++ csp_buffer_free ∷ [])
          (if seq + length chunk == total then ok [] else read_list o timeout replies)))

heard_chunk :
    (o : ByteOrder) (timeout seq : ℕ) (chunk : List CamListElement) (rest : List ListCall)
    → callbacks (chunk_calls o timeout seq chunk ++ rest) ≡ numbered o seq chunk ++ callbacks rest
heard_chunk o timeout seq chunk rest =
    rw (append_assoc (numbered o seq chunk) (csp_buffer_free ∷ []) rest)
      (callbacks-numbered o seq chunk (csp_buffer_free ∷ rest))

freed_chunk :
    (o : ByteOrder) (timeout seq : ℕ) (chunk : List CamListElement) (rest : List ListCall)
    → frees rest ≡ reads rest
    → frees (chunk_calls o timeout seq chunk ++ rest)
      ≡ reads (chunk_calls o timeout seq chunk ++ rest)
freed_chunk o timeout seq chunk rest h =
    rw (append_assoc (numbered o seq chunk) (csp_buffer_free ∷ []) rest) (
      omega (
        arith,
        h,
        frees-numbered o seq chunk (csp_buffer_free ∷ rest),
        reads-numbered o seq chunk (csp_buffer_free ∷ rest),
      ))

-- Calls that end, give the callback the pictures from number `seq` on, and free what they read.
pub record Listed (o : ByteOrder) (seq : ℕ) (pictures : List CamListElement)
    (r : Result (List ListCall)) : Type 0 where
  pub calls : List ListCall
  pub ends : r ≡ ok calls
  pub heard : callbacks calls ≡ numbered o seq pictures
  pub freed : frees calls ≡ reads calls

listing :
    (o : ByteOrder) (timeout total seq : ℕ) (pictures : List CamListElement)
    (replies : List CamListReply)
    → 0 < total
    → Spells o total seq pictures replies
    → Listed o seq pictures (read_list o timeout replies)
unfolding calling
listing o timeout total seq _ _ some_pictures (last _ chunk reply more h all) =
    let at_end : (seq + length chunk == total) ≡ true = ground arith in
    record {
      calls = chunk_calls o timeout seq chunk ++ [];
      ends = rw (read_list-chunk o timeout total seq chunk reply more some_pictures h, at_end) refl;
      heard = heard_chunk o timeout seq chunk [] ∙ append-nil (numbered o seq chunk);
      freed = freed_chunk o timeout seq chunk [] refl;
    }
listing o timeout total seq _ _ some_pictures (next _ chunk pictures reply replies h fewer spells) =
    let rest = listing o timeout total (seq + length chunk) pictures replies some_pictures spells in
    let not_end : (seq + length chunk == total) ≡ false = ground arith in
    record {
      calls = chunk_calls o timeout seq chunk ++ rest.calls;
      ends =
          rw
            (
              read_list-chunk o timeout total seq chunk reply replies some_pictures h,
              not_end,
              rest.ends,
            )
            refl;
      heard =
          rw
            (
              heard_chunk o timeout seq chunk rest.calls,
              rest.heard,
              numbered-append o seq chunk pictures,
            )
            refl;
      freed = freed_chunk o timeout seq chunk rest.calls rest.freed;
    }

-- The close at the end is no call of the callback.
callbacks-close : (calls : List ListCall) → callbacks (calls ++ csp_close ∷ []) ≡ callbacks calls
callbacks-close [] = refl
callbacks-close (c ∷ calls) = ground (arith, callbacks-close calls)

frees-close : (calls : List ListCall) → frees (calls ++ csp_close ∷ []) ≡ frees calls
frees-close [] = refl
frees-close (c ∷ calls) = ground (arith, frees-close calls)

reads-close : (calls : List ListCall) → reads (calls ++ csp_close ∷ []) ≡ reads calls
reads-close [] = refl
reads-close (c ∷ calls) = ground (arith, reads-close calls)

-- With a buffer and a connection, and a camera whose replies have all its pictures in their order,
-- in any division into replies: the function returns 0, the callback gets every picture once, with
-- its number and in the order of the machine's bytes, and every packet that is read is freed, and
-- the request if it was not taken.
pub nanocam_img_list-all :
    (o : ByteOrder) (a : Answers) (node_cam timeout total : ℕ) (pictures : List CamListElement)
    → a.buffer ≡ true
    → a.connection ≡ true
    → 0 < total
    → Spells o total 0 pictures a.replies
    → (calls : List ListCall) × (nanocam_img_list o a node_cam timeout ≡ ok (pos 0, calls))
      × (callbacks calls ≡ numbered o 0 pictures)
      × (frees calls ≡ reads calls + (if a.sent then 0 else 1))
unfolding nanocam_img_list
nanocam_img_list-all o a node_cam timeout total pictures buffer connection some_pictures spells =
    let l = listing o timeout total 0 pictures a.replies some_pictures spells in
    let calls =
      csp_buffer_get
        ∷ csp_connect node_cam timeout
        ∷ csp_send 3 0
        ∷ (if a.sent then [] else csp_buffer_free ∷ [])
      ++ l.calls
      ++ csp_close ∷ [] in
    let answered : nanocam_img_list o a node_cam timeout ≡ ok (pos 0, calls) =
      rw (buffer, connection, l.ends) refl in
    elim (Bool-cases a.sent) [
      | inl sent ↦ (
        calls,
        answered,
        rw sent (callbacks-close l.calls ∙ l.heard),
        rw sent (omega (arith, l.freed, frees-close l.calls, reads-close l.calls)),
      )
      | inr refused ↦ (
        calls,
        answered,
        rw refused (callbacks-close l.calls ∙ l.heard),
        rw refused (omega (arith, l.freed, frees-close l.calls, reads-close l.calls)),
      )
    ]
