-- ===== src/Gatoss/Client.antt =====
-- clients/gatoss-uc/gatoss_client.c: lists that the receiver of planes sends in several packets.
-- Of the console output only the lines of the elements are kept. The end flag of a packet is read
-- behind the free of its buffer, so it is what stands there then.
use uhf_gs_csp_software.Common.{
  ℕ, zero, suc, ◌+◌, ◌%◌, ◌^◌, Bool, true, false, not, List, [], ◌∷◌, ◌++◌, Bytes, get_or, ◌==◌,
  if◌then◌else◌, ℤ, pos, negsuc, bit_or,
}
use uhf_gs_csp_software.Common.Bits.{◌<<<◌}
use uhf_gs_csp_software.World.{Result, ok, exit, undefined, no_fuel}
use uhf_gs_csp_software.Gatoss.{Machine, GatossPos, GatossCompos, gatoss_positions_decompress}

abbrev pub gatoss_port_list_short : ℕ
gatoss_port_list_short = 20

abbrev pub gatoss_port_list_full : ℕ
gatoss_port_list_full = 21

abbrev pub gatoss_port_plane_positions : ℕ
gatoss_port_plane_positions = 23

abbrev pub gatoss_port_plane_contacts : ℕ
gatoss_port_plane_contacts = 24

abbrev pub gatoss_port_blob_ls : ℕ
gatoss_port_blob_ls = 29

-- The data of a request, as it stands in the packet.
pub data Request : Type 0 where
  list_req : (filtering packet_limit start_index : ℕ) → Request
  plane_positions_req : (icao24 min_distance : ℕ) → Request
  plane_contacts_req : (icao24 : ℕ) → Request
  no_req : Request

-- The elements of `gatoss_list_short`, `gatoss_list_full` and `gatoss_blob_list`.
pub record PlaneShort : Type 0 where
  pub icao24 : Bytes
  pub compos : GatossCompos

pub record PlaneFull : Type 0 where
  pub icao24 : ℕ
  pub id : Bytes
  pub frame_counter : ℕ
  pub position_counter : ℕ
  pub first_contact : ℕ
  pub last_contact : ℕ
  pub compos : GatossCompos
  pub heading : ℕ
  pub speed : ℕ

pub record Blob : Type 0 where
  pub id : ℕ
  pub mem_addr : ℕ
  pub mem_used : ℕ
  pub mem_size : ℕ
  pub creation_time : ℕ
  pub user_flags : ℕ
  pub name : Bytes

-- A line of the console for an element.
pub data Line (m : Machine) : Type 0 where
  short_line : (icao24 : ℕ) → GatossPos m → Line m
  full_line :
      (icao24 : ℕ) (id : Bytes) (position_counter frame_counter first_contact last_contact : ℕ)
      → GatossPos m
      → (heading speed : ℕ) → Line m
  position_line : GatossPos m → Line m
  contact_line : (time : ℕ) → Line m
  blob_line : (id creation_time mem_addr mem_used mem_size user_flags : ℕ) (name : Bytes) → Line m

-- The calls of a function; a read with its success.
pub data GatossCall (m : Machine) : Type 0 where
  csp_connect : (port : ℕ) → GatossCall m
  csp_buffer_get : GatossCall m
  csp_send : (length : ℕ) → Request → GatossCall m
  csp_read : Bool → GatossCall m
  color_printf : Line m → GatossCall m
  csp_buffer_free : GatossCall m
  csp_close : GatossCall m

-- A packet of a list: `items` are what its buffer holds in the elements' place, and `flag_behind`
-- is what the place of `end_flag` holds when the buffer has been freed.
pub record Reply (A : Type 0) : Type 0 where
  pub count : ℕ
  pub end_flag : ℕ
  pub items : List A
  pub flag_behind : ℕ

-- What libcsp answers: whether there is a connection and a buffer, whether the request is taken,
-- and the packets that it reads, until one fails.
pub record ListAnswers (A : Type 0) : Type 0 where
  pub connection : Bool
  pub buffer : Bool
  pub sent : Bool
  pub replies : List (Reply A)

module _ (m : Machine) where
  -- Calls, and then what follows them.
  unfoldable pub calls_then :
      List (GatossCall m) → Result (List (GatossCall m)) → Result (List (GatossCall m))
  calls_then calls (ok rest) = ok (calls ++ rest)
  calls_then calls (exit n) = exit n
  calls_then calls undefined = undefined
  calls_then calls no_fuel = no_fuel

  unfoldable pub then_close :
      List (GatossCall m) → Result (List (GatossCall m)) → Result (ℤ × List (GatossCall m))
  then_close calls (ok rest) = ok (pos 0, calls ++ rest ++ (csp_close ∷ []))
  then_close calls (exit n) = exit n
  then_close calls undefined = undefined
  then_close calls no_fuel = no_fuel

  module _ {A : Type 0} (line : A → Line m) where
    -- The loop over the elements of a packet; one that the buffer does not hold is undefined.
    unfoldable pub show_items : (count : ℕ) → List A → Result (List (GatossCall m))
    show_items zero items = ok []
    show_items (suc count) [] = undefined
    show_items (suc count) (a ∷ items) =
        calls_then (color_printf (line a) ∷ []) (show_items count items)

    -- The loop over the packets.
    unfoldable pub read_replies : List (Reply A) → Result (List (GatossCall m))
    read_replies [] = ok (csp_read false ∷ [])
    read_replies (r ∷ replies) =
        let rest = read_replies replies in
        let behind = if r.flag_behind == 0 then rest else ok [] in
        calls_then (csp_read true ∷ []) (elim (show_items r.count r.items) [
          | ok calls ↦ calls_then (calls ++ (csp_buffer_free ∷ [])) behind
          | exit n ↦ exit n
          | undefined ↦ undefined
          | no_fuel ↦ no_fuel
        ])

    -- The body that the list functions share: what it returns, and its calls in their order. The
    -- request is written to a buffer that is not tested for NULL.
    unfoldable pub exchange :
        (port length : ℕ) → Request → ListAnswers A → Result (ℤ × List (GatossCall m))
    exchange port length request a =
        if not a.connection
        then ok (negsuc 0, csp_connect port ∷ [])
        else if not a.buffer
        then undefined
        else if not a.sent
        then ok (
          negsuc 0,
          csp_connect port
              ∷ csp_buffer_get
              ∷ csp_send length request
              ∷ csp_buffer_free
              ∷ csp_close
              ∷ [],
        )
        else then_close (csp_connect port ∷ csp_buffer_get ∷ csp_send length request ∷ [])
            (read_replies a.replies)

  unfoldable pub icao24_of : Bytes → ℕ
  icao24_of icao24 =
      bit_or (bit_or (get_or icao24 0 0) (get_or icao24 1 0 <<< 8)) (get_or icao24 2 0 <<< 16)

  unfoldable pub plane_short_line : PlaneShort → Line m
  plane_short_line p = short_line (icao24_of p.icao24) (gatoss_positions_decompress m p.compos)

  unfoldable pub plane_full_line : PlaneFull → Line m
  plane_full_line p =
      full_line (m.csp_ntoh32 p.icao24) p.id (m.csp_hton16 p.position_counter)
        (m.csp_hton16 p.frame_counter) (m.csp_ntoh32 p.first_contact) (m.csp_ntoh32 p.last_contact)
        (gatoss_positions_decompress m p.compos) (m.csp_ntoh16 p.heading) (m.csp_ntoh16 p.speed)

  -- The time of a contact is the list's and the element's, as an `uint32_t`.
  unfoldable pub contact_line_of : (abs_time delta_time : ℕ) → Line m
  contact_line_of abs_time delta_time =
      contact_line ((m.csp_ntoh32 abs_time + m.csp_ntoh16 delta_time) % 2 ^ 32)

  unfoldable pub blob_line_of : Blob → Line m
  blob_line_of b =
      blob_line (m.csp_ntoh16 b.id) (m.csp_ntoh32 b.creation_time) (m.csp_ntoh32 b.mem_addr)
        (m.csp_ntoh32 b.mem_used) (m.csp_ntoh32 b.mem_size) (m.csp_ntoh16 b.user_flags) b.name

  unfoldable pub gatoss_list_short :
      (filtering packet_limit start_index : ℕ)
      → ListAnswers PlaneShort
      → Result (ℤ × List (GatossCall m))
  gatoss_list_short filtering packet_limit start_index =
      exchange plane_short_line gatoss_port_list_short 12
        (list_req (m.csp_hton32 filtering) (m.csp_hton32 packet_limit) (m.csp_hton32 start_index))

  unfoldable pub gatoss_list_full :
      (filtering packet_limit start_index : ℕ)
      → ListAnswers PlaneFull
      → Result (ℤ × List (GatossCall m))
  gatoss_list_full filtering packet_limit start_index =
      exchange plane_full_line gatoss_port_list_full 12
        (list_req (m.csp_hton32 filtering) (m.csp_hton32 packet_limit) (m.csp_hton32 start_index))

  unfoldable pub gatoss_plane_positions :
      (icao24 min_distance : ℕ) → ListAnswers GatossCompos → Result (ℤ × List (GatossCall m))
  gatoss_plane_positions icao24 min_distance =
      exchange (λ c. position_line (gatoss_positions_decompress m c)) gatoss_port_plane_positions 8
        (plane_positions_req (m.csp_hton32 icao24) (m.csp_hton32 min_distance))

  -- An element is the time of its packet with its own; the length is that of a reply.
  unfoldable pub gatoss_plane_contacts :
      (icao24 : ℕ) → ListAnswers (ℕ × ℕ) → Result (ℤ × List (GatossCall m))
  gatoss_plane_contacts icao24 =
      exchange (λ t. contact_line_of t.0 t.1) gatoss_port_plane_contacts 200
        (plane_contacts_req (m.csp_hton32 icao24))

  unfoldable pub gatoss_blob_ls : ListAnswers Blob → Result (ℤ × List (GatossCall m))
  gatoss_blob_ls = exchange blob_line_of gatoss_port_blob_ls 0 no_req
