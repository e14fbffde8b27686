-- ===== src/Udp/Reassembler.antt =====
-- kvm-protocol/src/udp.rs: a reliable message in fragments, and the buffer that puts the fragments
-- of one sender together again.
use thekvm.Prelude.{
  ℕ, suc, ◌+◌, ◌-◌, ◌/◌, not, ◌&&◌, ◌||◌, Option, none, some, List, [], ◌∷◌, ◌++◌, ltb, leb, ◌==◌,
  if◌then◌else◌, length, is_none,
}
use thekvm.Prelude.Result.{Result, ok, err, ◌>>=◌}
use thekvm.Prelude.Slices.{drop, slice, chunks, get_elem?, set, replicate}
use thekvm.Prelude.Dict.{Dict, get, put, remove}
use thekvm.Wire.Bytes.{be_bytes, read_be}
use thekvm.Udp.{
  UdpError, payload_size_out_of_range, too_many_fragments, fragment_too_short, bad_fragment_header,
  fragment_too_large, too_many_assemblies, count_mismatch, missing_fragment, message_too_large,
  reliable_fragment_bytes, max_reliable_message, max_fragments,
}

abbrev pub fragment : ℕ → ℕ → ℕ → List ℕ → List ℕ
fragment msg_id count index chunk =
    be_bytes 8 msg_id ++ (be_bytes 2 index ++ (be_bytes 2 count ++ chunk))

-- The chunks with their places, from one on.
unfoldable pub number : ℕ → ℕ → ℕ → List (List ℕ) → List (List ℕ)
number msg_id count index [] = []
number msg_id count index (chunk ∷ rest) =
    fragment msg_id count index chunk ∷ number msg_id count (suc index) rest

-- `usize::div_ceil`
abbrev pub div_ceil : ℕ → ℕ → ℕ
div_ceil a b = (a + (b - 1)) / b

unfoldable pub split_reliable : ℕ → List ℕ → Result UdpError (List (List ℕ))
unfolding number chunks
split_reliable msg_id payload =
    let count = div_ceil (length payload) reliable_fragment_bytes in
    if length payload == 0 || ltb max_reliable_message (length payload)
    then err payload_size_out_of_range
    else if ltb max_fragments count
    then err too_many_fragments
    else ok (number msg_id count 0 (chunks reliable_fragment_bytes payload))

pub record Reassembly : Type 0 where
  pub total : ℕ
  pub chunks : List (Option (List ℕ))
  pub received : ℕ

-- One entry for each message that has begun.
abbrev pub Pending : Type 0
Pending = Dict Reassembly

-- A fragment's fields.
pub record Fragment : Type 0 where
  pub msg_id : ℕ
  pub index : ℕ
  pub count : ℕ
  pub data_bytes : List ℕ

unfoldable pub checked_fragment : ℕ → ℕ → ℕ → List ℕ → Result UdpError Fragment
checked_fragment msg_id index count bytes =
    if count == 0 || ltb max_fragments count || leb count index
    then err bad_fragment_header
    else if ltb reliable_fragment_bytes (length bytes)
    then err fragment_too_large
    else ok (record { msg_id = msg_id; index = index; count = count; data_bytes = bytes })

unfoldable pub parse_fragment : List ℕ → Result UdpError Fragment
unfolding read_be slice drop checked_fragment
parse_fragment body =
    if ltb (length body) 12
    then err fragment_too_short
    else checked_fragment (read_be (slice 0 8 body)) (read_be (slice 8 10 body))
        (read_be (slice 10 12 body)) (drop 12 body)

abbrev pub new_entry : ℕ → Reassembly
new_entry count = record { total = count; chunks = replicate count none; received = 0 }

abbrev pub or_insert : Option Reassembly → ℕ → Reassembly
or_insert none count = new_entry count
or_insert (some entry) count = entry

-- An empty slot takes the data; a second copy changes nothing.
unfoldable pub store : Reassembly → ℕ → List ℕ → Reassembly
store entry index bytes = elim (get_elem? entry.chunks index) [
  | some none ↦ record entry {
    chunks = set entry.chunks index (some bytes);
    received = entry.received + 1;
  }
  | _ ↦ entry
]

unfoldable pub collect : List (Option (List ℕ)) → Result UdpError (List ℕ)
collect [] = ok []
collect (none ∷ slots) = err missing_fragment
collect (some bytes ∷ slots) = collect slots >>= λ rest. ok (bytes ++ rest)

unfoldable pub out_message : List ℕ → Result UdpError (Option (List ℕ))
out_message out =
    if ltb max_reliable_message (length out) then err message_too_large else ok (some out)

abbrev pub Outcome : Type 0
Outcome = Result UdpError (Option (List ℕ))

-- A complete message leaves the buffer.
unfoldable pub finish : Pending → ℕ → Reassembly → Pending × Outcome
unfolding put remove collect out_message
finish pending msg_id entry =
    let kept = put pending msg_id entry in
    if entry.received == entry.total
    then (remove kept msg_id, collect entry.chunks >>= out_message)
    else (kept, ok none)

unfoldable pub join : Pending → Fragment → Reassembly → Pending × Outcome
unfolding put store finish
join pending f entry =
    if not (entry.total == f.count)
    then (put pending f.msg_id entry, err count_mismatch)
    else finish pending f.msg_id (store entry f.index f.data_bytes)

-- At most 16 messages are put together at once.
unfoldable pub accept : Pending → Fragment → Pending × Outcome
unfolding get join
accept pending f =
    if leb 16 (length pending) && is_none (get pending f.msg_id)
    then (pending, err too_many_assemblies)
    else join pending f (or_insert (get pending f.msg_id) f.count)

-- The buffer after one fragment body, and the outcome.
unfoldable pub feed : Pending → List ℕ → Pending × Outcome
unfolding parse_fragment accept
feed pending body = elim (parse_fragment body) [
  | err e ↦ (pending, err e)
  | ok f ↦ accept pending f
]

-- The bodies one after the other, with the outcomes in their order.
unfoldable pub feeds : Pending → List (List ℕ) → Pending × List Outcome
unfolding feed
feeds pending [] = (pending, [])
feeds pending (body ∷ bodies) =
    let (next, out) = feed pending body in
    let (last, outs) = feeds next bodies in (last, out ∷ outs)
