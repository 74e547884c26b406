-- ===== src/Protocol/Frames.antt =====
-- The two directions of a tunnel: `_copy_to_tunnel` writes frames, `_copy_from_tunnel` reads them.
-- A byte is a number below 256. What a reader yields is an argument: the results of `read`, or the
-- bytes that arrive until the peer closes.
use py_frp.Base.{
  ℕ, zero, suc, ◌+◌, ◌*◌, ◌/◌, ◌%◌, Option, none, some, List, [], ◌∷◌, ◌++◌, length, take, drop,
  leb, ◌==◌, if◌then◌else◌,
}

abbrev pub Bytes : Type 0
Bytes = List ℕ

-- BUFFER_SIZE
abbrev pub buffer_size : ℕ
buffer_size = 65536

-- TUNNEL_DATA_FRAME
abbrev pub tunnel_data_frame : ℕ
tunnel_data_frame = b'D'

-- TUNNEL_EOF_FRAME
abbrev pub tunnel_eof_frame : ℕ
tunnel_eof_frame = b'E'

-- `struct.pack("!I", n)` and `struct.unpack("!I", bytes)[0]`
unfoldable pub pack : ℕ → Bytes
pack n = (n / 16777216 % 256) ∷ (n / 65536 % 256) ∷ (n / 256 % 256) ∷ (n % 256) ∷ []

unfoldable pub unpack : ℕ → ℕ → ℕ → ℕ → ℕ
unpack a b c d = a * 16777216 + b * 65536 + c * 256 + d

pub data Failure : Type 0 where
  connection_error protocol_error os_error : Failure

-- How a copying task stands: it returned, it raised, or it still waits for its reader.
pub data Ending : Type 0 where
  returned waiting : Ending
  raised : Failure → Ending

-- One `await reader.read(BUFFER_SIZE)`: some bytes (none at the end of input), or an exception.
pub data Read : Type 0 where
  chunk : Bytes → Read
  failed : Failure → Read

unfoldable pub data_frame : Bytes → Bytes
unfolding pack
data_frame payload = tunnel_data_frame ∷ pack (length payload) ++ payload

unfoldable pub eof_frame : Bytes
unfolding pack
eof_frame = tunnel_eof_frame ∷ pack 0

-- The bytes written to the tunnel, and how the task stands after these reads.
unfoldable pub copy_to_tunnel : List Read → Bytes × Ending
unfolding data_frame eof_frame
copy_to_tunnel [] = ([], waiting)
copy_to_tunnel (failed e ∷ reads) = ([], raised e)
copy_to_tunnel (chunk [] ∷ reads) = (eof_frame, returned)
copy_to_tunnel (chunk (b ∷ bs) ∷ reads) =
    (data_frame (b ∷ bs) ++ (copy_to_tunnel reads).0, (copy_to_tunnel reads).1)

-- One round of `_copy_from_tunnel`.
pub data Round : Type 0 where
  write : Bytes → Bytes → Round
  end_of_stream : Bytes → Round
  failure : Failure → Round

-- `reader.readexactly(n)`; `none` is `IncompleteReadError`.
unfoldable pub read_exactly : ℕ → Bytes → Option (Bytes × Bytes)
read_exactly n s = if leb n (length s) then some (take n s, drop n s) else none

unfoldable pub payload_round : Option (Bytes × Bytes) → Round
payload_round none = failure connection_error
payload_round (some (payload, rest)) = write payload rest

unfoldable pub frame_round : ℕ → ℕ → Bytes → Round
unfolding payload_round read_exactly
frame_round frame_type n rest =
    if frame_type == tunnel_eof_frame
    then (if n == 0 then end_of_stream rest else failure protocol_error)
    else if frame_type == tunnel_data_frame
    then (if leb n buffer_size then payload_round (read_exactly n rest) else failure protocol_error)
    else failure protocol_error

-- A header is five bytes; with fewer left `readexactly(5)` fails.
unfoldable pub read_round : Bytes → Round
unfolding frame_round unpack
read_round (t ∷ a ∷ b ∷ c ∷ d ∷ rest) = frame_round t (unpack a b c d) rest
read_round _ = failure connection_error

pub record Copied : Type 0 where
  pub written : List Bytes
  pub ending : Ending
  pub rest : Bytes

-- What a round does, with the rest of the loop.
unfoldable pub resume : (Bytes → Copied) → Round → Copied
resume later (failure e) = record { written = []; ending = raised e; rest = [] }
resume later (end_of_stream rest) = record { written = []; ending = returned; rest = rest }
resume later (write payload rest) = record {
  written = payload ∷ (later rest).written;
  ending = (later rest).ending;
  rest = (later rest).rest;
}

-- The rounds of the loop. At the EOF frame `write_eof` of the plain side is taken to work: where it raises,
-- the source closes that writer instead, which is left out.
unfoldable pub copy_rounds : ℕ → Bytes → Copied
unfolding resume
copy_rounds zero s = record { written = []; ending = waiting; rest = s }
copy_rounds (suc fuel) s = resume (copy_rounds fuel) (read_round s)

-- The writes to the plain side for the bytes `s` that arrive, and the bytes left in the reader.
-- A round takes at least five bytes, so it can run once for each byte and still have fuel.
unfoldable pub copy_from_tunnel : Bytes → Copied
unfolding copy_rounds read_round
copy_from_tunnel s = copy_rounds (suc (length s)) s
