-- ===== src/Protocol/Rounds.antt =====
-- One round of the frame reader on each kind of input, and the loop over enough fuel.
use py_frp.Base.{
  ℕ, suc, ◌+◌, ◌≤◌, ◌<◌, ◌≡◌, refl, ap, ◌/◌, ◌%◌, [], ◌∷◌, ◌++◌, arith, length, All, length-append,
  take-append, drop-append, take-append-drop, length-take, some,
}
use py_frp.Protocol.Frames.{
  Bytes, buffer_size, tunnel_eof_frame, tunnel_data_frame, pack, unpack, data_frame, eof_frame,
  write, end_of_stream, read_exactly, read_round, frame_round, payload_round, copy_rounds, returned,
}

-- A length below 2^32 survives its four bytes.
pub unpack-pack :
    (n : ℕ)
    → n ≤ buffer_size
    → unpack (n / 16777216 % 256) (n / 65536 % 256) (n / 256 % 256) (n % 256) ≡ n
unfolding unpack
unpack-pack n h = omega arith

pub read_exactly-append : (p rest : Bytes) → read_exactly (length p) (p ++ rest) ≡ some (p, rest)
unfolding read_exactly
read_exactly-append p rest =
    ground (arith, length-append p rest, take-append p rest, drop-append p rest)

pub frame_round-data :
    (p rest : Bytes)
    → length p ≤ buffer_size
    → frame_round tunnel_data_frame (length p) (p ++ rest) ≡ write p rest
unfolding frame_round payload_round
frame_round-data p rest h = ground (arith, read_exactly-append p rest)

pub read_round-data :
    (p rest : Bytes) → length p ≤ buffer_size → read_round (data_frame p ++ rest) ≡ write p rest
unfolding read_round data_frame
read_round-data p rest h = rw (unpack-pack (length p) h) (frame_round-data p rest h)

pub read_round-eof : (rest : Bytes) → read_round (eof_frame ++ rest) ≡ end_of_stream rest
unfolding read_round eof_frame
read_round-eof rest = refl

-- The loop over data frames: it writes every payload and goes on behind them.
pub copy_rounds-data :
    (fuel : ℕ) (p rest : Bytes)
    → length p ≤ buffer_size
    → copy_rounds (suc fuel) (data_frame p ++ rest) ≡ (
        let later = copy_rounds fuel rest in
        record { written = p ∷ later.written; ending = later.ending; rest = later.rest })
unfolding copy_rounds
copy_rounds-data fuel p rest h = rw (read_round-data p rest h, copy_rounds) refl

pub copy_rounds-eof :
    (fuel : ℕ) (rest : Bytes)
    → copy_rounds (suc fuel) (eof_frame ++ rest)
      ≡ record { written = []; ending = returned; rest = rest }
unfolding copy_rounds
copy_rounds-eof fuel rest = rw (read_round-eof rest, copy_rounds) refl

pub length-data_frame : (p : Bytes) → length (data_frame p) ≡ 5 + length p
unfolding data_frame
length-data_frame p = omega arith

pub length-eof_frame : length eof_frame ≡ 5
unfolding eof_frame
length-eof_frame = refl

pub read_exactly-some :
    (n : ℕ) (s p rest : Bytes)
    → read_exactly n s ≡ some (p, rest)
    → (s ≡ p ++ rest) × (length p ≡ n)
unfolding read_exactly
read_exactly-some n s p rest e = ground (arith, take-append-drop n s, length-take n s)

frame_round-write :
    (t n : ℕ) (s p rest : Bytes)
    → frame_round t n s ≡ write p rest
    → (t ≡ tunnel_data_frame) × (n ≡ length p) × (length p ≤ buffer_size) × (s ≡ p ++ rest)
unfolding frame_round payload_round
frame_round-write t n s p rest e = ground (arith, read_exactly-some n s p rest)

frame_round-end :
    (t n : ℕ) (s rest : Bytes)
    → frame_round t n s ≡ end_of_stream rest
    → (t ≡ tunnel_eof_frame) × (n ≡ 0) × (s ≡ rest)
unfolding frame_round payload_round
frame_round-end t n s rest e = ground arith

-- Four bytes are the only code of their number.
pub pack-unpack :
    (a b c d n : ℕ)
    → a < 256
    → b < 256
    → c < 256
    → d < 256
    → unpack a b c d ≡ n
    → pack n ≡ a ∷ b ∷ c ∷ d ∷ []
unfolding pack unpack
pack-unpack a b c d n ha hb hc hd e = ground arith

pub read_round-write :
    (s p rest : Bytes)
    → All (λ x. x < 256) s
    → read_round s ≡ write p rest
    → (length p ≤ buffer_size) × (s ≡ data_frame p ++ rest)
unfolding read_round data_frame
read_round-write (t ∷ a ∷ b ∷ c ∷ d ∷ s) p rest h e =
    ground (arith, frame_round-write t (unpack a b c d) s p rest, pack-unpack a b c d (length p))
read_round-write _ p rest h e = cc

pub read_round-end :
    (s rest : Bytes)
    → All (λ x. x < 256) s
    → read_round s ≡ end_of_stream rest
    → s ≡ eof_frame ++ rest
unfolding read_round eof_frame
read_round-end (t ∷ a ∷ b ∷ c ∷ d ∷ s) rest h e =
    ground (arith, frame_round-end t (unpack a b c d) s rest, pack-unpack a b c d 0)
read_round-end _ rest h e = cc

-- Every data frame takes at least its header.
pub read_round-shorter : (s p rest : Bytes) → read_round s ≡ write p rest → length rest < length s
unfolding read_round
read_round-shorter (t ∷ a ∷ b ∷ c ∷ d ∷ s) p rest e =
    let (_, _, _, split) = frame_round-write t (unpack a b c d) s p rest e in
    omega (arith, ap length split, length-append p rest)
read_round-shorter _ p rest e = cc
