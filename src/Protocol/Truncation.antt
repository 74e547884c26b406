-- ===== src/Protocol/Truncation.antt =====
-- A tunnel that is cut before its end frame, at any byte.
use py_frp.Base.{
  ℕ, zero, suc, ◌-◌, ◌≤◌, ◌<◌, ◌≡◌, refl, ap, List, [], ◌∷◌, ◌++◌, map, arith, length, take, All,
  length-append, length-take, append_assoc, take-append_right, take-append_left, none,
}
use native.Mathlib.Decide.{dec_lt}
use py_frp.Protocol.Frames.{
  Bytes, buffer_size, tunnel_data_frame, data_frame, eof_frame, chunk, raised, connection_error,
  copy_to_tunnel, Copied, copy_from_tunnel, copy_rounds, read_round, failure, read_exactly,
  frame_round, payload_round,
}
use py_frp.Protocol.Rounds.{copy_rounds-data, length-data_frame, length-eof_frame, unpack-pack}
use py_frp.Protocol.RoundTrip.{frames, IsChunk, IsChunk-fits, copy_to_tunnel-frames, prepend}

read_exactly_short : (n : ℕ) (s : Bytes) → length s < n → read_exactly n s ≡ none
unfolding read_exactly
read_exactly_short n s h = ground arith

frame_round_short :
    (n : ℕ) (s : Bytes)
    → n ≤ buffer_size
    → length s < n
    → frame_round tunnel_data_frame n s ≡ failure connection_error
unfolding frame_round payload_round
frame_round_short n s h l = ground (arith, read_exactly_short n s l)

-- A data frame that is cut inside its header or its payload.
read_round-take_data :
    (n : ℕ) (p : Bytes)
    → length p ≤ buffer_size
    → n < length (data_frame p)
    → read_round (take n (data_frame p)) ≡ failure connection_error
unfolding read_round data_frame
read_round-take_data zero p h l = refl
read_round-take_data (suc zero) p h l = refl
read_round-take_data (suc (suc zero)) p h l = refl
read_round-take_data (suc (suc (suc zero))) p h l = refl
read_round-take_data (suc (suc (suc (suc zero)))) p h l = refl
read_round-take_data (suc (suc (suc (suc (suc k))))) p h l =
    rw (unpack-pack (length p) h)
      (frame_round_short (length p) (take k p) h (omega (arith, length-take k p)))

-- The reader raised `ConnectionError`, and what it had written by then are the first payloads.
abbrev pub IsCut : List Bytes → Copied → Type 0
IsCut ps r = (r.ending ≡ raised connection_error) × ((more : List Bytes) × (ps ≡ r.written ++ more))

copy_rounds-IsCut_eof : (fuel n : ℕ) → n < 5 → IsCut [] (copy_rounds (suc fuel) (take n eof_frame))
unfolding copy_rounds read_round eof_frame
copy_rounds-IsCut_eof fuel zero h = (refl, ([], refl))
copy_rounds-IsCut_eof fuel (suc zero) h = (refl, ([], refl))
copy_rounds-IsCut_eof fuel (suc (suc zero)) h = (refl, ([], refl))
copy_rounds-IsCut_eof fuel (suc (suc (suc zero))) h = (refl, ([], refl))
copy_rounds-IsCut_eof fuel (suc (suc (suc (suc zero)))) h = (refl, ([], refl))
copy_rounds-IsCut_eof fuel (suc (suc (suc (suc (suc k))))) h = absurd (omega arith)

copy_rounds-IsCut_data :
    (fuel n : ℕ) (p : Bytes) (ps : List Bytes)
    → length p ≤ buffer_size
    → n < length (data_frame p)
    → IsCut ps (copy_rounds (suc fuel) (take n (data_frame p)))
unfolding copy_rounds
copy_rounds-IsCut_data fuel n p ps h l =
    rw (read_round-take_data n p h l, copy_rounds) (refl, (ps, refl))

IsCut-prepend :
    (p : Bytes) (ps : List Bytes) (r : Copied) → IsCut ps r → IsCut (p ∷ ps) (prepend p r)
IsCut-prepend p ps r h = (h.0, (h.1.0, ap (λ t. p ∷ t) h.1.1))

copy_rounds-IsCut :
    (fuel n : ℕ) (ps : List Bytes)
    → All (λ p. length p ≤ buffer_size) ps
    → n < length (frames ps ++ eof_frame)
    → n < fuel
    → IsCut ps (copy_rounds fuel (take n (frames ps ++ eof_frame)))
copy_rounds-IsCut zero n ps h l f = elim f [ ]
copy_rounds-IsCut (suc fuel) n [] h l f =
    copy_rounds-IsCut_eof fuel n (omega (arith, length-eof_frame))
copy_rounds-IsCut (suc fuel) n (p ∷ ps) h l f = elim (dec_lt n (length (data_frame p))) [
  | yes inside ↦
      rw (append_assoc, take-append_left n (data_frame p) (frames ps ++ eof_frame) (omega arith))
        (copy_rounds-IsCut_data fuel n p (p ∷ ps) h.0 inside)
  | no behind ↦
      rw
        (
          append_assoc,
          take-append_right n (data_frame p) (frames ps ++ eof_frame) (omega arith),
          copy_rounds-data fuel p (take (n - length (data_frame p)) (frames ps ++ eof_frame)) h.0,
        )
        (IsCut-prepend p ps
          (copy_rounds fuel (take (n - length (data_frame p)) (frames ps ++ eof_frame)))
          (copy_rounds-IsCut fuel (n - length (data_frame p)) ps h.1
            (omega (
              arith,
              ap length (append_assoc (data_frame p) (frames ps) eof_frame),
              length-append (data_frame p) (frames ps ++ eof_frame),
            ))
            (omega (arith, length-data_frame p))))
]

copy_from_tunnel_lem : (s : Bytes) → copy_from_tunnel s ≡ copy_rounds (suc (length s)) s
unfolding copy_from_tunnel
copy_from_tunnel_lem s = refl

-- When the tunnel closes anywhere inside what the writer sends for its chunks and the end of its
-- input, the reader raises `ConnectionError`, and what it has written by then are the first chunks,
-- whole and in order.
pub copy_from_tunnel-IsCut :
    (ps : List Bytes) (n : ℕ)
    → All IsChunk ps
    → n < length (copy_to_tunnel (map chunk ps ++ chunk [] ∷ [])).0
    → IsCut ps (copy_from_tunnel (take n (copy_to_tunnel (map chunk ps ++ chunk [] ∷ [])).0))
copy_from_tunnel-IsCut ps n h l =
    rw (copy_to_tunnel-frames ps [] h, copy_from_tunnel_lem (take n (frames ps ++ eof_frame)))
      (copy_rounds-IsCut (suc (length (take n (frames ps ++ eof_frame)))) n ps (IsChunk-fits ps h) m
        (omega (arith, m, length-take n (frames ps ++ eof_frame))))
  where
    m : n < length (frames ps ++ eof_frame)
    m = rw (copy_to_tunnel-frames ps [] h) at l
