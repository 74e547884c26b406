-- ===== src/Protocol/RoundTrip.antt =====
-- What one side writes with `_copy_to_tunnel` the other side reads with `_copy_from_tunnel`.
use py_frp.Base.{
  ℕ, zero, suc, ◌≤◌, ◌<◌, ◌≡◌, refl, ap, sym, ◌∙◌, ◌≢◌, List, [], ◌∷◌, ◌++◌, map, arith, length,
  All, length-append, append_assoc,
}
use py_frp.Protocol.Frames.{
  Bytes, buffer_size, data_frame, eof_frame, Read, chunk, returned, waiting, copy_to_tunnel, Copied,
  copy_from_tunnel, copy_rounds, resume, read_round, Round, write, end_of_stream, failure,
}
use py_frp.Protocol.Rounds.{
  copy_rounds-data, copy_rounds-eof, length-data_frame, read_round-write, read_round-end,
  read_round-shorter,
}

-- The frames of a list of payloads.
abbrev pub frames : List Bytes → Bytes
frames [] = []
frames (p ∷ ps) = data_frame p ++ frames ps

-- A result of `read(BUFFER_SIZE)` before the end of input.
abbrev pub IsChunk : Bytes → Type 0
IsChunk p = (p ≢ []) × (length p ≤ buffer_size)

-- The writer frames what it reads until the end of input, and then closes its direction.
pub copy_to_tunnel-frames :
    (ps : List Bytes) (reads : List Read)
    → All IsChunk ps
    → copy_to_tunnel (map chunk ps ++ chunk [] ∷ reads) ≡ (frames ps ++ eof_frame, returned)
unfolding copy_to_tunnel
copy_to_tunnel-frames [] reads h = refl
copy_to_tunnel-frames ([] ∷ ps) reads h = absurd (h.0.0 refl)
copy_to_tunnel-frames ((b ∷ bs) ∷ ps) reads h = rw (copy_to_tunnel-frames ps reads h.1) (
    ap (λ (t : Bytes). (t, returned))
      (sym (append_assoc (data_frame (b ∷ bs)) (frames ps) eof_frame)))

regroup : (a b c d : Bytes) → a ++ b ++ c ++ d ≡ a ++ (b ++ c ++ d)
regroup a b c d = simp append_assoc

abbrev pub prepend : Bytes → Copied → Copied
prepend p r = record { written = p ∷ r.written; ending = r.ending; rest = r.rest }

copy_rounds-frames :
    (fuel : ℕ) (ps : List Bytes) (rest : Bytes)
    → All (λ p. length p ≤ buffer_size) ps
    → length (frames ps ++ eof_frame ++ rest) < fuel
    → copy_rounds fuel (frames ps ++ eof_frame ++ rest)
      ≡ record { written = ps; ending = returned; rest = rest }
copy_rounds-frames zero ps rest h l = elim l [ ]
copy_rounds-frames (suc fuel) [] rest h l = copy_rounds-eof fuel rest
copy_rounds-frames (suc fuel) (p ∷ ps) rest h l =
    rw (regroup (data_frame p) (frames ps) eof_frame rest) (
      copy_rounds-data fuel p _ h.0
      ∙ ap (prepend p) (
          copy_rounds-frames fuel ps rest h.1 (
            omega (
              arith,
              ap length (regroup (data_frame p) (frames ps) eof_frame rest),
              length-append (data_frame p) (frames ps ++ eof_frame ++ rest),
              length-data_frame p,
            ))))

pub IsChunk-fits : (ps : List Bytes) → All IsChunk ps → All (λ p. length p ≤ buffer_size) ps
IsChunk-fits [] h = tt
IsChunk-fits (p ∷ ps) h = (h.0.1, IsChunk-fits ps h.1)

-- Whatever chunks one side reads up to the end of its input, the other side writes exactly those
-- chunks in their order, closes its direction, and leaves what follows in the tunnel unread.
pub copy_from_tunnel-copy_to_tunnel :
    (ps : List Bytes) (rest : Bytes)
    → All IsChunk ps
    → copy_from_tunnel ((copy_to_tunnel (map chunk ps ++ chunk [] ∷ [])).0 ++ rest)
      ≡ record { written = ps; ending = returned; rest = rest }
unfolding copy_from_tunnel
copy_from_tunnel-copy_to_tunnel ps rest h = rw (copy_to_tunnel-frames ps [] h) (
    copy_rounds-frames (suc (length (frames ps ++ eof_frame ++ rest))) ps rest (IsChunk-fits ps h)
      (omega arith))

-- The bytes that the reader took are the frames of what it wrote and the end frame.
abbrev IsSound : Bytes → Copied → Type 0
IsSound s r =
    r.ending ≡ returned
    → (s ≡ frames r.written ++ eof_frame ++ r.rest) × All (λ p. length p ≤ buffer_size) r.written

All-append_right : (xs ys : Bytes) → All (λ x. x < 256) (xs ++ ys) → All (λ x. x < 256) ys
All-append_right [] ys h = h
All-append_right (x ∷ xs) ys h = All-append_right xs ys h.1

resume-IsSound :
    (later : Bytes → Copied) (s : Bytes) (r : Round)
    → ((t : Bytes) → All (λ x. x < 256) t → IsSound t (later t))
    → All (λ x. x < 256) s
    → read_round s ≡ r
    → IsSound s (resume later r)
unfolding resume
resume-IsSound later s (failure x) ih h q e = cc
resume-IsSound later s (end_of_stream rest) ih h q e = (read_round-end s rest h q, tt)
resume-IsSound later s (write p rest) ih h q e =
    let (fits, split) = read_round-write s p rest h q in
    let (eq, all) = ih rest (All-append_right (data_frame p) rest (rw split at h)) e in
    (
      split
          ∙ ap (◌++◌ (data_frame p)) eq
          ∙ sym (regroup (data_frame p) (frames (later rest).written) eof_frame (later rest).rest),
      (fits, all),
    )

copy_rounds-IsSound : (fuel : ℕ) (s : Bytes) → All (λ x. x < 256) s → IsSound s (copy_rounds fuel s)
unfolding copy_rounds
copy_rounds-IsSound zero s h = λ e. cc
copy_rounds-IsSound (suc fuel) s h =
    resume-IsSound (copy_rounds fuel) s (read_round s) (copy_rounds-IsSound fuel) h refl

-- The reader returns without an error only on well-formed input: where all bytes are
-- below 256, those it took are the data frames of its writes, each of at most BUFFER_SIZE bytes, and
-- then one end frame.
pub copy_from_tunnel_sound :
    (s : Bytes)
    → All (λ x. x < 256) s
    → (copy_from_tunnel s).ending ≡ returned
    → (s ≡ frames (copy_from_tunnel s).written ++ eof_frame ++ (copy_from_tunnel s).rest)
      × All (λ p. length p ≤ buffer_size) (copy_from_tunnel s).written
unfolding copy_from_tunnel
copy_from_tunnel_sound s h = copy_rounds-IsSound (suc (length s)) s h

-- The fuel suffices: on no input does the loop stop for want of rounds.
resume-ending :
    (later : Bytes → Copied) (s : Bytes) (r : Round)
    → ((t : Bytes) → length t < length s → (later t).ending ≢ waiting)
    → read_round s ≡ r
    → (resume later r).ending ≢ waiting
unfolding resume
resume-ending later s (failure x) ih q e = cc
resume-ending later s (end_of_stream rest) ih q e = cc
resume-ending later s (write p rest) ih q e = ih rest (read_round-shorter s p rest q) e

copy_rounds-ending :
    (fuel : ℕ) (s : Bytes) → length s < fuel → (copy_rounds fuel s).ending ≢ waiting
unfolding copy_rounds
copy_rounds-ending zero s h = elim h [ ]
copy_rounds-ending (suc fuel) s h =
    resume-ending (copy_rounds fuel) s (read_round s)
      (λ t l. copy_rounds-ending fuel t (omega arith)) refl

-- The reading loop ends on every input, by an end frame or by an exception.
pub copy_from_tunnel_ends : (s : Bytes) → (copy_from_tunnel s).ending ≢ waiting
unfolding copy_from_tunnel
copy_from_tunnel_ends s = copy_rounds-ending (suc (length s)) s (omega arith)
