-- ===== src/Protocol/Messages.antt =====
-- `read_message` and `write_message`: a JSON object and a newline. The JSON text of an object is the
-- library's: `loads` is `json.loads(line.decode("utf-8"))`, `none` where either raises, and `dumps`
-- is the compact `json.dumps(…).encode("utf-8")` of texts without lone surrogates. The reader is
-- asyncio's `StreamReader` with its default limit, since neither side passes one: `readline` raises
-- `ValueError` when a line has more bytes than the limit before its newline.
use py_frp.Base.{
  ℕ, ◌≤◌, ◌<◌, ◌≡◌, ◌≢◌, refl, ap, Option, none, some, [], ◌∷◌, ◌++◌, arith, length, All,
  length-append, leb, ltb, if◌then◌else◌,
}
use py_frp.Base.Texts.{split_once}
use py_frp.Value.{Value, Fields, dict}
use py_frp.Protocol.Frames.{Bytes}

pub record Json : Type 0 where
  pub loads : Bytes → Option Value
  pub dumps : Fields → Bytes

-- MAX_MESSAGE_BYTES
abbrev pub max_message_bytes : ℕ
max_message_bytes = 1048576

-- The limit of a `StreamReader` that is made without one.
abbrev pub reader_limit : ℕ
reader_limit = 65536

pub data Line : Type 0 where
  line : Bytes → Bytes → Line
  overrun : Bytes → Line

take_line : Bytes → Option (Bytes × Bytes) → Line
take_line s none = if leb (length s) reader_limit then line s [] else overrun []
take_line s (some (l, rest)) =
    if leb (length l) reader_limit then line (l ++ b'\n' ∷ []) rest else overrun rest

-- `await reader.readline()`: the line with its newline, or what is left at the end of input, and
-- the bytes behind it. A line over the limit is dropped, and the bytes behind it stay.
unfoldable pub readline : Bytes → Line
unfolding split_once take_line
readline s = take_line s (split_once b'\n' s)

-- What `read_message` does: a message, `None` at the end of input, or an exception.
pub data Reading : Type 0 where
  message : Fields → Reading
  closed : Reading
  too_long not_json not_object value_error : Reading

as_message : Option Value → Reading
as_message none = not_json
as_message (some (dict fs)) = message fs
as_message (some _) = not_object

read_line : Json → Line → Reading × Bytes
unfolding as_message
read_line j (overrun rest) = (value_error, rest)
read_line j (line [] rest) = (closed, rest)
read_line j (line (b ∷ bs) rest) = (
  if ltb max_message_bytes (length (b ∷ bs)) then too_long else as_message (j.loads (b ∷ bs)),
  rest,
)

unfoldable pub read_message : Json → Bytes → Reading × Bytes
unfolding read_line readline
read_message j s = read_line j (readline s)

-- The bytes written for a message; `none` is `ProtocolError`.
unfoldable pub write_message : Json → Fields → Option Bytes
write_message j m =
    if ltb max_message_bytes (length (j.dumps m)) then none else some (j.dumps m ++ b'\n' ∷ [])

-- What a message needs of the JSON library: its text has no raw newline, and decoding undoes encoding.
pub record IsCodec (j : Json) (m : Fields) : Type 0 where
  pub one_line : All (λ b. b ≢ b'\n') (j.dumps m)
  pub loads-dumps : j.loads (j.dumps m ++ b'\n' ∷ []) ≡ some (dict m)

split_once-line :
    (l rest : Bytes)
    → All (λ b. b ≢ b'\n') l
    → split_once b'\n' (l ++ b'\n' ∷ rest) ≡ some (l, rest)
unfolding split_once
split_once-line [] rest h = refl
split_once-line (b ∷ l) rest h = ground (arith, split_once-line l rest h.1)

append-newline : (l rest : Bytes) → (l ++ b'\n' ∷ []) ++ rest ≡ l ++ b'\n' ∷ rest
append-newline [] rest = refl
append-newline (b ∷ l) rest = ap (λ (t : Bytes). b ∷ t) (append-newline l rest)

readline-line :
    (l rest : Bytes)
    → All (λ b. b ≢ b'\n') l
    → readline ((l ++ b'\n' ∷ []) ++ rest)
      ≡ (if leb (length l) reader_limit then line (l ++ b'\n' ∷ []) rest else overrun rest)
unfolding readline take_line
readline-line l rest h = rw (append-newline l rest, split_once-line l rest h) refl

read_line-line :
    (j : Json) (l rest : Bytes)
    → length l ≤ reader_limit
    → read_line j (line (l ++ b'\n' ∷ []) rest) ≡ (as_message (j.loads (l ++ b'\n' ∷ [])), rest)
unfolding read_line
read_line-line j [] rest h = refl
read_line-line j (b ∷ l) rest h = ground (arith, length-append l (b'\n' ∷ []))

module _ (j : Json) (m : Fields) (codec : IsCodec j m) where
  -- Where the library decodes the text of a message to the message, and the text has no raw newline: a
  -- message whose text has at most 65536 bytes is written, and the peer reads the same message and
  -- leaves what follows.
  pub read_message-write_message :
      (rest : Bytes)
      → length (j.dumps m) ≤ reader_limit
      → (text : Bytes) × (write_message j m ≡ some text)
        × (read_message j (text ++ rest) ≡ (message m, rest))
  unfolding read_message write_message as_message
  read_message-write_message rest h = (
    j.dumps m ++ b'\n' ∷ [],
    ground arith,
    ground (
      arith,
      readline-line (j.dumps m) rest codec.one_line,
      read_line-line j (j.dumps m) rest,
      codec.loads-dumps,
    ),
  )

  -- Where the library decodes the text of a message to the message, and the text has no raw newline: a
  -- message whose text has more than 65536 bytes and at most 1 MiB is written without an error, and
  -- the peer that reads it raises `ValueError`.
  pub read_message_overrun :
      (rest : Bytes)
      → reader_limit < length (j.dumps m)
      → length (j.dumps m) ≤ max_message_bytes
      → (text : Bytes) × (write_message j m ≡ some text)
        × ((read_message j (text ++ rest)).0 ≡ value_error)
  unfolding read_message write_message read_line
  read_message_overrun rest h k = (
    j.dumps m ++ b'\n' ∷ [],
    ground arith,
    ground (arith, readline-line (j.dumps m) rest codec.one_line),
  )
