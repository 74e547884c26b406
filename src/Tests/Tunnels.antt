-- ===== src/Tests/Tunnels.antt =====
-- The frames and messages of src/py_frp/protocol.py.
use py_frp.Base.{
  ℕ, zero, suc, ◌≤◌, ◌<◌, ◌≡◌, ◌≢◌, refl, some, List, [], ◌∷◌, ◌++◌, arith, length, take, All, map,
  none, some,
}
use py_frp.Base.Texts.{txt}
use py_frp.Value.{Fields, dict, str, field, end}
use py_frp.Protocol.Relay.{Wake, woken, relay, both_running, Relayed, relay_lem}
use py_frp.Protocol.Frames.{
  raised, connection_error, Bytes, chunk, returned, waiting, copy_to_tunnel, copy_from_tunnel,
  buffer_size, eof_frame,
}
use py_frp.Protocol.RoundTrip.{
  IsChunk, frames, copy_from_tunnel-copy_to_tunnel, copy_from_tunnel_sound, copy_from_tunnel_ends,
}
use py_frp.Protocol.Truncation.{IsCut, copy_from_tunnel-IsCut}
use py_frp.Protocol.Messages.{
  Json, IsCodec, read_message, write_message, message, value_error, read_message-write_message,
  read_message_overrun,
}

abbrev two_chunks : List Bytes
two_chunks = (1 ∷ 2 ∷ []) ∷ (3 ∷ []) ∷ []

two_chunks-IsChunk : All IsChunk two_chunks
two_chunks-IsChunk = (((λ e. cc), omega arith), (((λ e. cc), omega arith), tt))

copy_from_tunnel-copy_to_tunnel_example :
    copy_from_tunnel ((copy_to_tunnel (map chunk two_chunks ++ chunk [] ∷ [])).0 ++ 9 ∷ [])
    ≡ record { written = two_chunks; ending = returned; rest = 9 ∷ [] }
copy_from_tunnel-copy_to_tunnel_example =
    copy_from_tunnel-copy_to_tunnel two_chunks (9 ∷ []) two_chunks-IsChunk

copy_from_tunnel-IsCut_example :
    IsCut two_chunks
      (copy_from_tunnel (take 9 (copy_to_tunnel (map chunk two_chunks ++ chunk [] ∷ [])).0))
unfolding copy_to_tunnel
copy_from_tunnel-IsCut_example =
    copy_from_tunnel-IsCut two_chunks 9 two_chunks-IsChunk (omega arith)

abbrev end_bytes : Bytes
end_bytes = b'E' ∷ 0 ∷ 0 ∷ 0 ∷ 0 ∷ 7 ∷ []

end_bytes-returned : (copy_from_tunnel end_bytes).ending ≡ returned
unfolding copy_from_tunnel
end_bytes-returned = refl

end_bytes-small : All (λ x. x < 256) end_bytes
end_bytes-small = ground arith

copy_from_tunnel_sound_example :
    (end_bytes
      ≡ frames (copy_from_tunnel end_bytes).written
        ++ eof_frame
        ++ (copy_from_tunnel end_bytes).rest)
    × All (λ p. length p ≤ buffer_size) (copy_from_tunnel end_bytes).written
copy_from_tunnel_sound_example = copy_from_tunnel_sound end_bytes end_bytes-small end_bytes-returned

copy_from_tunnel_ends_example : (copy_from_tunnel end_bytes).ending ≢ waiting
copy_from_tunnel_ends_example = copy_from_tunnel_ends end_bytes

abbrev ping : Fields
ping = field (txt "type") (str (txt "ping")) end

-- A library that knows one message.
abbrev ping_json : Json
ping_json = record { loads = λ _. some (dict ping); dumps = λ _. txt "{\"type\":\"ping\"}" }

ping_json-IsCodec : IsCodec ping_json ping
ping_json-IsCodec = record { one_line = ground arith; loads-dumps = refl }

read_message-write_message_example :
    (text : Bytes) × (write_message ping_json ping ≡ some text)
    × (read_message ping_json (text ++ 1 ∷ []) ≡ (message ping, 1 ∷ []))
read_message-write_message_example =
    read_message-write_message ping_json ping ping_json-IsCodec (1 ∷ []) (omega arith)

spaces : ℕ → Bytes
spaces zero = []
spaces (suc n) = 32 ∷ spaces n

length-spaces : (n : ℕ) → length (spaces n) ≡ n
unfolding spaces
length-spaces zero = refl
length-spaces (suc n) = omega (arith, length-spaces n)

spaces-one_line : (n : ℕ) → All (λ b. b ≢ b'\n') (spaces n)
unfolding spaces
spaces-one_line zero = tt
spaces-one_line (suc n) = (omega arith, spaces-one_line n)

abbrev long_json : Json
long_json = record { loads = λ _. some (dict ping); dumps = λ _. spaces 70000 }

long_json-IsCodec : IsCodec long_json ping
long_json-IsCodec = record { one_line = spaces-one_line 70000; loads-dumps = refl }

read_message_overrun_example :
    (text : Bytes) × (write_message long_json ping ≡ some text)
    × ((read_message long_json (text ++ [])).0 ≡ value_error)
read_message_overrun_example =
    read_message_overrun long_json ping long_json-IsCodec [] (omega (arith, length-spaces 70000))
      (omega (arith, length-spaces 70000))

-- One direction comes to its end, then the other one fails.
abbrev half_closed : List Wake
half_closed = woken (some returned) none ∷ woken none (some (raised connection_error)) ∷ []

relay_lem_example : Relayed (relay half_closed both_running).0 (relay half_closed both_running).1
relay_lem_example = relay_lem half_closed
