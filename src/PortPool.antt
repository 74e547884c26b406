-- ===== src/PortPool.antt =====
-- src/py_frp/pool.py: the ports of a server's pool, ports and ranges separated by commas in each
-- value of `--port-pool`.
pub mod Ports
pub mod Repetitions
pub mod Mentions
use py_frp.Base.{
  ℕ, zero, suc, ◌+◌, ◌-◌, Option, none, some, List, [], ◌∷◌, ◌++◌, ◌&&◌, leb, ltb, contains,
  is_empty, if◌then◌else◌,
}
use py_frp.Base.Int.{ℤ, pos, negsuc}
use py_frp.Base.Texts.{Text, strip, split, split_once, int_of_text}
use py_frp.Base.Result.{Result, ok, err, ◌>>=◌}

-- The messages of `ConfigError`.
pub data PoolError : Type 0 where
  not_integer outside_range descending_range no_port : PoolError

check_port : Option ℤ → Result PoolError ℕ
check_port none = err not_integer
check_port (some (negsuc n)) = err outside_range
check_port (some (pos n)) = if leb 1 n && leb n 65535 then ok n else err outside_range

-- `_port`
unfoldable pub port : Text → Result PoolError ℕ
unfolding check_port
port t = check_port (int_of_text t)

-- `range(start, start + count)`
unfoldable pub range : ℕ → ℕ → List ℕ
range zero start = []
range (suc count) start = start ∷ range count (start + 1)

port_range : ℕ → ℕ → Result PoolError (List ℕ)
port_range start last =
    if ltb last start then err descending_range else ok (range (last + 1 - start) start)

item_candidates : Text → Option (Text × Text) → Result PoolError (List ℕ)
unfolding port_range
item_candidates item (some (start_text, end_text)) = do
  start ← port start_text
  last ← port end_text
  port_range start last
item_candidates item none = do p ← port item; ok (p ∷ [])

-- The ports of one item, `6000` or `6000-6010`.
unfoldable pub candidates : Text → Result PoolError (List ℕ)
unfolding item_candidates
candidates item = item_candidates item (split_once b'-' item)

-- The inner loop, with `seen` as the ports that are in the list.
unfoldable pub add_ports : List ℕ → List ℕ → List ℕ
add_ports ports [] = ports
add_ports ports (p ∷ ps) = add_ports (if contains ports p then ports else ports ++ p ∷ []) ps

-- The ports of one part between commas; an empty part is skipped.
unfoldable pub part_candidates : Text → Result PoolError (List ℕ)
unfolding candidates
part_candidates part = if is_empty (strip part) then ok [] else candidates (strip part)

parse_parts : List ℕ → List Text → Result PoolError (List ℕ)
parse_parts ports [] = ok ports
parse_parts ports (part ∷ parts) = do
  cs ← part_candidates part
  parse_parts (add_ports ports cs) parts

parse_values : List ℕ → List Text → Result PoolError (List ℕ)
unfolding parse_parts
parse_values ports [] = ok ports
parse_values ports (value ∷ values) = do
  more ← parse_parts ports (split b',' value)
  parse_values more values

unfoldable pub nonempty : List ℕ → Result PoolError (List ℕ)
nonempty ports = if is_empty ports then err no_port else ok ports

unfoldable pub parse_port_pools : List Text → Result PoolError (List ℕ)
unfolding parse_values parse_parts nonempty part_candidates add_ports
parse_port_pools values = do ports ← parse_values [] values; nonempty ports
