-- ===== src/Command/Address.antt =====
-- `_split_host_port`, `_port` and `_positive_float` of the command line.
use mathlib.Core.Option
use py_frp.Base.{ℕ, ◌&&◌, Option, none, some, [], ◌∷◌, is_empty, if◌then◌else◌, leb, ◌==◌}
use py_frp.Base.Int.{ℤ, pos, negsuc}
use py_frp.Base.Texts.{Text, txt, strip, starts_with, rpartition, int_of_text}
use py_frp.Base.Result.{Result, ok, err, ◌>>=◌}
use py_frp.Value.{Float}
use py_frp.Config.Fields.{ConfigError, config, not_positive}

unfoldable pub checked_port : Option ℤ → Result ConfigError ℕ
checked_port none = err (config "port is not an integer")
checked_port (some (negsuc n)) = err (config "port is outside the valid range")
checked_port (some (pos n)) =
    if leb 1 n && leb n 65535 then ok n else err (config "port is outside the valid range")

-- `_port(value)`
unfoldable pub argument_port : Text → Result ConfigError ℕ
unfolding checked_port int_of_text
argument_port value = checked_port (int_of_text value)

-- `host[1:] if host.startswith("[") else host`
unfoldable pub unbracketed : Text → Text
unbracketed [] = []
unbracketed (c ∷ cs) = if c == b'[' then cs else c ∷ cs

-- The host, or the default, and the port of the parts of an address.
unfoldable pub address_of : Text → Option (Text × Text) → Result ConfigError (Text × ℕ)
unfolding argument_port
address_of default_host none = err (config "address must include a port")
address_of default_host (some (host, port_text)) = do
  p ← argument_port port_text
  ok ((if is_empty host then default_host else host), p)

unfoldable pub address_parts : Text → Option (Text × Text)
unfolding rpartition starts_with unbracketed
address_parts text =
    if starts_with text (txt "[")
    then Option.map (λ (r : Text × Text). (unbracketed r.0, r.1)) (rpartition (txt "]:") text)
    else rpartition (txt ":") text

-- `_split_host_port(value, default_host=default_host)`
unfoldable pub split_host_port : Text → Text → Result ConfigError (Text × ℕ)
unfolding address_of address_parts strip
split_host_port default_host value = address_of default_host (address_parts (strip value))

-- `_positive_float(value, label)`
unfoldable pub positive_argument : Float → Result ConfigError Float
unfolding not_positive
positive_argument x =
    if not_positive x then err (config "value must be greater than zero") else ok x
