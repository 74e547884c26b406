-- ===== src/Client/Tunnels.antt =====
-- `_open_tunnel`: the client's answer to an `open` message.
use py_frp.Base.{Bool, Option, none, some, [], ◌∷◌, is_empty, if◌then◌else◌}
use py_frp.Base.Texts.{Text, txt}
use py_frp.Base.Dict
use py_frp.Base.Result.{Result, ok, err}
use py_frp.Value.{Value, Fields, str, of_fields, get_value, text_or_empty}
use py_frp.Config.Types.{ProxyConfig}
use py_frp.Config.Fields.{text_value}
use py_frp.Server.Register.{text_or}
use py_frp.Client.State.{Client, Failure, Python, Peer, Answer}
use py_frp.Client.Trust.{open_server_connection}

-- What happens to one tunnel: the text of the error of the local connection, or none when it is made;
-- the connection to the server; whether the message can be written; and the time.
pub record Dial : Type 0 where
  pub local_error : Option Text
  pub peer : Peer
  pub trust_answer : Answer
  pub writes : Bool
  pub time : Value

-- How far the task comes: no proxy, no connection to the server, no message, a message that reports
-- the local error, or the copying of the streams.
pub data TunnelEnd : Type 0 where
  unknown : TunnelEnd
  unconnected : Failure → TunnelEnd
  unwritten : TunnelEnd
  reported relayed : Fields → TunnelEnd

unfoldable pub tunnel_message : Client → ProxyConfig → Text → Text → Dial → Fields
unfolding text_or
tunnel_message c proxy id service d = of_fields (
    (txt "type", str (txt "tunnel"))
    ∷ (txt "id", str id)
    ∷ (txt "service", str service)
    ∷ (txt "token", text_value (text_or proxy.token c.config.token))
    ∷ (txt "error", text_value d.local_error)
    ∷ (txt "time", d.time)
    ∷ [])

unfoldable pub write_tunnel : Fields → Dial → TunnelEnd
write_tunnel m d =
    if d.writes then (elim d.local_error [ none ↦ relayed m | some e ↦ reported m ]) else unwritten

unfoldable pub dialled :
    Client → ProxyConfig → Text → Text → Dial → Result Failure Client → TunnelEnd × Client
unfolding write_tunnel tunnel_message
dialled c proxy id service d (err f) = (unconnected f, c)
dialled c proxy id service d (ok c') = (write_tunnel (tunnel_message c' proxy id service d) d, c')

unfoldable pub dial : Python → Client → Text → Text → Dial → Option ProxyConfig → TunnelEnd × Client
unfolding dialled open_server_connection
dial python c id service d none = (unknown, c)
dial python c id service d (some proxy) =
    if is_empty id
    then (unknown, c)
    else dialled c proxy id service d (open_server_connection python d.peer d.trust_answer c)

-- `_open_tunnel(message)`
unfoldable pub open_tunnel : Python → Fields → Dial → Client → TunnelEnd × Client
unfolding dial text_or_empty get_value Dict.get
open_tunnel python m d c =
    let id = text_or_empty python.repr (get_value "id" m) in
    let service = text_or_empty python.repr (get_value "service" m) in
    dial python c id service d (Dict.get service c.proxies)
