-- ===== src/Channel/Generations.antt =====
-- A file that one generation wrote says nothing to another.
use py_frp.Base.{◌≡◌, arith, not, ◌&&◌, none, some, if◌then◌else◌, is_empty}
use py_frp.Base.Int.{ℤ}
use py_frp.Base.Texts.{Text, text_eq}
use py_frp.Base.Dict.{Dict}
use py_frp.Value.{get_value, is_str}
use py_frp.Channel.{
  Channel, child_generation, publish_child_status, publish_status, child_status, read_status,
  payload_of, request_restart, supervisor_restart_target, command_target, target_of,
}

-- What a child of generation `g` publishes is its status to a supervisor that asks for `g`, and
-- nothing to one that asks for another generation.
pub child_status-publish :
    (g h : Text) (env : Dict Text) (pid : ℤ) (version : Text) (channel : Channel)
    → child_generation env ≡ some g
    → child_status h (publish_child_status env pid version channel)
      ≡ (if text_eq g h then some (record { version = version; pid = pid }) else none)
unfolding child_status publish_child_status publish_status payload_of read_status get_value text_eq
child_status-publish g h env pid version channel known = rw known (ground arith)

-- A restart that is requested of generation `h` reaches a child of generation `g` exactly when they
-- are the same and the target version is not empty.
pub supervisor_restart_target-request :
    (g h : Text) (env : Dict Text) (target : Text) (channel : Channel)
    → child_generation env ≡ some g
    → supervisor_restart_target env (request_restart h target channel)
      ≡ (if text_eq h g && not (is_empty target) then some target else none)
unfolding supervisor_restart_target request_restart command_target target_of payload_of get_value
    is_str text_eq
supervisor_restart_target-request g h env target channel known = rw known (ground arith)
