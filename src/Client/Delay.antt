-- ===== src/Client/Delay.antt =====
-- `_server_restart_delay`: how long a client waits when the server restarts.
use py_frp.Base.{ℕ, ◌+◌, ◌*◌, ◌^◌, Bool, true, false, ◌||◌, not, Option, none, some, if◌then◌else◌}
use py_frp.Base.Int.{ℤ, pos, negsuc, neg_ℕ, ltb_ℤ}
use py_frp.Value.{Float, finite, inf, neg_inf, nan, Value, Fields, bool, int, get_value}
use py_frp.Config.Fields.{to_float, not_positive}
use py_frp.Client.State.{Failure, other, restarting, Python}

unfoldable pub scale : ℤ → ℕ → ℤ
scale (pos m) k = pos (m * 2 ^ k)
scale (negsuc m) k = neg_ℕ ((m + 1) * 2 ^ k)

-- `x < y`; no comparison with a NaN holds.
unfoldable pub lt_float : Float → Float → Bool
unfolding scale
lt_float nan y = false
lt_float x nan = false
lt_float inf y = false
lt_float neg_inf neg_inf = false
lt_float neg_inf y = true
lt_float (finite m k) neg_inf = false
lt_float (finite m k) inf = true
lt_float (finite m k) (finite n j) = ltb_ℤ (scale m j) (scale n k)

unfoldable pub is_finite : Float → Bool
is_finite (finite m k) = true
is_finite _ = false

-- `max(x, y)`
unfoldable pub max_float : Float → Float → Float
unfolding lt_float
max_float x y = if lt_float x y then y else x

-- What the suggested delay comes to.
unfoldable pub delay_of : Float → Option Float → Float
unfolding is_finite not_positive max_float
delay_of reconnect_delay none = reconnect_delay
delay_of reconnect_delay (some suggested) =
    if not (is_finite suggested) || not_positive suggested
    then reconnect_delay
    else max_float reconnect_delay suggested

-- `float(raw)` of an integer may raise `OverflowError`, which is not caught here.
unfoldable pub integer_delay : Float → Option Float → Failure
unfolding delay_of
integer_delay reconnect_delay none = other
integer_delay reconnect_delay (some suggested) =
    restarting (delay_of reconnect_delay (some suggested))

unfoldable pub suggested_delay : Python → Float → Value → Failure
unfolding integer_delay to_float
suggested_delay python reconnect_delay (bool b) = restarting reconnect_delay
suggested_delay python reconnect_delay (int n) = integer_delay reconnect_delay (python.float_of n)
suggested_delay python reconnect_delay v =
    restarting (delay_of reconnect_delay (to_float python.parse_float v))

-- The exception that `server_restarting` raises: `_server_restart_delay(message, reconnect_delay)`.
unfoldable pub restart_delay : Python → Float → Fields → Failure
unfolding suggested_delay get_value
restart_delay python reconnect_delay m =
    suggested_delay python reconnect_delay (get_value "retry_after" m)
