-- ===== src/Restart/Tls.antt =====
-- src/py_frp/security.py: the TLS material that a server keeps over a restart. Base64 is outside the
-- program: `encode` of bytes, and `decode` of a text, `none` where it raises an error.
use py_frp.Base.{ℕ, Option, none, some, List}
use py_frp.Base.Texts.{Text, txt}
use py_frp.Base.Dict.{Dict, get, set}
use py_frp.Base.Result.{Result, ok, err}
use py_frp.Server.Register.{text_or}

pub record ServerTls : Type 0 where
  pub certificate : List ℕ
  pub private_key : List ℕ

abbrev pub restart_cert_env : Text
restart_cert_env = txt "PY_FRP_RESTART_TLS_CERT"

abbrev pub restart_key_env : Text
restart_key_env = txt "PY_FRP_RESTART_TLS_KEY"

-- `preserve_for_restart()`
unfoldable pub preserve_for_restart : (List ℕ → Text) → ServerTls → Dict Text → Dict Text
unfolding set
preserve_for_restart encode tls environment =
    set restart_key_env (encode tls.private_key)
      (set restart_cert_env (encode tls.certificate) environment)

-- The preserved state is incomplete or invalid: `SecurityError`.
pub data TlsError : Type 0 where
  incomplete invalid : TlsError

unfoldable pub decoded : Option (List ℕ) → Option (List ℕ) → Result TlsError (Option ServerTls)
decoded (some certificate) (some private_key) =
    ok (some (record { certificate = certificate; private_key = private_key }))
decoded certificate private_key = err invalid

unfoldable pub restored :
    (Text → Option (List ℕ)) → Option Text → Option Text → Result TlsError (Option ServerTls)
unfolding decoded
restored decode none none = ok none
restored decode (some certificate) none = err incomplete
restored decode none (some private_key) = err incomplete
restored decode (some certificate) (some private_key) =
    decoded (decode certificate) (decode private_key)

-- `_restored_tls_material()`; an empty text counts as none.
unfoldable pub restored_tls_material :
    (Text → Option (List ℕ)) → Dict Text → Result TlsError (Option ServerTls)
unfolding restored text_or get
restored_tls_material decode environment =
    restored decode (text_or (get restart_cert_env environment) none)
      (text_or (get restart_key_env environment) none)
