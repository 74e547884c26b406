-- ===== src/Tests/Restarts.antt =====
-- Restarts: src/py_frp/update.py, src/py_frp/restart.py and src/py_frp/cli.py.
use py_frp.Base.{ℕ, sym, ◌∙◌, ◌≡◌, ◌≢◌, refl, Bool, true, Option, none, some, List, [], ◌∷◌}
use py_frp.Base.Int.{ℤ, pos}
use py_frp.Base.Texts.{Text, txt, upper}
use py_frp.Base.Dict.{Dict, get}
use py_frp.Base.Result.{Result, ok}
use py_frp.Value.{finite}
use py_frp.Channel.{Channel, restart_state, is_supervised_child}
use py_frp.Fingerprint.{normalize_fingerprint}
use py_frp.Client.State.{Client, new_client}
use py_frp.Command.Options.{configless_server}
use py_frp.Restart.Closing.{IsEmptied, run_server_until_update-IsEmptied}
use py_frp.Restart.Runtime.{ChildEnd, going, exits, run_server_until_update}
use py_frp.Update.{
  VersionChange, WatchError, running, VersionTick, readings, suppressed_target,
  wait_for_version_change,
}
use py_frp.Update.Watch.{Awaited, wait_for_version_change-Awaited}
use py_frp.Supervisor.Monitor.{child_restart_exit_code}
use py_frp.Restart.Request.{Process}
use py_frp.Restart.Tls.{ServerTls, restored_tls_material}
use py_frp.Restart.Children.{
  restart_client, restart_server, pool_token_env, restart_server_fingerprint_env,
}
use py_frp.Link.Restarts.{next_environment, restart_client-trusts}
use py_frp.Link.ServerRestarts.{restart_server-configless}
use py_frp.Tests.Clients.{calm}
use py_frp.Tests.Links.{ascii_python, carol, home}
use py_frp.Tests.Children.{
  child_environment, child_environment-generation, child_environment-IsDict, empty_channel,
}
use py_frp.Tests.Starts.{drawn, server_args, started_server, fresh_server, starts_server}

abbrev ticks : List VersionTick
ticks =
    record { channel = empty_channel; installed = some (txt "1.0") }
    ∷ record { channel = empty_channel; installed = some (txt "2.0") }
    ∷ []

wait_for_version_change-Awaited_example :
    Awaited
      (txt "1.0")
      (suppressed_target (is_supervised_child []) (txt "1.0") [])
      (readings (is_supervised_child []) [] ticks)
      (wait_for_version_change (txt "1.0") (finite (pos 5) 0) [] ticks)
unfolding py_frp.Config.Fields.not_positive
wait_for_version_change-Awaited_example =
    wait_for_version_change-Awaited (txt "1.0") (finite (pos 5) 0) [] ticks refl

-- A child of generation "g".
abbrev child : Process
child = record { environment = child_environment; channel = empty_channel }

abbrev trusted_text : Text
trusted_text =
    txt
      "SHA256:AB:00:00:00:00:00:00:00:00:00:00:00:00:00:00:00:00:00:00:00:00:00:00:00:00:00:00:00:00:00:00:FF"

trusted_text-normal : normalize_fingerprint upper trusted_text ≡ some trusted_text
unfolding normalize_fingerprint upper
trusted_text-normal = refl

restart_client-trusts_example :
    ((restart_client (txt "2.0") (record carol { trusted = some trusted_text }) child).0
      ≡ ok child_restart_exit_code)
    × ((passed : Dict Text) × (restart_state
            (txt "g")
            (restart_client
              (txt "2.0")
              (record carol { trusted = some trusted_text })
              child).1.channel
          ≡ some (record { target_version = txt "2.0"; environment = passed }))
        × ((root next : Text) (channel : Channel) (force : Bool) (priority : ℤ)
            → (d : Client) × (new_client ascii_python
                  (get restart_server_fingerprint_env
                    (next_environment [] passed root next channel))
                  home
                  force
                  priority
                ≡ ok d)
              × (d.trusted ≡ some trusted_text)))
restart_client-trusts_example =
    restart_client-trusts (txt "g") (txt "2.0") trusted_text []
      (record carol { trusted = some trusted_text }) child
      (child_environment-generation, child_environment-IsDict) refl (λ h. cc) ascii_python
      trusted_text-normal home refl

-- A code of bytes as code points in place of Base64.
abbrev coded : List ℕ → Text
coded bytes = 66 ∷ bytes

abbrev uncoded : Text → Option (List ℕ)
uncoded [] = none
uncoded (c ∷ cs) = some cs

abbrev material : ServerTls
material = record { certificate = 1 ∷ 2 ∷ []; private_key = 3 ∷ [] }

restart_server-configless_example :
    ((restart_server coded calm (txt "2.0") (some material) fresh_server child).0
      ≡ ok child_restart_exit_code)
    × ((passed : Dict Text) × (restart_state
            (txt "g")
            (restart_server coded calm (txt "2.0") (some material) fresh_server child).1.channel
          ≡ some (record { target_version = txt "2.0"; environment = passed }))
        × ((root next : Text) (channel : Channel)
            → (configless_server
                  (record drawn {
                    preserved_token =
                        get pool_token_env (next_environment [] passed root next channel);
                  })
                  server_args
                ≡ ok started_server)
              × (restored_tls_material uncoded (next_environment [] passed root next channel)
                  ≡ ok (some material))))
restart_server-configless_example =
    restart_server-configless drawn server_args coded uncoded calm (txt "g") (txt "2.0") [] material
      fresh_server child (child_environment-generation, child_environment-IsDict) starts_server
      (λ bytes. refl) (λ h. cc) (λ h. cc)

abbrev newer : Result WatchError (Option VersionChange)
newer = ok (some (record { previous = txt "1.0"; current = txt "2.0" }))

restarts_child :
    (run_server_until_update {Raised = Text} coded calm
      (some material)
      true
      running
      newer
      fresh_server
      child).0
    ≡ exits (pos 75)
unfolding run_server_until_update py_frp.Channel.child_generation
restarts_child = refl

abbrev exits_with : ℤ → ChildEnd Text
exits_with code = exits code

not_going : (code : ℤ) → exits_with code ≢ going
not_going code h = cc

restarts :
    (run_server_until_update {Raised = Text} coded calm
      (some material)
      true
      running
      newer
      fresh_server
      child).0
    ≢ going
restarts h = not_going (pos 75) (sym restarts_child ∙ h)

run_server_until_update-IsEmptied_example :
    IsEmptied
      (run_server_until_update {Raised = Text} coded calm
        (some material)
        true
        running
        newer
        fresh_server
        child).2
run_server_until_update-IsEmptied_example =
    run_server_until_update-IsEmptied {Raised = Text} coded calm (some material) fresh_server child
      true running newer restarts
