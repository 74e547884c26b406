-- ===== src/Link/Restarts.antt =====
-- A child and the child after it: what a restart keeps.
use py_frp.Base.{
  ◌≡◌, ◌≢◌, refl, ap, ◌∙◌, Bool, true, false, Option, none, some, [], ◌∷◌, if◌then◌else◌,
}
use py_frp.Base.Int.{ℤ}
use py_frp.Base.Texts.{Text, txt, text_eq, text_eq_refl}
use py_frp.Base.Dict.{Dict, get, set, pop, get-set, get-pop, IsDict, set-IsDict}
use py_frp.Base.Result.{ok, err}
use py_frp.Config.Types.{ClientConfig}
use py_frp.Channel.{
  Channel, child_generation, is_supervised_child, is_restart_key, publish_restart_state,
  restart_state, replace_restart_environment, prepare_child_environment, supervised_child_env,
  supervisor_root_env, supervisor_generation_env, publish_state,
}
use py_frp.Channel.Handover.{handover}
use py_frp.Fingerprint.{normalize_fingerprint}
use py_frp.Client.Trust.{fingerprint_for_restart}
use py_frp.Client.State.{Client, Python, new_client, trusted_at_start, started}
use py_frp.Server.Register.{text_or}
use py_frp.Supervisor.Monitor.{child_restart_exit_code}
use py_frp.Restart.Request.{Process, no_supervisor, request_restart, restart_target_version_env}
use py_frp.Restart.Tls.{restart_cert_env, restart_key_env}
use py_frp.Restart.Children.{
  restart_client, restart_trusted, pool_token_env, restart_server_fingerprint_env,
}

-- A child that runs under a generation of its supervisor, with one value to each variable.
abbrev pub RunsUnder : Text → Process → Type 0
RunsUnder generation p = (child_generation p.environment ≡ some generation) × IsDict p.environment

-- The environment of the next child of a supervisor whose own environment is `base`, when the child
-- before it has returned `passed`.
abbrev pub next_environment : Dict Text → Dict Text → Text → Text → Channel → Dict Text
next_environment base passed root generation channel =
    (prepare_child_environment root
      (pop restart_target_version_env (replace_restart_environment base passed)) generation
      channel).0

-- A restart variable other than the target version.
abbrev pub IsPassed : Text → Type 0
IsPassed k =
    (is_restart_key k ≡ true)
    × (text_eq restart_target_version_env k ≡ false)
    × (text_eq supervised_child_env k ≡ false)
    × (text_eq supervisor_root_env k ≡ false)
    × (text_eq supervisor_generation_env k ≡ false)

pub token-IsPassed : IsPassed pool_token_env
unfolding is_restart_key text_eq
token-IsPassed = (refl, refl, refl, refl, refl)

fingerprint-IsPassed : IsPassed restart_server_fingerprint_env
unfolding is_restart_key text_eq
fingerprint-IsPassed = (refl, refl, refl, refl, refl)

pub cert-IsPassed : IsPassed restart_cert_env
unfolding is_restart_key text_eq
cert-IsPassed = (refl, refl, refl, refl, refl)

pub key-IsPassed : IsPassed restart_key_env
unfolding is_restart_key text_eq
key-IsPassed = (refl, refl, refl, refl, refl)

-- The variables by which a child knows its supervisor.
abbrev pub IsOther : Text → Type 0
IsOther k =
    (text_eq k supervised_child_env ≡ false)
    × (text_eq k supervisor_root_env ≡ false)
    × (text_eq k supervisor_generation_env ≡ false)

pub get-other : (k j v : Text) (d : Dict Text) → text_eq k j ≡ false → get j (set k v d) ≡ get j d
get-other k j v d h = get-set k j v d ∙ ap (λ (b : Bool). if b then some v else get j d) h

child_generation-set :
    (k v : Text) (d : Dict Text) → IsOther k → child_generation (set k v d) ≡ child_generation d
unfolding child_generation is_supervised_child
child_generation-set k v d (f, g, h) =
    rw
      (
        get-other k supervised_child_env v d f,
        get-other k supervisor_root_env v d g,
        get-other k supervisor_generation_env v d h,
      )
      refl

pub RunsUnder-set :
    (generation k v : Text) (p : Process)
    → IsOther k
    → RunsUnder generation p
    → RunsUnder generation (record p { environment = set k v p.environment })
RunsUnder-set generation k v p o (g, u) =
    (child_generation-set k v p.environment o ∙ g, set-IsDict k v p.environment u)

-- What the supervisor finds when `p` has asked for a restart and is `q`, and the next child after it.
abbrev pub IsHandedOver : Text → Text → Dict Text → Process → Process → Type 0
IsHandedOver generation version base p q =
    (passed : Dict Text) × (restart_state generation q.channel
      ≡ some (record { target_version = version; environment = passed }))
    × ((k : Text)
        → IsPassed k
        → (root next : Text) (channel : Channel)
        → get k (next_environment base passed root next channel) ≡ get k p.environment)

published :
    (generation version : Text) (environment : Dict Text) (channel : Channel)
    → child_generation environment ≡ some generation
    → (publish_restart_state environment version channel).0 ≡ true
unfolding publish_restart_state publish_state
published generation version environment channel known = rw known refl

get-prepared :
    (k root next : Text) (d : Dict Text) (channel : Channel)
    → IsPassed k
    → get k (prepare_child_environment root d next channel).0 ≡ get k d
unfolding prepare_child_environment
get-prepared k root next d channel (r, t, c, o, g) =
    get-other supervisor_generation_env k next _ g
    ∙ get-other supervisor_root_env k root _ o
    ∙ get-other supervised_child_env k (txt "1") d c

get-popped :
    (k : Text) (d : Dict Text) → IsPassed k → get k (pop restart_target_version_env d) ≡ get k d
get-popped k d (r, t, c, o, g) =
    get-pop restart_target_version_env k d ∙ ap (λ (b : Bool). if b then none else get k d) t

version-IsOther : IsOther restart_target_version_env
unfolding text_eq
version-IsOther = (refl, refl, refl)

handed :
    (generation version : Text) (base environment : Dict Text) (p : Process)
    → environment ≡ set restart_target_version_env version p.environment
    → child_generation environment ≡ some generation
    → IsDict environment
    → IsHandedOver generation version base p (record {
      environment = environment;
      channel = (publish_restart_state environment version p.channel).1;
    })
handed generation version base environment p same known unique =
    let (passed, state, kept) =
      handover generation base environment p.channel version known unique in
    (
      passed,
      state,
      λ k h root next channel.
          get-prepared k root next _ channel h
          ∙ get-popped k (replace_restart_environment base passed) h
          ∙ kept k
          ∙ ap (λ (b : Bool). if b then get k environment else get k base) h.0
          ∙ ap (get k) same
          ∙ get-other restart_target_version_env k version p.environment h.1,
    )

pub request_restart-IsHandedOver :
    (generation version : Text) (base : Dict Text) (p : Process)
    → RunsUnder generation p
    → ((request_restart version p).0 ≡ ok child_restart_exit_code)
      × IsHandedOver generation version base p (request_restart version p).1
unfolding request_restart
request_restart-IsHandedOver generation version base p r =
    let (known, unique) =
      RunsUnder-set generation restart_target_version_env version p version-IsOther r in
    let environment = set restart_target_version_env version p.environment in
    (
      ap (λ (b : Bool). if b then ok child_restart_exit_code else err no_supervisor)
          (published generation version environment p.channel known),
      handed generation version base environment p refl known unique,
    )

fingerprint-IsOther : IsOther restart_server_fingerprint_env
unfolding text_eq
fingerprint-IsOther = (refl, refl, refl)

-- The fingerprint that the next client reads.
pub set-get : (k v : Text) (d : Dict Text) → get k (set k v d) ≡ some v
set-get k v d = get-set k k v d ∙ ap (λ (b : Bool). if b then some v else get k d) (text_eq_refl k)

restart_client_lem :
    (version t : Text) (c : Client) (p : Process)
    → c.trusted ≡ some t
    → restart_client version c p
      ≡ request_restart version
          (record p { environment = set restart_server_fingerprint_env t p.environment })
unfolding restart_client restart_trusted fingerprint_for_restart
restart_client_lem version t c p h = rw (h, restart_client) refl

at_start :
    (python : Python) (t : Text)
    → normalize_fingerprint python.upper t ≡ some t
    → trusted_at_start python (some t) ≡ ok (some t)
unfolding trusted_at_start
at_start python t h = rw (h, trusted_at_start) refl

text_or-full : (t : Text) → t ≢ [] → text_or none (text_or (some t) none) ≡ some t
unfolding text_or
text_or-full [] n = absurd (n refl)
text_or-full (c ∷ cs) n = refl

new_client-kept :
    (python : Python) (t : Text) (o : Option Text) (config : ClientConfig) (force : Bool)
    (priority : ℤ)
    → o ≡ some t
    → t ≢ []
    → normalize_fingerprint python.upper t ≡ some t
    → config.server_fingerprint ≡ none
    → (d : Client) × (new_client python o config force priority ≡ ok d) × (d.trusted ≡ some t)
unfolding new_client trusted_at_start started
new_client-kept python t o config force priority e full normal none_given = (
  _,
  ap (λ a. started config force priority (trusted_at_start python (text_or a (text_or o none))))
        none_given
      ∙ ap
          (λ a.
            started config force priority (trusted_at_start python (text_or none (text_or a none))))
          e
      ∙ ap (λ a. started config force priority (trusted_at_start python a)) (text_or-full t full)
      ∙ ap (started config force priority) (at_start python t normal),
  refl,
)

-- A client that trusts a fingerprint and runs under a supervisor asks for the restart with the exit code
-- 75, and its supervisor finds the new version; the next child, started with no fingerprint of its own,
-- trusts the same fingerprint from the start, if that is a normalized one.
pub restart_client-trusts :
    (generation version t : Text) (base : Dict Text) (c : Client) (p : Process)
    → RunsUnder generation p
    → c.trusted ≡ some t
    → t ≢ []
    → (python : Python) → normalize_fingerprint python.upper t ≡ some t
    → (config : ClientConfig) → config.server_fingerprint ≡ none
    → ((restart_client version c p).0 ≡ ok child_restart_exit_code)
      × ((passed : Dict Text) × (restart_state generation (restart_client version c p).1.channel
            ≡ some (record { target_version = version; environment = passed }))
          × ((root next : Text) (channel : Channel) (force : Bool) (priority : ℤ)
              → (d : Client) × (new_client python
                    (get restart_server_fingerprint_env
                      (next_environment base passed root next channel))
                    config
                    force
                    priority
                  ≡ ok d)
                × (d.trusted ≡ some t)))
restart_client-trusts generation version t base c p r h full python normal config none_given =
    let q : Process = record p {
      environment = set restart_server_fingerprint_env t p.environment;
    } in
    let under = RunsUnder-set generation restart_server_fingerprint_env t p fingerprint-IsOther r in
    let same = restart_client_lem version t c p h in
    let (code, (passed, state, kept)) =
      request_restart-IsHandedOver generation version base q under in
    rw same (
      code,
      (
        passed,
        state,
        λ root next channel force priority.
            new_client-kept python t _ config force priority
              (kept restart_server_fingerprint_env fingerprint-IsPassed root next channel
                ∙ set-get restart_server_fingerprint_env t p.environment)
              full normal none_given,
      ),
    )
