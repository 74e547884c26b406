-- ===== src/Channel/Handover.antt =====
-- What one child publishes and the next one gets.
use py_frp.Base.{◌≡◌, refl, ap, ◌∙◌, false, not, some, [], ◌∷◌, arith, if◌then◌else◌, is_empty}
use py_frp.Base.Texts.{Text, txt, text_eq, text_eq_refl}
use py_frp.Base.Dict.{
  Dict, get, filter_keys, get-set, get-filter_keys, get-update, IsDict, filter_keys-IsDict,
}
use py_frp.Value.{Value, fields, of_fields}
use py_frp.Channel.{
  Channel, is_restart_key, prepare_child_environment, restart_entries, restart_state, text_values,
  publish_restart_state, replace_restart_environment, child_generation, supervised_child_env,
  supervisor_root_env, supervisor_generation_env, payload_of, publish_state, read_state,
}

fields-of_fields : (d : Dict Value) → fields (of_fields d) ≡ d
fields-of_fields [] = refl
fields-of_fields ((k, v) ∷ d) = ap (λ e. (k, v) ∷ e) (fields-of_fields d)

restart_entries-text_values :
    (d : Dict Text)
    → restart_entries (text_values (filter_keys is_restart_key d)) ≡ filter_keys is_restart_key d
unfolding restart_entries text_values filter_keys
restart_entries-text_values [] = refl
restart_entries-text_values ((k, v) ∷ d) = ground (arith, restart_entries-text_values d)

-- In the environment that `prepare_child_environment` makes, the child knows its generation.
child_generation-prepare :
    (root generation : Text) (base : Dict Text) (channel : Channel)
    → is_empty root ≡ false
    → is_empty generation ≡ false
    → child_generation (prepare_child_environment root base generation channel).0 ≡ some generation
unfolding child_generation prepare_child_environment text_eq
child_generation-prepare root generation base channel r g =
    let env = (prepare_child_environment root base generation channel).0 in
    ground (arith, one, root_is, generation_is)
  where
    one :
        get supervised_child_env (prepare_child_environment root base generation channel).0
        ≡ some (txt "1")
    one = simp get-set

    root_is :
        get supervisor_root_env (prepare_child_environment root base generation channel).0
        ≡ some root
    root_is = simp get-set

    generation_is :
        get supervisor_generation_env (prepare_child_environment root base generation channel).0
        ≡ some generation
    generation_is = simp get-set

restart_state-publish :
    (generation : Text) (env : Dict Text) (channel : Channel) (target : Text)
    → child_generation env ≡ some generation
    → restart_state generation (publish_restart_state env target channel).1
      ≡ some (record { target_version = target; environment = filter_keys is_restart_key env })
unfolding restart_state publish_restart_state text_eq
restart_state-publish generation env channel target known =
    rw (known, publish_state, payload_of, text_eq_refl generation, read_state)
      (ap (λ e. some (record { target_version = target; environment = e }))
        (ap restart_entries (fields-of_fields (text_values (filter_keys is_restart_key env)))
          ∙ restart_entries-text_values env))

-- When a child that runs under a generation, in an environment with one value to a name, publishes its
-- restart state, the supervisor reads from the files the target version and exactly the child's restart
-- variables; when it has taken them over, its environment has the child's value at each restart
-- variable and its own at every other one.
pub handover :
    (generation : Text) (base env : Dict Text) (channel : Channel) (target : Text)
    → child_generation env ≡ some generation
    → IsDict env
    → (passed : Dict Text) × (restart_state generation (publish_restart_state env target channel).1
        ≡ some (record { target_version = target; environment = passed }))
      × ((k : Text)
          → get k (replace_restart_environment base passed)
            ≡ (if is_restart_key k then get k env else get k base))
unfolding replace_restart_environment
handover generation base env channel target known unique = (
  filter_keys is_restart_key env,
  restart_state-publish generation env channel target known,
  λ k.
      get-update k (filter_keys (λ j. not (is_restart_key j)) base) (filter_keys is_restart_key env)
        (filter_keys-IsDict is_restart_key env unique)
      ∙ ground (
        arith,
        get-filter_keys is_restart_key k env,
        get-filter_keys (λ (j : Text). not (is_restart_key j)) k base,
      ),
)
