-- ===== src/Server/Build.antt =====
-- internal/smsc/container.go and the construction of a server in server.go. An argument that is nil is
-- `none`. The logger is left out, and so is NewSessionsManager, whose caches are parameters.
use smpp_smsc.Base.{Option, none, some}
use smpp_smsc.Config.{Config, default_config}
use smpp_smsc.Session.Handler.{Handler, default_handler}

module _ (IdGenerator : Type 0) where
  pub record Container : Type 0 where
    pub config : Option Config
    pub id_generator : Option IdGenerator
    pub handler : Option Handler

  pub record Built : Type 0 where
    pub cfg : Config
    pub id_generator : IdGenerator
    pub handler : Handler

  unfoldable pub new_container : Container
  new_container = record { config = some default_config; id_generator = none; handler = none }

  unfoldable pub with_config : Option Config → Container → Container
  with_config none c = c
  with_config (some cfg) c = record c { config = some cfg }

  unfoldable pub with_id_generator : Option IdGenerator → Container → Container
  with_id_generator gen c = record c { id_generator = gen }

  unfoldable pub with_handler : Option Handler → Container → Container
  with_handler handler c = record c { handler = handler }

  config_or_default : Option Config → Config
  config_or_default none = default_config
  config_or_default (some cfg) = cfg

  -- Config: a container without a configuration takes the default one.
  unfoldable pub container_config : Container → Config × Container
  unfolding config_or_default
  container_config c = let cfg = config_or_default c.config in (cfg, record c { config = some cfg })

  -- The snowflake generator of node 1, where no generator is given; it may fail.
  generator_or : Option IdGenerator → Option IdGenerator → Option IdGenerator
  generator_or snowflake none = snowflake
  generator_or snowflake (some gen) = some gen

  unfoldable pub new_server : Option IdGenerator → Option Config → Option IdGenerator → Option Built
  unfolding config_or_default generator_or
  new_server snowflake cfg gen = elim (generator_or snowflake gen) [
    | none ↦ none
    | some g ↦
        some (record { cfg = config_or_default cfg; id_generator = g; handler = default_handler })
  ]

  unfoldable pub set_handler : Option Handler → Built → Built
  set_handler none s = s
  set_handler (some handler) s = record s { handler = handler }

  unfoldable pub build_server : Option IdGenerator → Container → Option Built
  unfolding new_server set_handler container_config
  build_server snowflake c =
      let (cfg, c1) = container_config c in
      elim (new_server snowflake (some cfg) c1.id_generator) [
        | none ↦ none
        | some s ↦ some (set_handler c1.handler s)
      ]
