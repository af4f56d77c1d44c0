-- ===== src/Command.antt =====
-- cmd/server/main.go: the configuration of the command, the server that it builds, and how it ends. Its
-- handler is Session.Demo. The log lines are left out.
pub mod Reason
mod Tests
use smpp_smsc.Base.{
  ℕ, Bool, true, false, Option, none, some, List, [], ◌∷◌, ◌++◌, Bytes, if◌then◌else◌,
}
use smpp_smsc.Text.{codes}
use smpp_smsc.Config.{
  Config, default_config, set_address, set_log_level, set_pretty_logs, set_color_logs,
  set_startup_verbose,
}
use smpp_smsc.Logger.{LogLevel, LoggerOptions, Output, parse_log_level}
use smpp_smsc.Logger.Zap.{Zap}
use smpp_smsc.Logger.Events.{ZapLogger, new_logger_with_options}
use smpp_smsc.Session.Demo.{demo_handler}
use smpp_smsc.Controller.Caches.{Cache}
use smpp_smsc.Server.Build.{
  Container, Built, new_container, with_config, with_id_generator, with_handler, build_server,
}
use smpp_smsc.Server.Listen.{Server, ListenEvent, start, accept_loop, shut_down}

unfoldable pub command_config : Config
unfolding default_config
command_config =
    set_startup_verbose
      (set_color_logs
        (set_pretty_logs (set_log_level (set_address default_config (codes ":2775")) (codes "info"))
          true)
        true)
      true

unfoldable pub command_logger_options : Config → LoggerOptions
command_logger_options cfg = record {
  pretty = cfg.pretty_logs;
  color = cfg.color_logs;
  time_format = codes "2006-01-02 15:04:05";
}

unfoldable pub command_logger : (zap : Zap) → Output → Config → ZapLogger zap
unfolding command_logger_options parse_log_level new_logger_with_options
command_logger zap stdout cfg =
    new_logger_with_options zap stdout (parse_log_level cfg.log_level) (command_logger_options cfg)

unfoldable pub log_mode : Config → Bytes
log_mode cfg = if cfg.pretty_logs then codes "pretty" else codes "json"

-- The server of the command; `none` is a panic, where there is no generator.
unfoldable pub command_server :
    (IdGenerator : Type 0) → Option IdGenerator → Option (Built IdGenerator)
unfolding command_config new_container with_config with_id_generator with_handler build_server
    demo_handler
command_server IdGenerator none = none
command_server IdGenerator (some gen) = build_server IdGenerator (some gen) (
    with_handler IdGenerator (some demo_handler) (
      with_id_generator IdGenerator (some gen)
        (with_config IdGenerator (some command_config) (new_container IdGenerator))))

-- What main waits for: a signal, or what comes from the server's channel of errors.
pub data Awaited : Type 0 where
  signalled : Bytes → Awaited
  reported : Option Bytes → Awaited

unfoldable pub shutdown_reason : Awaited → Bytes
shutdown_reason (signalled name) = codes "signal:" ++ name
shutdown_reason (reported (some e)) = codes "server_error"
shutdown_reason (reported none) = codes "server_stopped"

-- The select of main. With both a signal and an error there it takes either, which is the input
-- `signal_first`; with neither it waits on, which is `none`.
unfoldable pub await_in : Bool → Option Bytes → List Bytes → Option Awaited
await_in signal_first none [] = none
await_in signal_first none (e ∷ errors) = some (reported (some e))
await_in signal_first (some name) [] = some (signalled name)
await_in signal_first (some name) (e ∷ errors) =
    some (if signal_first then signalled name else reported (some e))

module _ (sessions_cache : Cache Bytes ℕ) (ids_cache : Cache ℕ Bytes) where
  unfoldable pub await : Bool → Option Bytes → Server sessions_cache ids_cache → Option Awaited
  unfolding await_in
  await signal_first signal st = await_in signal_first signal st.errors

  -- Start, and the accept loop's events until main is woken; without a listener there is no loop.
  unfoldable pub serve :
      Option Bytes
      → List ListenEvent
      → Server sessions_cache ids_cache
      → Server sessions_cache ids_cache
  unfolding start accept_loop
  serve (some e) events st = start sessions_cache ids_cache (some e) st
  serve none events st =
      accept_loop sessions_cache ids_cache events (start sessions_cache ids_cache none st)

  -- What is left of main once it is woken: the reason that it logs, and Shutdown.
  unfoldable pub end_main :
      Option Awaited
      → Server sessions_cache ids_cache
      → Option (Bytes × Option (Server sessions_cache ids_cache))
  unfolding shutdown_reason shut_down
  end_main none st = none
  end_main (some awaited) st = some (shutdown_reason awaited, shut_down sessions_cache ids_cache st)

  -- The command from Start on: `none` while nothing wakes it; else the reason it logs, and the server it
  -- leaves, where `none` is a panic.
  unfoldable pub run :
      Option Bytes
      → List ListenEvent
      → Bool
      → Option Bytes
      → Server sessions_cache ids_cache
      → Option (Bytes × Option (Server sessions_cache ids_cache))
  unfolding serve await end_main
  run refusal events signal_first signal st =
      let st1 = serve refusal events st in end_main (await signal_first signal st1) st1
