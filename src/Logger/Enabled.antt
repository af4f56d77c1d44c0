-- ===== src/Logger/Enabled.antt =====
-- internal/smsc/logger.go: which events a logger of a level lets through, and how they are written.
use smpp_smsc.Base.{ℕ, ◌≡◌, ◌∙◌, refl, List, [], Bytes, leb, nat_eq, arith}
use smpp_smsc.Logger.{
  LogLevel, trace_level, debug_level, info_level, warn_level, error_level, fatal_level,
  disable_level, LoggerOptions, Output, encoder_of, with_time_format,
}
use smpp_smsc.Logger.Zap.{Zap}
use smpp_smsc.Logger.Events.{
  log, debug_method, info_method, warn_method, error_method, fatal_method, ZapLogger, zap_level,
  new_event, trace, debug, info, warn, error, fatal, enabled, msg, with_str, builder_logger,
  new_logger_with_options,
}

-- The rank of a level: an event is let through from the rank of the logger's level on.
abbrev pub rank : LogLevel → ℕ
rank trace_level = 0
rank debug_level = 0
rank info_level = 1
rank warn_level = 2
rank error_level = 3
rank fatal_level = 4
rank disable_level = 5

module _ (zap : Zap) where
  abbrev Logger : Type 0
  Logger = ZapLogger zap

  -- The loggers made from a logger by WithStr and by builders.
  pub data Derived (l : Logger) : Logger → Type 0 where
    itself : Derived l l
    by_str : {m : Logger} (key val : Bytes) → Derived l m → Derived l (with_str zap key val m)
    by_builder :
        {m : Logger} (fields : List zap.Field)
        → Derived l m
        → Derived l (builder_logger zap (record { base = m.logger; fields = fields }))

  Derived-enabled :
      {l m : Logger} (level : ℕ)
      → Derived l m
      → zap.core_enabled m.logger level ≡ zap.core_enabled l.logger level
  unfolding with_str builder_logger
  Derived-enabled level itself = refl
  Derived-enabled level (by_str {m} key val d) =
      zap.core_enabled-with_fields m.logger _ level ∙ Derived-enabled level d
  Derived-enabled level (by_builder {m} fields d) =
      zap.core_enabled-with_fields m.logger fields level ∙ Derived-enabled level d

  new_logger-enabled :
      (output : Output) (level : LogLevel) (opts : LoggerOptions) (number : ℕ)
      → zap.core_enabled (new_logger_with_options zap output level opts).logger number
        ≡ leb (zap_level zap level) number
  unfolding new_logger_with_options
  new_logger-enabled output level opts number =
      zap.core_enabled-new_logger (encoder_of (with_time_format opts)) output _ number

  -- zap's five levels and the one above them stand in the order of the ranks.
  zap_level-rank :
      (level : LogLevel)
      → (leb (zap_level zap level) zap.debug_number ≡ leb (rank level) 0)
        × (leb (zap_level zap level) zap.info_number ≡ leb (rank level) 1)
        × (leb (zap_level zap level) zap.warn_number ≡ leb (rank level) 2)
        × (leb (zap_level zap level) zap.error_number ≡ leb (rank level) 3)
        × (leb (zap_level zap level) zap.fatal_number ≡ leb (rank level) 4)
  unfolding zap_level
  zap_level-rank trace_level =
      ground (arith, zap.debug_info, zap.info_warn, zap.warn_error, zap.error_fatal)
  zap_level-rank debug_level =
      ground (arith, zap.debug_info, zap.info_warn, zap.warn_error, zap.error_fatal)
  zap_level-rank info_level =
      ground (arith, zap.debug_info, zap.info_warn, zap.warn_error, zap.error_fatal)
  zap_level-rank warn_level =
      ground (arith, zap.debug_info, zap.info_warn, zap.warn_error, zap.error_fatal)
  zap_level-rank error_level =
      ground (arith, zap.debug_info, zap.info_warn, zap.warn_error, zap.error_fatal)
  zap_level-rank fatal_level =
      ground (arith, zap.debug_info, zap.info_warn, zap.warn_error, zap.error_fatal)
  zap_level-rank disable_level =
      ground (arith, zap.debug_info, zap.info_warn, zap.warn_error, zap.error_fatal)

  -- A logger of any level, and every logger derived from it, lets an event of Trace or Debug through
  -- exactly for the levels trace and debug, one of Info for these and info, one of Warn up to warn,
  -- one of Error up to error, and one of Fatal for every level but the one that disables.
  pub enabled_by_rank :
      (output : Output) (level : LogLevel) (opts : LoggerOptions) (m : Logger)
      → Derived (new_logger_with_options zap output level opts) m
      → (enabled zap (trace zap m) ≡ leb (rank level) 0)
        × (enabled zap (debug zap m) ≡ leb (rank level) 0)
        × (enabled zap (info zap m) ≡ leb (rank level) 1)
        × (enabled zap (warn zap m) ≡ leb (rank level) 2)
        × (enabled zap (error zap m) ≡ leb (rank level) 3)
        × (enabled zap (fatal zap m) ≡ leb (rank level) 4)
  unfolding enabled trace debug info warn error fatal new_event
  enabled_by_rank output level opts m d =
      let (d0, d1, d2, d3, d4) = zap_level-rank level in
      let at : (n : ℕ) → zap.core_enabled m.logger n ≡ leb (zap_level zap level) n =
        λ n. Derived-enabled n d ∙ new_logger-enabled output level opts n in
      (
        at zap.debug_number ∙ d0,
        at zap.debug_number ∙ d0,
        at zap.info_number ∙ d1,
        at zap.warn_number ∙ d2,
        at zap.error_number ∙ d3,
        at zap.fatal_number ∙ d4,
      )

  -- Msg writes an event by the method of its level.
  pub msg_by_level :
      (m : Logger) (t : Bytes)
      → (msg zap t (debug zap m) ≡ log debug_method m.logger t [])
        × (msg zap t (info zap m) ≡ log info_method m.logger t [])
        × (msg zap t (warn zap m) ≡ log warn_method m.logger t [])
        × (msg zap t (error zap m) ≡ log error_method m.logger t [])
        × (msg zap t (fatal zap m) ≡ log fatal_method m.logger t [])
  unfolding msg debug info warn error fatal new_event
  msg_by_level m t = ground (arith, zap.debug_info, zap.info_warn, zap.warn_error, zap.error_fatal)
