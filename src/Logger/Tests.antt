-- ===== src/Logger/Tests.antt =====
-- A warning of a logger at level info, with a zap whose loggers are levels.
use smpp_smsc.Base.{ℕ, ◌≡◌, refl, true, false, Bytes, leb, arith}
use smpp_smsc.Text.{codes}
use smpp_smsc.Logger.{info_level, LoggerOptions, file, rfc3339}
use smpp_smsc.Logger.Zap.{Zap}
use smpp_smsc.Logger.Events.{
  ZapLogger, trace, debug, info, warn, error, fatal, enabled, with_str, new_logger_with_options,
}
use smpp_smsc.Logger.Enabled.{itself, by_str, enabled_by_rank}

abbrev levels_only : Zap
levels_only = record {
  ZLogger = ℕ;
  Field = Bytes;
  Int = ℕ;
  Time = ℕ;
  Error = Bytes;
  Any = Bytes;
  string_field = λ key val. key;
  int_field = λ key val. key;
  int64_field = λ key val. key;
  uint32_field = λ key val. key;
  uint64_field = λ key val. key;
  uint8_field = λ key val. key;
  bool_field = λ key val. key;
  duration_field = λ key val. key;
  time_field = λ key val. key;
  error_field = λ error. error;
  any_field = λ key val. key;
  binary_field = λ key val. key;
  debug_number = 0;
  info_number = 1;
  warn_number = 2;
  error_number = 3;
  fatal_number = 6;
  new_logger = λ e o threshold. threshold;
  with_fields = λ l fields. l;
  core_enabled = λ l level. leb l level;
  debug_info = omega arith;
  info_warn = omega arith;
  warn_error = omega arith;
  error_fatal = omega arith;
  core_enabled-new_logger = λ e o threshold level. refl;
  core_enabled-with_fields = λ l fields level. refl;
}

abbrev plain : LoggerOptions
plain = record { pretty = false; color = false; time_format = rfc3339 }

abbrev at_info : ZapLogger levels_only
at_info = new_logger_with_options levels_only (file false false) info_level plain

abbrev component : ZapLogger levels_only
component = with_str levels_only (codes "component") (codes "server") at_info

enabled_by_rank_example :
    (enabled levels_only (trace levels_only component) ≡ false)
    × (enabled levels_only (debug levels_only component) ≡ false)
    × (enabled levels_only (info levels_only component) ≡ true)
    × (enabled levels_only (warn levels_only component) ≡ true)
    × (enabled levels_only (error levels_only component) ≡ true)
    × (enabled levels_only (fatal levels_only component) ≡ true)
enabled_by_rank_example =
    enabled_by_rank levels_only (file false false) info_level plain component
      (by_str (codes "component") (codes "server") itself)
