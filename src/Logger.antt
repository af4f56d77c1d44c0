-- ===== src/Logger.antt =====
-- internal/smsc/logger.go: levels, options, and the encoder that they choose. Zap stands for the
-- library that writes the lines, Events has the events and builders of a logger.
pub mod Zap
pub mod Events
pub mod Enabled
mod Tests
use smpp_smsc.Base.{Bool, false, ◌||◌, Bytes, bytes_eq, nat_eq, ◌==◌, if◌then◌else◌, length}
use smpp_smsc.Text.{codes}

pub data LogLevel : Type 0 where
  trace_level debug_level info_level warn_level error_level fatal_level disable_level : LogLevel

unfoldable pub log_level_string : LogLevel → Bytes
log_level_string trace_level = codes "trace"
log_level_string debug_level = codes "debug"
log_level_string info_level = codes "info"
log_level_string warn_level = codes "warn"
log_level_string error_level = codes "error"
log_level_string fatal_level = codes "fatal"
log_level_string disable_level = codes "info"

unfoldable pub parse_log_level : Bytes → LogLevel
parse_log_level level =
    if level == codes "trace"
    then trace_level
    else if level == codes "debug"
    then debug_level
    else if level == codes "info"
    then info_level
    else if level == codes "warn"
    then warn_level
    else if level == codes "error"
    then error_level
    else if level == codes "fatal"
    then fatal_level
    else info_level

pub record LoggerOptions : Type 0 where
  pub pretty : Bool
  pub color : Bool
  pub time_format : Bytes

-- time.RFC3339.
abbrev pub rfc3339 : Bytes
rfc3339 = codes "2006-01-02T15:04:05Z07:00"

-- An io.Writer: a file, with what isatty says of it, or anything else.
pub data Output : Type 0 where
  file : (is_terminal is_cygwin_terminal : Bool) → Output
  other : Output

unfoldable pub is_terminal_writer : Output → Bool
is_terminal_writer (file is_terminal is_cygwin_terminal) = is_terminal || is_cygwin_terminal
is_terminal_writer other = false

unfoldable pub detect_logger_options : Output → LoggerOptions
unfolding is_terminal_writer
detect_logger_options output = record {
  pretty = is_terminal_writer output;
  color = is_terminal_writer output;
  time_format = rfc3339;
}

pub data TimeEncoder : Type 0 where
  layout : Bytes → TimeEncoder
  iso8601 : TimeEncoder

pub data LevelEncoder : Type 0 where
  capital_color capital lowercase : LevelEncoder

-- The two settings that depend on the options; the keys are constants.
pub record EncoderConfig : Type 0 where
  pub encode_time : TimeEncoder
  pub encode_level : LevelEncoder

pub data Encoder : Type 0 where
  json console : EncoderConfig → Encoder

unfoldable pub encoder_of : LoggerOptions → Encoder
encoder_of opts =
    if opts.pretty
    then console (record {
      encode_time = layout opts.time_format;
      encode_level = if opts.color then capital_color else capital;
    })
    else json (record { encode_time = iso8601; encode_level = lowercase })

unfoldable pub with_time_format : LoggerOptions → LoggerOptions
with_time_format opts =
    if length opts.time_format == 0 then record opts { time_format = rfc3339 } else opts
