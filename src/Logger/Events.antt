-- ===== src/Logger/Events.antt =====
-- internal/smsc/logger.go: the events, builders and loggers, over zap. A call of one of zap's writing
-- methods is a value.
use smpp_smsc.Base.{ℕ, suc, Bool, false, List, [], ◌∷◌, ◌++◌, Bytes, nat_eq, ◌==◌, if◌then◌else◌}
use smpp_smsc.Logger.{
  LogLevel, trace_level, debug_level, info_level, warn_level, error_level, fatal_level,
  disable_level, LoggerOptions, Output, detect_logger_options, encoder_of, with_time_format,
}
use smpp_smsc.Logger.Zap.{Zap}

pub data Method : Type 0 where
  debug_method info_method warn_method error_method fatal_method : Method

-- The level of a new core. Nothing is at the level that disables.
unfoldable pub zap_level : Zap → LogLevel → ℕ
zap_level zap trace_level = zap.debug_number
zap_level zap debug_level = zap.debug_number
zap_level zap info_level = zap.info_number
zap_level zap warn_level = zap.warn_number
zap_level zap error_level = zap.error_number
zap_level zap fatal_level = zap.fatal_number
zap_level zap disable_level = suc zap.fatal_number

module _ (zap : Zap) where
  -- A call of one of zap's writing methods: the logger, the message and the fields.
  pub data LogCall : Type 0 where
    log : Method → zap.ZLogger → Bytes → List zap.Field → LogCall

  pub record ZapEvent : Type 0 where
    pub logger : zap.ZLogger
    pub level : ℕ
    pub fields : List zap.Field

  unfoldable pub add_field : zap.Field → ZapEvent → ZapEvent
  add_field field e = record e { fields = e.fields ++ field ∷ [] }

  -- The chained methods of an event.
  pub str : Bytes → Bytes → ZapEvent → ZapEvent
  str key val e = add_field (zap.string_field key val) e

  pub int : Bytes → zap.Int → ZapEvent → ZapEvent
  int key val e = add_field (zap.int_field key val) e

  pub int64 : Bytes → zap.Int → ZapEvent → ZapEvent
  int64 key val e = add_field (zap.int64_field key val) e

  pub uint32 : Bytes → ℕ → ZapEvent → ZapEvent
  uint32 key val e = add_field (zap.uint32_field key val) e

  pub uint64 : Bytes → ℕ → ZapEvent → ZapEvent
  uint64 key val e = add_field (zap.uint64_field key val) e

  pub uint8 : Bytes → ℕ → ZapEvent → ZapEvent
  uint8 key val e = add_field (zap.uint8_field key val) e

  pub bool : Bytes → Bool → ZapEvent → ZapEvent
  bool key val e = add_field (zap.bool_field key val) e

  pub dur : Bytes → zap.Int → ZapEvent → ZapEvent
  dur key val e = add_field (zap.duration_field key val) e

  pub time : Bytes → zap.Time → ZapEvent → ZapEvent
  time key val e = add_field (zap.time_field key val) e

  pub err : zap.Error → ZapEvent → ZapEvent
  err error e = add_field (zap.error_field error) e

  pub any : Bytes → zap.Any → ZapEvent → ZapEvent
  any key val e = add_field (zap.any_field key val) e

  pub bytes : Bytes → Bytes → ZapEvent → ZapEvent
  bytes key val e = add_field (zap.binary_field key val) e

  unfoldable pub enabled : ZapEvent → Bool
  enabled e = zap.core_enabled e.logger e.level

  -- The switch over the levels; a level that is none of them goes to Debug.
  unfoldable pub method_of : ℕ → Method
  method_of level =
      if level == zap.debug_number
      then debug_method
      else if level == zap.info_number
      then info_method
      else if level == zap.warn_number
      then warn_method
      else if level == zap.error_number
      then error_method
      else if level == zap.fatal_number
      then fatal_method
      else debug_method

  unfoldable pub msg : Bytes → ZapEvent → LogCall
  unfolding method_of
  msg message e = log (method_of e.level) e.logger message e.fields

  pub record ZapLogger : Type 0 where
    pub logger : zap.ZLogger
    pub pretty : Bool
    pub color : Bool

  unfoldable pub new_event : ℕ → ZapLogger → ZapEvent
  new_event level l = record { logger = l.logger; level = level; fields = [] }

  unfoldable pub trace : ZapLogger → ZapEvent
  trace l = new_event zap.debug_number l

  unfoldable pub debug : ZapLogger → ZapEvent
  debug l = new_event zap.debug_number l

  unfoldable pub info : ZapLogger → ZapEvent
  info l = new_event zap.info_number l

  unfoldable pub warn : ZapLogger → ZapEvent
  warn l = new_event zap.warn_number l

  unfoldable pub error : ZapLogger → ZapEvent
  error l = new_event zap.error_number l

  unfoldable pub fatal : ZapLogger → ZapEvent
  fatal l = new_event zap.fatal_number l

  unfoldable pub with_str : Bytes → Bytes → ZapLogger → ZapLogger
  with_str key val l = record l {
    logger = zap.with_fields l.logger (zap.string_field key val ∷ []);
  }

  pub record ZapBuilder : Type 0 where
    pub base : zap.ZLogger
    pub fields : List zap.Field

  unfoldable pub with_builder : ZapLogger → ZapBuilder
  with_builder l = record { base = l.logger; fields = [] }

  unfoldable pub builder_str : Bytes → Bytes → ZapBuilder → ZapBuilder
  builder_str key val b = record b { fields = b.fields ++ zap.string_field key val ∷ [] }

  unfoldable pub builder_int : Bytes → zap.Int → ZapBuilder → ZapBuilder
  builder_int key val b = record b { fields = b.fields ++ zap.int_field key val ∷ [] }

  -- The two marks of the logger are not carried over.
  unfoldable pub builder_logger : ZapBuilder → ZapLogger
  builder_logger b = record {
    logger = zap.with_fields b.base b.fields;
    pretty = false;
    color = false;
  }

  unfoldable pub new_logger_with_options : Output → LogLevel → LoggerOptions → ZapLogger
  unfolding zap_level encoder_of with_time_format
  new_logger_with_options output level opts = record {
    logger = zap.new_logger (encoder_of (with_time_format opts)) output (zap_level zap level);
    pretty = opts.pretty;
    color = opts.color;
  }

  unfoldable pub new_logger : Output → LogLevel → ZapLogger
  unfolding new_logger_with_options detect_logger_options
  new_logger output level = new_logger_with_options output level (detect_logger_options output)

  -- `stdout` is os.Stdout.
  unfoldable pub default_logger : Output → ZapLogger
  unfolding new_logger_with_options detect_logger_options
  default_logger stdout = new_logger_with_options stdout info_level (detect_logger_options stdout)
