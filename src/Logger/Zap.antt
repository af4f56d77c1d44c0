-- ===== src/Logger/Zap.antt =====
-- What internal/smsc/logger.go uses of go.uber.org/zap. That library is not in the repository: `Zap` is
-- a parameter of the model, and its laws are what zap's documentation says.
use smpp_smsc.Base.{ℕ, ◌<◌, ◌≡◌, Bool, List, Bytes, leb}
use smpp_smsc.Logger.{Output, Encoder}

-- Go's int, int64 and time.Duration are not looked at by the code. Zap's levels count from -1; here
-- they are moved up to numbers. A core lets through what is at its level or above, and With changes
-- only the fields.
pub record Zap : Type 1 where
  pub ZLogger : Type 0
  pub Field : Type 0
  pub Int : Type 0
  pub Time : Type 0
  pub Error : Type 0
  pub Any : Type 0
  pub string_field : Bytes → Bytes → Field
  pub int_field : Bytes → Int → Field
  pub int64_field : Bytes → Int → Field
  pub uint32_field : Bytes → ℕ → Field
  pub uint64_field : Bytes → ℕ → Field
  pub uint8_field : Bytes → ℕ → Field
  pub bool_field : Bytes → Bool → Field
  pub duration_field : Bytes → Int → Field
  pub time_field : Bytes → Time → Field
  pub error_field : Error → Field
  pub any_field : Bytes → Any → Field
  pub binary_field : Bytes → Bytes → Field
  pub debug_number : ℕ
  pub info_number : ℕ
  pub warn_number : ℕ
  pub error_number : ℕ
  pub fatal_number : ℕ
  pub new_logger : Encoder → Output → ℕ → ZLogger
  pub with_fields : ZLogger → List Field → ZLogger
  pub core_enabled : ZLogger → ℕ → Bool
  pub debug_info : debug_number < info_number
  pub info_warn : info_number < warn_number
  pub warn_error : warn_number < error_number
  pub error_fatal : error_number < fatal_number
  pub core_enabled-new_logger :
      (e : Encoder) (o : Output) (threshold level : ℕ)
      → core_enabled (new_logger e o threshold) level ≡ leb threshold level
  pub core_enabled-with_fields :
      (l : ZLogger) (fields : List Field) (level : ℕ)
      → core_enabled (with_fields l fields) level ≡ core_enabled l level
