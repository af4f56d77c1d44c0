-- ===== src/Config.antt =====
-- internal/smsc/config.go and config_setters.go. A duration is a number of nanoseconds. Go's int is
-- signed: the model covers configurations with no negative number.
use smpp_smsc.Base.{ℕ, ◌*◌, Bool, true, false, Bytes}
use smpp_smsc.Text.{codes}

pub record SessionCacheConfig : Type 0 where
  pub cap : ℕ
  pub inactive_timeout : ℕ

pub record Config : Type 0 where
  pub address : Bytes
  pub pod_id : Bytes
  pub system_id : Bytes
  pub log_level : Bytes
  pub pretty_logs : Bool
  pub color_logs : Bool
  pub startup_verbose : Bool
  pub timeout : ℕ
  pub inactivity_timeout : ℕ
  pub segs_bucket_ttl : ℕ
  pub max_enquire_link_retry : ℕ
  pub pending_request_ttl : ℕ
  pub pending_requests_cleanup_interval : ℕ
  pub window_size : ℕ
  pub decoder_buffer_size : ℕ
  pub max_write_workers : ℕ
  pub max_read_workers : ℕ
  pub global_rate_limiter_enabled : Bool
  pub global_max_rps_limit : ℕ
  pub global_burst_rps_limit : ℕ
  pub per_session_rate_limiter_enabled : Bool
  pub default_max_rps_limit : ℕ
  pub default_burst_rps_limit : ℕ
  pub default_max_segs_count : ℕ
  pub max_submit_sm_segments : ℕ
  pub max_message_payload_len : ℕ
  pub tcp_nodelay : Bool
  pub tcp_keep_alive : Bool
  pub tcp_keep_alive_period : ℕ
  pub tcp_read_buffer_size : ℕ
  pub tcp_write_buffer_size : ℕ
  pub tcp_linger : ℕ
  pub session_cache : SessionCacheConfig

unfoldable pub default_config : Config
default_config = record {
  address = codes ":2775";
  pod_id = codes "smsc-1";
  system_id = codes "SMSC";
  log_level = codes "info";
  pretty_logs = true;
  color_logs = true;
  startup_verbose = true;
  timeout = 90 * 1_000_000_000;
  inactivity_timeout = 30 * 1_000_000_000;
  segs_bucket_ttl = 180 * 1_000_000_000;
  max_enquire_link_retry = 3;
  pending_request_ttl = 266400 * 1_000_000_000;
  pending_requests_cleanup_interval = 3600 * 1_000_000_000;
  window_size = 2000;
  decoder_buffer_size = 128 * 1024;
  max_write_workers = 1;
  max_read_workers = 1;
  global_rate_limiter_enabled = false;
  global_max_rps_limit = 0;
  global_burst_rps_limit = 0;
  per_session_rate_limiter_enabled = true;
  default_max_rps_limit = 1500;
  default_burst_rps_limit = 1800;
  default_max_segs_count = 200;
  max_submit_sm_segments = 10;
  max_message_payload_len = 4096;
  tcp_nodelay = true;
  tcp_keep_alive = true;
  tcp_keep_alive_period = 60 * 1_000_000_000;
  tcp_read_buffer_size = 256 * 1024;
  tcp_write_buffer_size = 256 * 1024;
  tcp_linger = 5;
  session_cache = record { cap = 10000; inactive_timeout = 30 * 1_000_000_000 };
}

pub set_address : Config → Bytes → Config
set_address c x = record c { address = x }

pub set_pod_id : Config → Bytes → Config
set_pod_id c x = record c { pod_id = x }

pub set_system_id : Config → Bytes → Config
set_system_id c x = record c { system_id = x }

pub set_log_level : Config → Bytes → Config
set_log_level c x = record c { log_level = x }

pub set_pretty_logs : Config → Bool → Config
set_pretty_logs c x = record c { pretty_logs = x }

pub set_color_logs : Config → Bool → Config
set_color_logs c x = record c { color_logs = x }

pub set_startup_verbose : Config → Bool → Config
set_startup_verbose c x = record c { startup_verbose = x }

pub set_timeout : Config → ℕ → Config
set_timeout c x = record c { timeout = x }

pub set_inactivity_timeout : Config → ℕ → Config
set_inactivity_timeout c x = record c { inactivity_timeout = x }

pub set_segments_ttl : Config → ℕ → Config
set_segments_ttl c x = record c { segs_bucket_ttl = x }

pub set_max_enquire_link_retry_count : Config → ℕ → Config
set_max_enquire_link_retry_count c x = record c { max_enquire_link_retry = x }

pub set_window_size : Config → ℕ → Config
set_window_size c x = record c { window_size = x }

pub set_decoder_buffer_size : Config → ℕ → Config
set_decoder_buffer_size c x = record c { decoder_buffer_size = x }

pub set_max_write_workers : Config → ℕ → Config
set_max_write_workers c x = record c { max_write_workers = x }

pub set_max_read_workers : Config → ℕ → Config
set_max_read_workers c x = record c { max_read_workers = x }

pub set_global_rate_limiter_enabled : Config → Bool → Config
set_global_rate_limiter_enabled c x = record c { global_rate_limiter_enabled = x }

pub set_global_max_rps_limit : Config → ℕ → Config
set_global_max_rps_limit c x = record c { global_max_rps_limit = x }

pub set_global_burst_rps_limit : Config → ℕ → Config
set_global_burst_rps_limit c x = record c { global_burst_rps_limit = x }

pub set_per_session_rate_limiter_enabled : Config → Bool → Config
set_per_session_rate_limiter_enabled c x = record c { per_session_rate_limiter_enabled = x }

pub set_default_max_rps_limit : Config → ℕ → Config
set_default_max_rps_limit c x = record c { default_max_rps_limit = x }

pub set_default_burst_rps_limit : Config → ℕ → Config
set_default_burst_rps_limit c x = record c { default_burst_rps_limit = x }

pub set_default_max_segments_count : Config → ℕ → Config
set_default_max_segments_count c x = record c { default_max_segs_count = x }

pub set_max_submit_sm_segments : Config → ℕ → Config
set_max_submit_sm_segments c x = record c { max_submit_sm_segments = x }

pub set_max_message_payload_len : Config → ℕ → Config
set_max_message_payload_len c x = record c { max_message_payload_len = x }

pub set_tcp_nodelay : Config → Bool → Config
set_tcp_nodelay c x = record c { tcp_nodelay = x }

pub set_tcp_keep_alive : Config → Bool → Config
set_tcp_keep_alive c x = record c { tcp_keep_alive = x }

pub set_tcp_keep_alive_period : Config → ℕ → Config
set_tcp_keep_alive_period c x = record c { tcp_keep_alive_period = x }

pub set_tcp_read_buffer_size : Config → ℕ → Config
set_tcp_read_buffer_size c x = record c { tcp_read_buffer_size = x }

pub set_tcp_write_buffer_size : Config → ℕ → Config
set_tcp_write_buffer_size c x = record c { tcp_write_buffer_size = x }

pub set_tcp_linger : Config → ℕ → Config
set_tcp_linger c x = record c { tcp_linger = x }

pub set_pending_requests_cleanup_interval : Config → ℕ → Config
set_pending_requests_cleanup_interval c x = record c { pending_requests_cleanup_interval = x }

pub set_session_cache_capacity : Config → ℕ → Config
set_session_cache_capacity c x = record c { session_cache = record (c.session_cache) { cap = x } }

pub set_session_cache_inactive_timeout : Config → ℕ → Config
set_session_cache_inactive_timeout c x = record c {
  session_cache = record (c.session_cache) { inactive_timeout = x };
}
