-- ===== src/Client.antt =====
-- client/proto.h: the state of the client, ProtoClient, and the small operations on it. An array
-- that holds a text is that text; `recv_buffer` is its first `recv_len` bytes, and the socket
-- handle INVALID_SOCKET is `none`. The progress callback and the log file only show what is done.
mod Tests
use win16sync.Prelude.{ℕ, Bool, true, false, Option, none, some, List, [], Text, codes}
use win16sync.Cache.{Cache, no_cache}
use win16sync.Text.{copy_text}

-- PROTO_HOST_CAPACITY, PROTO_LOG_PATH_CAPACITY, PROTO_VERSION_CAPACITY, PROTO_LOCAL_PATH_CAPACITY,
-- PROTO_ERROR_CAPACITY and PROTO_NOTICE_CAPACITY
abbrev pub host_capacity : ℕ
host_capacity = 64

abbrev log_path_capacity : ℕ
log_path_capacity = 144

abbrev pub version_capacity : ℕ
version_capacity = 24

abbrev module_path_capacity : ℕ
module_path_capacity = 144

abbrev pub error_capacity : ℕ
error_capacity = 128

abbrev notice_capacity : ℕ
notice_capacity = 160

-- The client over the sockets of a network.
pub record ProtoClient (Socket : Type 0) : Type 0 where
  pub host : Text
  pub port : ℕ
  pub log_path : Text
  pub cache : Cache
  pub crc_disabled : Bool
  pub cache_recheck_enabled : Bool
  pub app_version : Text
  pub module_path : Text
  pub socket_handle : Option Socket
  pub recv_buffer : Text
  pub last_error : Text
  pub last_notice : Text
  pub wsa_ready : Bool

module _ {Socket : Type 0} where
  unfoldable pub set_error : ProtoClient Socket → Text → ProtoClient Socket
  set_error client message = record client {
    last_error = copy_text client.last_error message error_capacity;
  }

  unfoldable pub set_notice : ProtoClient Socket → Text → ProtoClient Socket
  set_notice client message = record client {
    last_notice = copy_text client.last_notice message notice_capacity;
  }

  unfoldable pub set_app_info : ProtoClient Socket → Text → Text → ProtoClient Socket
  set_app_info client version module_path = record client {
    app_version = copy_text client.app_version version version_capacity;
    module_path = copy_text client.module_path module_path module_path_capacity;
  }

  unfoldable pub set_log_path : ProtoClient Socket → Text → ProtoClient Socket
  set_log_path client path = record client {
    log_path = copy_text client.log_path path log_path_capacity;
  }

-- proto_client_init: every byte is cleared, and then the defaults are written.
unfoldable pub client_init : {Socket : Type 0} → ProtoClient Socket
client_init = record {
  host = copy_text [] (codes "127.0.0.1") host_capacity;
  port = 9071;
  log_path = [];
  cache = no_cache;
  crc_disabled = false;
  cache_recheck_enabled = false;
  app_version = copy_text [] (codes "0.2.2") version_capacity;
  module_path = [];
  socket_handle = none;
  recv_buffer = [];
  last_error = [];
  last_notice = [];
  wsa_ready = false;
}
