-- ===== src/Storage.antt =====
-- crates/lunaroute-storage/src: what the storage keeps, in memory and in files.
pub mod State
pub mod RollingWriter
use lunaroute.Prelude.{String}

-- `StorageError`, as far as the models raise it.
pub data StorageError : Type 0 where
  io invalid_data serialization : String → StorageError
