-- ===== src/Errors.antt =====
-- `StoreError` of crates/dashboard-store/src/types.rs. A conflicting height is text.
use Prim.Native.String.{String}
use dashboard_quip_network.Prelude.{ℕ, List}

pub data StoreError : Type 0 where
  capacity network_identity writer_owned read_only incomplete_scan : StoreError
  database invalid verification_unavailable migration_history : String → StoreError
  conflicting_history : List ℕ → StoreError
  json io : String → StoreError
