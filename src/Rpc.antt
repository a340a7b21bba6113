-- ===== src/Rpc.antt =====
-- gdrpc/rpc and gdrpc/protocol: calls, their frames and the balancing between servers.
pub mod Header
mod SampleFormat
pub mod Codec
pub mod Caller
pub mod Dispatch
pub mod Cluster
pub mod Controller
pub mod ZkClient
mod SampleZookeeper
pub mod Endpoints
pub mod Serving
pub mod JsonCodec
