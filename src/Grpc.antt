-- ===== src/Grpc.antt =====
-- daemon/src/grpc/: the gRPC interface. Tonic decodes the requests and sends the answers.
pub mod Status
pub mod Calls
pub mod Stream
pub mod Denied
pub mod Steps
