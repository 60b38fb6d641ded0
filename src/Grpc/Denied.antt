-- ===== src/Grpc/Denied.antt =====
-- On `publish_delta` and `open_stream` of daemon/src/grpc/service.rs when the agent lacks the scope.
use attow_nexus.Platform.{Platform}
use attow_nexus.Proto.Messages
