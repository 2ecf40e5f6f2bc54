-- ===== src/Tests/Api.antt =====
-- Runs of relay/internal/handler/schema.go.
use appunvs.Pb.Message.{Payload, Decoded}
use appunvs.Api.Schema.{Payloads}

abbrev payloads : Payloads
payloads = record {
  of_table = λ name. Payload.bytes 10 Decoded.undecodable;
  of_column = λ table c. Payload.bytes 20 Decoded.undecodable;
  of_deleted = λ table name. Payload.bytes 15 Decoded.undecodable;
}
