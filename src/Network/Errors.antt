-- ===== src/Network/Errors.antt =====
-- core/src/network/common/errors.h and errors.cpp.
use polkadot_light_client.Common.{Bytes, codes, protocol_category, ErrorCode, ℕ}

pub data ProtocolError : Type 0 where
  owner_destroyed invalid_response protobuf_parsing_failed : ProtocolError

abbrev pub protocol_error_value : ProtocolError → ℕ
protocol_error_value owner_destroyed = 1
protocol_error_value invalid_response = 2
protocol_error_value protobuf_parsing_failed = 3

abbrev pub protocol_error : ProtocolError → ErrorCode
protocol_error e = record { category = protocol_category; value = protocol_error_value e }

unfoldable pub protocol_message : ProtocolError → Bytes
protocol_message owner_destroyed = codes "Protocol stopped"
protocol_message invalid_response = codes "Invalid response message type"
protocol_message protobuf_parsing_failed = codes "Failed to parse protobuf message"
