-- ===== src/Network/Scale/ReadWriter.antt =====
-- core/src/network/scale/message_reader_writer.h. The frames of libp2p are arguments: what was read of
-- the stream, and the result of writing to it.
use polkadot_light_client.Common.{Bytes, ok, err, ErrorCode, Outcome, ◌>>=◌, ℕ, Option, none, some}
use polkadot_light_client.Network.Scale.Codec.{Codec}

-- `scale::decode` reads a value from the front of the buffer; what follows it is left.
abbrev pub decoded : {A : Type 0} → ErrorCode → Option (A × Bytes) → Outcome A
decoded e none = err e
decoded e (some (a, rest)) = ok a

-- A null buffer is a default message.
abbrev pub message_of : {A : Type 0} → Codec A → ErrorCode → A → Option Bytes → Outcome A
message_of codec e default none = ok default
message_of codec e default (some buffer) = decoded e (codec.decode buffer)

unfoldable pub read : {A : Type 0} → Codec A → ErrorCode → A → Outcome (Option Bytes) → Outcome A
read codec e default read_res = do buffer ← read_res; message_of codec e default buffer

unfoldable pub write : {A : Type 0} → Codec A → (Bytes → Outcome ℕ) → A → Outcome ℕ
write codec send msg = send (codec.encode msg)
