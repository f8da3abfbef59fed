-- ===== src/Network/Scale/Former.antt =====
-- core/src/network/scale_reader_writer.h, which nothing includes: the frames of libp2p are arguments.
use polkadot_light_client.Common.{
  Bytes, ok, err, thrown, fault, ErrorCode, Outcome, ◌>>=◌, ℕ, ◌≡◌, refl, Option, none, some,
}
use polkadot_light_client.Network.Scale.Codec.{Codec}
use polkadot_light_client.Network.Scale.ReadWriter.{decoded, read, write}

-- A null buffer is a default message; `scale::decode` reads from the front of a buffer.
abbrev pub former_message : {A : Type 0} → Codec A → ErrorCode → A → Option Bytes → Outcome A
former_message codec e default none = ok default
former_message codec e default (some buffer) = decoded e (codec.decode buffer)

abbrev pub former_result :
    {A : Type 0} → Codec A → ErrorCode → A → Outcome (Option Bytes) → Outcome A
former_result codec e default (ok buffer) = former_message codec e default buffer
former_result codec e default (err error) = err error
former_result codec e default thrown = thrown
former_result codec e default fault = fault

unfoldable pub former_read :
    {A : Type 0} → Codec A → ErrorCode → A → Outcome (Option Bytes) → Outcome A
former_read codec e default read_res = former_result codec e default read_res

unfoldable pub former_write : {A : Type 0} → Codec A → (Bytes → Outcome ℕ) → A → Outcome ℕ
former_write codec send msg = send (codec.encode msg)

-- The class does what the one that is used does.
pub former_read-eq :
    {A : Type 0} (codec : Codec A) (e : ErrorCode) (default : A) (read_res : Outcome (Option Bytes))
    → former_read codec e default read_res ≡ read codec e default read_res
unfolding former_read read ◌>>=◌
former_read-eq codec e default (ok none) = refl
former_read-eq codec e default (ok (some buffer)) = refl
former_read-eq codec e default (err error) = refl
former_read-eq codec e default thrown = refl
former_read-eq codec e default fault = refl

pub former_write-eq :
    {A : Type 0} (codec : Codec A) (send : Bytes → Outcome ℕ) (msg : A)
    → former_write codec send msg ≡ write codec send msg
unfolding former_write write
former_write-eq codec send msg = refl
