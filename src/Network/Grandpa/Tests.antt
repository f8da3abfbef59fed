-- ===== src/Network/Grandpa/Tests.antt =====
-- A lossless encoding in place of the library's, and the properties of the protocol at concrete inputs.
use polkadot_light_client.Common.{
  leb, if◌then◌else◌, length, length-append, take, drop, replicate, take-append, All, Bytes, codes,
  bytes_eq, library, ok, err, ℕ, zero, suc, ◌^◌, ◌<◌, ◌≡◌, refl, subst, inr, true, false, Option,
  none, some, List, [], ◌∷◌, ◌++◌, append_assoc, arith,
}
use polkadot_light_client.Chain.Spec.Containers.{map_find}
use polkadot_light_client.Network.Light2.Protocol.{light_protocol}
use polkadot_light_client.Network.Incoming.{
  closes, stream_calls, grandpa_protocol, init_protocols, Incoming, on_grandpa_stream, react,
  on_stream, running,
}
use polkadot_light_client.Network.Scale.Codec.{Codec, Scale, IsLossless, IsArray, ScaleLaws}
use polkadot_light_client.Network.Scale.ReadWriter.{read, write}
use polkadot_light_client.Network.Grandpa.Messages.{
  full_commit_message, BlockInfo, Message, message_codec,
}
use polkadot_light_client.Network.Grandpa.RoundTrip.{read-write}
use polkadot_light_client.Network.Grandpa.Protocol.{
  starts, stops, message_read, write_roles, reset, new_protocol, on_received, run, answer_handshake,
  incoming_stream_task, handle_stream,
}
use polkadot_light_client.Network.Grandpa.Silence.{run-new_protocol}

-- A number is one entry of the stream, an array its bytes, and a collection its length, then its
-- elements.
abbrev read_number : Bytes → Option (ℕ × Bytes)
read_number [] = none
read_number (n ∷ s) = some (n, s)

abbrev number : Codec ℕ
number = record { encode = λ n. n ∷ []; decode = read_number }

abbrev bytes_of : ℕ → Codec Bytes
bytes_of n = record {
  encode = λ bs. bs;
  decode = λ s. if leb n (length s) then some (take n s, drop n s) else none;
}

abbrev encode_all : {A : Type 0} → Codec A → List A → Bytes
encode_all codec [] = []
encode_all codec (x ∷ xs) = codec.encode x ++ encode_all codec xs

abbrev prepend : {A : Type 0} → A → Option (List A × Bytes) → Option (List A × Bytes)
prepend x none = none
prepend x (some (xs, s)) = some (x ∷ xs, s)

abbrev then_all :
    {A : Type 0} → (Bytes → Option (List A × Bytes)) → Option (A × Bytes) → Option (List A × Bytes)
then_all others none = none
then_all others (some (x, s)) = prepend x (others s)

unfoldable decode_all : {A : Type 0} → Codec A → ℕ → Bytes → Option (List A × Bytes)
decode_all codec zero s = some ([], s)
decode_all codec (suc n) s = then_all (decode_all codec n) (codec.decode s)

abbrev decode_counted : {A : Type 0} → Codec A → Option (ℕ × Bytes) → Option (List A × Bytes)
decode_counted codec none = none
decode_counted codec (some (n, s)) = decode_all codec n s

unfoldable counted : {A : Type 0} → Codec A → Codec (List A)
unfolding decode_all
counted codec = record {
  encode = λ xs. length xs ∷ encode_all codec xs;
  decode = λ s. decode_counted codec (read_number s);
}

number-IsLossless : (bound : ℕ) → IsLossless number (λ n. n < bound)
number-IsLossless bound = record { reads_back = λ n rest h. refl }

drop-append : (xs ys : Bytes) → drop (length xs) (xs ++ ys) ≡ ys
unfolding drop
drop-append [] ys = refl
drop-append (x ∷ xs) ys = drop-append xs ys

bytes_of_lem :
    (n : ℕ) (bs rest : Bytes) → length bs ≡ n → (bytes_of n).decode (bs ++ rest) ≡ some (bs, rest)
bytes_of_lem n bs rest e =
    let fits : leb (length bs) (length (bs ++ rest)) ≡ true =
      ground (arith, length-append bs rest) in
    subst (λ (k : ℕ). (bytes_of k).decode (bs ++ rest) ≡ some (bs, rest)) e
      (rw (fits, take-append, drop-append) refl)

bytes_of-IsLossless : (n : ℕ) → IsLossless (bytes_of n) (IsArray n)
bytes_of-IsLossless n = record { reads_back = λ bs rest h. bytes_of_lem n bs rest h.0 }

decode_all_lem :
    {A : Type 0} (codec : Codec A) (P : A → Type 0)
    → IsLossless codec P
    → (xs : List A) (rest : Bytes) → All P xs
    → decode_all codec (length xs) (encode_all codec xs ++ rest) ≡ some (xs, rest)
unfolding decode_all
decode_all_lem codec P l [] rest h = refl
decode_all_lem codec P l (x ∷ xs) rest (hx, hs) =
    rw
      (
        append_assoc (codec.encode x) (encode_all codec xs) rest,
        l.reads_back x (encode_all codec xs ++ rest) hx,
        decode_all_lem codec P l xs rest hs,
      )
      refl

counted-IsLossless :
    {A : Type 0} (codec : Codec A) (P : A → Type 0)
    → IsLossless codec P
    → IsLossless (counted codec) (All P)
unfolding counted
counted-IsLossless codec P l = record {
  reads_back = λ xs rest h. decode_all_lem codec P l xs rest h;
}

sample : Scale
sample = record {
  uint8 = number;
  uint32 = number;
  uint64 = number;
  array = bytes_of;
  collection = λ codec. counted codec;
  index = number;
}

sample-ScaleLaws : ScaleLaws sample
unfolding sample
sample-ScaleLaws = record {
  uint8 = number-IsLossless (2 ^ 8);
  uint32 = number-IsLossless (2 ^ 32);
  uint64 = number-IsLossless (2 ^ 64);
  array = bytes_of-IsLossless;
  collection = counted-IsLossless;
  index = number-IsLossless (2 ^ 8);
}

abbrev block : BlockInfo
block = record { number = 5; hash = replicate 32 7 }

abbrev commit : Message
commit = full_commit_message (record {
  round = 1;
  set_id = 2;
  message = record {
    target_hash = replicate 32 7;
    target_number = 5;
    precommits = block ∷ block ∷ [];
    auth_data = (replicate 64 1, replicate 32 2) ∷ [];
  };
})

abbrev nothing_more : Bytes
nothing_more = []

read-write_example :
    (buffer : Bytes) × (write (message_codec sample) (λ s. ok (length s)) commit
      ≡ ok (length buffer))
    × (read
          (message_codec sample)
          (record { category = library; value = 1 })
          commit
          (ok (some (buffer ++ nothing_more)))
        ≡ ok commit)
unfolding replicate
read-write_example =
    read-write sample-ScaleLaws commit nothing_more (record { category = library; value = 1 })
      commit (omega arith) (λ s. ok (length s))

run-new_protocol_example :
    ((run {PeerId = ℕ} new_protocol
        (starts ∷ message_read true (inr commit) ∷ stops ∷ [])).is_running
      ≡ false)
    × ((run {PeerId = ℕ} new_protocol
          (starts ∷ message_read true (inr commit) ∷ stops ∷ [])).observed
        ≡ [])
run-new_protocol_example = run-new_protocol (starts ∷ message_read true (inr commit) ∷ stops ∷ [])

handle_stream_test :
    handle_stream true true (ok 1) (err (record { category = library; value = 1 }))
    ≡ write_roles 2 ∷ reset ∷ []
unfolding handle_stream incoming_stream_task answer_handshake
handle_stream_test = refl

on_received_test :
    on_received {PeerId = ℕ} (some 7) (inr commit) (record new_protocol { is_running = true })
    ≡ (record new_protocol { is_running = true; observed = (7, commit) ∷ [] }, ok tt)
unfolding on_received
on_received_test = refl

-- A peer that offers a handshake by the GRANDPA protocol.
abbrev visitor : Incoming
visitor = record { owner_lives = true; peer_known = true; read_res = ok 1; write_res = ok 2 }

light_stream_test :
    on_stream (running (codes "/ipfs/ping/1.0.0")) light_protocol visitor ≡ closes ∷ []
unfolding on_stream map_find bytes_eq init_protocols react
light_stream_test = refl

grandpa_stream_test :
    on_stream (running (codes "/ipfs/ping/1.0.0")) grandpa_protocol visitor
    ≡ stream_calls (write_roles 2 ∷ []) ∷ []
unfolding on_stream map_find bytes_eq init_protocols react on_grandpa_stream handle_stream
    incoming_stream_task answer_handshake
grandpa_stream_test = refl
