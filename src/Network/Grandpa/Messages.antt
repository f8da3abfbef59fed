-- ===== src/Network/Grandpa/Messages.antt =====
-- core/src/network/grandpa/messages.h: each message and its `serialize`.
use polkadot_light_client.Common.{Bytes, ℕ, Option, none, some, List, ◌++◌, zero, suc}
use polkadot_light_client.Network.Scale.Codec.{Codec, Scale, pair, made, members}

pub record BlockInfo : Type 0 where
  pub number : ℕ
  pub hash : Bytes

pub record Vote : Type 0 where
  pub message : BlockInfo
  pub signature : Bytes
  pub id : Bytes

pub record VoteMessage : Type 0 where
  pub round_number : ℕ
  pub set_id : ℕ
  pub vote : Vote

pub record CompactCommit : Type 0 where
  pub target_hash : Bytes
  pub target_number : ℕ
  pub precommits : List BlockInfo
  pub auth_data : List (Bytes × Bytes)

pub record FullCommitMessage : Type 0 where
  pub round : ℕ
  pub set_id : ℕ
  pub message : CompactCommit

pub record GrandpaNeighborMessage : Type 0 where
  pub version : ℕ
  pub round_number : ℕ
  pub voter_set_id : ℕ
  pub last_finalized : ℕ

pub record CatchUpRequest : Type 0 where
  pub round_number : ℕ
  pub voter_set_id : ℕ

pub record SignedMessage : Type 0 where
  pub message : Vote
  pub signature : Bytes
  pub id : Bytes

pub record CatchUpResponse : Type 0 where
  pub voter_set_id : ℕ
  pub round_number : ℕ
  pub prevote_justification : List SignedMessage
  pub precommit_justification : List SignedMessage
  pub best_final_candidate : BlockInfo

-- The alternatives of the variant, in their order.
pub data Message : Type 0 where
  vote_message : VoteMessage → Message
  full_commit_message : FullCommitMessage → Message
  neighbor_message : GrandpaNeighborMessage → Message
  catch_up_request : CatchUpRequest → Message
  catch_up_response : CatchUpResponse → Message

module _ (scale : Scale) where
  unfoldable pub block_info_codec : Codec BlockInfo
  block_info_codec =
      members (λ (b : BlockInfo). (b.number, b.hash)) (λ v. record { number = v.0; hash = v.1 })
        (pair scale.uint32 (scale.array 32))

  unfoldable pub vote_codec : Codec Vote
  vote_codec =
      members (λ (m : Vote). (m.message, (m.signature, m.id)))
        (λ v. record { message = v.0; signature = v.1.0; id = v.1.1 })
        (pair block_info_codec (pair (scale.array 64) (scale.array 32)))

  unfoldable pub vote_message_codec : Codec VoteMessage
  vote_message_codec =
      members (λ (m : VoteMessage). (m.round_number, (m.set_id, m.vote)))
        (λ v. record { round_number = v.0; set_id = v.1.0; vote = v.1.1 })
        (pair scale.uint64 (pair scale.uint64 vote_codec))

  unfoldable pub compact_commit_codec : Codec CompactCommit
  compact_commit_codec =
      members
        (λ (m : CompactCommit). (m.target_hash, (m.target_number, (m.precommits, m.auth_data))))
        (λ v. record {
          target_hash = v.0;
          target_number = v.1.0;
          precommits = v.1.1.0;
          auth_data = v.1.1.1;
        })
        (pair (scale.array 32) (
          pair scale.uint32 (
            pair (scale.collection block_info_codec)
              (scale.collection (pair (scale.array 64) (scale.array 32))))))

  unfoldable pub full_commit_codec : Codec FullCommitMessage
  full_commit_codec =
      members (λ (m : FullCommitMessage). (m.round, (m.set_id, m.message)))
        (λ v. record { round = v.0; set_id = v.1.0; message = v.1.1 })
        (pair scale.uint64 (pair scale.uint64 compact_commit_codec))

  unfoldable pub neighbor_codec : Codec GrandpaNeighborMessage
  neighbor_codec =
      members
        (λ (m : GrandpaNeighborMessage).
          (m.version, (m.round_number, (m.voter_set_id, m.last_finalized))))
        (λ v. record {
          version = v.0;
          round_number = v.1.0;
          voter_set_id = v.1.1.0;
          last_finalized = v.1.1.1;
        })
        (pair scale.uint8 (pair scale.uint64 (pair scale.uint64 scale.uint32)))

  unfoldable pub request_codec : Codec CatchUpRequest
  request_codec =
      members (λ (m : CatchUpRequest). (m.round_number, m.voter_set_id))
        (λ v. record { round_number = v.0; voter_set_id = v.1 }) (pair scale.uint64 scale.uint64)

  unfoldable pub signed_message_codec : Codec SignedMessage
  signed_message_codec =
      members (λ (m : SignedMessage). (m.message, (m.signature, m.id)))
        (λ v. record { message = v.0; signature = v.1.0; id = v.1.1 })
        (pair vote_codec (pair (scale.array 64) (scale.array 32)))

  unfoldable pub response_codec : Codec CatchUpResponse
  response_codec =
      members
        (λ (m : CatchUpResponse). (
          m.voter_set_id,
          (
            m.round_number,
            (m.prevote_justification, (m.precommit_justification, m.best_final_candidate)),
          ),
        ))
        (λ v. record {
          voter_set_id = v.0;
          round_number = v.1.0;
          prevote_justification = v.1.1.0;
          precommit_justification = v.1.1.1.0;
          best_final_candidate = v.1.1.1.1;
        })
        (pair scale.uint64 (
          pair scale.uint64 (
            pair (scale.collection signed_message_codec)
              (pair (scale.collection signed_message_codec) block_info_codec))))

  unfoldable pub encode_message : Message → Bytes
  encode_message (vote_message m) = scale.index.encode 0 ++ vote_message_codec.encode m
  encode_message (full_commit_message m) = scale.index.encode 1 ++ full_commit_codec.encode m
  encode_message (neighbor_message m) = scale.index.encode 2 ++ neighbor_codec.encode m
  encode_message (catch_up_request m) = scale.index.encode 3 ++ request_codec.encode m
  encode_message (catch_up_response m) = scale.index.encode 4 ++ response_codec.encode m

  -- The alternative of that number, read from the stream; there is none above 4.
  unfoldable pub decode_alternative : ℕ → Bytes → Option (Message × Bytes)
  decode_alternative zero s = made vote_message (vote_message_codec.decode s)
  decode_alternative (suc zero) s = made full_commit_message (full_commit_codec.decode s)
  decode_alternative (suc (suc zero)) s = made neighbor_message (neighbor_codec.decode s)
  decode_alternative (suc (suc (suc zero))) s = made catch_up_request (request_codec.decode s)
  decode_alternative (suc (suc (suc (suc zero)))) s =
      made catch_up_response (response_codec.decode s)
  decode_alternative (suc (suc (suc (suc (suc n))))) s = none

  abbrev pub decode_from : Option (ℕ × Bytes) → Option (Message × Bytes)
  decode_from none = none
  decode_from (some (n, s)) = decode_alternative n s

  unfoldable pub message_codec : Codec Message
  unfolding encode_message decode_alternative
  message_codec = record {
    encode = encode_message;
    decode = λ s. decode_from (scale.index.decode s);
  }
