-- ===== src/Network/Grandpa/RoundTrip.antt =====
-- The messages of core/src/network/grandpa/messages.h, sent and received by
-- core/src/network/scale/message_reader_writer.h.
use polkadot_light_client.Common.{
  All, Bytes, ok, ErrorCode, Outcome, ◌>>=◌, ℕ, ◌^◌, ◌<◌, ◌≡◌, refl, some, ◌++◌, append_assoc,
  arith,
}
use polkadot_light_client.Network.Scale.Codec.{
  Codec, Scale, IsLossless, IsArray, ScaleLaws, pair, made, pair-IsLossless, members-IsLossless,
}
use polkadot_light_client.Network.Scale.ReadWriter.{read, write}
use polkadot_light_client.Network.Grandpa.Messages.{
  vote_message, full_commit_message, neighbor_message, catch_up_request, catch_up_response,
  BlockInfo, Vote, VoteMessage, CompactCommit, FullCommitMessage, GrandpaNeighborMessage,
  CatchUpRequest, SignedMessage, CatchUpResponse, Message, block_info_codec, vote_codec,
  vote_message_codec, compact_commit_codec, full_commit_codec, neighbor_codec, request_codec,
  signed_message_codec, response_codec, encode_message, decode_alternative, decode_from,
  message_codec,
}

-- The values that the members can hold: their widths, and the lengths of the arrays.
abbrev pub IsBlockInfo : BlockInfo → Type 0
IsBlockInfo b = (b.number < 2 ^ 32) × IsArray 32 b.hash

abbrev pub IsVote : Vote → Type 0
IsVote m = IsBlockInfo m.message × (IsArray 64 m.signature × IsArray 32 m.id)

abbrev pub IsVoteMessage : VoteMessage → Type 0
IsVoteMessage m = (m.round_number < 2 ^ 64) × ((m.set_id < 2 ^ 64) × IsVote m.vote)

abbrev pub IsCompactCommit : CompactCommit → Type 0
IsCompactCommit m =
    IsArray 32 m.target_hash
    × ((m.target_number < 2 ^ 32)
        × (All IsBlockInfo m.precommits
            × All (λ (a : Bytes × Bytes). IsArray 64 a.0 × IsArray 32 a.1) m.auth_data))

abbrev pub IsFullCommit : FullCommitMessage → Type 0
IsFullCommit m = (m.round < 2 ^ 64) × ((m.set_id < 2 ^ 64) × IsCompactCommit m.message)

abbrev pub IsNeighbor : GrandpaNeighborMessage → Type 0
IsNeighbor m =
    (m.version < 2 ^ 8)
    × ((m.round_number < 2 ^ 64) × ((m.voter_set_id < 2 ^ 64) × (m.last_finalized < 2 ^ 32)))

abbrev pub IsCatchUpRequest : CatchUpRequest → Type 0
IsCatchUpRequest m = (m.round_number < 2 ^ 64) × (m.voter_set_id < 2 ^ 64)

abbrev pub IsSignedMessage : SignedMessage → Type 0
IsSignedMessage m = IsVote m.message × (IsArray 64 m.signature × IsArray 32 m.id)

abbrev pub IsCatchUpResponse : CatchUpResponse → Type 0
IsCatchUpResponse m =
    (m.voter_set_id < 2 ^ 64)
    × ((m.round_number < 2 ^ 64)
        × (All IsSignedMessage m.prevote_justification
            × (All IsSignedMessage m.precommit_justification × IsBlockInfo m.best_final_candidate)))

abbrev pub IsMessage : Message → Type 0
IsMessage (vote_message m) = IsVoteMessage m
IsMessage (full_commit_message m) = IsFullCommit m
IsMessage (neighbor_message m) = IsNeighbor m
IsMessage (catch_up_request m) = IsCatchUpRequest m
IsMessage (catch_up_response m) = IsCatchUpResponse m

module _ {scale : Scale} (laws : ScaleLaws scale) where
  block_info_codec-IsLossless : IsLossless (block_info_codec scale) IsBlockInfo
  unfolding block_info_codec
  block_info_codec-IsLossless =
      members-IsLossless _ _ _ _ (λ b. refl) (pair-IsLossless _ _ _ _ laws.uint32 (laws.array 32))

  keys-IsLossless :
      IsLossless
        (pair (scale.array 64) (scale.array 32))
        (λ (a : Bytes × Bytes). IsArray 64 a.0 × IsArray 32 a.1)
  keys-IsLossless = pair-IsLossless _ _ _ _ (laws.array 64) (laws.array 32)

  vote_codec-IsLossless : IsLossless (vote_codec scale) IsVote
  unfolding vote_codec
  vote_codec-IsLossless =
      members-IsLossless _ _ _ _ (λ b. refl)
        (pair-IsLossless _ _ _ _ block_info_codec-IsLossless keys-IsLossless)

  vote_message_codec-IsLossless : IsLossless (vote_message_codec scale) IsVoteMessage
  unfolding vote_message_codec
  vote_message_codec-IsLossless =
      members-IsLossless _ _ _ _ (λ b. refl)
        (pair-IsLossless _ _ _ _ laws.uint64
          (pair-IsLossless _ _ _ _ laws.uint64 vote_codec-IsLossless))

  compact_commit_codec-IsLossless : IsLossless (compact_commit_codec scale) IsCompactCommit
  unfolding compact_commit_codec
  compact_commit_codec-IsLossless =
      members-IsLossless _ _ _ _ (λ b. refl)
        (pair-IsLossless _ _ _ _ (laws.array 32) (
          pair-IsLossless _ _ _ _ laws.uint32 (
            pair-IsLossless _ _ _ _ (laws.collection _ _ block_info_codec-IsLossless)
              (laws.collection _ _ keys-IsLossless))))

  full_commit_codec-IsLossless : IsLossless (full_commit_codec scale) IsFullCommit
  unfolding full_commit_codec
  full_commit_codec-IsLossless =
      members-IsLossless _ _ _ _ (λ b. refl)
        (pair-IsLossless _ _ _ _ laws.uint64
          (pair-IsLossless _ _ _ _ laws.uint64 compact_commit_codec-IsLossless))

  neighbor_codec-IsLossless : IsLossless (neighbor_codec scale) IsNeighbor
  unfolding neighbor_codec
  neighbor_codec-IsLossless =
      members-IsLossless _ _ _ _ (λ b. refl)
        (pair-IsLossless _ _ _ _ laws.uint8
          (pair-IsLossless _ _ _ _ laws.uint64 (pair-IsLossless _ _ _ _ laws.uint64 laws.uint32)))

  request_codec-IsLossless : IsLossless (request_codec scale) IsCatchUpRequest
  unfolding request_codec
  request_codec-IsLossless =
      members-IsLossless _ _ _ _ (λ b. refl) (pair-IsLossless _ _ _ _ laws.uint64 laws.uint64)

  signed_message_codec-IsLossless : IsLossless (signed_message_codec scale) IsSignedMessage
  unfolding signed_message_codec
  signed_message_codec-IsLossless =
      members-IsLossless _ _ _ _ (λ b. refl)
        (pair-IsLossless _ _ _ _ vote_codec-IsLossless keys-IsLossless)

  response_codec-IsLossless : IsLossless (response_codec scale) IsCatchUpResponse
  unfolding response_codec
  response_codec-IsLossless =
      members-IsLossless _ _ _ _ (λ b. refl)
        (pair-IsLossless _ _ _ _ laws.uint64 (
          pair-IsLossless _ _ _ _ laws.uint64 (
            pair-IsLossless _ _ _ _ (laws.collection _ _ signed_message_codec-IsLossless) (
              pair-IsLossless _ _ _ _ (laws.collection _ _ signed_message_codec-IsLossless)
                block_info_codec-IsLossless))))

  alternative-IsLossless :
      {A : Type 0} (n : ℕ) (codec : Codec A) (P : A → Type 0) (alternative : A → Message)
      → n < 2 ^ 8
      → IsLossless codec P
      → ((s : Bytes) → decode_alternative scale n s ≡ made alternative (codec.decode s))
      → (a : A) (rest : Bytes) → P a
      → decode_from scale (scale.index.decode ((scale.index.encode n ++ codec.encode a) ++ rest))
        ≡ some (alternative a, rest)
  alternative-IsLossless n codec P alternative small l at_n a rest h =
      rw
        (
          append_assoc (scale.index.encode n) (codec.encode a) rest,
          laws.index.reads_back n (codec.encode a ++ rest) small,
          at_n,
          l.reads_back a rest h,
        )
        refl

  message_codec-IsLossless : IsLossless (message_codec scale) IsMessage
  unfolding message_codec encode_message decode_alternative
  message_codec-IsLossless = record { reads_back = back }
    where
      back :
          (m : Message) (rest : Bytes)
          → IsMessage m
          → decode_from scale (scale.index.decode (encode_message scale m ++ rest)) ≡ some (m, rest)
      back (vote_message m) rest h =
          alternative-IsLossless 0 _ _ vote_message (omega arith) vote_message_codec-IsLossless
            (λ s. refl) m rest h
      back (full_commit_message m) rest h =
          alternative-IsLossless 1 _ _ full_commit_message (omega arith)
            full_commit_codec-IsLossless (λ s. refl) m rest h
      back (neighbor_message m) rest h =
          alternative-IsLossless 2 _ _ neighbor_message (omega arith) neighbor_codec-IsLossless
            (λ s. refl) m rest h
      back (catch_up_request m) rest h =
          alternative-IsLossless 3 _ _ catch_up_request (omega arith) request_codec-IsLossless
            (λ s. refl) m rest h
      back (catch_up_response m) rest h =
          alternative-IsLossless 4 _ _ catch_up_response (omega arith) response_codec-IsLossless
            (λ s. refl) m rest h

  -- The buffer that writing a message sends is read as that message, for every message whose members
  -- are in range, and whatever follows it in the buffer.
  pub read-write :
      (m : Message) (more : Bytes) (e : ErrorCode) (default : Message)
      → IsMessage m
      → (send : Bytes → Outcome ℕ)
      → (buffer : Bytes) × (write (message_codec scale) send m ≡ send buffer)
        × (read (message_codec scale) e default (ok (some (buffer ++ more))) ≡ ok m)
  unfolding write read ◌>>=◌
  read-write m more e default h send =
      ((message_codec scale).encode m, refl, rw (message_codec-IsLossless.reads_back m more h) refl)
