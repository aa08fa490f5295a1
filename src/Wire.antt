-- ===== src/Wire.antt =====
-- The binary frames of pkg/protocol: CreateAudioChunk and CreateArtworkChunk of
-- pkg/sendspin/server_stream.go write them, handleBinaryMessage of pkg/protocol/client.go reads
-- them. A byte is a number below 2^8, and encoding/binary's big-endian order is written out.
pub mod RoundTrip
mod Tests
use sendspin_go.Prelude.{
  ℕ, ◌+◌, ◌-◌, ◌*◌, ◌/◌, ◌%◌, ◌^◌, Bool, ◌&&◌, List, [], ◌∷◌, ◌++◌, ltb, leb, ◌==◌, if◌then◌else◌,
  length, get_or, take, drop,
}
use sendspin_go.Prelude.Int.{ℤ, pos}
use sendspin_go.Prelude.Int64.{to_u64, of_u64, add64}

-- BinaryMessageHeaderSize, AudioChunkMessageType, ArtworkChannel0MessageType and 3.
abbrev pub binary_message_header_size : ℕ
binary_message_header_size = 1 + 8

abbrev pub audio_chunk_message_type : ℕ
audio_chunk_message_type = 4

abbrev pub artwork_channel0_message_type : ℕ
artwork_channel0_message_type = 8

abbrev pub artwork_channel3_message_type : ℕ
artwork_channel3_message_type = 11

-- binary.BigEndian.PutUint64
pub put_u64 : ℕ → List ℕ
put_u64 u =
    u / 2 ^ 56 % 2 ^ 8
    ∷ u / 2 ^ 48 % 2 ^ 8
    ∷ u / 2 ^ 40 % 2 ^ 8
    ∷ u / 2 ^ 32 % 2 ^ 8
    ∷ u / 2 ^ 24 % 2 ^ 8
    ∷ u / 2 ^ 16 % 2 ^ 8
    ∷ u / 2 ^ 8 % 2 ^ 8
    ∷ u % 2 ^ 8
    ∷ []

-- binary.BigEndian.Uint64
pub get_u64 : ℕ → List ℕ → ℕ
get_u64 acc [] = acc
get_u64 acc (b ∷ bytes) = get_u64 (acc * 2 ^ 8 + b) bytes

pub create_audio_chunk : ℤ → List ℕ → List ℕ
unfolding put_u64
create_audio_chunk timestamp audio_data =
    audio_chunk_message_type ∷ (put_u64 (to_u64 timestamp) ++ audio_data)

pub create_artwork_chunk : ℤ → ℤ → List ℕ → List ℕ
unfolding put_u64
create_artwork_chunk channel timestamp image_data =
    to_u64 (add64 (pos artwork_channel0_message_type) channel) % 2 ^ 8
    ∷ (put_u64 (to_u64 timestamp) ++ image_data)

pub data BinaryMessage : Type 0 where
  too_short : BinaryMessage
  audio : ℤ → List ℕ → BinaryMessage
  artwork : ℕ → ℤ → List ℕ → BinaryMessage
  unknown : ℕ → BinaryMessage

-- handleBinaryMessage up to the channel that the result goes to.
unfoldable pub parse_binary_message : List ℕ → BinaryMessage
unfolding get_u64
parse_binary_message bytes =
    if ltb (length bytes) binary_message_header_size
    then BinaryMessage.too_short
    else let msg_type = get_or bytes 0 0 in
      let timestamp = of_u64 (get_u64 0 (take 8 (drop 1 bytes))) in
      let payload = drop binary_message_header_size bytes in
      if msg_type == audio_chunk_message_type
      then BinaryMessage.audio timestamp payload
      else if leb artwork_channel0_message_type msg_type
          && leb msg_type artwork_channel3_message_type
      then BinaryMessage.artwork (msg_type - artwork_channel0_message_type) timestamp payload
      else BinaryMessage.unknown msg_type
