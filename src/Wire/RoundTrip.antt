-- ===== src/Wire/RoundTrip.antt =====
-- The frames that the server writes are read back by the client.
use sendspin_go.Prelude.{
  ℕ, ◌+◌, ◌%◌, ◌^◌, ◌≤◌, ◌<◌, ◌≡◌, ap, ◌∙◌, ◌↔◌, ◌≢◌, ◌⊎◌, false, ltb, get_or, List, arith, length,
}
use sendspin_go.Prelude.Int.{ℤ, pos, ◌+ℤ◌}
use sendspin_go.Prelude.Int64.{to_u64, of_u64, add64, IsInt64, of_u64-to_u64, to_u64-lt, wrap64}
use sendspin_go.Wire.{
  put_u64, get_u64, create_audio_chunk, create_artwork_chunk, BinaryMessage, parse_binary_message,
}

-- Eight big-endian bytes give the number back.
get_u64-put_u64 : (u : ℕ) → u < 2 ^ 64 → get_u64 0 (put_u64 u) ≡ u
unfolding get_u64 put_u64
get_u64-put_u64 u h = omega arith

timestamp_back : (t : ℤ) → IsInt64 t → of_u64 (get_u64 0 (put_u64 (to_u64 t))) ≡ t
timestamp_back t h = ap of_u64 (get_u64-put_u64 (to_u64 t) (to_u64-lt t)) ∙ of_u64-to_u64 t h

long_enough : (n : ℕ) → 9 ≤ n → ltb n 9 ≡ false
long_enough n h = ground arith

type_byte : (c : ℕ) → c < 4 → to_u64 (add64 (pos 8) (pos c)) % 2 ^ 8 ≡ 8 + c
unfolding to_u64 add64 wrap64 ◌+ℤ◌
type_byte c h = ground arith

-- An audio frame of any timestamp and payload is read back as that timestamp and payload.
pub parse-create_audio_chunk :
    (timestamp : ℤ) (payload : List ℕ)
    → IsInt64 timestamp
    → parse_binary_message (create_audio_chunk timestamp payload)
      ≡ BinaryMessage.audio timestamp payload
unfolding parse_binary_message create_audio_chunk
parse-create_audio_chunk timestamp payload h =
    rw (long_enough (length (create_audio_chunk timestamp payload)) (omega arith))
      (ap (λ t. BinaryMessage.audio t payload) (timestamp_back timestamp h))

-- A frame for artwork channel 0 to 3 is read back as that channel, timestamp and image.
pub parse-create_artwork_chunk :
    (channel : ℕ) (timestamp : ℤ) (image : List ℕ)
    → channel < 4
    → IsInt64 timestamp
    → parse_binary_message (create_artwork_chunk (pos channel) timestamp image)
      ≡ BinaryMessage.artwork channel timestamp image
unfolding parse_binary_message create_artwork_chunk
parse-create_artwork_chunk channel timestamp image c h =
    rw
      (
        long_enough (length (create_artwork_chunk (pos channel) timestamp image)) (omega arith),
        type_byte channel c,
        timestamp_back timestamp h,
      )
      (ground arith)

-- The client ignores a binary frame exactly if it is shorter than its header or its first byte is
-- neither 4 nor one of 8 to 11; it then reports the frame as too short or the byte as unknown.
pub parse_binary_message_ignores :
    (bytes : List ℕ)
    → ((parse_binary_message bytes ≡ BinaryMessage.too_short) ↔ (length bytes < 9))
      × ((t : ℕ)
          → (parse_binary_message bytes ≡ BinaryMessage.unknown t)
            ↔ ((9 ≤ length bytes) × (get_or bytes 0 0 ≡ t) × (t ≢ 4) × ((t < 8) ⊎ (11 < t))))
unfolding parse_binary_message
parse_binary_message_ignores bytes =
    ((λ h. ground arith, λ h. ground arith), λ t. (λ h. ground arith, λ h. ground arith))

-- An audio frame is its payload behind a header of nine bytes.
pub length-create_audio_chunk :
    (timestamp : ℤ) (payload : List ℕ)
    → length (create_audio_chunk timestamp payload) ≡ 9 + length payload
unfolding create_audio_chunk put_u64
length-create_audio_chunk timestamp payload = omega arith
