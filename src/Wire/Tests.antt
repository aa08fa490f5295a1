-- ===== src/Wire/Tests.antt =====
-- Frames at concrete payloads, and the theorems on them.
use sendspin_go.Prelude.{ℕ, ◌≡◌, refl, List, [], ◌∷◌, arith}
use sendspin_go.Prelude.Int.{pos, negsuc}
use sendspin_go.Prelude.Int64.{to_u64}
use sendspin_go.Wire.{create_audio_chunk, BinaryMessage, parse_binary_message}
use sendspin_go.Wire.RoundTrip.{parse-create_audio_chunk}

frame : create_audio_chunk (pos 258) (77 ∷ []) ≡ 4 ∷ 0 ∷ 0 ∷ 0 ∷ 0 ∷ 0 ∷ 0 ∷ 1 ∷ 2 ∷ 77 ∷ []
unfolding create_audio_chunk to_u64
frame = refl

parse-create_audio_chunk_example :
    parse_binary_message (create_audio_chunk (negsuc 4) (7 ∷ 8 ∷ []))
    ≡ BinaryMessage.audio (negsuc 4) (7 ∷ 8 ∷ [])
parse-create_audio_chunk_example = parse-create_audio_chunk (negsuc 4) (7 ∷ 8 ∷ []) (omega arith)

abbrev stray : List ℕ
stray = 5 ∷ 0 ∷ 0 ∷ 0 ∷ 0 ∷ 0 ∷ 0 ∷ 0 ∷ 0 ∷ []
