-- ===== src/BufferQueue.antt =====
-- BufferQueue of pkg/sendspin/scheduler.go, a priority queue on the play time, under Go's
-- container/heap (its up, down, Push and Pop are written out from the standard library).
pub mod Order
pub mod Up
pub mod Down
pub mod PushPop
mod Tests
use sendspin_go.Prelude.{
  ℕ, zero, suc, ◌+◌, ◌-◌, ◌*◌, ◌/◌, Bool, true, false, not, ◌&&◌, ◌||◌, List, [], ◌∷◌, ◌++◌, ltb,
  leb, ◌==◌, if◌then◌else◌, length, get_or, take,
}
use sendspin_go.Prelude.Int.{ℤ, pos, ltb_ℤ}
use sendspin_go.Prelude.Array.{exchange}
use sendspin_go.Audio.{Buffer, Format}

-- `audio.Buffer{}`
abbrev pub zero_buffer : Buffer
zero_buffer = record {
  timestamp = pos 0;
  play_at = pos 0;
  samples = [];
  format = record {
    codec = "";
    sample_rate = pos 0;
    channels = pos 0;
    bit_depth = pos 0;
    codec_header = [];
  };
}

-- `q.items[i]`
abbrev pub item : List Buffer → ℕ → Buffer
item q i = get_or q i zero_buffer

pub less : List Buffer → ℕ → ℕ → Bool
less q i j =
    if leb (length q) i || leb (length q) j
    then false
    else ltb_ℤ (item q i).play_at (item q j).play_at

pub swap : List Buffer → ℕ → ℕ → List Buffer
swap q i j = if leb (length q) i || leb (length q) j then q else exchange q i j zero_buffer

abbrev pub parent : ℕ → ℕ
parent j = (j - 1) / 2

-- heap.up. At the root `(j - 1) / 2` is 0 in Go too, since division rounds towards zero.
pub up : ℕ → List Buffer → ℕ → List Buffer
up zero q j = q
up (suc k) q j =
    let rise = up k (swap q (parent j) j) (parent j) in
    if parent j == j || not (less q j (parent j)) then q else rise

-- heap.down among the first `n` entries; `2 * i + 1` does not overflow.
pub down : ℕ → List Buffer → ℕ → ℕ → List Buffer
down zero q i n = q
down (suc k) q i n =
    let j1 = 2 * i + 1 in
    let j = if ltb (j1 + 1) n && less q (j1 + 1) j1 then j1 + 1 else j1 in
    let sink = down k (swap q i j) j n in
    if leb n j1 then q else if not (less q j i) then q else sink

-- heap.Push: append, then sift the last entry up. An entry has fewer ancestors than its index.
unfoldable pub push : List Buffer → Buffer → List Buffer
unfolding up less swap exchange
push q b = up (suc (length q)) (q ++ b ∷ []) (length q)

-- heap.Pop: exchange the first and the last entry, sift down among the others, take off the last.
unfoldable pub pop : List Buffer → Buffer × List Buffer
unfolding down less swap exchange
pop [] = (zero_buffer, [])
pop (x ∷ rest) =
    let n = length rest in
    let sifted = down (suc n) (swap (x ∷ rest) 0 n) 0 n in (item sifted n, take n sifted)

unfoldable pub peek : List Buffer → Buffer
peek [] = zero_buffer
peek (x ∷ rest) = x
