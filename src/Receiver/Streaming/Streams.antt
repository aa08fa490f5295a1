-- ===== src/Receiver/Streaming/Streams.antt =====
-- What a receiver of pkg/sendspin/receiver.go has waiting to be played: the current stream.
use mathlib.Core.List.{Perm}
use mathlib.Core.List.Perm
use mathlib.Core.Path.{subst}
use sendspin_go.Prelude.{
  ℕ, ◌≡◌, refl, sym, ap, ◌∙◌, inl, inr, List, [], ◌∷◌, ◌++◌, Option, none, some, arith, map,
  Option-cases, List-cases,
}
use sendspin_go.Prelude.Int.{ℤ, pos}
use sendspin_go.Audio.{Buffer}
use sendspin_go.BufferQueue.PushPop.{push-IsHeap}
use sendspin_go.Roles.{StreamStartPlayer}
use sendspin_go.Scheduler.{Scheduler, new_scheduler, schedule, timed, clear}
use sendspin_go.Receiver.Streaming.{
  Codecs, Receiver, notify_error, make_decoder, stream_format, handle_stream_start,
  handle_audio_chunk, clear_scheduler,
}
use sendspin_go.Receiver.Streaming.Current.{Stream, emptied, with_chunk, with_start, Plays, Shows}

module _ (c : Codecs) (r : Receiver) where
  moves :
      (a : Receiver) (l : Option Stream) (b : Receiver) (m : Option Stream)
      → a ≡ b
      → l ≡ m
      → Shows c b m
      → Shows c a l
  moves a l b m e f h = subst (λ q. Shows c q l) (sym e) (subst (Shows c b) (sym f) h)

  -- The receiver with another scheduler.
  scheduling : Scheduler → Receiver
  scheduling s = record r { scheduler = some s }

  clear_scheduler-none : r.scheduler ≡ none → clear_scheduler r ≡ r
  unfolding clear_scheduler
  clear_scheduler-none e = ground (arith, e)

  clear_scheduler-some :
      (s : Scheduler) → r.scheduler ≡ some s → clear_scheduler r ≡ scheduling (clear s)
  unfolding clear_scheduler scheduling
  clear_scheduler-some s e = ground (arith, e)

  pub clear_scheduler-Shows :
      (m : Option Stream) → Shows c r m → Shows c (clear_scheduler r) (emptied m)
  unfolding clear scheduling
  clear_scheduler-Shows none h = subst (λ q. Shows c q none) (sym (clear_scheduler-none h.1)) h
  clear_scheduler-Shows (some st) (s, p) =
      subst (λ q. Shows c q (some (record st { chunks = [] })))
        (sym (clear_scheduler-some s p.schedules))
        (
          clear s,
          record {
            decodes = p.decodes;
            formats = p.formats;
            delayed = p.delayed;
            schedules = refl;
            heap = λ k i j. absurd (omega arith);
            queued = Perm.refl [];
          },
        )

  module _ (timestamp : ℤ) (bytes : List ℕ) where
    chunk : ℕ → List ℕ → Buffer
    chunk x xs = record {
      timestamp = timestamp;
      play_at = pos 0;
      samples = x ∷ xs;
      format = r.format;
    }

    chunk-none : r.decoder ≡ none → handle_audio_chunk c r timestamp bytes ≡ r
    unfolding handle_audio_chunk
    chunk-none e = ground (arith, e)

    module _ (d : ℕ) (s : Scheduler) (e : r.decoder ≡ some d) (k : r.scheduler ≡ some s) where
      chunk-bad : c.decode d bytes ≡ none → handle_audio_chunk c r timestamp bytes ≡ notify_error r
      unfolding handle_audio_chunk
      chunk-bad z = ground (arith, e, k, z)

      chunk-empty : c.decode d bytes ≡ some [] → handle_audio_chunk c r timestamp bytes ≡ r
      unfolding handle_audio_chunk
      chunk-empty z = ground (arith, e, k, z)

      chunk-some :
          (x : ℕ) (xs : List ℕ)
          → c.decode d bytes ≡ some (x ∷ xs)
          → handle_audio_chunk c r timestamp bytes
            ≡ scheduling (schedule c.server_to_local s (chunk x xs))
      unfolding handle_audio_chunk scheduling chunk
      chunk-some x xs z = ground (arith, e, k, z)

    notify-Shows : (m : Option Stream) → Shows c r m → Shows c (notify_error r) m
    unfolding notify_error
    notify-Shows none h = h
    notify-Shows (some st) (s, p) = (
      s,
      record {
        decodes = p.decodes;
        formats = p.formats;
        delayed = p.delayed;
        schedules = p.schedules;
        heap = p.heap;
        queued = p.queued;
      },
    )

    schedule-Shows :
        (st : Stream) (s : Scheduler) (x : ℕ) (xs : List ℕ)
        → Plays c r st s
        → Shows c
            (scheduling (schedule c.server_to_local s (chunk x xs)))
            (some (record st { chunks = record (chunk x xs) { format = st.format } ∷ st.chunks }))
    unfolding scheduling schedule chunk
    schedule-Shows st s x xs p =
        let t = timed c.server_to_local s.static_delay (chunk x xs) in
        let (heap, perm) = push-IsHeap s.buffer_q t p.heap in
        (
          schedule c.server_to_local s (chunk x xs),
          record {
            decodes = p.decodes;
            formats = p.formats;
            delayed = p.delayed;
            schedules = refl;
            heap = heap;
            queued =
                subst
                  (λ f. Perm (schedule c.server_to_local s (chunk x xs)).buffer_q (
                    record t { format = f }
                    ∷ map (timed c.server_to_local s.static_delay) st.chunks))
                  p.formats (Perm.trans perm (Perm.cons t p.queued));
          },
        )

    pub handle_audio_chunk-Shows :
        (m : Option Stream)
        → Shows c r m
        → Shows c (handle_audio_chunk c r timestamp bytes) (with_chunk c m timestamp bytes)
    unfolding chunk
    handle_audio_chunk-Shows none h = subst (λ q. Shows c q none) (sym (chunk-none h.0)) h
    handle_audio_chunk-Shows (some st) (s, p) =
        let d = st.decoder in
        let moved =
          moves (handle_audio_chunk c r timestamp bytes) (with_chunk c (some st) timestamp bytes) in
        elim (Option-cases (c.decode d bytes)) [
          | inl z ↦
              moved (notify_error r) (some st) (chunk-bad d s p.decodes p.schedules z)
                (ground (arith, z)) (notify-Shows (some st) (s, p))
          | inr (pcm, z) ↦ elim (List-cases pcm) [
            | inl e ↦
                let empty = z ∙ ap some e in
                moved r (some st) (chunk-empty d s p.decodes p.schedules empty)
                  (ground (arith, empty)) (s, p)
            | inr (x, xs, e) ↦
                let full = z ∙ ap some e in
                moved _
                  (some
                    (record st { chunks = record (chunk x xs) { format = st.format } ∷ st.chunks }))
                  (chunk-some d s p.decodes p.schedules x xs full) (ground (arith, full))
                  (schedule-Shows st s x xs p)
          ]
        ]

  module _ (start : StreamStartPlayer) where
    start-none :
        make_decoder c (stream_format c start) ≡ none
        → handle_stream_start c r (some start) ≡ notify_error r
    unfolding handle_stream_start
    start-none e = ground (arith, e)

    streaming : ℕ → Receiver
    streaming d = record r {
      decoder = some d;
      format = stream_format c start;
      scheduler = some (new_scheduler r.buffer_ms r.static_delay_ms);
      started = r.started ++ stream_format c start ∷ [];
    }

    start-some :
        (d : ℕ)
        → make_decoder c (stream_format c start) ≡ some d
        → handle_stream_start c r (some start) ≡ streaming d
    unfolding handle_stream_start streaming
    start-some d e = ground (arith, e)

    pub handle_stream_start-Shows :
        (m : Option Stream)
        → Shows c r m
        → Shows c (handle_stream_start c r (some start)) (with_start c m start)
    unfolding streaming new_scheduler
    handle_stream_start-Shows m h =
        let begun = moves (handle_stream_start c r (some start)) (with_start c m start) in
        elim (Option-cases (make_decoder c (stream_format c start))) [
          | inl e ↦
              begun (notify_error r) m (start-none e) (ground (arith, e))
                (notify-Shows (pos 0) [] m h)
          | inr (d, e) ↦
              begun (streaming d)
                (some (record { decoder = d; format = stream_format c start; chunks = [] }))
                (start-some d e) (ground (arith, e))
                (
                  new_scheduler r.buffer_ms r.static_delay_ms,
                  record {
                    decodes = refl;
                    formats = refl;
                    delayed = refl;
                    schedules = refl;
                    heap = λ k i j. absurd (omega arith);
                    queued = Perm.refl [];
                  },
                )
        ]
