-- ===== src/Stream/Errors.antt =====
-- The failures of the audio source, pkg/sendspin/server_stream.go.
use sendspin_go.Prelude.{
  ℕ, suc, ◌+◌, ◌≡◌, sym, ap, List, [], ◌∷◌, ◌++◌, map, refl, ◌∙◌, Option, none, some, arith, length,
  leb, ◌&&◌, if◌then◌else◌, ltb,
}
use sendspin_go.Prelude.Int.{ℤ}
use sendspin_go.Roles.{ServerClient, any_role, has_role, send, stream_end}
use sendspin_go.Stream.{
  failed, got, Server, notify_client, notify_stream_end, generate_and_send_chunk,
}

-- A player with room in its queue has been sent stream/end; another client is as it was.
abbrev pub ended : ServerClient → ServerClient
ended c =
    if any_role c.roles "player" && ltb (length c.send_chan) 100
    then record c { send_chan = c.send_chan ++ stream_end ("player" ∷ []) ∷ [] }
    else c

module _ (opus_encode flac_encode : ℕ → List ℕ → Option (List ℕ))
    (resample : ℕ → List ℕ → List ℕ) where
  -- Ticks that all fail, at the given times.
  unfoldable pub fail_all : Server → List ℤ → Option Server
  fail_all s [] = some s
  fail_all s (now ∷ times) =
      elim (generate_and_send_chunk opus_encode flac_encode resample s now failed) [
        | none ↦ none
        | some s' ↦ fail_all s' times
      ]

  -- The server after a number of failures more.
  abbrev pub told : Server → ℕ → Server
  told s n = record {
    clients =
        if ltb s.consecutive_read_errs 50 && leb 50 (s.consecutive_read_errs + n)
        then map notify_client s.clients
        else s.clients;
    consecutive_read_errs = s.consecutive_read_errs + n;
  }

  fail_once :
      (s : Server) (now : ℤ)
      → generate_and_send_chunk opus_encode flac_encode resample s now failed ≡ some (told s 1)
  unfolding generate_and_send_chunk notify_stream_end
  fail_once s now = ground arith

  told-told : (s : Server) (n : ℕ) → told (told s 1) n ≡ told s (suc n)
  told-told s n = ground arith

  told-zero : (s : Server) → told s 0 ≡ s
  told-zero s = ground arith

  fail_all_from : (s : Server) (times : List ℤ) → fail_all s times ≡ some (told s (length times))
  unfolding fail_all
  fail_all_from s [] = ap some (sym (told-zero s))
  fail_all_from s (now ∷ times) =
      rw (fail_once s now, fail_all_from (told s 1) times, fail_all)
        (ap some (told-told s (length times)))

  got_resets :
      (s s' : Server) (now : ℤ) (samples : List ℕ)
      → generate_and_send_chunk opus_encode flac_encode resample s now (got samples) ≡ some s'
      → s'.consecutive_read_errs ≡ 0
  unfolding generate_and_send_chunk
  got_resets s s' now samples e = ground arith

  map-ended : (cs : List ServerClient) → map notify_client cs ≡ map ended cs
  unfolding notify_client send has_role
  map-ended [] = refl
  map-ended (c ∷ cs) = ground (arith, map-ended cs)

  -- After a tick that succeeds, any number of ticks that all fail raises the counter of read errors
  -- from 0 to their number. If there are fifty of them or more, stream/end for the players is put
  -- once at the end of the queue of each client with the player role whose queue has room, and else
  -- never; the clients are not changed otherwise.
  pub fail_all_lem :
      (s s' : Server) (now : ℤ) (samples : List ℕ) (times : List ℤ)
      → generate_and_send_chunk opus_encode flac_encode resample s now (got samples) ≡ some s'
      → fail_all s' times
        ≡ some (record {
          clients = if leb 50 (length times) then map ended s'.clients else s'.clients;
          consecutive_read_errs = length times;
        })
  fail_all_lem s s' now samples times e =
      let reset = got_resets s s' now samples e in
      fail_all_from s' times ∙ ground (arith, reset, map-ended s'.clients)
