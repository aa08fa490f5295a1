-- ===== src/Player/Reconnect/Attempts.antt =====
-- reconnectWithBackoff of pkg/sendspin/player.go: how often it tries, how long it waits and which
-- addresses it tries.
use sendspin_go.Prelude.{
  ℕ, zero, suc, ◌+◌, ◌≤◌, ◌<◌, ◌≡◌, refl, inl, inr, true, false, List, [], ◌∷◌, map, arith, All,
  Bool-cases, length, take, if◌then◌else◌,
}
use sendspin_go.Prelude.Int.{ℤ, pos, ◌≤ℤ◌}
use sendspin_go.Prelude.Text.{String}
use sendspin_go.Player.Reconnect.{
  ReconnectConfig, Attempt, Ending, reconnected, gave_up, player_closed, waiting, Reconnection,
  after_attempt, address, jitter, next_delay, exhausted, reconnect_loop, reconnect_with_backoff,
}

-- The loop has ended with the listed attempts.
abbrev pub Stopped : Ending → Type 0
Stopped (reconnected a) = Unit
Stopped gave_up = Unit
Stopped player_closed = Unit
Stopped waiting = ⊥

module _ (multiply : ℤ → ℤ) (spread : ℤ → ℕ → ℤ) (cfg : ReconnectConfig)
    (server_addr : String) where
  pub addr_of : Attempt → String
  addr_of a = address cfg server_addr a.discovered

  next_delay-capped : (delay : ℤ) → next_delay multiply spread cfg delay ≤ℤ cfg.max_delay
  unfolding next_delay
  next_delay-capped delay = ground arith

  loop : List Attempt → ℕ → ℤ → Reconnection
  loop attempts n delay = reconnect_loop multiply spread attempts cfg server_addr n delay

  loop-nil :
      (n : ℕ) (delay : ℤ)
      → loop [] n delay ≡ record {
        waits = [];
        tried = [];
        ending = if exhausted multiply spread cfg (suc n) then gave_up else waiting;
      }
  unfolding loop reconnect_loop
  loop-nil n delay = refl

  -- The cases of the loop's body.
  data Case (a : Attempt) (attempts : List Attempt) (n : ℕ) (delay : ℤ) : Type 0 where
    no_more :
        exhausted multiply spread cfg (suc n) ≡ true
        → loop (a ∷ attempts) n delay ≡ record { waits = []; tried = []; ending = gave_up }
        → Case a attempts n delay
    closes :
        loop (a ∷ attempts) n delay ≡ record {
          waits = jitter multiply spread delay a.random ∷ [];
          tried = [];
          ending = player_closed;
        }
        → Case a attempts n delay
    succeeds :
        exhausted multiply spread cfg (suc n) ≡ false
        → loop (a ∷ attempts) n delay ≡ record {
          waits = jitter multiply spread delay a.random ∷ [];
          tried = addr_of a ∷ [];
          ending = reconnected (addr_of a);
        }
        → Case a attempts n delay
    fails :
        exhausted multiply spread cfg (suc n) ≡ false
        → loop (a ∷ attempts) n delay
          ≡ after_attempt
              (jitter multiply spread delay a.random)
              (addr_of a)
              (loop attempts (suc n) (next_delay multiply spread cfg delay))
        → Case a attempts n delay

  loop-Case : (a : Attempt) (attempts : List Attempt) (n : ℕ) (delay : ℤ) → Case a attempts n delay
  unfolding loop reconnect_loop addr_of
  loop-Case a attempts n delay = elim (Bool-cases (exhausted multiply spread cfg (suc n))) [
    | inl e ↦ no_more e (ground (arith, e))
    | inr e ↦ elim (Bool-cases a.closed) [
      | inl c ↦ closes (ground (arith, e, c))
      | inr c ↦ elim (Bool-cases a.connects) [
        | inl k ↦ succeeds e (ground (arith, e, c, k))
        | inr k ↦ fails e (ground (arith, e, c, k))
      ]
    ]
  ]

  -- The delays of the first attempts, from `delay` on.
  pub backoff : ℕ → ℤ → List ℤ
  backoff zero delay = []
  backoff (suc n) delay = delay ∷ backoff n (next_delay multiply spread cfg delay)

  -- The delays with the jitter of each attempt.
  pub jittered : List ℤ → List Attempt → List ℤ
  jittered (d ∷ ds) (a ∷ attempts) = jitter multiply spread d a.random ∷ jittered ds attempts
  jittered (d ∷ ds) [] = []
  jittered [] attempts = []

  backoff-capped :
      (n : ℕ) (delay : ℤ) → delay ≤ℤ cfg.max_delay → All (λ d. d ≤ℤ cfg.max_delay) (backoff n delay)
  unfolding backoff
  backoff-capped zero delay low = tt
  backoff-capped (suc n) delay low =
      (low, backoff-capped n (next_delay multiply spread cfg delay) (next_delay-capped delay))

  -- The address of each attempt is its own discovery's or the configured one; each wait is the
  -- jitter of its delay, and no delay is longer than the limit.
  pub record Account (attempts : List Attempt) (delay : ℤ) (r : Reconnection) : Type 0 where
    pub addresses : r.tried ≡ map addr_of (take (length r.tried) attempts)
    pub waited : r.waits ≡ jittered (backoff (length r.waits) delay) attempts
    pub capped : All (λ d. d ≤ℤ cfg.max_delay) (backoff (length r.waits) delay)

  module _ (limit : ℕ) (limited : cfg.max_attempts ≡ pos limit) (some_limit : 0 < limit) where
    exhausted-limit : (n : ℕ) → limit ≤ n → exhausted multiply spread cfg (suc n) ≡ true
    unfolding exhausted
    exhausted-limit n h = ground (arith, limited)

    room : (n : ℕ) → exhausted multiply spread cfg (suc n) ≡ false → n < limit
    unfolding exhausted
    room n e = ground (arith, limited, e)

    loop-few :
        (attempts : List Attempt) (n : ℕ) (delay : ℤ)
        → n ≤ limit
        → n + length (loop attempts n delay).tried ≤ limit
    unfolding after_attempt
    loop-few [] n delay h = rw (loop-nil n delay) (omega arith)
    loop-few (a ∷ attempts) n delay h = elim (loop-Case a attempts n delay) [
      | no_more e k ↦ rw k (omega arith)
      | closes k ↦ rw k (omega arith)
      | succeeds e k ↦ rw k (omega (arith, room n e))
      | fails e k ↦ rw k (
          omega
            (arith, loop-few attempts (suc n) (next_delay multiply spread cfg delay) (room n e)))
    ]

    loop-Stopped :
        (attempts : List Attempt) (n : ℕ) (delay : ℤ)
        → limit ≤ n + length attempts
        → Stopped (loop attempts n delay).ending
    unfolding after_attempt
    loop-Stopped [] n delay h = rw (loop-nil n delay, exhausted-limit n (omega arith)) tt
    loop-Stopped (a ∷ attempts) n delay h = elim (loop-Case a attempts n delay) [
      | no_more e k ↦ rw k tt
      | closes k ↦ rw k tt
      | succeeds e k ↦ rw k tt
      | fails e k ↦
          rw k (loop-Stopped attempts (suc n) (next_delay multiply spread cfg delay) (omega arith))
    ]

-- With a limit on the attempts, reconnecting ends, connected, given up or closed, within that many
-- attempts, whatever they meet.
pub reconnect_with_backoff-Stopped :
    (multiply : ℤ → ℤ) (spread : ℤ → ℕ → ℤ) (cfg : ReconnectConfig) (server_addr : String)
    (attempts : List Attempt) (limit : ℕ)
    → cfg.max_attempts ≡ pos limit
    → 0 < limit
    → limit ≤ length attempts
    → Stopped (reconnect_with_backoff multiply spread attempts cfg server_addr).ending
      × (length (reconnect_with_backoff multiply spread attempts cfg server_addr).tried ≤ limit)
unfolding reconnect_with_backoff loop
reconnect_with_backoff-Stopped multiply spread cfg server_addr attempts limit limited some_limit
      enough =
    (
      loop-Stopped multiply spread cfg server_addr limit limited some_limit attempts 0
          cfg.initial_delay (omega arith),
      omega (
        arith,
        loop-few multiply spread cfg server_addr limit limited some_limit attempts 0
            cfg.initial_delay (omega arith),
      ),
    )
