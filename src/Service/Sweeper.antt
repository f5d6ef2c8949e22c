-- ===== src/Service/Sweeper.antt =====
-- server/src/adapter/grpc/heartbeat_sweeper.cpp: the thread that sweeps clients without heartbeats.
-- What the clock and the stop token answer, and what requests do to the server while the thread
-- sleeps, are the rounds that it is given.
use monash_fit1045_hd_projec.Base.{
  ℕ, suc, ◌+◌, ◌-◌, ◌*◌, ◌≤◌, ◌≡◌, refl, ap, ◌∙◌, [], ◌∷◌, inl, inr, List, Bool, false, none, some,
  Option, arith, ltb, ◌||◌, All, if◌then◌else◌, Bool-cases, length,
}
use monash_fit1045_hd_projec.Shared.Ids.{UuidLib, ClientId}
use monash_fit1045_hd_projec.Domain.ClientSession.{ClientSession, is_expired}
use monash_fit1045_hd_projec.Persistence.ClientRegistry.Expiry.{expired_in}
use monash_fit1045_hd_projec.Usecase.Ports.{Server}
use monash_fit1045_hd_projec.Usecase.Membership.{IsSound}
use monash_fit1045_hd_projec.Usecase.ExpireInactiveClients.{run}
use monash_fit1045_hd_projec.Usecase.ExpireInactiveClients.Sessions.{session_of, run-session}
use monash_fit1045_hd_projec.Usecase.ExpireInactiveClients.Effect.{run-Removes}

-- One look at the clock and at the stop token.
pub record Reading : Type 0 where
  pub now : ℕ
  pub stop_requested : Bool

abbrev once_more : Option ℕ → Option ℕ
once_more none = none
once_more (some n) = some (suc n)

-- while (now() < sleep_until_t && !stop.stop_requested()) sleep_for(200 ms), on the readings that the
-- loop takes in turn: how often it sleeps, and none if the readings run out.
unfoldable pub sleeps : ℕ → List Reading → Option ℕ
sleeps sleep_until [] = none
sleeps sleep_until (r ∷ readings) =
    let rest = sleeps sleep_until readings in
    if ltb r.now sleep_until then (if r.stop_requested then some 0 else once_more rest) else some 0

pub record Round : Type 0 where
  pub meanwhile : Server → Server
  pub stopped_before : Bool
  pub stopped_after : Bool
  pub now : ℕ

module _ (lib : UuidLib) (heartbeat_timeout : ℕ) where
  -- while (!stop.stop_requested()), with the sleep left out. A deadline before time 0 is 0: no
  -- heartbeat is before either.
  unfoldable pub loop : List Round → Server → Server
  loop [] s = s
  loop (r ∷ rounds) s =
      let slept = r.meanwhile s in
      let swept = loop rounds (run lib (r.now - heartbeat_timeout) slept).1 in
      if r.stopped_before then s else if r.stopped_after then slept else swept

-- The readings of a loop that begins at time `t`, in milliseconds, and sleeps 200 between two of them.
abbrev pub IsPaced : ℕ → List Reading → Type 0
IsPaced t [] = Unit {0}
IsPaced t (r ∷ readings) = (t ≤ r.now) × IsPaced (r.now + 200) readings

-- The sleep ends: if the readings are 200 milliseconds apart at least and reach the end of the
-- interval, the loop ends, after no more sleeps than 200 milliseconds fit into the interval, a part
-- of 200 counted as one.
pub sleeps_ends :
    (sleep_until t : ℕ) (r : Reading) (readings : List Reading)
    → IsPaced t (r ∷ readings)
    → sleep_until ≤ t + 200 * length readings
    → (n : ℕ) × (sleeps sleep_until (r ∷ readings) ≡ some n) × (200 * n ≤ (sleep_until - t) + 199)
unfolding sleeps
sleeps_ends sleep_until t r [] paced enough =
    let over : ltb r.now sleep_until ≡ false = ground (arith, paced.0) in
    (0, rw over refl, omega arith)
sleeps_ends sleep_until t r (r' ∷ rest) paced enough = elim (Bool-cases (ltb r.now sleep_until)) [
  | inr over ↦ (0, rw over refl, omega arith)
  | inl early ↦ elim (Bool-cases r.stop_requested) [
    | inl stop ↦ (0, rw (early, stop) refl, omega arith)
    | inr go ↦
        let late_enough : sleep_until ≤ r.now + 200 + 200 * length rest = ground (arith, paced.0) in
        let (n, ends, bound) = sleeps_ends sleep_until (r.now + 200) r' rest paced.1 late_enough in
        let ends' : once_more (sleeps sleep_until (r' ∷ rest)) ≡ some (suc n) = ap once_more ends in
        (suc n, rw (early, go) ends', ground (arith, paced.0, bound))
  ]
]

module _ (lib : UuidLib) (heartbeat_timeout : ℕ) (client : ClientId) where
  -- What requests do meanwhile keeps the server sound and the client's session, with its last
  -- heartbeat, as it is, and the thread is not told to stop.
  pub record IsUndisturbed (r : Round) : Type 0 where
    pub sound : (s : Server) → IsSound s → IsSound (r.meanwhile s)
    pub silent : (s : Server) → session_of client (r.meanwhile s) ≡ session_of client s
    pub runs_on : r.stopped_before ≡ false
    pub runs_through : r.stopped_after ≡ false

  -- A round comes more than the timeout after the last heartbeat.
  abbrev pub is_due : ℕ → List Round → Bool
  is_due last [] = false
  is_due last (r ∷ rounds) = ltb (last + heartbeat_timeout) r.now || is_due last rounds

  one_round :
      (r : Round) (rounds : List Round) (s : Server)
      → IsUndisturbed r
      → loop lib heartbeat_timeout (r ∷ rounds) s
        ≡ loop lib heartbeat_timeout rounds (run lib (r.now - heartbeat_timeout) (r.meanwhile s)).1
  unfolding loop
  one_round r rounds s u = rw (u.runs_on, u.runs_through) refl

  round-session :
      (r : Round) (s : Server)
      → IsSound s
      → IsUndisturbed r
      → session_of client (run lib (r.now - heartbeat_timeout) (r.meanwhile s)).1 ≡ (
          if expired_in (r.now - heartbeat_timeout) (session_of client s)
          then none
          else session_of client s)
  round-session r s v u =
      run-session lib (r.now - heartbeat_timeout) client (r.meanwhile s) (u.sound s v)
      ∙ ap (λ o. if expired_in (r.now - heartbeat_timeout) o then none else o) (u.silent s)

  loop-none :
      (rounds : List Round) (s : Server)
      → IsSound s
      → All IsUndisturbed rounds
      → session_of client s ≡ none
      → session_of client (loop lib heartbeat_timeout rounds s) ≡ none
  unfolding loop
  loop-none [] s v us gone = gone
  loop-none (r ∷ rounds) s v us gone = rw (one_round r rounds s us.0) (
      loop-none rounds (run lib (r.now - heartbeat_timeout) (r.meanwhile s)).1
        (run-Removes lib (r.now - heartbeat_timeout) (r.meanwhile s) (us.0.sound s v)).sound us.1
        (round-session r s v us.0 ∙ rw gone refl))

  -- A connected client that sends no heartbeat is removed in the first round that comes more than the
  -- timeout after its last one, and not before: after any rounds in a sound server its session is gone
  -- if there was such a round, and is as it was if not. The thread is not told to stop meanwhile, and
  -- requests are assumed to keep the server sound and to leave the client's session alone.
  pub loop_expires :
      (rounds : List Round) (session : ClientSession) (s : Server)
      → IsSound s
      → All IsUndisturbed rounds
      → session_of client s ≡ some session
      → session_of client (loop lib heartbeat_timeout rounds s)
        ≡ (if is_due session.last_heartbeat_at rounds then none else some session)
  unfolding loop is_expired
  loop_expires [] session s v us known = known
  loop_expires (r ∷ rounds) session s v us known =
      let next = (run lib (r.now - heartbeat_timeout) (r.meanwhile s)).1 in
      let sound' =
        (run-Removes lib (r.now - heartbeat_timeout) (r.meanwhile s) (us.0.sound s v)).sound in
      elim (Bool-cases (ltb (session.last_heartbeat_at + heartbeat_timeout) r.now)) [
        | inl due ↦
            rw (one_round r rounds s us.0, due)
              (loop-none rounds next sound' us.1
                (round-session r s v us.0 ∙ rw known (ground (arith, due))))
        | inr not_due ↦
            rw (one_round r rounds s us.0, not_due)
              (loop_expires rounds session next sound' us.1
                (round-session r s v us.0 ∙ rw known (ground (arith, not_due))))
      ]
