-- ===== src/Examples/Operation.antt =====
-- The server of the examples in operation: how it starts, and its sweeper.
use monash_fit1045_hd_projec.Base.{
  ℕ, ◌+◌, ◌-◌, ◌*◌, ◌≤◌, ◌≡◌, refl, [], ◌∷◌, arith, false, none, some, codes, ◌==◌,
}
use monash_fit1045_hd_projec.Containers.Map
use monash_fit1045_hd_projec.Domain.ClientSession.{ClientSession}
use monash_fit1045_hd_projec.Usecase.ExpireInactiveClients.Sessions.{session_of}
use monash_fit1045_hd_projec.Shared.Logging.{info}
use monash_fit1045_hd_projec.Service.Requests.{started}
use monash_fit1045_hd_projec.Service.Runner.{Files, create, set_ssl_credentials}
use monash_fit1045_hd_projec.Service.Startup.{Options, Ready}
use monash_fit1045_hd_projec.Service.Sweeper.{
  Reading, sleeps, Round, loop, sleeps_ends, loop_expires,
}
use monash_fit1045_hd_projec.Examples.Party.{byte_ids, ann, general, party, party-IsSound}

abbrev files : Files
files path = some path

abbrev options : Options
options = record {
  bind_address = codes "0.0.0.0:50051";
  cert_path = codes "cert";
  key_path = codes "key";
  insecure = false;
  history_cap = 200;
  heartbeat_timeout_secs = 90;
  heartbeat_sweep_interval_secs = 5;
  verbose = false;
  quiet = false;
}

abbrev ready : Ready
ready = record {
  level = info;
  is_sluggish = false;
  server = started 200 general 3;
  runner = set_ssl_credentials (codes "cert") (codes "key") (create (codes "0.0.0.0:50051"));
  sweeper = some (5, 90);
}

abbrev at : ℕ → Reading
at now = record { now = now; stop_requested = false }

sleeps_ends_example :
    (n : ℕ) × (sleeps 300 (at 0 ∷ at 200 ∷ at 400 ∷ []) ≡ some n) × (200 * n ≤ (300 - 0) + 199)
sleeps_ends_example =
    sleeps_ends 300 0 (at 0) (at 200 ∷ at 400 ∷ []) (omega arith, (omega arith, (omega arith, tt)))
      (omega arith)

-- Ann's last heartbeat was at 10, and the timeout is 90.
abbrev ann_session : ClientSession
ann_session = record {
  id = ann;
  username = codes "ann";
  joined_channels = general ∷ [];
  connected_since = 1;
  last_heartbeat_at = 10;
}

abbrev round : ℕ → Round
round now = record { meanwhile = λ s. s; stopped_before = false; stopped_after = false; now = now }

loop_expires_example : session_of ann (loop byte_ids 90 (round 95 ∷ round 101 ∷ []) party) ≡ none
unfolding Map.find ◌==◌
loop_expires_example =
    loop_expires byte_ids 90 ann (round 95 ∷ round 101 ∷ []) ann_session party party-IsSound
      (
        record { sound = λ s v. v; silent = λ s. refl; runs_on = refl; runs_through = refl },
        (record { sound = λ s v. v; silent = λ s. refl; runs_on = refl; runs_through = refl }, tt),
      )
      refl
