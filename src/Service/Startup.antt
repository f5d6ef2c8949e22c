-- ===== src/Service/Startup.antt =====
-- server/src/main.cpp: from the options of the command line to a server that is ready to serve. CLI11
-- has read the options; the files are a parameter.
use monash_fit1045_hd_projec.Base.{
  ℕ, Bool, not, ◌&&◌, ◌||◌, none, some, Option, Text, ltb, eqb, is_empty, if◌then◌else◌,
}
use monash_fit1045_hd_projec.Shared.Outcome.{Result, ok, err}
use monash_fit1045_hd_projec.Shared.Logging.{LogLevel, select_log_level}
use monash_fit1045_hd_projec.Shared.Ids.{ChannelId}
use monash_fit1045_hd_projec.Usecase.Ports.{Server}
use monash_fit1045_hd_projec.Service.Requests.{started}
use monash_fit1045_hd_projec.Service.Runner.{
  GrpcServerRunner, Credentials, insecure_credentials, ssl_credentials, Files, create, set_insecure,
  set_ssl_credentials, read_pem_file,
}

pub record Options : Type 0 where
  pub bind_address : Text
  pub cert_path : Text
  pub key_path : Text
  pub insecure : Bool
  pub history_cap : ℕ
  pub heartbeat_timeout_secs : ℕ
  pub heartbeat_sweep_interval_secs : ℕ
  pub verbose : Bool
  pub quiet : Bool

-- The server with what runs beside it: the sweeper's interval and timeout, if there is one.
pub record Ready : Type 0 where
  pub level : LogLevel
  pub is_sluggish : Bool
  pub server : Server
  pub runner : GrpcServerRunner
  pub sweeper : Option (ℕ × ℕ)

-- if (!cert_pem.has_value() || !key_pem.has_value()) return 1; the two files otherwise.
abbrev pub pem_pair : Result Text → Result Text → Option (Text × Text)
pem_pair (ok cert_pem) (ok key_pem) = some (cert_pem, key_pem)
pem_pair (ok cert_pem) (err e) = none
pem_pair (err e) key = none

-- The runner with its credentials, or none if a file cannot be read.
unfoldable pub secured : Files → Options → Option GrpcServerRunner
secured files options =
    let runner = create options.bind_address in
    if options.insecure
    then some (set_insecure runner)
    else elim (pem_pair (read_pem_file files options.cert_path)
        (read_pem_file files options.key_path)) [
          | none ↦ none
          | some (cert_pem, key_pem) ↦ some (set_ssl_credentials cert_pem key_pem runner)
        ]

-- What run() has set up when it starts the server, or none where it returns 1. `drawn` and `now` are
-- the identifier and the time of the seeded channel.
unfoldable pub start : Files → Options → ChannelId → ℕ → Option Ready
start files options drawn now =
    let timeout = options.heartbeat_timeout_secs in
    let interval = options.heartbeat_sweep_interval_secs in
    if not options.insecure && (is_empty options.cert_path || is_empty options.key_path)
    then none
    else if ltb 0 timeout && eqb interval 0
    then none
    else elim (secured files options) [
      | none ↦ none
      | some runner ↦ some (record {
        level = select_log_level options.quiet options.verbose;
        is_sluggish = ltb timeout interval && not (eqb timeout 0);
        server = started options.history_cap drawn now;
        runner = runner;
        sweeper = if ltb 0 timeout then some (interval, timeout) else none;
      })
    ]

-- The credentials that the options ask for: none where a file is missing.
abbrev pub wanted : Files → Options → Option Credentials
wanted files options =
    if options.insecure
    then some insecure_credentials
    else elim (pem_pair (read_pem_file files options.cert_path)
        (read_pem_file files options.key_path)) [
          | none ↦ none
          | some (cert_pem, key_pem) ↦ some (ssl_credentials key_pem cert_pem)
        ]
