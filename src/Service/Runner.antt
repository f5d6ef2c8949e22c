-- ===== src/Service/Runner.antt =====
-- server/src/adapter/grpc/server_runner.cpp, tls_config.cpp: the gRPC server from its credentials to
-- its end. What ServerBuilder makes of credentials and an address is a parameter: the port that was
-- selected, or none if the server does not start.
use monash_fit1045_hd_projec.Base.{
  ℕ, zero, suc, ◌+◌, ◌/◌, ◌%◌, [], ◌∷◌, ◌++◌, Bool, true, false, none, some, Option, Text, eqb,
  if◌then◌else◌,
}
use monash_fit1045_hd_projec.Shared.Outcome.{Result, ok, err, storage_error}

-- ServerCredentials, with the key and the certificate chain of the pair.
pub data Credentials : Type 0 where
  insecure_credentials : Credentials
  ssl_credentials : Text → Text → Credentials

pub record GrpcServerRunner : Type 0 where
  pub bind_address : Text
  pub insecure : Bool
  pub cert_pem : Text
  pub key_pem : Text
  pub has_server : Bool
  pub bound_address : Text
  pub started : Bool

unfoldable pub create : Text → GrpcServerRunner
create bind_address = record {
  bind_address = bind_address;
  insecure = false;
  cert_pem = [];
  key_pem = [];
  has_server = false;
  bound_address = [];
  started = false;
}

unfoldable pub set_ssl_credentials : Text → Text → GrpcServerRunner → GrpcServerRunner
set_ssl_credentials cert_pem key_pem runner = record runner {
  insecure = false;
  cert_pem = cert_pem;
  key_pem = key_pem;
}

unfoldable pub set_insecure : GrpcServerRunner → GrpcServerRunner
set_insecure runner = record runner { insecure = true; cert_pem = []; key_pem = [] }

abbrev has_colon : Text → Bool
has_colon [] = false
has_colon (c ∷ s) = if eqb c b':' then true else has_colon s

-- The text before its last colon, or all of it: bind_address_.substr(0, bind_address_.rfind(':')).
unfoldable pub host_of : Text → Text
host_of [] = []
host_of (c ∷ s) =
    let rest = host_of s in if has_colon s then c ∷ rest else if eqb c b':' then [] else c ∷ s

abbrev digits : ℕ → ℕ → Text → Text
digits zero n acc = acc
digits (suc fuel) n acc =
    let more = digits fuel (n / 10) ((b'0' + n % 10) ∷ acc) in
    if eqb (n / 10) 0 then (b'0' + n % 10) ∷ acc else more

-- std::to_string
unfoldable pub to_string : ℕ → Text
to_string n = digits (suc n) n []

unfoldable pub credentials_of : GrpcServerRunner → Credentials
credentials_of runner =
    if runner.insecure then insecure_credentials else ssl_credentials runner.key_pem runner.cert_pem

abbrev pub Builder : Type 0
Builder = Credentials → Text → Option ℕ

-- run_and_block up to the call of Wait: the exit code if the server does not start.
unfoldable pub run_until_wait : Builder → GrpcServerRunner → Option ℕ × GrpcServerRunner
run_until_wait build_and_start runner =
    elim (build_and_start (credentials_of runner) runner.bind_address) [
      | none ↦ (some 1, record runner { started = false })
      | some selected_port ↦ (
        none,
        record runner {
          has_server = true;
          bound_address = host_of runner.bind_address ++ (b':' ∷ to_string selected_port);
          started = true;
        },
      )
    ]

-- The rest of run_and_block, once Wait has returned.
unfoldable pub run_after_wait : GrpcServerRunner → ℕ × GrpcServerRunner
run_after_wait runner = (0, record runner { has_server = false; started = false })

-- The contents of a file, if it can be opened.
abbrev pub Files : Type 0
Files = Text → Option Text

unfoldable pub read_pem_file : Files → Text → Result Text
read_pem_file files path = elim (files path) [
  | none ↦ err storage_error
  | some contents ↦ ok contents
]
