-- ===== src/Client/Gateway.antt =====
-- client-cli/src/adapter/grpc/grpc_server_gateway.cpp: the calls of the client, over the stub that gRPC
-- generates. The stub is an interface: a remote state, and one function per call that answers with a
-- response or a status.
pub mod EndToEnd
pub mod Fit
use monash_fit1045_hd_projec.Base.{
  ℕ, [], ◌∷◌, Bool, true, false, Option, none, some, List, Text, ◌==◌, if◌then◌else◌,
}
use monash_fit1045_hd_projec.Shared.Outcome.{
  Error, Result, ok, err, Exec, ◌>>=◌, ◌>>◌, pure, lift, or_fail, continue, channel_not_found,
}
use monash_fit1045_hd_projec.Shared.StringUtils.{trim, trim_copy}
use monash_fit1045_hd_projec.Publisher.ChannelListPublisher.{ChannelSummary}
use monash_fit1045_hd_projec.Service.Status.{Status}
use monash_fit1045_hd_projec.Client.StatusToError.{status_to_error}

pub data Reply (A : Type 0) : Type 0 where
  answered : A → Reply A
  failed : Status → Reply A

pub record Stub (R : Type 0) : Type 0 where
  pub connect : Text → R → Reply Text × R
  pub disconnect : Text → R → Reply (Unit {0}) × R
  pub create_channel : Text → Text → R → Reply Text × R
  pub list_channels : R → Reply (List ChannelSummary) × R
  pub join_channel : Text → Text → R → Reply (Unit {0}) × R
  pub leave_channel : Text → Text → R → Reply (Unit {0}) × R
  pub send_message : Text → Text → Text → R → Reply Text × R
  pub heartbeat : Text → R → Reply (Unit {0}) × R

-- if (!status.ok()) return std::unexpected(statusToError(status))
abbrev pub result_of : {A : Type 0} → Reply A → Result A
result_of (answered a) = ok a
result_of (failed status) = err (status_to_error status)

abbrev pub call : {R A : Type 0} → (R → Reply A × R) → Exec R A
call f s = let (reply, s') = f s in (result_of reply, s')

-- for (channel : channels) if (channel.name == name) return it
unfoldable pub find_named : Text → List ChannelSummary → Option ChannelSummary
find_named name [] = none
find_named name (channel ∷ channels) =
    if channel.name == name then some channel else find_named name channels

module _ {R : Type 0} (stub : Stub R) where
  unfoldable pub connect : Text → Exec R Text
  connect username = call (stub.connect (trim_copy username))

  unfoldable pub disconnect : Text → Exec R (Unit {0})
  disconnect client_id = call (stub.disconnect (trim_copy client_id))

  unfoldable pub create_channel : Text → Text → Exec R Text
  create_channel client_id channel_name =
      call (stub.create_channel (trim_copy client_id) (trim_copy channel_name))

  unfoldable pub list_channels : Exec R (List ChannelSummary)
  list_channels = call stub.list_channels

  unfoldable pub join_channel : Text → Text → Exec R (Unit {0})
  join_channel client_id channel_id =
      call (stub.join_channel (trim_copy client_id) (trim_copy channel_id))

  unfoldable pub join_channel_by_name : Text → Text → Exec R Text
  unfolding list_channels join_channel
  join_channel_by_name client_id channel_name = do
    let trimmed_name : Text = trim channel_name
    channels ← list_channels
    channel ← lift (or_fail (find_named trimmed_name channels) channel_not_found)
    join_channel client_id channel.id
    pure channel.id

  unfoldable pub leave_channel : Text → Text → Exec R (Unit {0})
  leave_channel client_id channel_id =
      call (stub.leave_channel (trim_copy client_id) (trim_copy channel_id))

  unfoldable pub send_message : Text → Text → Text → Exec R Text
  send_message client_id channel_id content =
      call (stub.send_message (trim_copy client_id) (trim_copy channel_id) (trim_copy content))

  unfoldable pub send_heartbeat : Text → Exec R (Unit {0})
  send_heartbeat client_id = call (stub.heartbeat (trim_copy client_id))
