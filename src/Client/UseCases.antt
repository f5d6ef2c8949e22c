-- ===== src/Client/UseCases.antt =====
-- client-cli/src/application/usecase: the use cases of the client, each a call of the gateway.
use monash_fit1045_hd_projec.Base.{Text}
use monash_fit1045_hd_projec.Shared.Outcome.{Exec}
use monash_fit1045_hd_projec.Client.Gateway
use monash_fit1045_hd_projec.Client.Gateway.{Stub}

module _ {R : Type 0} (stub : Stub R) where
  -- ConnectToServer::execute
  abbrev pub connect_to_server : Text → Exec R Text
  connect_to_server username = Gateway.connect stub username

  -- JoinChannelCommand::execute
  abbrev pub join_channel_command : Text → Text → Exec R Text
  join_channel_command client_id channel_name =
      Gateway.join_channel_by_name stub client_id channel_name

  -- CreateChannelCommand::execute
  abbrev pub create_channel_command : Text → Text → Exec R Text
  create_channel_command client_id channel_name = Gateway.create_channel stub client_id channel_name

  -- SendMessageCommand::execute
  abbrev pub send_message_command : Text → Text → Text → Exec R Text
  send_message_command client_id channel_id content =
      Gateway.send_message stub client_id channel_id content

  -- SendHeartbeatCommand::execute
  abbrev pub send_heartbeat_command : Text → Exec R (Unit {0})
  send_heartbeat_command client_id = Gateway.send_heartbeat stub client_id
