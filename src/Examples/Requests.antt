-- ===== src/Examples/Requests.antt =====
-- The requests of a client and the sweep, on the server of the examples.
use monash_fit1045_hd_projec.Base.{◌≡◌, refl, [], ◌∷◌, ◌++◌, ◌&&◌, codes, ◌==◌}
use monash_fit1045_hd_projec.Containers.Map
use monash_fit1045_hd_projec.Containers.IdSet
use monash_fit1045_hd_projec.Shared.Outcome.{
  ok, err, not_a_member, channel_not_found, channel_already_exists, ◌>>◌, pure,
}
use monash_fit1045_hd_projec.Shared.StringUtils.{trim, skip_space, is_ascii_space}
use monash_fit1045_hd_projec.Shared.Ids.{parse}
use monash_fit1045_hd_projec.Domain.Names.{is_alnum, create_checked}
use monash_fit1045_hd_projec.Domain.ChannelName
use monash_fit1045_hd_projec.Domain.MessageContent
use monash_fit1045_hd_projec.Domain.Channel.{has_member}
use monash_fit1045_hd_projec.Domain.MessageRouter.{include_sender}
use monash_fit1045_hd_projec.Persistence.ChannelRepository
use monash_fit1045_hd_projec.Persistence.ChannelRepository.{is_member}
use monash_fit1045_hd_projec.Persistence.MessageRepository.{buffer_of}
use monash_fit1045_hd_projec.Persistence.MessageRepository.Buffers.{last}
use monash_fit1045_hd_projec.Persistence.ClientRegistry.Expiry.{has_expired}
use monash_fit1045_hd_projec.Publisher.Writers.{sent_to}
use monash_fit1045_hd_projec.Publisher.ClientPublisher.{message_to_event}
use monash_fit1045_hd_projec.Usecase.Membership.{IsSound, Loses, Removes}
use monash_fit1045_hd_projec.Usecase.JoinChannel
use monash_fit1045_hd_projec.Usecase.JoinChannel.Enter.{Enters}
use monash_fit1045_hd_projec.Usecase.JoinChannel.Effect.{
  execute-Enters, join_refused, execute_by_name-execute,
}
use monash_fit1045_hd_projec.Usecase.LeaveChannel
use monash_fit1045_hd_projec.Usecase.LeaveChannel.Effect.{execute-Loses}
use monash_fit1045_hd_projec.Usecase.CreateChannel
use monash_fit1045_hd_projec.Usecase.CreateChannel.Effect.{
  Creates, execute-Creates, create_channel_refused,
}
use monash_fit1045_hd_projec.Usecase.SendMessage
use monash_fit1045_hd_projec.Usecase.SendMessage.Effect.{
  composed, execute_stores, execute_delivers, send_refused,
}
use monash_fit1045_hd_projec.Usecase.ExpireInactiveClients
use monash_fit1045_hd_projec.Usecase.ExpireInactiveClients.Effect.{run-Removes, run_channel_list}
use monash_fit1045_hd_projec.Service.Handlers.{disconnect}
use monash_fit1045_hd_projec.Service.Requests.Departure.{disconnect-Removes}
use monash_fit1045_hd_projec.Service.Requests.{join_channel, serve}
use monash_fit1045_hd_projec.Service.Requests.Interference.{Spares}
use monash_fit1045_hd_projec.Service.Requests.Interference.Others.{serve-Spares}
use monash_fit1045_hd_projec.Service.Requests.Soundness.{Reachable-IsSound}
use monash_fit1045_hd_projec.Client.Gateway.{join_channel_by_name}
use monash_fit1045_hd_projec.Client.Gateway.EndToEnd.{served_by, join_channel_by_name-Enters}
use monash_fit1045_hd_projec.Examples.Party.{
  byte_ids, id, ann, bob, general, random, party, party-IsSound, party-IsExclusive, requests,
  serve_all, reached,
}

Reachable-IsSound_example : IsSound (serve_all requests)
Reachable-IsSound_example = Reachable-IsSound byte_ids (serve_all requests) reached

-- Ann says hello in general, and hears it.
execute_delivers_example :
    sent_to 100
      (SendMessage.execute ann general
        (codes " hello ")
        include_sender
        (id 90)
        7
        party).1.publisher.written
    ≡ message_to_event party.clients (composed ann general (codes "hello") (id 90) 7) ∷ []
unfolding has_member IdSet.contains ◌==◌ Map.find MessageContent.create MessageContent.trim
    MessageContent.skip_whitespace MessageContent.is_whitespace
execute_delivers_example =
    execute_delivers ann general (codes " hello ") (codes "hello") include_sender (id 90) 7 party
      party-IsSound refl refl ann 100 party-IsExclusive (0, refl, refl)

execute_stores_example :
    let after = SendMessage.execute ann general (codes " hello ") include_sender (id 90) 7 party in
    (after.0 ≡ ok (id 90))
    × (buffer_of general after.1.messages
        ≡ last party.messages.cap (
            buffer_of general party.messages
            ++ (composed ann general (codes "hello") (id 90) 7 ∷ [])))
    × (after.1.messages.cap ≡ party.messages.cap)
    × (after.1.channels ≡ party.channels)
    × (after.1.clients ≡ party.clients)
    × (after.1.channel_list ≡ party.channel_list)
unfolding has_member IdSet.contains ◌==◌ Map.find MessageContent.create MessageContent.trim
    MessageContent.skip_whitespace MessageContent.is_whitespace
execute_stores_example =
    execute_stores ann general (codes " hello ") (codes "hello") include_sender (id 90) 7 party
      party-IsSound refl refl general

send_refused_example :
    SendMessage.execute bob general (codes "hello") include_sender (id 90) 7 party
    ≡ (err not_a_member, party)
unfolding has_member IdSet.contains ◌==◌ Map.find
send_refused_example =
    send_refused bob general (codes "hello") include_sender (id 90) 7 party not_a_member refl

-- Ann moves from general to random.
execute-Enters_example :
    ((JoinChannel.execute byte_ids ann random party).0 ≡ ok tt)
    × Enters ann random party (JoinChannel.execute byte_ids ann random party).1
unfolding Map.find ◌==◌
execute-Enters_example = execute-Enters byte_ids ann random party party-IsSound refl refl

join_refused_example :
    JoinChannel.execute byte_ids ann (id 99) party ≡ (err channel_not_found, party)
unfolding Map.find ◌==◌
join_refused_example = join_refused byte_ids ann (id 99) party refl

execute_by_name-execute_example :
    JoinChannel.execute_by_name byte_ids bob (codes " random ") party
    ≡ (JoinChannel.execute byte_ids bob random >> pure random) party
unfolding Map.find ◌==◌ ChannelName.create create_checked is_alnum ChannelName.is_allowed_char trim
    skip_space is_ascii_space ChannelRepository.find_by_name
execute_by_name-execute_example =
    execute_by_name-execute byte_ids bob (codes " random ") (codes "random")
      (record { id = random; name = codes "random"; members = []; created_at = 4 }) party
      party-IsSound refl refl

execute-Loses_example :
    ((LeaveChannel.execute byte_ids ann general party).0 ≡ ok tt)
    × Loses
        (λ j c. (general == j) && (ann == c))
        party
        (LeaveChannel.execute byte_ids ann general party).1
unfolding Map.find ◌==◌ has_member IdSet.contains
execute-Loses_example = execute-Loses byte_ids ann general party party-IsSound refl

execute-Creates_example :
    ((CreateChannel.execute bob (codes "news") (id 78) 9 party).0 ≡ ok (id 78))
    × Creates
        (codes "news")
        (id 78)
        party
        (CreateChannel.execute bob (codes "news") (id 78) 9 party).1
unfolding Map.find ◌==◌ ChannelName.create create_checked is_alnum ChannelName.is_allowed_char trim
    skip_space is_ascii_space
execute-Creates_example =
    execute-Creates bob (codes "news") (codes "news") (id 78) 9 party party-IsSound refl refl refl
      refl

create_channel_refused_example :
    CreateChannel.execute bob (codes "general") (id 78) 9 party
    ≡ (err channel_already_exists, party)
unfolding Map.find Map.contains ◌==◌ ChannelName.create create_checked is_alnum
    ChannelName.is_allowed_char trim skip_space is_ascii_space
create_channel_refused_example =
    create_channel_refused bob (codes "general") (id 78) 9 party channel_already_exists refl

-- Ann's last heartbeat was at 10, bob's at 20.
run-Removes_example :
    Removes (has_expired 15 party.clients) party (ExpireInactiveClients.run byte_ids 15 party).1
run-Removes_example = run-Removes byte_ids 15 party party-IsSound

run_channel_list_example :
    (ExpireInactiveClients.run byte_ids 15 party).1.channel_list ≡ party.channel_list
run_channel_list_example = run_channel_list byte_ids 15 party party-IsSound

disconnect-Removes_example :
    ((disconnect byte_ids ann party).0 ≡ ok tt)
    × Removes (λ c. ann == c) party (disconnect byte_ids ann party).1
unfolding Map.find ◌==◌ parse trim skip_space is_ascii_space
disconnect-Removes_example = disconnect-Removes byte_ids ann ann party party-IsSound refl refl

-- Bob joins random by its name, from the terminal client.
join_channel_by_name-Enters_example :
    let r = join_channel_by_name (served_by byte_ids (id 90) 5 50) bob (codes " random ") party in
    (r.0 ≡ ok random) × Enters bob random party r.1
unfolding Map.find ◌==◌ parse trim skip_space is_ascii_space ChannelRepository.find_by_name
join_channel_by_name-Enters_example =
    join_channel_by_name-Enters byte_ids (id 90) 5 50 bob (codes " random ")
      (record { id = random; name = codes "random"; members = []; created_at = 4 }) party
      party-IsSound refl refl refl refl

-- Bob joins a channel; ann stays where she is.
serve-Spares_example : Spares byte_ids ann party (serve byte_ids (join_channel bob random) party)
unfolding Map.find ◌==◌ parse trim skip_space is_ascii_space
serve-Spares_example =
    serve-Spares byte_ids (join_channel bob random) ann party party-IsSound tt tt refl
