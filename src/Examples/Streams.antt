-- ===== src/Examples/Streams.antt =====
-- Streams, queues and threads.
use monash_fit1045_hd_projec.Base.{
  ℕ, ◌≡◌, refl, [], ◌∷◌, ◌++◌, List, map, true, false, none, some, arith, Text, codes, ◌==◌,
}
use monash_fit1045_hd_projec.Containers.Map
use monash_fit1045_hd_projec.Containers.IdSet
use monash_fit1045_hd_projec.Domain.Channel.{Channel, add_member, has_member}
use monash_fit1045_hd_projec.Persistence.ChannelRepository.{find_by_id, list_all, save, is_member}
use monash_fit1045_hd_projec.Publisher.Writers
use monash_fit1045_hd_projec.Publisher.Writers.{Writers, register, disarm, unregister, sent_to}
use monash_fit1045_hd_projec.Publisher.ClientPublisher.Delivery.{Serves, IsExclusive}
use monash_fit1045_hd_projec.Publisher.Concurrency.{
  Action, registers, detaches, writes, act_all, nothing_written_after_disarm,
  unregister-register_twice,
}
use monash_fit1045_hd_projec.Publisher.ChannelListPublisher.{
  ChannelListPublisher, snapshot, populate_channel_summary, register_subscriber_with_snapshot,
}
use monash_fit1045_hd_projec.Publisher.ChannelListPublisher.Follow.{
  register_subscriber_with_snapshot_lem,
}
use monash_fit1045_hd_projec.Usecase.JoinChannel.Race.{save-save_lost}
use monash_fit1045_hd_projec.Client.Inbox.{
  InboxMessage, system_message, pushes, drains, take_turns, take_turns-pushed,
}
use monash_fit1045_hd_projec.Examples.Party.{ann, bob, id, general, party, party-IsSound}

abbrev none_yet : Writers Text
none_yet = Writers.empty

-- A publisher holds the entry of ann, who unregisters while bob registers; then the publisher writes.
abbrev meanwhile : List (Action Text)
meanwhile = writes (codes "hi") 0 ∷ detaches ann ∷ registers bob 101 ∷ []

abbrev late : List (Action Text)
late = writes (codes "late") 0 ∷ writes (codes "for bob") 1 ∷ []

nothing_written_after_disarm_example :
    let q = act_all meanwhile (register ann 100 none_yet) in
    sent_to 100 (act_all late (disarm 0 q)).written ≡ sent_to 100 q.written
nothing_written_after_disarm_example =
    nothing_written_after_disarm ann 100 none_yet meanwhile late (λ b e. cc)
      (refl, (refl, (refl, tt))) (refl, (refl, tt))

unregister-register_twice_example :
    let q = unregister ann (register ann 101 (register ann 100 none_yet)) in
    (Map.find ann q.writers ≡ none) × (q.entry 0 ≡ some 100) × (q.entry 1 ≡ none)
unregister-register_twice_example = unregister-register_twice ann 100 101 none_yet

abbrev no_followers : ChannelListPublisher
no_followers = Writers.empty

register_subscriber_with_snapshot_lem_example :
    let q = register_subscriber_with_snapshot bob 102 party.channels no_followers in
    Serves q bob 102
    × IsExclusive q
    × (sent_to 102 q.written
        ≡ snapshot (map populate_channel_summary (list_all party.channels)) ∷ [])
unfolding Map.find
register_subscriber_with_snapshot_lem_example =
    register_subscriber_with_snapshot_lem bob 102 party.channels no_followers
      (record { distinct = tt; exclusive = λ i j w f g. absurd (ground (arith, f.1)) })
      (λ i a e. absurd (ground (arith, e))) (λ b e. cc)

abbrev note : ℕ → InboxMessage
note n = system_message general (codes "hi") n

take_turns-pushed_example :
    let s =
      take_turns (pushes (note 2) ∷ drains 1 ∷ pushes (note 3) ∷ drains 5 ∷ []) ([], note 1 ∷ []) in
    s.0 ++ s.1 ≡ note 1 ∷ note 2 ∷ note 3 ∷ []
take_turns-pushed_example =
    take_turns-pushed (pushes (note 2) ∷ drains 1 ∷ pushes (note 3) ∷ drains 5 ∷ []) []
      (note 1 ∷ [])

abbrev random_channel : Channel
random_channel = record { id = id 72; name = codes "random"; members = []; created_at = 4 }

save-save_lost_example :
    let r' =
      (save
        (add_member bob random_channel).1
        (save (add_member ann random_channel).1 party.channels).1).1 in
    (is_member r' (id 72) ann ≡ false) × (is_member r' (id 72) bob ≡ true)
unfolding find_by_id Map.find ◌==◌ has_member IdSet.contains
save-save_lost_example =
    save-save_lost party.channels (id 72) random_channel ann bob party-IsSound.repository refl refl
      refl
