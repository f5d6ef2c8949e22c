-- ===== src/Usecase/JoinChannel/Race.antt =====
-- server/src/application/usecase/join_channel.cpp: two threads that join the same channel at the same
-- time. The lock of the repository covers one call, not the three calls of the use case.
use monash_fit1045_hd_projec.Base.{◌≡◌, true, false, arith, ◌==◌, eq_refl}
use monash_fit1045_hd_projec.Shared.Outcome.{ok}
use monash_fit1045_hd_projec.Shared.Ids.{ChannelId, ClientId}
use monash_fit1045_hd_projec.Domain.Channel.{
  Channel, add_member, has_member, has_member-add_member, id-add_member,
}
use monash_fit1045_hd_projec.Persistence.ChannelRepository.{
  ChannelRepository, find_by_id, save, is_member, is_member-save,
}
use monash_fit1045_hd_projec.Persistence.ChannelRepository.Invariant.{IsConsistent}

-- If both clients read the channel from a consistent repository before either saves it, the one
-- that saves first is not a member in the end, and the other one is. The two clients are
-- different, and the first was no member.
pub save-save_lost :
    (r : ChannelRepository) (k : ChannelId) (channel : Channel) (first second : ClientId)
    → IsConsistent r
    → find_by_id k r ≡ ok channel
    → has_member first channel ≡ false
    → (second == first) ≡ false
    → let r' = (save (add_member second channel).1 (save (add_member first channel).1 r).1).1 in
      (is_member r' k first ≡ false) × (is_member r' k second ≡ true)
unfolding find_by_id
save-save_lost r k channel first second w found stranger different =
    let same : channel.id ≡ k = w.keyed k channel (ground arith) in
    let r₁ : ChannelRepository = (save (add_member first channel).1 r).1 in
    (
      ground (
        arith,
        is_member-save (add_member second channel).1 r₁ k first,
        id-add_member second channel,
        same,
        eq_refl k,
        has_member-add_member second first channel,
      ),
      ground (
        arith,
        is_member-save (add_member second channel).1 r₁ k second,
        id-add_member second channel,
        same,
        eq_refl k,
        has_member-add_member second second channel,
        eq_refl second,
      ),
    )
