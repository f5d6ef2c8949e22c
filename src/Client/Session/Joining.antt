-- ===== src/Client/Session/Joining.antt =====
-- client-cli/src/main.cpp: what joining and leaving do to the active channel, over any server.
use monash_fit1045_hd_projec.Base.{
  ℕ, ◌≡◌, ◌≢◌, refl, inl, inr, [], ◌∷◌, false, Text, codes, ◌==◌, is_empty, if◌then◌else◌,
  Bool-cases,
}
use monash_fit1045_hd_projec.Shared.Outcome.{
  Error, ok, err, same_error-distinct, already_member, Result-cases,
}
use monash_fit1045_hd_projec.Shared.StringUtils.{trim}
use monash_fit1045_hd_projec.Client.Gateway
use monash_fit1045_hd_projec.Client.Gateway.{Stub}
use monash_fit1045_hd_projec.Client.Presenter.{show_error}
use monash_fit1045_hd_projec.Client.Session.{
  Client, on_screen, fail_with, list_channels, switch_to, join_channel, leave_channel, send_message,
}

pub is_empty-cons : (s : Text) → s ≢ [] → is_empty s ≡ false
is_empty-cons [] h = absurd (h refl)
is_empty-cons (x ∷ s) h = refl

module _ {R : Type 0} (stub : Stub R) (client : Text) where
  -- Listing the channels touches no more than the server and the screen.
  pub list_channels_lem :
      (c : Client R)
      → ((list_channels stub client c).active_channel_id ≡ c.active_channel_id)
        × ((list_channels stub client c).subscriptions ≡ c.subscriptions)
        × ((list_channels stub client c).server ≡ (Gateway.list_channels stub c.server).1)
  unfolding list_channels
  list_channels_lem c = elim (Result-cases (Gateway.list_channels stub c.server).0) [
    | inl (channels, e) ↦ rw e (refl, refl, refl)
    | inr (error, e) ↦ rw e (refl, refl, refl)
  ]

  pub switch_to_lem :
      (trimmed id : Text) (now : ℕ) (c : Client R)
      → let c' = switch_to stub client trimmed now id c in
        (c'.active_channel_id ≡ id)
        × (c'.subscriptions
            ≡ (if c.active_channel_id == id then c.subscriptions else id ∷ c.subscriptions))
        × (c'.server ≡ (Gateway.list_channels stub c.server).1)
  unfolding switch_to
  switch_to_lem trimmed id now c = elim (Bool-cases (c.active_channel_id == id)) [
    | inl same ↦ rw same (list_channels_lem _)
    | inr other ↦ rw other (list_channels_lem _)
  ]

  -- A join that the server accepts makes the channel the active one, and starts a subscription to it
  -- unless it was active already.
  pub join_channel_joined :
      (now : ℕ) (name id : Text) (s : R) (c : Client R)
      → trim name ≢ []
      → Gateway.join_channel_by_name stub client (trim name) c.server ≡ (ok id, s)
      → let c' = join_channel stub client now name c in
        (c'.active_channel_id ≡ id)
        × (c'.subscriptions
            ≡ (if c.active_channel_id == id then c.subscriptions else id ∷ c.subscriptions))
        × (c'.server ≡ (Gateway.list_channels stub s).1)
  unfolding join_channel
  join_channel_joined now name id s c solid joined =
      rw (is_empty-cons (trim name) solid, joined) (switch_to_lem (trim name) id now _)

  -- A join that fails, with any error but the one that tells the client that it is a member already,
  -- only shows the error: the active channel and the subscriptions stay.
  pub join_channel_failed :
      (now : ℕ) (name : Text) (e : Error) (s : R) (c : Client R)
      → trim name ≢ []
      → e ≢ already_member
      → Gateway.join_channel_by_name stub client (trim name) c.server ≡ (err e, s)
      → join_channel stub client now name c ≡ fail_with e (record c { server = s })
  unfolding join_channel
  join_channel_failed now name e s c solid other failed =
      rw (is_empty-cons (trim name) solid, failed)
        (rw (same_error-distinct e already_member other) refl)

  pub leave_channel-active : (c : Client R) → (leave_channel stub client c).active_channel_id ≡ []
  unfolding leave_channel
  leave_channel-active c = elim (Bool-cases (is_empty c.active_channel_id)) [
    | inl none_active ↦ rw none_active refl
    | inr active ↦
        elim (Result-cases (Gateway.leave_channel stub client c.active_channel_id c.server).0) [
          | inl (done, e) ↦ rw (active, e) refl
          | inr (error, e) ↦ rw (active, e) refl
        ]
  ]

  without_channel :
      (content : Text) (c : Client R)
      → c.active_channel_id ≡ []
      → (leave_channel stub client c ≡ on_screen (show_error (codes "no active channel")) c)
        × (send_message stub client content c
            ≡ on_screen (show_error (codes "join a channel before sending")) c)
  unfolding leave_channel send_message
  without_channel content c e = (rw e refl, rw e refl)

  -- Leaving gives up the active channel, whether or not the server lets the client leave, and from then
  -- on neither a message nor another leave reaches the server.
  pub leave_channel_forgets :
      (content : Text) (c : Client R)
      → let c' = leave_channel stub client c in
        (c'.active_channel_id ≡ [])
        × (leave_channel stub client c' ≡ on_screen (show_error (codes "no active channel")) c')
        × (send_message stub client content c'
            ≡ on_screen (show_error (codes "join a channel before sending")) c')
  leave_channel_forgets content c =
      let e = leave_channel-active c in
      let (left, sent) = without_channel content (leave_channel stub client c) e in (e, left, sent)
