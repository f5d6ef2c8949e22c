-- ===== src/Examples/Screens.antt =====
-- The terminal client's screen: a presenter and its messages.
use monash_fit1045_hd_projec.Base.{
  Text, length, ◌-◌, ℕ, ◌≡◌, [], ◌∷◌, ◌++◌, arith, false, Option, some, codes, ◌==◌, ◌≤◌,
}
use monash_fit1045_hd_projec.Base.Int.{pos, negsuc, ◌+ℤ◌, ◌-ℤ◌, ◌≤ℤ◌, ◌<ℤ◌, max_ℤ}
use monash_fit1045_hd_projec.Shared.StringUtils.{trim, trim_copy, skip_space, is_ascii_space}
use monash_fit1045_hd_projec.Publisher.ClientPublisher.{member_joined}
use monash_fit1045_hd_projec.Client.Gateway.{answered, result_of}
use monash_fit1045_hd_projec.Client.Inbox.{
  read_event, should_emit_event_for_channel, InboxMessage, system_message, drain_to, push,
}
use monash_fit1045_hd_projec.Client.MessageView.{
  compute_scroll_window, should_render_live_separator, render_message_view, row_of, live_separator,
}
use monash_fit1045_hd_projec.Client.MessageView.Window.{
  rows_shown, compute_scroll_window_bounds, compute_scroll_window_reaches,
}
use monash_fit1045_hd_projec.Client.MessageView.Rows.{render_message_view_lem}
use monash_fit1045_hd_projec.Client.Presenter.{
  Presenter, initial, page_up, show_message, refresh, clamp_scroll_offset, catch_event,
  handle_scroll_event, scroll_of, scroll_by,
}
use monash_fit1045_hd_projec.Client.Presenter.Invariant.{
  start, step, operate, shows_message, catches, draws, IsWellFormed, Reachable-IsWellFormed,
}
use monash_fit1045_hd_projec.Client.Presenter.Overflow.{IsInt, scroll-IsInt}
use monash_fit1045_hd_projec.Client.Presenter.Follow.{draw_times}
use monash_fit1045_hd_projec.Client.Presenter.History.{own, operate_all, never_marked}
use monash_fit1045_hd_projec.Client.Subscription.{
  Stream, subscribe_command, messages_of, subscribe_command_shows,
}

abbrev clock : ℕ → Option Text
clock ms = some (codes "12:00")

abbrev note : InboxMessage
note = system_message (codes "c") (codes "connected") 7

-- Twenty messages are above the five rows at the bottom, three rows further up.
compute_scroll_window_bounds_example :
    let w = compute_scroll_window (pos 25) (pos 3) (pos 5) in
    (pos 0 ≤ℤ w.first)
    × (w.first ≤ℤ w.last)
    × (w.last ≤ℤ max_ℤ (pos 25) (pos 0))
    × (w.last -ℤ w.first ≡ rows_shown (pos 25) (pos 5))
compute_scroll_window_bounds_example = compute_scroll_window_bounds (pos 25) (pos 3) (pos 5)

compute_scroll_window_reaches_example :
    (offset : ℕ) × (offset ≤ 25 - 5)
    × let w = compute_scroll_window (pos 25) (pos offset) (pos 5) in
      (w.first ≤ℤ pos 2) × (pos 2 <ℤ w.last)
compute_scroll_window_reaches_example = compute_scroll_window_reaches 25 2 4 (omega arith)

render_message_view_lem_example :
    render_message_view clock (note ∷ note ∷ []) (pos 1) (pos 0) (pos 5)
    ≡ some (row_of clock note ∷ live_separator ∷ row_of clock note ∷ [])
render_message_view_lem_example =
    render_message_view_lem clock (note ∷ note ∷ []) (pos 1) (pos 0) (pos 5)

abbrev scrolled : Presenter
scrolled = operate draws (operate (catches page_up) (operate (shows_message note) initial))

Reachable-IsWellFormed_example : IsWellFormed scrolled
Reachable-IsWellFormed_example =
    Reachable-IsWellFormed scrolled
      (step _ draws (step _ (catches page_up) (step _ (shows_message note) start tt) tt) tt)

scroll-IsInt_example :
    IsInt (scrolled.scroll_offset +ℤ negsuc 19)
    × IsInt (pos (length scrolled.messages) -ℤ scrolled.viewport_height_hint)
unfolding operate refresh clamp_scroll_offset drain_to catch_event handle_scroll_event scroll_of
    scroll_by show_message push
scroll-IsInt_example =
    scroll-IsInt scrolled (negsuc 19)
      (step _ draws (step _ (catches page_up) (step _ (shows_message note) start tt) tt) tt)
      (omega arith) (omega arith) (omega arith)

never_marked_example :
    let p = operate_all (shows_message note ∷ draws ∷ []) initial in
    should_render_live_separator
      (pos (length p.messages))
      p.history_count
      p.scroll_offset
      p.viewport_height_hint
    ≡ false
never_marked_example =
    never_marked (shows_message note ∷ draws ∷ []) (own (codes "c") (codes "connected") 7, (tt, tt))

abbrev stream : Text → Text → Stream
stream client_id channel_id = record {
  events =
      (
        5,
        member_joined
            (record { channel_id = codes "c"; client_id = codes "b"; username = codes "bob" }),
      )
      ∷ [];
  status = answered tt;
}

subscribe_command_shows_example :
    let arrived = initial.inbox ++ messages_of (trim_copy (codes "c")) (stream [] []).events in
    let r = subscribe_command stream (codes "a") (codes "c") initial in
    (r.0 ≡ result_of (stream [] []).status)
    × ((draw_times 1 r.1).messages ≡ arrived)
    × ((draw_times 1 r.1).inbox ≡ [])
unfolding trim_copy trim skip_space is_ascii_space read_event should_emit_event_for_channel ◌==◌
subscribe_command_shows_example =
    subscribe_command_shows stream (codes "a") (codes "c") 1 initial (omega arith)
