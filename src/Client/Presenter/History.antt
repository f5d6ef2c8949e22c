-- ===== src/Client/Presenter/History.antt =====
-- client-cli/src/adapter/tui/ftxui_presenter.cpp, client-cli/src/adapter/grpc/grpc_server_gateway.cpp,
-- client-cli/src/main.cpp: the mark between the history and the live messages.
use monash_fit1045_hd_projec.Base.{
  ℕ, zero, suc, ◌≡◌, refl, ap, [], ◌∷◌, ◌++◌, arith, Bool, true, false, some, List, Text, length,
  if◌then◌else◌, All,
}
use monash_fit1045_hd_projec.Base.Int.{pos}
use monash_fit1045_hd_projec.Publisher.ClientPublisher.{
  ChannelEvent, message, member_joined, member_left, channel_closed,
}
use monash_fit1045_hd_projec.Client.Inbox.{
  InboxMessage, push, drain_to, read_event, system_message, clear,
}
use monash_fit1045_hd_projec.Client.MessageView.{should_render_live_separator}
use monash_fit1045_hd_projec.Client.Presenter.{
  Event, escape, question, page_up, page_down, home, end_key, arrow_up, arrow_down, wheel_up,
  wheel_down, other, Presenter, initial, show_message, show_replay_complete, show_error, show_info,
  update_connection_status, update_connection_state, show_channel_list, clear_messages,
  clamp_scroll_offset, scroll_by, scroll_to_top, scroll_to_bottom, scroll_of, handle_scroll_event,
  catch_event, count_history, refresh, max_drained,
}
use monash_fit1045_hd_projec.Client.Presenter.Invariant.{
  Operation, operate, shows_message, shows_replay_complete, shows_error, shows_info, updates_status,
  updates_state, shows_channels, clears, catches, draws, selects, types,
}

-- The messages that the client shows: those it reads from its stream, and its own on joining.
pub data IsShown : InboxMessage → Type 0 where
  read :
      (m : InboxMessage) (subscribed : Text) (now : ℕ) (event : ChannelEvent)
      → read_event subscribed now event ≡ some m
      → IsShown m
  own : (channel_id content : Text) (now : ℕ) → IsShown (system_message channel_id content now)

abbrev pub ShowsOwn : Operation → Type 0
ShowsOwn (shows_message m) = IsShown m
ShowsOwn _ = Unit {0}

unfoldable pub operate_all : List Operation → Presenter → Presenter
operate_all [] p = p
operate_all (o ∷ os) p = operate_all os (operate o p)

abbrev IsLive : InboxMessage → Type 0
IsLive m = m.is_history ≡ false

read_event-IsLive :
    (event : ChannelEvent) (subscribed : Text) (now : ℕ) (m : InboxMessage)
    → read_event subscribed now event ≡ some m
    → IsLive m
unfolding read_event
read_event-IsLive (message x) subscribed now m e = ground arith
read_event-IsLive (member_joined x) subscribed now m e = ground arith
read_event-IsLive (member_left x) subscribed now m e = ground arith
read_event-IsLive (channel_closed id reason) subscribed now m e = ground arith

shown-IsLive : (m : InboxMessage) → IsShown m → IsLive m
shown-IsLive _ (read m subscribed now event e) = read_event-IsLive event subscribed now m e
shown-IsLive _ (own channel_id content now) = refl

All-snoc :
    (messages : List InboxMessage) (m : InboxMessage)
    → All IsLive messages
    → IsLive m
    → All IsLive (messages ++ (m ∷ []))
All-snoc [] m h l = (l, tt)
All-snoc (n ∷ messages) m h l = (h.0, All-snoc messages m h.1 l)

drain_to-All :
    (n : ℕ) (out messages : List InboxMessage)
    → All IsLive out
    → All IsLive messages
    → All IsLive (drain_to n out messages).0 × All IsLive (drain_to n out messages).1
unfolding drain_to
drain_to-All zero out messages h k = (h, k)
drain_to-All (suc n) out [] h k = (h, tt)
drain_to-All (suc n) out (m ∷ messages) h k =
    drain_to-All n (out ++ (m ∷ [])) messages (All-snoc out m h k.0) k.1

count_history-live :
    (messages : List InboxMessage) → All IsLive messages → count_history messages ≡ 0
count_history-live [] h = refl
count_history-live (m ∷ messages) h = rw h.0 (count_history-live messages h.1)

-- No message on the screen or in the queue is of the history, and none is counted as one.
abbrev HasNoHistory : Presenter → Type 0
HasNoHistory p = All IsLive p.messages × All IsLive p.inbox × (p.history_count ≡ pos 0)

unless :
    (b : Bool) (p q : Presenter)
    → HasNoHistory p
    → HasNoHistory q
    → HasNoHistory (if b then p else q)
unless true p q h k = h
unless false p q h k = k

catch_event-HasNoHistory :
    (event : Event) (p : Presenter) → HasNoHistory p → HasNoHistory (catch_event event p).1
unfolding catch_event handle_scroll_event scroll_of scroll_by scroll_to_top scroll_to_bottom
catch_event-HasNoHistory page_up p h = unless p.show_help p _ h h
catch_event-HasNoHistory page_down p h = unless p.show_help p _ h h
catch_event-HasNoHistory arrow_up p h = unless p.show_help p _ h h
catch_event-HasNoHistory arrow_down p h = unless p.show_help p _ h h
catch_event-HasNoHistory wheel_up p h = unless p.show_help p _ h h
catch_event-HasNoHistory wheel_down p h = unless p.show_help p _ h h
catch_event-HasNoHistory home p h = unless p.show_help p _ h h
catch_event-HasNoHistory end_key p h = unless p.show_help p _ h h
catch_event-HasNoHistory escape p h = h
catch_event-HasNoHistory question p h = h
catch_event-HasNoHistory other p h = h

operate-HasNoHistory :
    (o : Operation) (p : Presenter) → ShowsOwn o → HasNoHistory p → HasNoHistory (operate o p)
unfolding operate show_message push show_replay_complete show_error show_info
    update_connection_status update_connection_state show_channel_list clear_messages refresh
    clamp_scroll_offset clear
operate-HasNoHistory (shows_message m) p g h = (h.0, All-snoc p.inbox m h.1 (shown-IsLive m g), h.2)
operate-HasNoHistory (shows_replay_complete channel_id) p g h = h
operate-HasNoHistory (shows_error text) p g h = h
operate-HasNoHistory (shows_info text) p g h = h
operate-HasNoHistory (updates_status is_connected tls username) p g h = h
operate-HasNoHistory (updates_state state) p g h = h
operate-HasNoHistory (shows_channels names) p g h = h
operate-HasNoHistory clears p g h = (tt, tt, refl)
operate-HasNoHistory (catches event) p g h = catch_event-HasNoHistory event p h
operate-HasNoHistory draws p g h =
    let (out, left) = drain_to-All max_drained p.messages p.inbox h.0 h.1 in
    (out, left, ap pos (count_history-live (drain_to max_drained p.messages p.inbox).0 out))
operate-HasNoHistory (selects k) p g h = h
operate-HasNoHistory (types text) p g h = h

operate_all-HasNoHistory :
    (os : List Operation) (p : Presenter)
    → All ShowsOwn os
    → HasNoHistory p
    → HasNoHistory (operate_all os p)
unfolding operate_all
operate_all-HasNoHistory [] p g h = h
operate_all-HasNoHistory (o ∷ os) p g h =
    operate_all-HasNoHistory os (operate o p) g.1 (operate-HasNoHistory o p g.0 h)

-- The mark of live messages is never on the screen: whatever the operations are, as long as the
-- messages that are shown are those that the client reads from its stream or makes on joining a
-- channel, no message counts as one of the history.
pub never_marked :
    (os : List Operation)
    → All ShowsOwn os
    → let p = operate_all os initial in
      should_render_live_separator
        (pos (length p.messages))
        p.history_count
        p.scroll_offset
        p.viewport_height_hint
      ≡ false
unfolding should_render_live_separator
never_marked os g = let h = operate_all-HasNoHistory os initial g (tt, tt, refl) in rw h.2 refl
