-- ===== src/Client/Presenter/Invariant.antt =====
-- client-cli/src/adapter/tui/ftxui_presenter.cpp: what holds of the screen between its operations.
use monash_fit1045_hd_projec.Base.{
  ℕ, ◌-◌, ◌<◌, ◌≡◌, refl, sym, arith, Bool, true, false, List, Text, length, if◌then◌else◌, subst,
}
use monash_fit1045_hd_projec.Base.Int.{
  ℤ, pos, ◌+ℤ◌, ◌-ℤ◌, ◌≤ℤ◌, eqb_ℤ, max_ℤ, clamp_ℤ, eq_of_parts, -ℤ_pos,
}
use monash_fit1045_hd_projec.Client.Inbox.{InboxMessage, clear}
use monash_fit1045_hd_projec.Client.Presenter.{
  Presenter, ConnectionState, Event, escape, question, page_up, page_down, home, end_key, arrow_up,
  arrow_down, wheel_up, wheel_down, other, initial, show_message, show_replay_complete, show_error,
  show_info, update_connection_status, update_connection_state, show_channel_list, clear_messages,
  max_offset, scroll_to, clamp_scroll_offset, scroll_by, scroll_to_top, scroll_to_bottom, scroll_of,
  handle_scroll_event, catch_event, count_history, refresh,
}

abbrev pub IsWellFormed : Presenter → Type 0
IsWellFormed p =
    (pos 0 ≤ℤ p.scroll_offset)
    × (p.scroll_offset ≤ℤ max_offset p)
    × (p.auto_scroll ≡ eqb_ℤ p.scroll_offset (pos 0))
    × (pos 0 ≤ℤ p.selected_channel_idx)
    × (p.selected_channel_idx ≤ℤ max_ℤ (pos 0) (pos (length p.channel_names) -ℤ pos 1))
    × (p.history_count ≡ pos (count_history p.messages))

max_ℤ-left : (a b : ℤ) → a ≤ℤ max_ℤ a b
unfolding max_ℤ
max_ℤ-left a b = ground arith

pub max_ℤ-right : (a b : ℤ) → b ≤ℤ max_ℤ a b
unfolding max_ℤ
max_ℤ-right a b = ground arith

clamp_ℤ-bounds :
    (a low high : ℤ) → low ≤ℤ high → (low ≤ℤ clamp_ℤ a low high) × (clamp_ℤ a low high ≤ℤ high)
unfolding clamp_ℤ
clamp_ℤ-bounds a low high h = (ground arith, ground arith)

last_index : (n : ℕ) → 0 < n → max_ℤ (pos 0) (pos n -ℤ pos 1) ≡ pos (n - 1)
unfolding max_ℤ
last_index n h = rw (-ℤ_pos n 1 (omega arith)) (ground arith)

-- The operations of the screen, and what its menu and its input line write. The menu of FTXUI is
-- assumed to select a row that there is.
pub data Operation : Type 0 where
  shows_message : InboxMessage → Operation
  shows_replay_complete : Text → Operation
  shows_error : Text → Operation
  shows_info : Text → Operation
  updates_status : Bool → Bool → Text → Operation
  updates_state : ConnectionState → Operation
  shows_channels : List Text → Operation
  clears : Operation
  catches : Event → Operation
  draws : Operation
  selects : ℕ → Operation
  types : Text → Operation

unfoldable pub operate : Operation → Presenter → Presenter
operate (shows_message m) p = show_message m p
operate (shows_replay_complete channel_id) p = show_replay_complete channel_id p
operate (shows_error text) p = show_error text p
operate (shows_info text) p = show_info text p
operate (updates_status is_connected tls username) p =
    update_connection_status is_connected tls username p
operate (updates_state state) p = update_connection_state state p
operate (shows_channels names) p = show_channel_list names p
operate clears p = clear_messages p
operate (catches event) p = (catch_event event p).1
operate draws p = refresh p
operate (selects k) p = record p { selected_channel_idx = pos k }
operate (types text) p = record p { input_text = text }

abbrev pub IsAllowed : Operation → Presenter → Type 0
IsAllowed (selects k) p = k < length p.channel_names
IsAllowed _ p = Unit {0}

-- The screens that operations lead to.
pub data Reachable : Presenter → Type 0 where
  start : Reachable initial
  step : (p : Presenter) (o : Operation) → Reachable p → IsAllowed o p → Reachable (operate o p)

scroll_to-IsWellFormed :
    (offset : ℤ) (p : Presenter)
    → IsWellFormed p
    → pos 0 ≤ℤ offset
    → offset ≤ℤ max_offset p
    → IsWellFormed (scroll_to offset p)
scroll_to-IsWellFormed offset p w low high =
    let (l, h, f, selected_low, selected_high, counted) = w in
    (low, high, refl, selected_low, selected_high, counted)

scroll_by-IsWellFormed :
    (delta : ℤ) (p : Presenter) → IsWellFormed p → IsWellFormed (scroll_by delta p)
unfolding scroll_by
scroll_by-IsWellFormed delta p w =
    let (low, high) =
      clamp_ℤ-bounds (p.scroll_offset +ℤ delta) (pos 0) (max_offset p) (max_ℤ-right _ (pos 0)) in
    scroll_to-IsWellFormed _ p w low high

scroll_to_top-IsWellFormed : (p : Presenter) → IsWellFormed p → IsWellFormed (scroll_to_top p)
unfolding scroll_to_top
scroll_to_top-IsWellFormed p w =
    scroll_to-IsWellFormed (max_offset p) p w (max_ℤ-right _ (pos 0)) (omega arith)

scroll_to_bottom-IsWellFormed : (p : Presenter) → IsWellFormed p → IsWellFormed (scroll_to_bottom p)
unfolding scroll_to_bottom
scroll_to_bottom-IsWellFormed p w =
    scroll_to-IsWellFormed (pos 0) p w (omega arith) (max_ℤ-right _ (pos 0))

unless :
    (b : Bool) (p q : Presenter)
    → IsWellFormed p
    → IsWellFormed q
    → IsWellFormed (if b then p else q)
unless true p q w v = w
unless false p q w v = v

catch_event-IsWellFormed :
    (event : Event) (p : Presenter) → IsWellFormed p → IsWellFormed (catch_event event p).1
unfolding catch_event handle_scroll_event scroll_of
catch_event-IsWellFormed page_up p w = unless p.show_help p _ w (scroll_by-IsWellFormed _ p w)
catch_event-IsWellFormed page_down p w = unless p.show_help p _ w (scroll_by-IsWellFormed _ p w)
catch_event-IsWellFormed arrow_up p w = unless p.show_help p _ w (scroll_by-IsWellFormed _ p w)
catch_event-IsWellFormed arrow_down p w = unless p.show_help p _ w (scroll_by-IsWellFormed _ p w)
catch_event-IsWellFormed wheel_up p w = unless p.show_help p _ w (scroll_by-IsWellFormed _ p w)
catch_event-IsWellFormed wheel_down p w = unless p.show_help p _ w (scroll_by-IsWellFormed _ p w)
catch_event-IsWellFormed home p w = unless p.show_help p _ w (scroll_to_top-IsWellFormed p w)
catch_event-IsWellFormed end_key p w = unless p.show_help p _ w (scroll_to_bottom-IsWellFormed p w)
catch_event-IsWellFormed escape p w = w
catch_event-IsWellFormed question p w = w
catch_event-IsWellFormed other p w = w

-- A screen that follows new messages has the offset 0 already.
offset_stays :
    (p : Presenter)
    → IsWellFormed p
    → (if p.auto_scroll then pos 0 else p.scroll_offset) ≡ p.scroll_offset
offset_stays p w =
    let (low, high, follows, selected_low, selected_high, counted) = w in
    ground (arith, eq_of_parts p.scroll_offset (pos 0))

operate-IsWellFormed :
    (o : Operation) (p : Presenter) → IsWellFormed p → IsAllowed o p → IsWellFormed (operate o p)
unfolding operate show_message show_replay_complete show_error show_info update_connection_status
    update_connection_state show_channel_list clear_messages refresh clamp_scroll_offset clear
operate-IsWellFormed (shows_message m) p w h = rw (offset_stays p w) w
operate-IsWellFormed (shows_replay_complete channel_id) p w h = w
operate-IsWellFormed (shows_error text) p w h = w
operate-IsWellFormed (shows_info text) p w h = w
operate-IsWellFormed (updates_status is_connected tls username) p w h = w
operate-IsWellFormed (updates_state state) p w h = w
operate-IsWellFormed (shows_channels names) p w h =
    let (low, high, follows, selected_low, selected_high, counted) = w in
    let (low', high') = clamp_ℤ-bounds p.selected_channel_idx (pos 0) _ (max_ℤ-left (pos 0) _) in
    (low, high, follows, low', high', counted)
operate-IsWellFormed clears p w h =
    let (low, high, follows, selected_low, selected_high, counted) = w in
    (omega arith, max_ℤ-right _ (pos 0), refl, selected_low, selected_high, refl)
operate-IsWellFormed (catches event) p w h = catch_event-IsWellFormed event p w
operate-IsWellFormed draws p w h =
    let (low, high, follows, selected_low, selected_high, counted) = w in
    let (low', high') = clamp_ℤ-bounds p.scroll_offset (pos 0) _ (max_ℤ-right _ (pos 0)) in
    (low', high', refl, selected_low, selected_high, refl)
operate-IsWellFormed (selects k) p w h =
    let (low, high, follows, selected_low, selected_high, counted) = w in
    (
      low,
      high,
      follows,
      omega arith,
      subst (λ m. pos k ≤ℤ m) (sym (last_index (length p.channel_names) (omega arith)))
          (omega arith),
      counted,
    )
operate-IsWellFormed (types text) p w h = w

-- On every screen that the operations lead to, the scroll offset is between 0 and the largest one,
-- the screen follows new messages exactly if the offset is 0, the selected channel is one that is
-- listed or the first place, and the number of messages of the history is counted right.
pub Reachable-IsWellFormed : (p : Presenter) → Reachable p → IsWellFormed p
Reachable-IsWellFormed p start =
    (omega arith, max_ℤ-right _ (pos 0), refl, omega arith, max_ℤ-left (pos 0) _, refl)
Reachable-IsWellFormed p (step q o reached allowed) =
    operate-IsWellFormed o q (Reachable-IsWellFormed q reached) allowed
