-- ===== src/Client/Presenter.antt =====
-- client-cli/src/adapter/tui/ftxui_presenter.cpp: the terminal screen. What FTXUI keeps (the layout,
-- the loop) is left out; posting an event to it changes nothing here.
pub mod Commands
pub mod Invariant
pub mod Follow
pub mod History
pub mod Overflow
use monash_fit1045_hd_projec.Base.{
  ℕ, ◌+◌, ◌-◌, [], ◌++◌, arith, Bool, true, false, not, Option, none, some, List, Text, codes,
  length, is_empty, select, if◌then◌else◌,
}
use monash_fit1045_hd_projec.Base.Int.{ℤ, pos, negsuc, ◌+ℤ◌, ◌-ℤ◌, ltb_ℤ, eqb_ℤ, max_ℤ, clamp_ℤ}
use monash_fit1045_hd_projec.Client.Inbox
use monash_fit1045_hd_projec.Client.Inbox.{InboxMessage, InboxQueue, push, drain_to}
use monash_fit1045_hd_projec.Client.MessageView.{Row, max_scroll_offset, render_message_view}

pub data ConnectionState : Type 0 where
  connecting connected network_error closed : ConnectionState

-- `inbox` is the queue that the presenter shares; `is_running` is false once the loop is told to end.
pub record Presenter : Type 0 where
  pub inbox : InboxQueue
  pub messages : List InboxMessage
  pub channel_names : List Text
  pub selected_channel_idx : ℤ
  pub history_count : ℤ
  pub is_connected : Bool
  pub tls : Bool
  pub connection_state : ConnectionState
  pub show_help : Bool
  pub username : Text
  pub error_toast : Text
  pub info_toast : Text
  pub input_text : Text
  pub scroll_offset : ℤ
  pub auto_scroll : Bool
  pub viewport_height_hint : ℤ
  pub is_running : Bool

abbrev pub initial : Presenter
initial = record {
  inbox = [];
  messages = [];
  channel_names = [];
  selected_channel_idx = pos 0;
  history_count = pos 0;
  is_connected = false;
  tls = false;
  connection_state = connecting;
  show_help = false;
  username = [];
  error_toast = [];
  info_toast = [];
  input_text = [];
  scroll_offset = pos 0;
  auto_scroll = true;
  viewport_height_hint = pos 20;
  is_running = true;
}

unfoldable pub show_message : InboxMessage → Presenter → Presenter
show_message message p = record p {
  scroll_offset = if p.auto_scroll then pos 0 else p.scroll_offset;
  inbox = push message p.inbox;
}

unfoldable pub show_replay_complete : Text → Presenter → Presenter
show_replay_complete channel_id p = p

unfoldable pub show_error : Text → Presenter → Presenter
show_error error_text p = record p { error_toast = error_text; info_toast = [] }

unfoldable pub show_info : Text → Presenter → Presenter
show_info info_text p = record p { info_toast = info_text; error_toast = [] }

unfoldable pub update_connection_status : Bool → Bool → Text → Presenter → Presenter
update_connection_status is_connected tls username p = record p {
  is_connected = is_connected;
  tls = tls;
  username = username;
}

unfoldable pub update_connection_state : ConnectionState → Presenter → Presenter
update_connection_state state p = record p { connection_state = state }

unfoldable pub show_channel_list : List Text → Presenter → Presenter
show_channel_list channel_names p = record p {
  channel_names = channel_names;
  selected_channel_idx =
      clamp_ℤ p.selected_channel_idx (pos 0) (max_ℤ (pos 0) (pos (length channel_names) -ℤ pos 1));
}

unfoldable pub clear_messages : Presenter → Presenter
clear_messages p = record p {
  scroll_offset = pos 0;
  auto_scroll = true;
  messages = [];
  history_count = pos 0;
  inbox = Inbox.clear p.inbox;
}

abbrev pub max_offset : Presenter → ℤ
max_offset p = max_scroll_offset (pos (length p.messages)) p.viewport_height_hint

-- scroll_offset_ = offset; auto_scroll_ = (scroll_offset_ == 0)
abbrev pub scroll_to : ℤ → Presenter → Presenter
scroll_to offset p = record p { scroll_offset = offset; auto_scroll = eqb_ℤ offset (pos 0) }

unfoldable pub clamp_scroll_offset : Presenter → Presenter
clamp_scroll_offset p = scroll_to (clamp_ℤ p.scroll_offset (pos 0) (max_offset p)) p

unfoldable pub scroll_by : ℤ → Presenter → Presenter
scroll_by delta p = scroll_to (clamp_ℤ (p.scroll_offset +ℤ delta) (pos 0) (max_offset p)) p

unfoldable pub scroll_to_top : Presenter → Presenter
scroll_to_top p = scroll_to (max_offset p) p

unfoldable pub scroll_to_bottom : Presenter → Presenter
scroll_to_bottom p = record p { scroll_offset = pos 0; auto_scroll = true }

-- The events that the presenter tells apart; `other` is any other event.
pub data Event : Type 0 where
  escape question page_up page_down home end_key arrow_up arrow_down wheel_up wheel_down : Event
  other : Event

-- The scroll command of an event, if it is a scroll event.
unfoldable pub scroll_of : Event → Option (Presenter → Presenter)
scroll_of page_up = some (λ p. scroll_by p.viewport_height_hint p)
scroll_of page_down = some (λ p. scroll_by (pos 0 -ℤ p.viewport_height_hint) p)
scroll_of arrow_up = some (scroll_by (pos 1))
scroll_of arrow_down = some (scroll_by (negsuc 0))
scroll_of home = some scroll_to_top
scroll_of end_key = some scroll_to_bottom
scroll_of wheel_up = some (scroll_by (pos 3))
scroll_of wheel_down = some (scroll_by (negsuc 2))
scroll_of escape = none
scroll_of question = none
scroll_of other = none

-- Whether the event is taken, and the presenter after it.
unfoldable pub handle_scroll_event : Event → Presenter → Bool × Presenter
handle_scroll_event event p = elim (scroll_of event) [
  | none ↦ (false, p)
  | some scroll ↦ (true, if p.show_help then p else scroll p)
]

-- The function that run gives to CatchEvent.
unfoldable pub catch_event : Event → Presenter → Bool × Presenter
catch_event escape p = (true, record p { show_help = false })
catch_event question p = (true, record p { show_help = not p.show_help })
catch_event event p = handle_scroll_event event p

-- drainTo's default for max_count.
abbrev pub max_drained : ℕ
max_drained = 50

abbrev pub count_history : List InboxMessage → ℕ
count_history messages = length (select (λ m. m.is_history) messages)

-- The first three statements of render.
unfoldable pub refresh : Presenter → Presenter
refresh p =
    let (messages, inbox) = drain_to max_drained p.messages p.inbox in
    clamp_scroll_offset (record p {
      messages = messages;
      inbox = inbox;
      history_count = pos (count_history messages);
    })

abbrev pub connection_state_str : ConnectionState → Text
connection_state_str connecting = codes "status: connecting"
connection_state_str connected = codes "status: connected"
connection_state_str network_error = codes "status: network error"
connection_state_str closed = codes "status: closed"

-- The parts of the screen that render fills in.
pub record View : Type 0 where
  pub rows : Option (List Row)
  pub state_line : Text
  pub status_line : Text
  pub has_help : Bool

unfoldable pub view_of : (ℕ → Option Text) → Presenter → View
view_of strftime p =
    let tls_status = if p.tls then codes "TLS" else codes "insecure" in
    let status = codes "(" ++ tls_status ++ codes ") as " ++ p.username in
    let error = if is_empty p.error_toast then [] else codes " | Error: " ++ p.error_toast in
    let info = if is_empty p.info_toast then [] else codes " | " ++ p.info_toast in
    let hint = if p.show_help then [] else codes " | press ? for help" in
    record {
      rows =
          render_message_view strftime p.messages p.history_count p.scroll_offset
            p.viewport_height_hint;
      state_line = connection_state_str p.connection_state;
      status_line = status ++ error ++ info ++ hint;
      has_help = p.show_help;
    }

unfoldable pub render : (ℕ → Option Text) → Presenter → View × Presenter
render strftime p = let p' = refresh p in (view_of strftime p', p')
