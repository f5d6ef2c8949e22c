-- ===== src/Client/MessageView.antt =====
-- client-cli/include/bcmd/client/adapter/tui/components/message_view.hpp: which messages the screen
-- shows, and the rows it shows them in. What the local clock and strftime make of a time is a parameter,
-- none where strftime writes nothing.
pub mod Window
pub mod Rows
use monash_fit1045_hd_projec.Base.{
  is_empty, ℕ, zero, suc, ◌≡◌, refl, [], ◌∷◌, ◌++◌, arith, Bool, true, false, Option, none, some,
  List, Text, codes, length, if◌then◌else◌, ◌&&◌,
}
use monash_fit1045_hd_projec.Base.Int.{
  ℤ, pos, negsuc, pos_part, neg_part, ◌+ℤ◌, ◌-ℤ◌, ◌≤ℤ◌, ◌<ℤ◌, ltb_ℤ, leb_ℤ, eqb_ℤ, max_ℤ, min_ℤ,
  clamp_ℤ,
}
use monash_fit1045_hd_projec.Client.Inbox.{InboxMessage}

pub record ScrollWindow : Type 0 where
  pub first : ℤ
  pub last : ℤ

-- max_scroll_offset, for a count that is clamped already.
abbrev pub max_scroll_offset : ℤ → ℤ → ℤ
max_scroll_offset count viewport_height = max_ℤ (count -ℤ viewport_height) (pos 0)

unfoldable pub compute_scroll_window : ℤ → ℤ → ℤ → ScrollWindow
compute_scroll_window message_count scroll_offset viewport_height =
    let count = max_ℤ message_count (pos 0) in
    let offset = clamp_ℤ scroll_offset (pos 0) (max_scroll_offset count viewport_height) in
    let first = max_ℤ (count -ℤ viewport_height -ℤ offset) (pos 0) in
    if leb_ℤ viewport_height (pos 0)
    then record { first = pos 0; last = count }
    else record { first = first; last = min_ℤ (first +ℤ viewport_height) count }

unfoldable pub should_render_live_separator : ℤ → ℤ → ℤ → ℤ → Bool
should_render_live_separator message_count history_count scroll_offset viewport_height =
    let window = compute_scroll_window message_count scroll_offset viewport_height in
    if ltb_ℤ (pos 0) history_count && ltb_ℤ history_count message_count
    then (if leb_ℤ viewport_height (pos 0)
        then true
        else (ltb_ℤ window.first history_count && ltb_ℤ history_count window.last))
    else false

pub data Row : Type 0 where
  live_separator no_messages : Row
  message_row : Text → Text → Text → Row

unfoldable pub format_timestamp : (ℕ → Option Text) → ℕ → Text
format_timestamp strftime zero = codes "--:--"
format_timestamp strftime (suc ms) = elim (strftime (suc ms)) [ none ↦ codes "--:--" | some t ↦ t ]

-- messages[idx], with no value out of range.
unfoldable pub get_elem? : {A : Type 0} → List A → ℕ → Option A
get_elem? [] n = none
get_elem? (x ∷ xs) zero = some x
get_elem? (x ∷ xs) (suc n) = get_elem? xs n

abbrev pub read_at : {A : Type 0} → List A → ℤ → Option A
read_at xs (pos n) = get_elem? xs n
read_at xs (negsuc n) = none

infixl 5 ◌>>=◌
abbrev pub ◌>>=◌ : {A B : Type 0} → Option A → (A → Option B) → Option B
none >>= f = none
some a >>= f = f a

module _ (strftime : ℕ → Option Text) where
  unfoldable pub row_of : InboxMessage → Row
  row_of message =
      message_row (format_timestamp strftime message.sent_at_ms ++ codes " ")
        ((if is_empty message.sender_name then codes "unknown" else message.sender_name)
          ++ codes ": ")
        message.content

  -- for (int idx = first; idx < last; ++idx), of which `rounds` rounds are left, and none if a round
  -- reads out of range.
  unfoldable pub rows_from : List InboxMessage → Bool → ℤ → ℕ → ℤ → Option (List Row)
  rows_from messages show_separator history_count zero idx = some []
  rows_from messages show_separator history_count (suc rounds) idx = do
    message ← read_at messages idx
    rows ← rows_from messages show_separator history_count rounds (idx +ℤ pos 1)
    some (
        (if show_separator && eqb_ℤ idx history_count then live_separator ∷ [] else [])
        ++ (row_of message ∷ rows))

  unfoldable pub render_message_view : List InboxMessage → ℤ → ℤ → ℤ → Option (List Row)
  render_message_view messages history_count scroll_offset viewport_height =
      let size = pos (length messages) in
      let window = compute_scroll_window size scroll_offset viewport_height in
      let use_window = ltb_ℤ (pos 0) viewport_height in
      let show_separator =
        should_render_live_separator size history_count scroll_offset viewport_height in
      let first = if use_window then window.first else pos 0 in
      let last = if use_window then window.last else size in
      rows_from messages show_separator history_count (pos_part (last -ℤ first)) first >>= λ rows.
      some (if is_empty rows then no_messages ∷ [] else rows)
