-- ===== src/Client/Presenter/Commands.antt =====
-- client-cli/src/adapter/tui/ftxui_presenter.cpp, client-cli/include/bcmd/client/adapter/tui/components:
-- what a submitted line and a chosen channel do. The actions belong to the session, whose state holds
-- the screen; `Screen` is how the commands get at it.
use monash_fit1045_hd_projec.Base.{
  [], ◌++◌, Bool, true, false, not, Option, none, some, Text, codes, length, starts_with, is_empty,
  if◌then◌else◌, ◌&&◌, ◌||◌,
}
use monash_fit1045_hd_projec.Base.Int.{ℤ, pos, ltb_ℤ, leb_ℤ}
use monash_fit1045_hd_projec.Shared.StringUtils.{trim_copy}
use monash_fit1045_hd_projec.Client.CommandParser
use monash_fit1045_hd_projec.Client.CommandParser.{
  CommandType, ParsedCommand, parse_command, join, create, leave, list, quit, unknown,
}
use monash_fit1045_hd_projec.Client.MessageView.{read_at}
use monash_fit1045_hd_projec.Client.Presenter.{Presenter, show_error}

pub record Screen (W : Type 0) : Type 0 where
  pub get : W → Presenter
  pub update : (Presenter → Presenter) → W → W

-- FtxuiPresenter::Actions: a function that is not set is none.
pub record Actions (W : Type 0) : Type 0 where
  pub send_message : Option (Text → W → W)
  pub join_channel : Option (Text → W → W)
  pub create_channel : Option (Text → W → W)
  pub leave_channel : Option (W → W)
  pub list_channels : Option (W → W)

-- if (action) action(arg);
abbrev pub call_if : {A W : Type 0} → Option (A → W → W) → A → W → W
call_if none arg w = w
call_if (some action) arg w = action arg w

abbrev pub run_if : {W : Type 0} → Option (W → W) → W → W
run_if none w = w
run_if (some action) w = action w

abbrev pub unknown_command : Text → Text
unknown_command input = codes "unknown command: " ++ input ++ codes " - type ? for help"

abbrev is_none : CommandType → Bool
is_none CommandParser.none = true
is_none _ = false

module _ {W : Type 0} (screen : Screen W) where
  -- The cases of the switch.
  unfoldable pub run_command : CommandType → Text → Text → Actions W → W → W
  run_command join arg input actions w = call_if actions.join_channel arg w
  run_command create arg input actions w = call_if actions.create_channel arg w
  run_command quit arg input actions w = screen.update (λ p. record p { is_running = false }) w
  run_command leave arg input actions w = run_if actions.leave_channel w
  run_command list arg input actions w = run_if actions.list_channels w
  run_command unknown arg input actions w = screen.update (show_error (unknown_command arg)) w
  run_command CommandParser.none arg input actions w =
      if is_empty input then w else call_if actions.send_message input w

  unfoldable pub handle_parsed_command : ParsedCommand → Text → Actions W → W → W
  handle_parsed_command parsed input actions w =
      if is_none parsed.type && not (is_empty input) && starts_with (codes "/") input
      then screen.update (show_error (unknown_command input)) w
      else run_command parsed.type parsed.arg input actions w

  -- std::exchange of the input line, then the command.
  unfoldable pub handle_submit : Actions W → W → W
  handle_submit actions w =
      let input = trim_copy (screen.get w).input_text in
      handle_parsed_command (parse_command input) input actions
        (screen.update (λ p. record p { input_text = [] }) w)

  unfoldable pub on_channel_enter : ℤ → Actions W → W → W
  on_channel_enter idx actions w =
      let channel_names = (screen.get w).channel_names in
      if ltb_ℤ idx (pos 0) || leb_ℤ (pos (length channel_names)) idx
      then w
      else elim (read_at channel_names idx) [
        | none ↦ w
        | some name ↦ call_if actions.join_channel name w
      ]

  -- The on_enter of the menu, whose pointers are never null.
  unfoldable pub choose_channel : Actions W → W → W
  choose_channel actions w =
      let selected_idx = (screen.get w).selected_channel_idx in
      if ltb_ℤ selected_idx (pos 0)
        || leb_ℤ (pos (length (screen.get w).channel_names)) selected_idx
      then w
      else on_channel_enter selected_idx actions w
