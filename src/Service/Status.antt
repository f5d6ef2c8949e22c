-- ===== src/Service/Status.antt =====
-- server/src/adapter/grpc/detail/error_to_status.cpp: the status that answers a failed call. The
-- constructors of StatusCode are those that the sources name.
use monash_fit1045_hd_projec.Base.{Text}
use monash_fit1045_hd_projec.Shared.Outcome.{
  Error, error_message, channel_not_found, client_not_found, not_a_member, already_member,
  channel_already_exists, client_already_exists, invalid_username, invalid_channel_name,
  invalid_argument, message_empty, message_invalid_prefix, message_too_long, storage_error,
  network_error, not_implemented,
}

pub data StatusCode : Type 0 where
  not_found already_exists wrong_argument internal unavailable unknown : StatusCode

pub record Status : Type 0 where
  pub code : StatusCode
  pub message : Text

-- The cases of the switch.
abbrev pub code_of : Error → StatusCode
code_of channel_not_found = not_found
code_of client_not_found = not_found
code_of not_a_member = not_found
code_of already_member = already_exists
code_of channel_already_exists = already_exists
code_of client_already_exists = already_exists
code_of invalid_username = wrong_argument
code_of invalid_channel_name = wrong_argument
code_of invalid_argument = wrong_argument
code_of message_empty = wrong_argument
code_of message_invalid_prefix = wrong_argument
code_of message_too_long = wrong_argument
code_of storage_error = internal
code_of network_error = internal
code_of not_implemented = internal

unfoldable pub error_to_status : Error → Status
error_to_status error = record { code = code_of error; message = error_message error }
