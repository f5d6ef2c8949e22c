-- ===== src/Client/StatusToError.antt =====
-- client-cli/src/adapter/grpc/detail/status_to_error.cpp: the error that the client reads from a
-- status.
use monash_fit1045_hd_projec.Base.{◌≡◌, refl, Text, codes, starts_with, if◌then◌else◌}
use monash_fit1045_hd_projec.Shared.Outcome.{
  Error, error_message, channel_not_found, client_not_found, not_a_member, already_member,
  channel_already_exists, client_already_exists, invalid_username, invalid_channel_name,
  invalid_argument, message_empty, message_invalid_prefix, message_too_long, storage_error,
  network_error, not_implemented,
}
use monash_fit1045_hd_projec.Service.Status.{
  StatusCode, Status, not_found, already_exists, wrong_argument, internal, unavailable, unknown,
  error_to_status,
}

-- The tests of each case of the switch, in their order.
abbrev pub error_of : StatusCode → Text → Error
error_of not_found message =
    if starts_with (codes "client not found") message
    then client_not_found
    else if starts_with (codes "not a member") message
    then not_a_member
    else channel_not_found
error_of already_exists message =
    if starts_with (codes "channel already exists") message
    then channel_already_exists
    else if starts_with (codes "client already exists") message
    then client_already_exists
    else already_member
error_of wrong_argument message =
    if starts_with (codes "invalid username") message
    then invalid_username
    else if starts_with (codes "message too long") message
    then message_too_long
    else if starts_with (codes "message is empty") message
    then message_empty
    else if starts_with (codes "message must not start with '/'") message
    then message_invalid_prefix
    else invalid_channel_name
error_of internal message = network_error
error_of unavailable message = network_error
error_of unknown message = network_error

unfoldable pub status_to_error : Status → Error
status_to_error status = error_of status.code status.message

-- What the client reads of each error of the server.
abbrev pub seen_as : Error → Error
seen_as invalid_argument = invalid_channel_name
seen_as storage_error = network_error
seen_as not_implemented = network_error
seen_as e = e

-- The client reads every error of the server from its status, with three exceptions: an invalid
-- argument is read as an invalid channel name, and a storage error and a call that is not implemented
-- as a network error.
pub status_to_error-error_to_status : (e : Error) → status_to_error (error_to_status e) ≡ seen_as e
unfolding status_to_error error_to_status error_message starts_with
status_to_error-error_to_status channel_not_found = refl
status_to_error-error_to_status channel_already_exists = refl
status_to_error-error_to_status client_not_found = refl
status_to_error-error_to_status client_already_exists = refl
status_to_error-error_to_status already_member = refl
status_to_error-error_to_status not_a_member = refl
status_to_error-error_to_status message_empty = refl
status_to_error-error_to_status message_invalid_prefix = refl
status_to_error-error_to_status message_too_long = refl
status_to_error-error_to_status invalid_username = refl
status_to_error-error_to_status invalid_channel_name = refl
status_to_error-error_to_status invalid_argument = refl
status_to_error-error_to_status storage_error = refl
status_to_error-error_to_status network_error = refl
status_to_error-error_to_status not_implemented = refl
