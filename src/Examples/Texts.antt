-- ===== src/Examples/Texts.antt =====
-- Names, messages, identifiers, typed lines and statuses.
use monash_fit1045_hd_projec.Base.{◌≡◌, ◌↔◌, refl, ◌++◌, false, some, codes, starts_with}
use monash_fit1045_hd_projec.Shared.Outcome.{ok, invalid_argument, invalid_channel_name}
use monash_fit1045_hd_projec.Shared.StringUtils.{trim, is_ascii_space, trim_trimmed}
use monash_fit1045_hd_projec.Shared.Ids.{parse, parse_canonical}
use monash_fit1045_hd_projec.Domain.MessageContent
use monash_fit1045_hd_projec.Domain.MessageContent.{IsContent}
use monash_fit1045_hd_projec.Service.Status.{error_to_status}
use monash_fit1045_hd_projec.Client.StatusToError.{status_to_error, status_to_error-error_to_status}
use monash_fit1045_hd_projec.Client.CommandParser.{
  parse_command, join, join_prefix, none as no_command, parse_command-none_iff, parse_command_join,
}
use monash_fit1045_hd_projec.Examples.Party.{byte_ids, byte_ids-PrintsBack, id}

create-IsContent_iff_example :
    (MessageContent.create (codes " hi ") ≡ ok (codes "hi"))
    ↔ ((codes "hi" ≡ trim (codes " hi ")) × IsContent (codes "hi"))
create-IsContent_iff_example = MessageContent.create-IsContent_iff (codes " hi ") (codes "hi")

trim_trimmed_example : trim (codes "a b") ≡ codes "a b"
unfolding is_ascii_space
trim_trimmed_example = trim_trimmed (codes "a b") (record { front = refl; back = refl })

parse_canonical_example : parse byte_ids (id 5) ≡ some (id 5)
unfolding parse
parse_canonical_example = parse_canonical byte_ids (id 5) (id 5) byte_ids-PrintsBack refl

status_to_error-error_to_status_example :
    status_to_error (error_to_status invalid_argument) ≡ invalid_channel_name
status_to_error-error_to_status_example = status_to_error-error_to_status invalid_argument

parse_command-none_iff_example :
    ((parse_command (codes " hi")).type ≡ no_command)
    ↔ (starts_with (codes "/") (trim (codes " hi")) ≡ false)
parse_command-none_iff_example = parse_command-none_iff (codes " hi")

parse_command_join_example :
    parse_command (join_prefix ++ codes "a") ≡ record { type = join; arg = codes "a" }
unfolding is_ascii_space
parse_command_join_example =
    parse_command_join (codes "a") (record { front = refl; back = refl }) (λ e. cc)
