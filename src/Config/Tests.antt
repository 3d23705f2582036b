-- ===== src/Config/Tests.antt =====
-- The validation of a snapshot with numbers out of range, and the throttle "10:30:60".
use tlswrapper.Base.{Str, lit, str_eq, if◌then◌else◌, Option, none, some, ◌≡◌, refl}
use tlswrapper.Base.Int.{pos, negsuc}
use tlswrapper.Config.Defs.{File, default_file}
use tlswrapper.Config.Clamp.{clamp_file}
use tlswrapper.Config.Startups.{parse_max_startups, split_n, atoi}
use tlswrapper.Config.Validate.{
  ok, MediaType, mime_type, mime_version, validate, check_type, check_h3mux, check_startups,
  IsValid, validate-IsValid,
}

abbrev media_type : Str
media_type = lit "application/x-tlswrapper-config; version=4"

-- A MIME parser that knows one media type.
abbrev pub parse_one : Str → Option MediaType
parse_one s =
    if str_eq s media_type
    then some (record {
      mediatype = mime_type;
      params = λ k. if str_eq k (lit "version") then some mime_version else none;
    })
    else none

abbrev pub snapshot : File
snapshot = record (default_file media_type (pos 0)) { max_sessions = negsuc 4 }

validated : validate parse_one snapshot ≡ ok (clamp_file snapshot)
unfolding validate check_type check_h3mux check_startups parse_max_startups split_n atoi
validated = refl

validate-IsValid_example : IsValid parse_one (clamp_file snapshot)
validate-IsValid_example = validate-IsValid parse_one snapshot (clamp_file snapshot) validated

snapshot-IsValid : IsValid parse_one (clamp_file snapshot)
snapshot-IsValid = validate-IsValid parse_one snapshot (clamp_file snapshot) validated
