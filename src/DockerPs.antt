-- ===== src/DockerPs.antt =====
-- src/services/docker-ps-parser.ts: reading the output of `docker ps -a --format '{{json .}}'`.
pub mod Lines
pub mod Image
use servers_manager.Base.{
  ℕ, suc, ◌+◌, Bool, true, false, ◌&&◌, ◌||◌, not, Option, none, some, List, [], ◌∷◌, ◌++◌, map,
  filter, Text, truthy, codes, includes, last_index_of, trim, split_on, take, drop, if◌then◌else◌,
  Throws, ok, throw, ◌>>=◌, type_error,
}

pub record DockerPsContainer : Type 0 where
  pub id : Text
  pub names : Text
  pub image : Text
  pub status : Text
  pub ports : Text

pub record DockerPsParseResult : Type 0 where
  pub containers : List DockerPsContainer
  pub skipped_lines : ℕ

pub record RawDockerPsJson : Type 0 where
  pub id : Option Text
  pub names : Option Text
  pub image : Option Text
  pub status : Option Text
  pub ports : Option Text

-- What `JSON.parse` makes of a line: a `SyntaxError`, the value `null`, or a value whose fields
-- can be read. The cast to `RawDockerPsJson` is trusted: a field that is there is a string.
pub data ParsedLine : Type 0 where
  malformed null_value : ParsedLine
  value : RawDockerPsJson → ParsedLine

-- `!parsed.X` is false.
abbrev pub present : Option Text → Bool
present none = false
present (some s) = truthy s

-- `x ?? y`.
abbrev pub or_else : Option Text → Text → Text
or_else none y = y
or_else (some x) y = x

unfoldable pub to_container : RawDockerPsJson → Option DockerPsContainer
to_container parsed =
    if not (present parsed.id)
      || not (present parsed.names)
      || not (present parsed.image)
      || not (present parsed.status)
    then none
    else some (record {
      id = or_else parsed.id [];
      names = or_else parsed.names [];
      image = or_else parsed.image [];
      status = or_else parsed.status [];
      ports = or_else parsed.ports [];
    })

-- `parsed.ID` of `null` is a `TypeError`: it is read outside the `try`.
unfoldable pub read_parsed : ParsedLine → Throws (Option DockerPsContainer)
unfolding to_container
read_parsed malformed = ok none
read_parsed null_value = throw type_error
read_parsed (value parsed) = ok (to_container parsed)

abbrev pub add_line : DockerPsParseResult → Option DockerPsContainer → DockerPsParseResult
add_line r none = record r { skipped_lines = r.skipped_lines + 1 }
add_line r (some container) = record r { containers = r.containers ++ container ∷ [] }

unfoldable pub non_blank_lines : Text → List Text
non_blank_lines stdout = filter truthy (map trim (split_on 10 stdout))

module _ (json_parse : Text → ParsedLine) where
  unfoldable pub parse_line : Text → Throws (Option DockerPsContainer)
  unfolding read_parsed
  parse_line line = read_parsed (json_parse line)

  -- The `for` loop over the lines.
  unfoldable pub parse_lines : DockerPsParseResult → List Text → Throws DockerPsParseResult
  unfolding parse_line
  parse_lines acc [] = ok acc
  parse_lines acc (line ∷ lines) = elim (parse_line line) [
    | throw e ↦ throw e
    | ok container ↦ parse_lines (add_line acc container) lines
  ]

  unfoldable pub parse_docker_ps_output : Text → Throws DockerPsParseResult
  unfolding parse_lines non_blank_lines
  parse_docker_ps_output stdout =
      parse_lines (record { containers = []; skipped_lines = 0 }) (non_blank_lines stdout)

-- `lastIndexOf(…) + 1`, where `none` is -1.
abbrev pub after : Option ℕ → ℕ
after none = 0
after (some i) = suc i

pub record ImageAndTag : Type 0 where
  pub image : Text
  pub tag : Option Text

abbrev pub cut_tag : Text → ℕ → Option ℕ → ImageAndTag
cut_tag raw_image start none = record { image = raw_image; tag = none }
cut_tag raw_image start (some colon) = record {
  image = take (start + colon) raw_image;
  tag = some (drop (start + colon + 1) raw_image);
}

unfoldable pub split_image_and_tag : Text → ImageAndTag
split_image_and_tag raw_image =
    let start = after (last_index_of b'/' raw_image) in
    if not (truthy raw_image)
    then record { image = raw_image; tag = none }
    else if includes raw_image (codes "@")
    then record { image = raw_image; tag = none }
    else cut_tag raw_image start (last_index_of b':' (drop start raw_image))
