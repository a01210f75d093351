-- ===== src/DockerPs/Lines.antt =====
-- What `parseDockerPsOutput` of src/services/docker-ps-parser.ts promises: each line is read by
-- itself, no line is lost, and when the whole output is refused.
use servers_manager.Base.{
  ℕ, suc, ◌+◌, ◌≡◌, ◌≢◌, ap, sym, refl, ◌∙◌, Option, none, some, List, [], ◌∷◌, ◌++◌, Text, length,
  arith, All, append_assoc, append-nil, ok, throw, type_error, ◌⊎◌, inl, inr,
}
use servers_manager.DockerPs.{
  DockerPsContainer, DockerPsParseResult, ParsedLine, malformed, null_value, value, to_container,
  read_parsed, add_line, non_blank_lines, parse_line, parse_lines, parse_docker_ps_output,
}

-- The container of a parsed line, if it has one.
abbrev pub container_of : ParsedLine → Option DockerPsContainer
container_of malformed = none
container_of null_value = none
container_of (value parsed) = to_container parsed

abbrev pub keep : Option DockerPsContainer → List DockerPsContainer → List DockerPsContainer
keep none rest = rest
keep (some container) rest = container ∷ rest

abbrev pub missed : Option DockerPsContainer → ℕ → ℕ
missed none n = n + 1
missed (some container) n = n

module _ (json_parse : Text → ParsedLine) where
  -- The containers of the lines, each line read by itself.
  abbrev pub containers_of : List Text → List DockerPsContainer
  containers_of [] = []
  containers_of (line ∷ lines) = keep (container_of (json_parse line)) (containers_of lines)

  abbrev pub missed_lines : List Text → ℕ
  missed_lines [] = 0
  missed_lines (line ∷ lines) = missed (container_of (json_parse line)) (missed_lines lines)

  abbrev pub HasNull : List Text → Type 0
  HasNull [] = ⊥
  HasNull (line ∷ lines) = (json_parse line ≡ null_value) ⊎ HasNull lines

  parse_line-ok :
      (line : Text)
      → json_parse line ≢ null_value
      → parse_line json_parse line ≡ ok (container_of (json_parse line))
  unfolding parse_line
  parse_line-ok line h = go (json_parse line) h
    where
      go : (p : ParsedLine) → p ≢ null_value → read_parsed p ≡ ok (container_of p)
      go malformed k = refl
      go null_value k = absurd (k refl)
      go (value parsed) k = refl

  add_line-keep :
      (r : DockerPsParseResult) (o : Option DockerPsContainer) (cs : List DockerPsContainer) (n : ℕ)
      → ◌≡◌ {A = DockerPsParseResult}
          (record {
            containers = (add_line r o).containers ++ cs;
            skipped_lines = (add_line r o).skipped_lines + n;
          })
          (record {
            containers = r.containers ++ keep o cs;
            skipped_lines = r.skipped_lines + missed o n;
          })
  add_line-keep r none cs n = λ i. record { containers = r.containers ++ cs; skipped_lines = e i }
    where
      e : r.skipped_lines + 1 + n ≡ r.skipped_lines + (n + 1)
      e = omega arith
  add_line-keep r (some container) cs n = λ i. record {
    containers = append_assoc r.containers (container ∷ []) cs i;
    skipped_lines = r.skipped_lines + n;
  }

  parse_lines-ok :
      (acc : DockerPsParseResult) (lines : List Text)
      → All (λ line. json_parse line ≢ null_value) lines
      → parse_lines json_parse acc lines
        ≡ ok (record {
          containers = acc.containers ++ containers_of lines;
          skipped_lines = acc.skipped_lines + missed_lines lines;
        })
  unfolding parse_lines
  parse_lines-ok acc [] h = λ i.
      ok (record { containers = sym (append-nil acc.containers) i; skipped_lines = zero_right i })
    where
      zero_right : acc.skipped_lines ≡ acc.skipped_lines + 0
      zero_right = omega arith
  parse_lines-ok acc (line ∷ lines) h =
      rw (parse_line-ok line h.0, parse_lines)
        (parse_lines-ok (add_line acc (container_of (json_parse line))) lines h.1
          ∙ ap ok (add_line-keep acc (container_of (json_parse line)) _ _))

  containers-missed :
      (lines : List Text) → length (containers_of lines) + missed_lines lines ≡ length lines
  containers-missed [] = omega arith
  containers-missed (line ∷ lines) = go (container_of (json_parse line)) (containers-missed lines)
    where
      go :
          (o : Option DockerPsContainer)
          → length (containers_of lines) + missed_lines lines ≡ length lines
          → length (keep o (containers_of lines)) + missed o (missed_lines lines)
            ≡ suc (length lines)
      go none ih = omega arith
      go (some c) ih = omega arith

  -- If no line is the JSON value `null`, the parse succeeds: the containers are those of the
  -- non-blank lines, each read by itself and in order, and every other non-blank line is counted as
  -- skipped, so that no line is lost.
  pub parse_docker_ps_output-ok :
      (stdout : Text)
      → All (λ line. json_parse line ≢ null_value) (non_blank_lines stdout)
      → (r : DockerPsParseResult) × (parse_docker_ps_output json_parse stdout ≡ ok r)
        × (r.containers ≡ containers_of (non_blank_lines stdout))
        × (length r.containers + r.skipped_lines ≡ length (non_blank_lines stdout))
  unfolding parse_docker_ps_output
  parse_docker_ps_output-ok stdout h = (
    record {
      containers = containers_of (non_blank_lines stdout);
      skipped_lines = 0 + missed_lines (non_blank_lines stdout);
    },
    parse_lines-ok _ (non_blank_lines stdout) h,
    refl,
    omega (arith, containers-missed (non_blank_lines stdout)),
  )

  parse_lines-null :
      (acc : DockerPsParseResult) (lines : List Text)
      → HasNull lines
      → parse_lines json_parse acc lines ≡ throw type_error
  unfolding parse_lines parse_line
  parse_lines-null acc [] h = absurd h
  parse_lines-null acc (line ∷ lines) (inl e) = rw (e, parse_lines)
  parse_lines-null acc (line ∷ lines) (inr h) =
      go (λ acc'. parse_lines-null acc' lines h) (json_parse line)
    where
      go :
          ((acc' : DockerPsParseResult) → parse_lines json_parse acc' lines ≡ throw type_error)
          → (p : ParsedLine)
          → (elim (read_parsed p) [
            | throw e ↦ throw e
            | ok container ↦ parse_lines json_parse (add_line acc container) lines
          ])
            ≡ throw type_error
      go later malformed = later (add_line acc none)
      go later null_value = refl
      go later (value parsed) = later (add_line acc (to_container parsed))

  -- One line that is the JSON value `null` makes the whole parse throw a `TypeError`, whatever the
  -- other lines are.
  pub parse_docker_ps_output-null :
      (stdout : Text)
      → HasNull (non_blank_lines stdout)
      → parse_docker_ps_output json_parse stdout ≡ throw type_error
  unfolding parse_docker_ps_output
  parse_docker_ps_output-null stdout h = parse_lines-null _ (non_blank_lines stdout) h
