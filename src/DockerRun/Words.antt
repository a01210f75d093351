-- ===== src/DockerRun/Words.antt =====
-- What a POSIX shell makes of the command line of src/rollback/docker-run-command.builder.ts.
-- The shell is described by its quoting rules (POSIX 2.2 and 2.3), with no expansion: outside
-- quotes a blank ends a word, `\` takes the next character as it is, and any other character with
-- a meaning to the shell makes `scan` refuse the line.
use servers_manager.Base.{
  ℕ, ◌≡◌, refl, sym, ap, ◌∙◌, Bool, ◌&&◌, ◌||◌, Option, none, some, List, [], ◌∷◌, ◌++◌, Text,
  codes, truthy, leb, ==_iff, ◌==◌, if◌then◌else◌, Bool-cases, append_assoc, append-nil, inl, inr,
}
use servers_manager.DockerRun.{
  DeploymentConfigBlob, escape_quotes, shell_escape, push_flag, join_space, parts,
  build_docker_run_command,
}

-- A character that stands for itself outside quotes.
unfoldable pub is_plain : ℕ → Bool
is_plain c =
    leb b'a' c && leb c b'z'
    || leb b'A' c && leb c b'Z'
    || leb b'0' c && leb c b'9'
    || c == b'-'
    || c == b'_'
    || c == b'.'
    || c == b'/'
    || c == b':'

-- Where the reader stands, with the word read so far.
pub data Mode : Type 0 where
  blank : Mode
  bare : Text → Mode
  quoted : Text → Mode
  escaped : Text → Mode
  refused : Mode

unfoldable pub open_word : Text → ℕ → Mode
unfolding is_plain
open_word w c =
    if c == b'\''
    then quoted w
    else if c == b'\\'
    then escaped w
    else if is_plain c
    then bare (w ++ c ∷ [])
    else refused

unfoldable pub next : Mode → ℕ → Mode
unfolding open_word
next blank c = if c == b' ' then blank else open_word [] c
next (bare w) c = if c == b' ' then blank else open_word w c
next (quoted w) c = if c == b'\'' then bare w else quoted (w ++ c ∷ [])
next (escaped w) c = bare (w ++ c ∷ [])
next refused c = refused

unfoldable pub finish : Mode → Option (List Text)
finish blank = some []
finish (bare w) = some (w ∷ [])
finish _ = none

-- A blank behind a word hands the word on.
abbrev add_word : Text → Option (List Text) → Option (List Text)
add_word w none = none
add_word w (some ws) = some (w ∷ ws)

unfoldable pub emit : Mode → ℕ → Option (List Text) → Option (List Text)
emit (bare w) c rest = if c == b' ' then add_word w rest else rest
emit _ c rest = rest

unfoldable pub scan : Mode → Text → Option (List Text)
unfolding next emit finish
scan m [] = finish m
scan m (c ∷ s) = emit m c (scan (next m c) s)

-- The words of a command line; `none` where the shell would do more than split it.
unfoldable pub shell_words : Text → Option (List Text)
unfolding scan
shell_words line = scan blank line

scan-quoted :
    (w value rest : Text)
    → scan (quoted w) (escape_quotes value ++ b'\'' ∷ rest) ≡ scan (bare (w ++ value)) rest
unfolding scan escape_quotes
scan-quoted w [] rest = rw (append-nil w)
scan-quoted w (c ∷ value) rest = elim (Bool-cases (c == b'\'')) [
  | inl e ↦
      let ih = scan-quoted (w ++ b'\'' ∷ []) value rest in
      rw ((==_iff c b'\'').0 e) (ih ∙ rw (append_assoc w (b'\'' ∷ []) value))
  | inr e ↦
      let ih = scan-quoted (w ++ c ∷ []) value rest in
      rw (e, e) (ih ∙ rw (append_assoc w (c ∷ []) value))
]

-- `part` is read as the one word `word`, whatever follows it.
abbrev ReadsAs : Text → Text → Type 0
ReadsAs part word = (rest : Text) → scan blank (part ++ rest) ≡ scan (bare word) rest

abbrev Reads : List Text → List Text → Type 0
Reads [] [] = Unit
Reads (part ∷ ps) (word ∷ words) = ReadsAs part word × Reads ps words
Reads _ _ = ⊥

shell_escape-ReadsAs : (value : Text) → ReadsAs (shell_escape value) value
unfolding scan shell_escape
shell_escape-ReadsAs value rest =
    rw (append_assoc (escape_quotes value) (b'\'' ∷ []) rest) (scan-quoted [] value rest)

Reads-append :
    (ps words qs more : List Text)
    → Reads ps words
    → Reads qs more
    → Reads (ps ++ qs) (words ++ more)
Reads-append [] [] qs more h k = k
Reads-append (part ∷ ps) (word ∷ words) qs more h k = (h.0, Reads-append ps words qs more h.1 k)
Reads-append [] (word ∷ words) qs more h k = absurd h
Reads-append (part ∷ ps) [] qs more h k = absurd h

scan-join_space :
    (ps : List Text) (words : List Text) → Reads ps words → scan blank (join_space ps) ≡ some words
unfolding scan join_space
scan-join_space [] [] h = refl
scan-join_space (part ∷ []) (word ∷ []) h = ap (λ s. scan blank s) (sym (append-nil part)) ∙ h.0 []
scan-join_space (part ∷ q ∷ ps) (word ∷ v ∷ words) h =
    h.0 _ ∙ ap (add_word word) (scan-join_space (q ∷ ps) (v ∷ words) h.1)
scan-join_space [] (word ∷ words) h = absurd h
scan-join_space (part ∷ ps) [] h = absurd h
scan-join_space (part ∷ []) (word ∷ v ∷ words) h = absurd h.1
scan-join_space (part ∷ q ∷ ps) (word ∷ []) h = absurd h.1

-- A flag before each value.
abbrev pub flagged : Text → List Text → List Text
flagged flag [] = []
flagged flag (value ∷ values) = flag ∷ value ∷ flagged flag values

push_flag-Reads :
    (flag : Text) (values : List Text)
    → ReadsAs flag flag
    → Reads (push_flag flag values) (flagged flag values)
unfolding push_flag
push_flag-Reads flag [] h = tt
push_flag-Reads flag (value ∷ values) h =
    (h, (shell_escape-ReadsAs value, push_flag-Reads flag values h))

-- The argument vector that `docker` is meant to receive.
abbrev pub docker_run_argv : DeploymentConfigBlob → Text → List Text
docker_run_argv config image_tag =
    codes "docker"
    ∷ codes "run"
    ∷ codes "-d"
    ∷ codes "--name"
    ∷ config.container_name
    ∷ (flagged (codes "-p") config.port_bindings
        ++ (flagged (codes "-e") config.env
            ++ ((if truthy config.restart_policy
                  then codes "--restart" ∷ config.restart_policy ∷ []
                  else [])
                ++ image_tag ∷ [])))

restart-Reads :
    (policy : Text)
    → Reads
        (if truthy policy then codes "--restart" ∷ shell_escape policy ∷ [] else [])
        (if truthy policy then codes "--restart" ∷ policy ∷ [] else [])
unfolding scan
restart-Reads [] = tt
restart-Reads (c ∷ policy) = ((λ rest. refl), (shell_escape-ReadsAs (c ∷ policy), tt))

-- Whatever the container's name, ports, environment, restart policy and image are, quotes and
-- blanks included, a POSIX shell splits the built command line into exactly the intended argument
-- vector, and finds nothing in it that it would expand, run or take as an operator.
pub shell_words-build_docker_run_command :
    (config : DeploymentConfigBlob) (image_tag : Text)
    → shell_words (build_docker_run_command config image_tag)
      ≡ some (docker_run_argv config image_tag)
unfolding shell_words build_docker_run_command scan
shell_words-build_docker_run_command config image_tag =
    scan-join_space (parts config image_tag) (docker_run_argv config image_tag) (
      (λ rest. refl),
      (
        (λ rest. refl),
        (
          (λ rest. refl),
          (
            (λ rest. refl),
            (
              shell_escape-ReadsAs config.container_name,
              Reads-append _ _ _ _
                  (push_flag-Reads (codes "-p") config.port_bindings (λ rest. refl))
                  (Reads-append _ _ _ _ (push_flag-Reads (codes "-e") config.env (λ rest. refl)) (
                    Reads-append _ _ _ _ (restart-Reads config.restart_policy)
                      (shell_escape-ReadsAs image_tag, tt))),
            ),
          ),
        ),
      ),
    )
