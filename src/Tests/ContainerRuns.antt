-- ===== src/Tests/ContainerRuns.antt =====
-- Docker's output, images, status texts and command lines.
use servers_manager.Base.{
  ◌+◌, ◌≡◌, ◌↔◌, refl, inl, inr, some, [], ◌∷◌, ◌++◌, Text, codes, Contains, length, ok, throw,
  type_error, arith, split_on, trim,
}
use servers_manager.DockerRun.{build_docker_run_command}
use servers_manager.DockerRun.Words.{
  shell_words, docker_run_argv, shell_words-build_docker_run_command,
}
use servers_manager.DockerPs.{
  ParsedLine, malformed, null_value, value, DockerPsParseResult, non_blank_lines,
  parse_docker_ps_output, split_image_and_tag,
}
use servers_manager.DockerPs.Lines.{
  containers_of, parse_docker_ps_output-ok, parse_docker_ps_output-null,
}
use servers_manager.DockerPs.Image.{
  IsSplitOf, split_image_and_tag-IsSplitOf, split_image_and_tag-tagged,
}
use servers_manager.Container.Status.{running, classify_container_status}
use servers_manager.Container.Status.Classified.{classify_container_status-running_iff}
use servers_manager.Tests.Samples.{config, raw_web}

shell_words-build_docker_run_command_example :
    shell_words (build_docker_run_command config (codes "app:1"))
    ≡ some (docker_run_argv config (codes "app:1"))
shell_words-build_docker_run_command_example =
    shell_words-build_docker_run_command config (codes "app:1")

-- A reader of lines: "x" is malformed, the text "null" is `null`, any other line is the container.
abbrev read_line : Text → ParsedLine
read_line [] = malformed
read_line (b ∷ []) = malformed
read_line (a ∷ b ∷ []) = value raw_web
read_line (a ∷ b ∷ c ∷ s) = null_value

parse_docker_ps_output-ok_example :
    (r : DockerPsParseResult) × (parse_docker_ps_output read_line (codes "{}\nx\n\n{}") ≡ ok r)
    × (r.containers ≡ containers_of read_line (codes "{}" ∷ codes "x" ∷ codes "{}" ∷ []))
    × (length r.containers + r.skipped_lines ≡ 3)
unfolding non_blank_lines split_on trim
parse_docker_ps_output-ok_example =
    parse_docker_ps_output-ok read_line (codes "{}\nx\n\n{}")
      ((λ e. cc), ((λ e. cc), ((λ e. cc), tt)))

parse_docker_ps_output-null_example :
    parse_docker_ps_output read_line (codes "{}\nnull") ≡ throw type_error
unfolding non_blank_lines split_on trim
parse_docker_ps_output-null_example =
    parse_docker_ps_output-null read_line (codes "{}\nnull") (inr (inl refl))

split_image_and_tag-IsSplitOf_example :
    IsSplitOf
      (codes "reg:5000/app:1")
      (split_image_and_tag (codes "reg:5000/app:1")).image
      (split_image_and_tag (codes "reg:5000/app:1")).tag
split_image_and_tag-IsSplitOf_example = split_image_and_tag-IsSplitOf (codes "reg:5000/app:1")

split_image_and_tag-tagged_example :
    split_image_and_tag (codes "reg:5000/app" ++ b':' ∷ codes "1")
    ≡ record { image = codes "reg:5000/app"; tag = some (codes "1") }
split_image_and_tag-tagged_example =
    split_image_and_tag-tagged (codes "reg:5000/app") (codes "1") (omega arith) (omega arith)
      (omega arith) (omega arith)

classify_container_status-running_iff_example :
    (classify_container_status (codes "Up 2 hours") ≡ running)
    ↔ (¬ Contains (codes "Up 2 hours") (codes "Restarting"))
      × Contains (codes "Up 2 hours") (codes "Up")
      × (¬ Contains (codes "Up 2 hours") (codes "(unhealthy)"))
classify_container_status-running_iff_example =
    classify_container_status-running_iff (codes "Up 2 hours")
