-- ===== src/Tests/Durations.antt =====
-- The round trip of a duration at a concrete input: a day, two hours and five seconds.
use oracle_repo.Base.{◌≡◌, some}
use oracle_repo.Duration.{parse_duration, format_duration}
use oracle_repo.Duration.Inverse.{parse_duration-format_duration}

parse_duration-format_duration_example : parse_duration (format_duration 93605) ≡ some 93605
parse_duration-format_duration_example = parse_duration-format_duration 93605
