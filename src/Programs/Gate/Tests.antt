-- ===== src/Programs/Gate/Tests.antt =====
-- The gate at concrete outputs.
use Prim.Native.String.{◌++◌}
use intempt_python.Prelude.{◌≡◌, refl, false}
use intempt_python.Python.Float.{pos, finite, of_ratio, scale}
use intempt_python.Python.Result.{ok}
use intempt_python.Util.{int_of_float}
use intempt_python.Programs.Gate.{
  parse_results, less, decide, nothing_evaluated, scored, gate, last_count,
}
use intempt_python.Programs.Gate.Parsed.{summary_line, parse_results-summary_line}

parse_results-summary_line_example :
    parse_results ("🎉 3 🙁 1\n" ++ summary_line 120 0 2 0 14 0)
    ≡ record { killed = 120; timed_out = 2; survived = 14; suspicious = 0 }
parse_results-summary_line_example = parse_results-summary_line "🎉 3 🙁 1\n" 120 0 2 0 14 0

nothing_fails : gate (finite false 85 0) "no tests ran" ≡ ok nothing_evaluated
unfolding gate parse_results last_count decide
nothing_fails = refl

-- 29 of 100 mutants are killed, as many as a threshold of 29% needs; but 29 / 100 * 100 is below 29 in
-- binary64, and the gate fails.
exact_score_fails :
    decide (finite false 29 0) 29 100
    ≡ ok (
        scored (record {
          exit = 1;
          score = scale 100 (of_ratio false 29 100);
          killed = 29;
          evaluated = 100;
          needed = pos 29;
        }))
unfolding decide less scale int_of_float
exact_score_fails = refl
