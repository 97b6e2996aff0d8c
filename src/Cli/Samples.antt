-- ===== src/Cli/Samples.antt =====
-- Summaries of runs for the tests of the modules beside this one.
use browser_analysis.Prelude.{ℕ, ◌*◌, []}
use browser_analysis.Prelude.Int.{ℤ, pos_part}
use browser_analysis.Prelude.Text.{Text, codes}
use browser_analysis.Prelude.Double.{nat_double}
use browser_analysis.Cli.Sweep.{Measured}
use browser_analysis.Controller.Run.{FullSummary}
use browser_analysis.Results.{no_resources}
use browser_analysis.Stats.{Summary}

abbrev pub spread : Summary ℕ
spread = record {
  min = 1;
  max = 9;
  mean = 5;
  median = 5;
  p90 = 8;
  p95 = 8;
  p99 = 9;
  std_dev = 2;
  count = 4;
}

-- The peak of a run grows with its level.
abbrev pub run_at : Text → ℤ → FullSummary ℕ
run_at scenario lvl = record {
  built = record {
    scenario = scenario;
    workflow = codes "complex";
    concurrency = lvl;
    total_tasks = 4;
    completed = 4;
    failed = 0;
    throughput = 2;
    process_count = 0;
    latency = spread;
    browser_launch = spread;
    context_creation = spread;
    cdp_connect = spread;
    task_rss_bytes = spread;
    escalations = 0;
    http_step_total = 0;
    browser_step_total = 0;
    failures = [];
  };
  peak_cpu = 50;
  avg_cpu = 20;
  peak_ram = 1_073_741_824 * pos_part lvl;
  avg_ram = 1000;
}

abbrev pub measured : ℤ → Measured ℕ
measured lvl = record { summary = run_at (codes "http") lvl; resources = no_resources }
