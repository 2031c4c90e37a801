-- ===== src/Examples/Timeouts.antt =====
-- Runs of src/deadline.c.
use vless_core_cli.Prelude.{ℕ, ◌≤◌, true, some, ◌≡◌, refl, ◌⊎◌, arith}
use vless_core_cli.Deadline.{
  pos, negsuc, Deadline, attach, begin, is_active, remaining, limit, pause, resume,
}
use vless_core_cli.Deadline.Remaining.{remaining-resume, IsWithin, limit_lem}

abbrev running : Deadline
running = record { until_ms = 1500; paused_ms = 0; active = true }

begin_test : begin attach 1000 (pos 500) ≡ some running
unfolding begin
begin_test = refl

limit_test : limit (some running) 1400 (negsuc 0) ≡ pos 100
unfolding limit is_active remaining
limit_test = refl

remaining-resume_example :
    let c = resume (pause (some running) 1400) 9000 in
    (remaining c 9000 ≡ remaining (some running) 1400) × (is_active c ≡ true)
remaining-resume_example = remaining-resume running 1400 9000 refl (omega arith)

running_active : is_active (some running) ≡ true
unfolding is_active
running_active = refl

limit_example :
    (n : ℕ) × (limit (some running) 1400 (pos 50) ≡ pos n)
    × (n ≤ remaining (some running) 1400)
    × IsWithin n (pos 50)
    × ((n ≡ remaining (some running) 1400) ⊎ (pos 50 ≡ pos n))
limit_example = limit_lem (some running) 1400 (pos 50) running_active
