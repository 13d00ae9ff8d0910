-- ===== src/Tests/Defaults.antt =====
-- A kernel on which the test of the default actions passes.
use signal_tests.Base.{
  ℕ, List, [], ◌*◌, ◌+◌, ◌==◌, ◌||◌, ◌≡◌, ◌≢◌, ◌↔◌, arith, refl, Option, none, some, pos,
  if◌then◌else◌,
}
use signal_tests.System
use signal_tests.System.{Call, Reply}
use signal_tests.Program.{Kernel, World, Passes, start, run}
use signal_tests.Program.Met.{end_of}
use signal_tests.Program.Logged.{logged, IsIn}
use signal_tests.Defaults.All
use signal_tests.Defaults.All.Report as DefaultsReport

-- The status of a child that this signal has reached.
abbrev status_by : All.Behavior → ℕ → ℕ
status_by All.terminate sig = sig
status_by All.core sig = sig + 128
status_by All.stop sig = sig * 256 + 127
status_by All.ignore sig = 42 * 256
status_by All.what sig = 0

abbrev wait_status : ℕ → ℕ → ℕ
wait_status sig options =
    if options == System.wuntraced || sig == System.sigsegv
    then status_by (All.get_behavior (pos sig)) sig
    else 42 * 256

-- Its state is the signal of the last child.
abbrev children_answer : ℕ → Call → Option (Reply × ℕ)
children_answer sig Call.fork = some (System.returning (pos 100), if sig == 8 then 10 else sig + 1)
children_answer sig (Call.waitpid pid options) =
    some (record (System.returning pid) { status = wait_status sig options }, sig)
children_answer sig c = some (System.returning (pos 0), sig)

abbrev children : Kernel
children = record { State = ℕ; answer = children_answer; deliver = λ s. none; sigreturn = λ s c. s }

children-pass : Passes (logged children) 0 All.no_handler All.main (0, []) All.initial
unfolding run All.main All.round All.parent All.child All.examine All.get_behavior
children-pass = refl

sigdfl_all_reports_example :
    (w : World (ℕ × List (Call × Reply)) All.Globals) × (end_of
        (run (logged children) 0 All.no_handler All.main (start (0, []) All.initial))
      ≡ some w)
    × IsIn (DefaultsReport.IsReport 20) w.kernel.1
sigdfl_all_reports_example =
    DefaultsReport.sigdfl_all_reports children 0 0 children-pass 20 (omega arith) (omega arith)
      (omega arith)

get_behavior_classes_example :
    ((All.get_behavior (pos 28) ≡ All.ignore) ↔ DefaultsReport.IsIgnored 28)
    × ((All.get_behavior (pos 28) ≡ All.stop) ↔ DefaultsReport.IsStopping 28)
    × ((All.get_behavior (pos 28) ≡ All.core) ↔ DefaultsReport.IsCoring 28)
    × ((All.get_behavior (pos 28) ≢ All.what) ↔ (¬ DefaultsReport.IsNone 28))
get_behavior_classes_example = DefaultsReport.get_behavior_classes (pos 28)
