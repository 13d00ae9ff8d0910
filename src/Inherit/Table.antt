-- ===== src/Inherit/Table.antt =====
-- The action of a signal, as a thread reads it.
use signal_tests.Base.{ℕ, ◌≡◌, refl, true, ap, ==_iff}
use signal_tests.System
use signal_tests.System.{Handler, Call, Reply, same_handler}
use signal_tests.Threads.{Thread}

-- This thread has read that the signal has this action.
abbrev pub HasAction : Thread → ℕ → Handler → Thread → Call → Reply → Type 0
HasAction u sig h t c r = (t ≡ u) × (c ≡ Call.sigaction_query sig) × (r.old_act.handler ≡ h)

pub same_handler-eq : (a b : Handler) → same_handler a b ≡ true → a ≡ b
same_handler-eq System.sig_dfl System.sig_dfl e = refl
same_handler-eq System.sig_dfl System.sig_ign e = cc
same_handler-eq System.sig_dfl (System.function b) e = cc
same_handler-eq System.sig_ign System.sig_dfl e = cc
same_handler-eq System.sig_ign System.sig_ign e = refl
same_handler-eq System.sig_ign (System.function b) e = cc
same_handler-eq (System.function a) System.sig_dfl e = cc
same_handler-eq (System.function a) System.sig_ign e = cc
same_handler-eq (System.function a) (System.function b) e = ap System.function ((==_iff a b).0 e)
