-- ===== src/Tests/Frames.antt =====
-- The frames that some runs have seen.
use signal_tests.Base.{◌≡◌, ◌≢◌, refl, List, [], ◌∷◌, pos, All, length}
use signal_tests.Program.{World, finished, run, start, Passes}
use signal_tests.System
use signal_tests.System.{Frame, Ucontext}
use signal_tests.Frames.FpstateX87
use signal_tests.Frames.FpstateX87.Verdict as FpstateX87Verdict
use signal_tests.Frames.FpstateLegacy
use signal_tests.Frames.FpstateLegacy.Verdict as FpstateLegacyVerdict
use signal_tests.Frames.FrameAlignment
use signal_tests.Frames.FrameAlignment.Entries as FrameAlignmentEntries
use signal_tests.Frames.IllegalCs
use signal_tests.Frames.IllegalCs.Order as IllegalCsOrder
use signal_tests.Tests.Setup.{some_registers, frame_of}
use signal_tests.Tests.Machine.{raising}
use signal_tests.Frames.UcFlags
use signal_tests.Frames.UcFlags.Verdict as UcFlagsVerdict
use signal_tests.Frames.SigcontextSegments
use signal_tests.Frames.SigcontextSegments.Verdict as SigcontextSegmentsVerdict

abbrev usr1_frame : Ucontext → Frame
usr1_frame regs = frame_of System.sigusr1 (pos 0) 0 regs

abbrev x87_frame : Frame
x87_frame =
    usr1_frame (record some_registers { fp = record some_registers.fp { st = FpstateX87.st0_in } })

fpstate_x87_frames-pass :
    Passes
      (raising FpstateX87.st0_new x87_frame)
      8
      FpstateX87.signal_handler
      (FpstateX87.main System.i386)
      []
      FpstateX87.initial
unfolding run FpstateX87.main FpstateX87.signal_handler
fpstate_x87_frames-pass = refl

fpstate_x87_frames_example :
    (w : World (List Frame) FpstateX87.Globals) × (run
        (raising FpstateX87.st0_new x87_frame)
        8
        FpstateX87.signal_handler
        (FpstateX87.main System.i386)
        (start [] FpstateX87.initial)
      ≡ finished 0 w)
    × (w.served ≢ [])
    × All FpstateX87Verdict.IsExpected w.served
fpstate_x87_frames_example =
    FpstateX87Verdict.fpstate_x87_frames (raising FpstateX87.st0_new x87_frame) 8 []
      fpstate_x87_frames-pass

abbrev legacy_frame : Frame
legacy_frame = usr1_frame (record some_registers {
  oldmask = System.bit_of System.sigurg;
  cs = 0x23;
  fp = record some_registers.fp { xmm = FpstateLegacy.before };
})

fpstate_legacy_frames-pass :
    Passes
      (raising (FpstateLegacy.eight_words 0xf00d0000) legacy_frame)
      8
      FpstateLegacy.signal_handler
      (FpstateLegacy.main System.i386)
      []
      FpstateLegacy.initial
unfolding run FpstateLegacy.main FpstateLegacy.signal_handler
fpstate_legacy_frames-pass = refl

fpstate_legacy_frames_example :
    (w : World (List Frame) FpstateLegacy.Globals) × (run
        (raising (FpstateLegacy.eight_words 0xf00d0000) legacy_frame)
        8
        FpstateLegacy.signal_handler
        (FpstateLegacy.main System.i386)
        (start [] FpstateLegacy.initial)
      ≡ finished 0 w)
    × (w.served ≢ [])
    × All FpstateLegacyVerdict.IsExpected w.served
fpstate_legacy_frames_example =
    FpstateLegacyVerdict.fpstate_legacy_frames
      (raising (FpstateLegacy.eight_words 0xf00d0000) legacy_frame) 8 [] fpstate_legacy_frames-pass

frame_alignment_entries-pass :
    Passes
      (raising [] (usr1_frame some_registers))
      8
      FrameAlignment.signal_handler
      (FrameAlignment.main System.x86_64)
      []
      FrameAlignment.initial
unfolding run FrameAlignment.main FrameAlignment.signal_handler
frame_alignment_entries-pass = refl

frame_alignment_entries_example :
    (w : World (List Frame) FrameAlignment.Globals) × (run
        (raising [] (usr1_frame some_registers))
        8
        FrameAlignment.signal_handler
        (FrameAlignment.main System.x86_64)
        (start [] FrameAlignment.initial)
      ≡ finished 0 w)
    × ((length w.served ≡ 3) × All (FrameAlignmentEntries.IsAligned System.x86_64) w.served)
frame_alignment_entries_example =
    FrameAlignmentEntries.frame_alignment_entries System.x86_64
      (raising [] (usr1_frame some_registers)) 8 [] frame_alignment_entries-pass

illegal_cs_once-pass :
    Passes
      (raising [] (frame_of System.sigsegv (pos 0) 0 (record some_registers { trapno = 13 })))
      8
      (IllegalCs.signal_handler System.x86_64 0x401200)
      IllegalCs.main
      []
      IllegalCs.initial
unfolding run IllegalCs.main IllegalCs.signal_handler
illegal_cs_once-pass = refl

illegal_cs_once_example :
    (w : World (List Frame) IllegalCs.Globals) × (run
        (raising [] (frame_of System.sigsegv (pos 0) 0 (record some_registers { trapno = 13 })))
        8
        (IllegalCs.signal_handler System.x86_64 0x401200)
        IllegalCs.main
        (start [] IllegalCs.initial)
      ≡ finished 0 w)
    × ((f : Frame) × (w.served ≡ f ∷ []) × IllegalCsOrder.IsGeneralProtection f)
illegal_cs_once_example =
    IllegalCsOrder.illegal_cs_once System.x86_64 0x401200
      (raising [] (frame_of System.sigsegv (pos 0) 0 (record some_registers { trapno = 13 }))) 8 []
      illegal_cs_once-pass

uc_flags_frames-pass :
    Passes
      (raising [] (usr1_frame some_registers))
      8
      (UcFlags.signal_handler System.x86_64)
      UcFlags.main
      []
      UcFlags.initial
unfolding run UcFlags.main UcFlags.signal_handler
uc_flags_frames-pass = refl

uc_flags_frames_example :
    (w : World (List Frame) UcFlags.Globals) × (run
        (raising [] (usr1_frame some_registers))
        8
        (UcFlags.signal_handler System.x86_64)
        UcFlags.main
        (start [] UcFlags.initial)
      ≡ finished 0 w)
    × (w.served ≢ [])
    × All (UcFlagsVerdict.IsExpected System.x86_64) w.served
uc_flags_frames_example =
    UcFlagsVerdict.uc_flags_frames System.x86_64 (raising [] (usr1_frame some_registers)) 8 []
      uc_flags_frames-pass

sigcontext_segments_frames-pass :
    Passes
      (raising [] (usr1_frame some_registers))
      8
      (SigcontextSegments.signal_handler System.x86_64)
      SigcontextSegments.main
      []
      SigcontextSegments.initial
unfolding run SigcontextSegments.main SigcontextSegments.signal_handler
sigcontext_segments_frames-pass = refl

sigcontext_segments_frames_example :
    (w : World (List Frame) SigcontextSegments.Globals) × (run
        (raising [] (usr1_frame some_registers))
        8
        (SigcontextSegments.signal_handler System.x86_64)
        SigcontextSegments.main
        (start [] SigcontextSegments.initial)
      ≡ finished 0 w)
    × (w.served ≢ [])
    × All (SigcontextSegmentsVerdict.IsExpected System.x86_64) w.served
sigcontext_segments_frames_example =
    SigcontextSegmentsVerdict.sigcontext_segments_frames System.x86_64
      (raising [] (usr1_frame some_registers)) 8 [] sigcontext_segments_frames-pass
