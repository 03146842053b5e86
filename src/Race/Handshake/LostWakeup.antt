-- ===== src/Race/Handshake/LostWakeup.antt =====
-- hare_tortoise.c, the handshakes: a thread that takes its lock too late misses the reporter's signal.
use decs.Base.Family.{put}
use decs.Race.Handshake.{
  System, action, waiting, ThreadStep, ReporterStep, acting, signalling, releasing, testing,
  rouse_thread, Reach, after, rouse_reporter, thread, at_acquire, report,
}
use decs.Race.{Config}
use decs.Base.{ℕ, refl, ◌≡◌, ◌<◌, arith, true, false}

-- No thread and not the reporter has a step.
pub record IsStuck (c : Config) (s : System) : Type 0 where
  pub threads : (i : ℕ) → i < 3 → (t : System) → ¬ ThreadStep c s i t
  pub reporter_too : (t : System) → ¬ ReporterStep s t

-- What a handshake of the reporter with a thread that waits leaves
abbrev shaken : Config → ℕ → System → System
shaken c i s = record {
  shared = action c i s.shared;
  held = put (put (put (put (put (put s.held i true) i false) i true) i false) i true) i false;
  pc =
      put (put (put (put (put s.pc i (rouse_thread (s.pc i))) i acting) i signalling) i releasing) i
        testing;
  reporter = after i;
}

pub handshake :
    {c : Config} {s : System} (i : ℕ)
    → i < 3
    → Reach c s
    → s.reporter ≡ at_acquire i
    → s.pc i ≡ waiting
    → s.held i ≡ false
    → Reach c (shaken c i s)
unfolding rouse_thread rouse_reporter
handshake {c} {s} i lt r e w f =
    let r1 = report r (ReporterStep.acquire i e f) in
    let r2 = report r1 (ReporterStep.signal i refl) in
    let r3 = report r2 (ReporterStep.wait i refl) in
    let r4 = thread i r3 lt (ThreadStep.wake (ground (arith, w)) (ground arith)) in
    let r5 = thread i r4 lt (ThreadStep.act (ground arith)) in
    let r6 = thread i r5 lt (ThreadStep.signal (ground arith)) in
    let r7 = thread i r6 lt (ThreadStep.release (ground arith)) in
    let r8 = report r7 (ReporterStep.wake i (ground arith) (ground arith)) in
    report r8 (ReporterStep.release i refl)
