-- ===== src/Race/Handshake/Tests.antt =====
-- hare_tortoise.c, the handshakes: a race of one round that comes to its end, and one that gets stuck.
use decs.Race.Track.{IsRace}
use decs.Base.Int.{pos, ◌+ℤ◌, ◌-ℤ◌}
use decs.Base.{ℕ, refl, ◌≡◌, [], arith}
use decs.Race.Handshake.{
  init, start, System, Reach, action, count_clock, rouse_thread, after, after_last, at_end, thread,
  ThreadStep, report, ReporterStep,
}
use decs.Race.Handshake.LostWakeup.{handshake}
use decs.Race.Handshake.Rounds.{at_end-race_loop}
use decs.Race.{Config, tick, race_loop, init_race, ended}

abbrev dash : Config
dash = record {
  printing_delay = pos 10;
  tortoise_speed = pos 5;
  hare_speed = pos 1;
  hare_sleep_time = pos 3;
  hare_turtle_distance_for_sleep = pos 10;
  finish_distance = pos 4;
  reposition = [];
}

-- too long for one round
abbrev walk : Config
walk = record dash { finish_distance = pos 40 }

dash-IsRace : IsRace dash
dash-IsRace = omega arith

dash_run : (s : System) × Reach dash s × (s.reporter ≡ at_end)
unfolding init tick action count_clock rouse_thread after after_last ◌+ℤ◌ ◌-ℤ◌
dash_run =
    let a0 : Reach dash (init dash) = start in
    let a1 = thread 0 a0 (omega arith) (ThreadStep.wait refl) in
    let a2 = thread 1 a1 (omega arith) (ThreadStep.wait refl) in
    let a3 = thread 2 a2 (omega arith) (ThreadStep.wait refl) in
    let a4 = report a3 (ReporterStep.start_round refl refl) in
    let a5 = report a4 (ReporterStep.count refl) in
    let b1 = handshake 0 (omega arith) a5 refl refl refl in
    let b2 = handshake 1 (omega arith) b1 refl refl refl in
    let b3 = handshake 2 (omega arith) b2 refl refl refl in
    let c0 = report b3 (ReporterStep.stop_threads refl refl) in
    let c1 = report c0 (ReporterStep.acquire_last 0 refl refl) in
    let c2 = report c1 (ReporterStep.signal_last 0 refl) in
    let c3 = report c2 (ReporterStep.release_last 0 refl) in
    let c4 = report c3 (ReporterStep.acquire_last 1 refl refl) in
    let c5 = report c4 (ReporterStep.signal_last 1 refl) in
    let c6 = report c5 (ReporterStep.release_last 1 refl) in
    let c7 = report c6 (ReporterStep.acquire_last 2 refl refl) in
    let c8 = report c7 (ReporterStep.signal_last 2 refl) in
    let c9 = report c8 (ReporterStep.release_last 2 refl) in
    let d = report c9 (ReporterStep.end_race refl refl) in (_, d, refl)

at_end-race_loop_example :
    (fuel : ℕ) × (race_loop dash fuel (init_race dash) ≡ ended dash_run.0.shared)
at_end-race_loop_example = at_end-race_loop dash-IsRace refl dash_run.1 dash_run.2
