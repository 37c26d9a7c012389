-- ===== src/Driver/Stats.antt =====
-- plugin/task.go: TaskStats and sendTaskStats.
pub mod Stream
use nomad_driver_systemd.Prelude.{
  ℕ, String, Bool, true, false, List, [], ◌∷◌, Option, none, some, if◌then◌else◌,
}
use nomad_driver_systemd.Prelude.Map.{lookup}
use nomad_driver_systemd.Errors.{Result, ok, err, task_not_found, is_unit_not_registered}
use nomad_driver_systemd.Host.{Host}
use nomad_driver_systemd.Manager.Stats.{
  CpuStats, MemoryStats, ResourceStats, resource_stats, empty_resource_stats,
}
use nomad_driver_systemd.Handler.{Handler, WaitClosed}
use nomad_driver_systemd.Driver.{Driver, store_manager}

-- Nomad's drivers.TaskResourceUsage.
pub record TaskResourceUsage (F : Type 0) : Type 0 where
  pub timestamp : ℕ
  pub cpu_stats : CpuStats F
  pub memory_stats : MemoryStats

module _ ⦃h : Host⦄ where
  open h use {World, Float}

  -- ResourceStats of the Handler, under the caller's context.
  unfoldable pub handler_stats :
      Handler → Bool → Driver → World → Result (ResourceStats Float) × Driver × World
  handler_stats th ctx d w =
      let (r, m, w') = resource_stats (d.managers th.units) ctx th.unit w in
      (r, store_manager th.units m d, w')

  unfoldable pub usage_of : ResourceStats Float → World → TaskResourceUsage Float × World
  usage_of stats w =
      let (t, w') = h.now w in
      (record { timestamp = t; cpu_stats = stats.cpu_stats; memory_stats = stats.memory_stats }, w')

  -- The outcome of a round: whether the stream goes on, and the sample that was sent on the channel.
  -- `taken` tells that Nomad received it before its context ended.
  abbrev pub Sent : Type 0
  Sent = Bool × Option (TaskResourceUsage Float) × Driver × World

  unfoldable pub send_usage : Bool → ResourceStats Float → Driver → World → Sent
  unfolding usage_of
  send_usage taken stats d w =
      let (usage, w') = usage_of stats w in (true, if taken then some usage else none, d, w')

  unfoldable pub send_task_stats : Handler → Bool → Bool → Driver → World → Sent
  send_task_stats th ctx taken d w =
      let (r, d', w') = handler_stats th ctx d w in
      elim r [
        | ok stats ↦ send_usage taken stats d' w'
        | err e ↦
            if is_unit_not_registered e
            then (false, none, d', w')
            else send_usage taken empty_resource_stats d' w'
      ]

  -- What the select of TaskStats receives: the end of the caller's context, the close of waitCh, or
  -- the timer; and before it, what the rest of the program does to the Driver and the world. `ctx`
  -- and `taken` tell whether the context has ended by the read, and the outcome of the send.
  pub data StatsEvent : Type 0 where
    context_done exit_seen : StatsEvent
    timer_fired : (ctx taken : Bool) → StatsEvent
    others_act : (Driver → World → Driver × World) → StatsEvent

  abbrev pub Stream : Type 0
  Stream = List (TaskResourceUsage Float) × Bool

  abbrev pub sending : Option (TaskResourceUsage Float) → Stream → Stream
  sending none s = s
  sending (some u) s = (u ∷ s.0, s.1)

  -- The goroutine of TaskStats: the samples that Nomad gets, and whether the channel is closed.
  unfoldable pub stream_stats : Handler → List StatsEvent → Driver → World → Stream
  stream_stats th [] d w = ([], false)
  stream_stats th (context_done ∷ events) d w = ([], true)
  stream_stats th (exit_seen ∷ events) d w = ([], true)
  stream_stats th (others_act f ∷ events) d w = let (d', w') = f d w in stream_stats th events d' w'
  stream_stats th (timer_fired ctx taken ∷ events) d w =
      let (more, usage, d', w') = send_task_stats th ctx taken d w in
      sending usage (elim more [ true ↦ stream_stats th events d' w' | false ↦ ([], true) ])

  unfoldable pub task_stats : String → List StatsEvent → Driver → World → Result Stream
  task_stats id events d w = elim (lookup id d.tasks) [
    | none ↦ err task_not_found
    | some th ↦ ok (stream_stats th events d w)
  ]
