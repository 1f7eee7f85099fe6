-- ===== src/Tests/Tasks.antt =====
-- A run of the tasks of meridian-relay/src/daemon/device_manager.rs in which one cuts another, and
-- an instance of the theorem about such runs.
use ius.Base.{refl, Bool, true, none, ℕ-eq}
use ius.Base.Words.{Bytes}
use ius.Base.Assoc
use ius.Metrics
use ius.Mux.Frame.{build_tcp_packet}
use ius.Mux.Connections.{add_device, start_connect}
use ius.Clients.{remove_connection}
use ius.Devices.Stretches.{DeviceTask, new_task, receive, advance}
use ius.Devices.Tasks.{
  State, Run, done, then_step, task_started, received, advanced, device_added, connect_started,
  connection_removed, IsSound, fresh, with_manager, with_task, reachable-IsSound,
}

-- Two devices with a task each, and a connection on the first.
abbrev with_device : State
with_device = with_manager (fresh Metrics.new) (add_device (fresh Metrics.new).shared.manager 1)

abbrev one_task : State
one_task = with_task with_device 7 (with_device.shared, new_task 1 1024)

abbrev two_tasks : State
two_tasks = with_task one_task 8 (one_task.shared, new_task 2 1024)

abbrev opening : State
opening = with_manager two_tasks (start_connect two_tasks.shared.manager 1 62078 5).0

-- The device answers the SYN.
abbrev syn_ack : Bytes
syn_ack = build_tcp_packet none 62078 1024 0 1 0x12 512 none

abbrev reading : State
reading = with_task opening 7 (receive opening.shared (new_task 1 1024) syn_ack)

abbrev with_packets : DeviceTask
with_packets = (receive opening.shared (new_task 1 1024) syn_ack).1

abbrev accepts : Bytes → Bool
accepts packet = true

-- Behind the lock for `rx_seq`, and before the one in `handle_tcp_packet`.
abbrev between : State
between = with_task reading 7 (advance accepts 4096 reading.shared with_packets with_packets.phase)

abbrev begun : DeviceTask
begun = (advance accepts 4096 reading.shared with_packets with_packets.phase).1

-- Another task takes the connection away in between.
abbrev cut : State
cut = with_manager between (remove_connection between.shared.manager 1 1024)

abbrev handled : State
handled = with_task cut 7 (advance accepts 4096 cut.shared begun begun.phase)

interleaved : Run 4096 1024 (fresh Metrics.new) handled
unfolding Assoc.lookup Assoc.insert Assoc.remove
interleaved =
    then_step (fresh Metrics.new) cut handled
      (then_step (fresh Metrics.new) between cut
        (then_step (fresh Metrics.new) reading between
          (then_step (fresh Metrics.new) opening reading
            (then_step (fresh Metrics.new) two_tasks opening
              (then_step (fresh Metrics.new) one_task two_tasks
                (then_step (fresh Metrics.new) with_device one_task
                  (then_step (fresh Metrics.new) (fresh Metrics.new) with_device
                    (done (fresh Metrics.new)) (device_added (fresh Metrics.new) 1))
                  (task_started with_device 7 1 refl))
                (task_started one_task 8 2 refl))
              (connect_started two_tasks 1 62078 5))
            (received opening 7 (new_task 1 1024) syn_ack (record { runs = refl; waits = refl })))
          (advanced reading 7 with_packets accepts refl))
        (connection_removed between 1 1024))
      (advanced cut 7 begun accepts refl)

reachable-IsSound_example : IsSound 4096 1024 handled
reachable-IsSound_example = reachable-IsSound 4096 1024 Metrics.new handled interleaved
