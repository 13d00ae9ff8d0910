-- ===== src/Tests/Restart.antt =====
-- Runs in which a call goes on after a signal of another thread.
use signal_tests.Base.{◌≡◌, refl, List, [], ◌∷◌, some, pos}
use signal_tests.System
use signal_tests.System.{Frame, Reply, Ucontext}
use signal_tests.Threads.{
  first, second, Event, reply, interrupt, Machine, fire_all, begin, Any, Answers,
}
use signal_tests.Tests.Events.{last_of, ok, value, call_frame}
use signal_tests.Restart.Handler.{Restarts}
use signal_tests.Restart.RestartableRead
use signal_tests.Restart.RestartableRead.Restarted as RestartableReadRestarted
use signal_tests.Restart.RestartableWrite
use signal_tests.Restart.RestartableWrite.Restarted as RestartableWriteRestarted
use signal_tests.Restart.RestartableSemWait
use signal_tests.Restart.RestartableSemWait.Restarted as RestartableSemWaitRestarted

abbrev read_events : List Event
read_events =
    reply first (record ok { words = 3 ∷ 4 ∷ [] })
    ∷ reply first ok
    ∷ reply first ok
    ∷ reply second ok
    ∷ reply second (value 101)
    ∷ reply first ok
    ∷ reply first (value 1000)
    ∷ reply first ok
    ∷ interrupt second (call_frame 0x401000 (pos 0))
    ∷ reply second (value 101)
    ∷ reply first ok
    ∷ reply first (value 16)
    ∷ reply second (value 16)
    ∷ reply first ok
    ∷ []

abbrev read_end : Machine RestartableRead.Globals
read_end =
    last_of
      (begin (RestartableRead.signal_handler System.x86_64) RestartableRead.thread_main
        RestartableRead.main RestartableRead.initial)
      (fire_all (RestartableRead.signal_handler System.x86_64) RestartableRead.thread_main
        read_events
        (begin (RestartableRead.signal_handler System.x86_64) RestartableRead.thread_main
          RestartableRead.main RestartableRead.initial))

restartable_read-runs :
    fire_all
      (RestartableRead.signal_handler System.x86_64)
      RestartableRead.thread_main
      read_events
      (begin
        (RestartableRead.signal_handler System.x86_64)
        RestartableRead.thread_main
        RestartableRead.main
        RestartableRead.initial)
    ≡ some read_end
unfolding fire_all RestartableRead.main RestartableRead.thread_main RestartableRead.signal_handler
restartable_read-runs = refl

restartable_read-ends : read_end.status ≡ some 0
unfolding fire_all RestartableRead.main RestartableRead.thread_main RestartableRead.signal_handler
restartable_read-ends = refl

restartable_read-Restarts_example :
    Any (Restarts System.sys_read System.x86_64) read_end.log
    × Any (Answers RestartableReadRestarted.HasRead) read_end.log
restartable_read-Restarts_example =
    RestartableReadRestarted.restartable_read-Restarts System.x86_64 read_events read_end
      restartable_read-runs restartable_read-ends

abbrev write_events : List Event
write_events =
    reply first (record ok { words = 3 ∷ 4 ∷ [] })
    ∷ reply first (value 4096)
    ∷ reply first (value 4096)
    ∷ reply first ok
    ∷ reply first ok
    ∷ reply second ok
    ∷ reply second (value 101)
    ∷ reply first ok
    ∷ reply first (value 1000)
    ∷ reply first ok
    ∷ interrupt second (call_frame 0x401000 (pos 1))
    ∷ reply second (value 101)
    ∷ reply first ok
    ∷ reply first (value 4096)
    ∷ reply second (value 16)
    ∷ reply first ok
    ∷ []

abbrev write_end : Machine RestartableWrite.Globals
write_end =
    last_of
      (begin (RestartableWrite.signal_handler System.x86_64) RestartableWrite.thread_main
        RestartableWrite.main RestartableWrite.initial)
      (fire_all (RestartableWrite.signal_handler System.x86_64) RestartableWrite.thread_main
        write_events
        (begin (RestartableWrite.signal_handler System.x86_64) RestartableWrite.thread_main
          RestartableWrite.main RestartableWrite.initial))

restartable_write-runs :
    fire_all
      (RestartableWrite.signal_handler System.x86_64)
      RestartableWrite.thread_main
      write_events
      (begin
        (RestartableWrite.signal_handler System.x86_64)
        RestartableWrite.thread_main
        RestartableWrite.main
        RestartableWrite.initial)
    ≡ some write_end
unfolding fire_all RestartableWrite.main RestartableWrite.thread_main
    RestartableWrite.signal_handler
restartable_write-runs = refl

restartable_write-ends : write_end.status ≡ some 0
unfolding fire_all RestartableWrite.main RestartableWrite.thread_main
    RestartableWrite.signal_handler
restartable_write-ends = refl

restartable_write-Restarts_example :
    Any (Restarts System.sys_write System.x86_64) write_end.log
    × Any (Answers RestartableWriteRestarted.HasWritten) write_end.log
restartable_write-Restarts_example =
    RestartableWriteRestarted.restartable_write-Restarts System.x86_64 write_events write_end
      restartable_write-runs restartable_write-ends

abbrev wait_events : List Event
wait_events =
    reply first ok
    ∷ reply first ok
    ∷ reply first ok
    ∷ reply first ok
    ∷ reply second ok
    ∷ reply second (value 101)
    ∷ reply first ok
    ∷ reply first (value 1000)
    ∷ reply first ok
    ∷ interrupt second (call_frame 0x401000 (pos 202))
    ∷ reply second (value 101)
    ∷ reply first ok
    ∷ reply first ok
    ∷ reply second ok
    ∷ reply second ok
    ∷ reply first ok
    ∷ []

abbrev wait_end : Machine RestartableSemWait.Globals
wait_end =
    last_of
      (begin (RestartableSemWait.signal_handler System.x86_64) RestartableSemWait.thread_main
        RestartableSemWait.main RestartableSemWait.initial)
      (fire_all (RestartableSemWait.signal_handler System.x86_64) RestartableSemWait.thread_main
        wait_events
        (begin (RestartableSemWait.signal_handler System.x86_64) RestartableSemWait.thread_main
          RestartableSemWait.main RestartableSemWait.initial))

restartable_sem_wait-runs :
    fire_all
      (RestartableSemWait.signal_handler System.x86_64)
      RestartableSemWait.thread_main
      wait_events
      (begin
        (RestartableSemWait.signal_handler System.x86_64)
        RestartableSemWait.thread_main
        RestartableSemWait.main
        RestartableSemWait.initial)
    ≡ some wait_end
unfolding fire_all RestartableSemWait.main RestartableSemWait.thread_main
    RestartableSemWait.signal_handler
restartable_sem_wait-runs = refl

restartable_sem_wait-ends : wait_end.status ≡ some 0
unfolding fire_all RestartableSemWait.main RestartableSemWait.thread_main
    RestartableSemWait.signal_handler
restartable_sem_wait-ends = refl

restartable_sem_wait-Restarts_example :
    Any (Restarts System.sys_futex System.x86_64) wait_end.log
    × Any (Answers RestartableSemWaitRestarted.HasWaited) wait_end.log
restartable_sem_wait-Restarts_example =
    RestartableSemWaitRestarted.restartable_sem_wait-Restarts System.x86_64 wait_events wait_end
      restartable_sem_wait-runs restartable_sem_wait-ends
