-- ===== src/Engine/Waiting.antt =====
-- The states of queue_process in which the queue waits for both sessions.
use fxp_one.Prelude.{false, some, ◌≡◌}
use fxp_one.Lion.{Lion}
use fxp_one.Queue.Types.{
  QueueState, queue_start_next_item, phase_1_idle, phase_2_start, phase_2_wait, phase_3_start,
  phase_3_wait, phase_4_start, phase_5_start, phase_5_rest_wait, phase_6_start, phase_7_start,
  phase_7_wait, phase_8_start, phase_8_wait, phase_9_start, phase_9_rest, phase_10_start,
  phase_10_wait, phase_11_start, phase_11_wait, phase_12_start, directory_start,
  directory_phase_2_start, directory_phase_2_mkd,
}
use fxp_one.Engine.World.{World, Call, both_idle}
use fxp_one.Engine.Process.{
  dispatch, process_start_next_item, process_phase_1_idle, process_phase_2_start,
  process_phase_2_wait, process_phase_3_start, process_phase_3_wait, process_phase_4_start,
  process_phase_5_start, process_phase_5_rest_wait, process_phase_6_start, process_phase_7_start,
  process_phase_7_wait, process_phase_8_start, process_phase_8_wait, process_phase_9_start,
  process_phase_9_rest, process_phase_10_start, process_phase_10_wait, process_phase_11_start,
  process_phase_11_wait, process_phase_12_start, process_directory_start,
  process_directory_phase_2_start, process_directory_phase_2_mkd,
}

-- The states whose first test is that both sessions are idle.
pub data WaitsForBoth : QueueState → Type 0 where
  at_next_item : WaitsForBoth queue_start_next_item
  at_cwd : WaitsForBoth phase_1_idle
  at_secure : WaitsForBoth phase_2_start
  at_secure_reply : WaitsForBoth phase_2_wait
  at_prot : WaitsForBoth phase_3_start
  at_prot_reply : WaitsForBoth phase_3_wait
  at_type : WaitsForBoth phase_4_start
  at_size : WaitsForBoth phase_5_start
  at_resume : WaitsForBoth phase_5_rest_wait
  at_pret : WaitsForBoth phase_6_start
  at_pasv : WaitsForBoth phase_7_start
  at_pasv_reply : WaitsForBoth phase_7_wait
  at_port : WaitsForBoth phase_8_start
  at_port_reply : WaitsForBoth phase_8_wait
  at_rest : WaitsForBoth phase_9_start
  at_rest_reply : WaitsForBoth phase_9_rest
  at_stor : WaitsForBoth phase_10_start
  at_stor_reply : WaitsForBoth phase_10_wait
  at_retr : WaitsForBoth phase_11_start
  at_retr_reply : WaitsForBoth phase_11_wait
  at_transfer : WaitsForBoth phase_12_start
  at_directory : WaitsForBoth directory_start
  at_listing : WaitsForBoth directory_phase_2_start
  at_mkd : WaitsForBoth directory_phase_2_mkd

-- While one of the sessions is busy or missing, a step in one of the waiting states changes nothing:
-- no command goes out, no failure is counted and the state stays.
pub dispatch-waits :
    (lion : Lion) (call : Call) (w : World) (st : QueueState)
    → WaitsForBoth st
    → both_idle w ≡ false
    → dispatch lion call st w ≡ some w
unfolding dispatch process_start_next_item process_phase_1_idle process_phase_2_start
    process_phase_2_wait process_phase_3_start process_phase_3_wait process_phase_4_start
    process_phase_5_start process_phase_5_rest_wait process_phase_6_start process_phase_7_start
    process_phase_7_wait process_phase_8_start process_phase_8_wait process_phase_9_start
    process_phase_9_rest process_phase_10_start process_phase_10_wait process_phase_11_start
    process_phase_11_wait process_phase_12_start process_directory_start
    process_directory_phase_2_start process_directory_phase_2_mkd
dispatch-waits lion call w _ at_next_item busy = rw busy
dispatch-waits lion call w _ at_cwd busy = rw busy
dispatch-waits lion call w _ at_secure busy = rw busy
dispatch-waits lion call w _ at_secure_reply busy = rw busy
dispatch-waits lion call w _ at_prot busy = rw busy
dispatch-waits lion call w _ at_prot_reply busy = rw busy
dispatch-waits lion call w _ at_type busy = rw busy
dispatch-waits lion call w _ at_size busy = rw busy
dispatch-waits lion call w _ at_resume busy = rw busy
dispatch-waits lion call w _ at_pret busy = rw busy
dispatch-waits lion call w _ at_pasv busy = rw busy
dispatch-waits lion call w _ at_pasv_reply busy = rw busy
dispatch-waits lion call w _ at_port busy = rw busy
dispatch-waits lion call w _ at_port_reply busy = rw busy
dispatch-waits lion call w _ at_rest busy = rw busy
dispatch-waits lion call w _ at_rest_reply busy = rw busy
dispatch-waits lion call w _ at_stor busy = rw busy
dispatch-waits lion call w _ at_stor_reply busy = rw busy
dispatch-waits lion call w _ at_retr busy = rw busy
dispatch-waits lion call w _ at_retr_reply busy = rw busy
dispatch-waits lion call w _ at_transfer busy = rw busy
dispatch-waits lion call w _ at_directory busy = rw busy
dispatch-waits lion call w _ at_listing busy = rw busy
dispatch-waits lion call w _ at_mkd busy = rw busy
