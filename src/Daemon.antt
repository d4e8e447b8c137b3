-- ===== src/Daemon.antt =====
-- src/bin/server/daemon.rs: the daemon's threads, their start and their end. A channel, a task and its
-- abort handle are numbers; a task's abort handle is the task's number.
pub mod Stopping
pub mod Laws
pub mod Ending
pub mod Main
use rs1541fs.Prelude.{
  ℕ, Bool, true, false, String, Option, none, some, is_some, is_none, [], if◌then◌else◌,
}
use rs1541fs.Error.{Result, ok, err, panic, ◌>>=◌, ◌>>◌}
use rs1541fs.Drives.{Drives}
use rs1541fs.Ipc.Server.{IpcServer, new_ipc_server, start}

-- `bg_proc` is the channel that the background processor receives from. The mountpoints are those of the
-- mount service.
pub record Daemon : Type 0 where
  pub pid : ℕ
  pub drive_mgr : Drives
  pub bg_proc_tx : Option ℕ
  pub bg_proc_rx : Option ℕ
  pub bg_rsp_tx : Option ℕ
  pub bg_rsp_rx : Option ℕ
  pub ipc_server : Option IpcServer
  pub ipc_server_handle : Option ℕ
  pub bg_proc : Option ℕ
  pub bg_proc_handle : Option ℕ
  pub bg_listener_handle : Option ℕ
  pub bg_proc_shutdown : Bool
  pub bg_proc_abort : Option ℕ
  pub ipc_server_abort : Option ℕ
  pub bg_listener_abort : Option ℕ

-- `Daemon::new`, with the two channels that it creates
unfoldable pub new_daemon : (pid bg_proc_channel bg_rsp_channel : ℕ) → Daemon
new_daemon pid bg_proc_channel bg_rsp_channel = record {
  pid = pid;
  drive_mgr = [];
  bg_proc_tx = some bg_proc_channel;
  bg_proc_rx = some bg_proc_channel;
  bg_rsp_tx = some bg_rsp_channel;
  bg_rsp_rx = some bg_rsp_channel;
  ipc_server = none;
  ipc_server_handle = none;
  bg_proc = none;
  bg_proc_handle = none;
  bg_listener_handle = none;
  bg_proc_shutdown = false;
  bg_proc_abort = none;
  ipc_server_abort = none;
  bg_listener_abort = none;
}

-- `unwrap`
abbrev pub unwrap {ℓ} : {A : Type ℓ} → Option A → Result A
unwrap none = panic
unwrap (some a) = ok a

-- `assert!`
abbrev pub assert : Bool → Result (Unit {0})
assert true = ok tt
assert false = panic

-- Each of these takes a handle out.
unfoldable pub take_bg_listener_handle : Daemon → Result (ℕ × Daemon)
take_bg_listener_handle d =
    unwrap d.bg_listener_handle >>= λ h. ok (h, record d { bg_listener_handle = none })

unfoldable pub take_bg_proc_handle : Daemon → Result (ℕ × Daemon)
take_bg_proc_handle d = unwrap d.bg_proc_handle >>= λ h. ok (h, record d { bg_proc_handle = none })

unfoldable pub take_ipc_server_handle_ref : Daemon → Result (ℕ × Daemon)
take_ipc_server_handle_ref d =
    unwrap d.ipc_server_handle >>= λ h. ok (h, record d { ipc_server_handle = none })

-- `create_ipc_server`: the receiver of the responses, and the daemon.
unfoldable pub create_ipc_server : Daemon → Result (ℕ × Daemon)
create_ipc_server d =
    assert (is_none d.ipc_server)
    >> (unwrap d.bg_proc_tx >>= λ bg_proc_tx. unwrap d.bg_rsp_tx >>= λ bg_rsp_tx.
        unwrap d.bg_rsp_rx >>= λ bg_rsp_rx. ok (
          bg_rsp_rx,
          record d {
            bg_rsp_rx = none;
            ipc_server = some (new_ipc_server d.pid bg_proc_tx bg_rsp_tx);
          },
        ))

abbrev ipc_started :
    (bg_listener ipc_server : ℕ) → Daemon → Result (Unit {0}) × IpcServer → Result Daemon
ipc_started bg_listener ipc_task d (ok _, server) = ok (record d {
  ipc_server = some server;
  bg_listener_abort = some bg_listener;
  ipc_server_abort = some ipc_task;
  bg_listener_handle = some bg_listener;
  ipc_server_handle = some ipc_task;
})
ipc_started bg_listener ipc_task d (err e, server) = err e
ipc_started bg_listener ipc_task d (panic, server) = panic

-- `start_ipc_server`, with the tasks that it spawns and the answer of `bind`
unfoldable pub start_ipc_server :
    (bg_listener ipc_task : ℕ) → Option String → Daemon → Result Daemon
start_ipc_server bg_listener ipc_task bind d =
    assert (is_some d.ipc_server)
    >> (unwrap d.ipc_server >>= λ server. ipc_started bg_listener ipc_task d (start bind server))

-- `create_bg_proc`
unfoldable pub create_bg_proc : Daemon → Result Daemon
create_bg_proc d =
    assert (is_none d.bg_proc)
    >> (unwrap d.bg_proc_rx >>= λ bg_proc_rx. unwrap d.bg_proc_tx >>= λ bg_proc_tx.
        ok (record d { bg_proc_rx = none; bg_proc = some bg_proc_rx }))

-- `start_bg_proc`, with the task that it spawns
unfoldable pub start_bg_proc : ℕ → Daemon → Result Daemon
start_bg_proc task d =
    assert (is_some d.bg_proc)
    >> (unwrap d.bg_proc >>= λ bg_proc.
        ok (record d { bg_proc_abort = some task; bg_proc_handle = some task }))

-- The tasks that a start spawns.
pub record Tasks : Type 0 where
  pub bg_proc : ℕ
  pub bg_listener : ℕ
  pub ipc_server : ℕ

-- From the daemon's creation to the taking of the handles in `async_main` of src/bin/server/main.rs: the
-- handles, as tasks, and the daemon.
unfoldable pub start_threads : Option String → Tasks → Daemon → Result (Tasks × Daemon)
start_threads bind tasks d0 = create_bg_proc d0 >>= λ d1. create_ipc_server d1 >>= λ p.
    start_bg_proc tasks.bg_proc p.1 >>= λ d3.
    start_ipc_server tasks.bg_listener tasks.ipc_server bind d3 >>= λ d4.
    take_bg_proc_handle d4 >>= λ bg_proc. take_ipc_server_handle_ref bg_proc.1 >>= λ ipc_server.
    take_bg_listener_handle ipc_server.1 >>= λ bg_listener. ok (
      record { bg_proc = bg_proc.0; bg_listener = bg_listener.0; ipc_server = ipc_server.0 },
      bg_listener.1,
    )
