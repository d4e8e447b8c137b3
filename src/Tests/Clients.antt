-- ===== src/Tests/Clients.antt =====
-- Requests of a client.
use rs1541fs.Prelude.{false, ◌≡◌, refl, some, get_elem?, to_string}
use rs1541fs.Error.{ok}
use rs1541fs.Bg.{OpResponseType, new_operation, set_stream}
use rs1541fs.Validate.{
  validate_mount_request, validate_mountpoint, absolute_path, check_path, has_write_permission,
}
use rs1541fs.Validate.Accepted.{IsMountable, validate_mount_request-IsMountable}
use rs1541fs.Ipc
use rs1541fs.Ipc.{identify, handling, handle_client_request}
use rs1541fs.Ipc.Answers.{
  handle, IsHandled, handle_client_request-IsHandled, Answers, handle_client_request-Answers,
}
use rs1541fs.Tests.Fixtures.{host, mountpoint, device_info, identify_8}

accepted : validate_mount_request host "/mnt/cbm" 8 ≡ ok "/mnt/cbm"
unfolding validate_mount_request validate_mountpoint absolute_path check_path has_write_permission
accepted = refl

validate_mount_request-IsMountable_example : (mountpoint ≡ mountpoint) × IsMountable host mountpoint
validate_mount_request-IsMountable_example =
    validate_mount_request-IsMountable host mountpoint mountpoint 8 accepted

handle_client_request-IsHandled_example :
    IsHandled host 10 3 4
      (Ipc.mount mountpoint 8 false false)
      (handle host 10 3 4 (Ipc.mount mountpoint 8 false false))
handle_client_request-IsHandled_example =
    handle_client_request-IsHandled host 10 3 4 (Ipc.mount mountpoint 8 false false)

pub queued_identify : get_elem? (handle host 10 3 4 (identify 8)).operations 0 ≡ some identify_8
unfolding handle_client_request handling new_operation set_stream
queued_identify = refl

handle_client_request-Answers_example :
    Answers host 10 3 4 to_string identify_8 (ok (OpResponseType.identify device_info))
handle_client_request-Answers_example =
    handle_client_request-Answers host 10 3 4 to_string (identify 8) identify_8
      (ok (OpResponseType.identify device_info)) queued_identify (λ e. cc e)
