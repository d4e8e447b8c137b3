-- ===== src/Bg/Responses.antt =====
-- `Display` of `OpResponse` and the response that an operation starts with, of
-- src/bin/server/bg.rs.
use rs1541fs.Prelude.{
  ℕ, ◌+◌, String, ◌<+>◌, List, [], ◌∷◌, Option, none, some, ◌⊎◌, inl, inr, length, to_string,
}
use rs1541fs.Error.{Error, display}
use rs1541fs.Rs1541.{CbmStatus, CbmDeviceInfo, CbmDirListing}
use rs1541fs.Bg.{OpResponseType, OpResponse, Operation, from_op_type}

-- " (with stream)" for a response that carries one.
abbrev stream_text : Option ℕ → String
stream_text none = ""
stream_text (some _) = " (with stream)"

-- The parameters are the `Debug` text of a duration, rs1541's count of a listing's files, and its
-- text of a device.
module _ (debug_duration : ℕ → String) (num_files : CbmDirListing → ℕ)
    (info_text : CbmDeviceInfo → String) where
  -- The line for each listing, numbered from `drive_num`.
  unfoldable pub display_listings : ℕ → List CbmDirListing → String
  display_listings drive_num [] = ""
  display_listings drive_num (listing ∷ rest) =
      "Drive "
      <+> to_string drive_num
      <+> ": "
      <+> to_string (num_files listing)
      <+> " files\n"
      <+> display_listings (drive_num + 1) rest

  unfoldable pub display_op_response_type : OpResponseType → String
  unfolding display_listings
  display_op_response_type OpResponseType.bus_reset = "Bus Reset"
  display_op_response_type OpResponseType.mount = "Mount"
  display_op_response_type OpResponseType.unmount = "Unmount"
  display_op_response_type (OpResponseType.read_directory _ listings) =
      "Read Directory\n" <+> display_listings 0 listings
  display_op_response_type (OpResponseType.read_file _ _ _ status contents) =
      "Read File - "
      <+> to_string (length contents)
      <+> " bytes read, status: "
      <+> status.to_string
  display_op_response_type (OpResponseType.write_file device path status bytes_written) =
      "Write File "
      <+> to_string device
      <+> " "
      <+> path
      <+> " - "
      <+> to_string bytes_written
      <+> " bytes written, status: "
      <+> status.to_string
  display_op_response_type (OpResponseType.init_drive status) =
      "Init Drive - status: " <+> status.to_string
  display_op_response_type (OpResponseType.identify info) =
      "Identify - device info: " <+> info_text info
  display_op_response_type (OpResponseType.get_status status) = "Get Status - " <+> status.to_string
  display_op_response_type (OpResponseType.read_file_cache _ _ _ status contents) =
      "Read Cache File - "
      <+> to_string (length contents)
      <+> " bytes read, status: "
      <+> status.to_string
  display_op_response_type (OpResponseType.cancel_device_cache device) =
      "Cancel Device Cache " <+> to_string device

  abbrev rsp_text : OpResponseType ⊎ Error → String
  rsp_text (inl response_type) = display_op_response_type response_type
  rsp_text (inr e) = "Error: " <+> display debug_duration e

  -- `impl Display for OpResponse`
  unfoldable pub display_op_response : OpResponse → String
  unfolding display_op_response_type
  display_op_response r = rsp_text r.rsp <+> stream_text r.stream

-- `impl From<Operation> for OpResponse`, with rs1541's default status and device information.
unfoldable pub from_operation : CbmStatus → CbmDeviceInfo → Operation → OpResponse
from_operation status info op = record {
  rsp = inl (from_op_type status info op.op_type);
  stream = op.stream;
}
